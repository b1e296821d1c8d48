-- ===== src/Tags/Walk/Again.antt =====
-- A lookup that is repeated (c/src/tagcache.c): the cache of a path is found again, with what was
-- learnt.
use cmee1y1_clients.Base.{
  ◌+◌, ℤ, ℕ, zero, suc, ◌≡◌, ◌≢◌, refl, ap, sym, ◌∙◌, subst, Bool, ◌&&◌, Option, none, some, List,
  [], ◌∷◌, length, set, ltb, ◌==◌, if◌then◌else◌, inl, inr, Bool-cases, Result, ok, err, arith,
  eq_bytes_refl,
}
use mathlib.Core.Option
use cmee1y1_clients.State.{SymbolInfo, TagCache, Client, Env, M, continue, ◌>>=◌}
use cmee1y1_clients.Call.{bp_client_call}
use cmee1y1_clients.Conn.Frame.{bp_client_call-Keeps}
use cmee1y1_clients.Tags.{TagDb}
use cmee1y1_clients.Tags.Cache.{
  is_of, fresh_cache, update, find_locked, alloc_locked, find_or_alloc_at,
  bp_tag_cache_find_or_alloc,
}
use cmee1y1_clients.Tags.Symbols.{bp_tagdb_symbol_at, symbol_spec}
use cmee1y1_clients.Tags.Walk.{
  append_at, found_or, cache_at, store_symbol, fetch, look_from, turn, walk, lookup_in, in_cache,
  bp_tagdb_lookup_symbol,
}
use cmee1y1_clients.Tags.Walk.Whole.{AllWhole, find_or_alloc-AllWhole}
use cmee1y1_clients.Tags.Walk.Lookup.{Answered, lookup_in-Answered, lookup_in_known}

append_at-is_of :
    (path : List ℕ) (idx : ℕ) (s : SymbolInfo) (k : TagCache)
    → is_of path (append_at idx s k) ≡ is_of path k
unfolding append_at
append_at-is_of path idx s k =
    elim (Bool-cases (idx == k.known_count && ltb k.known_count k.cap_count)) [
      | inl next ↦ rw (next, append_at) refl
      | inr other ↦ rw (other, append_at) refl
    ]

find_locked-update :
    (path : List ℕ) (f : TagCache → TagCache) (cs : List TagCache) (i : ℕ)
    → ((k : TagCache) → is_of path (f k) ≡ is_of path k)
    → find_locked path (update f cs i) ≡ find_locked path cs
unfolding find_locked
find_locked-update path f [] i h = refl
find_locked-update path f (c ∷ cs) zero h =
    ap (λ (b : Bool). if b then some 0 else Option.map suc (find_locked path cs)) (h c)
find_locked-update path f (c ∷ cs) (suc i) h =
    ap (λ (o : Option ℕ). if is_of path c then some 0 else Option.map suc o)
      (find_locked-update path f cs i h)

-- A fresh cache in the first unused place is the one that is found.
find_locked-fresh :
    (path : List ℕ) (cs : List TagCache) (i : ℕ)
    → find_locked path cs ≡ none
    → alloc_locked cs ≡ some i
    → find_locked path (set cs i (fresh_cache path)) ≡ some i
unfolding find_locked alloc_locked
find_locked-fresh path [] i none_found free = cc
find_locked-fresh path (c ∷ cs) zero none_found free = rw (eq_bytes_refl path) refl
find_locked-fresh path (c ∷ cs) (suc i) none_found free =
    ground (arith, none_found, free, find_locked-fresh path cs i)

-- A path whose cache was found or allocated has it.
find_or_alloc_at-found :
    (path : List ℕ) (cs ds : List TagCache) (found free : Option ℕ) (i : ℕ)
    → find_locked path cs ≡ found
    → alloc_locked cs ≡ free
    → find_or_alloc_at path cs found free ≡ (ds, some i)
    → find_locked path ds ≡ some i
unfolding find_or_alloc_at
find_or_alloc_at-found path cs ds (some j) free i f a e =
    ap (find_locked path) (sym (ap (λ r. r.0) e)) ∙ f ∙ ap (λ r. r.1) e
find_or_alloc_at-found path cs ds none none i f a e = cc
find_or_alloc_at-found path cs ds none (some j) i f a e =
    ap (find_locked path) (sym (ap (λ r. r.0) e))
    ∙ find_locked-fresh path cs j f a
    ∙ ap (λ r. r.1) e

find_or_alloc_again :
    (path : List ℕ) (cs ds es : List TagCache) (i : ℕ)
    → bp_tag_cache_find_or_alloc path cs ≡ (ds, some i)
    → find_locked path es ≡ find_locked path ds
    → bp_tag_cache_find_or_alloc path es ≡ (es, some i)
unfolding bp_tag_cache_find_or_alloc find_or_alloc_at
find_or_alloc_again path cs ds es i e same = elim (Bool-cases (ltb 254 (length path))) [
  | inl long ↦ absurd (none-some (ap (λ r. r.1) (rw long at e)))
  | inr fits ↦
      let there = find_or_alloc_at-found path cs ds _ _ i refl refl (rw fits at e) in
      rw (fits, same, there) refl
]
  where
    none-some : none ≢ some i
    none-some q = cc

-- An operation that changes no cache's path, and gives none away.
abbrev KeepsPath {ℓ} : {W : Type 0} {A : Type ℓ} → List ℕ → M W A → Type 0
KeepsPath {W} path m =
    (c : Client W) → find_locked path (m c).0.tag_caches ≡ find_locked path c.tag_caches

bind-KeepsPath {ℓ κ} :
    {W : Type 0} {A : Type ℓ} {B : Type κ} (path : List ℕ) (m : M W A) (f : A → M W B)
    → KeepsPath path m
    → ((a : A) → KeepsPath path (f a))
    → KeepsPath path (m >>= f)
bind-KeepsPath {W} {A} path m f k l c = after (m c) (k c)
  where
    after :
        (r : Client W × Result A)
        → find_locked path r.0.tag_caches ≡ find_locked path c.tag_caches
        → find_locked path (continue f r).0.tag_caches ≡ find_locked path c.tag_caches
    after (d, ok a) e = l a d ∙ e
    after (d, err x) e = e

found_or-KeepsPath {ℓ} :
    {W : Type 0} {A : Type ℓ} (path : List ℕ) (m : M W A) (o : Option A)
    → KeepsPath path m
    → KeepsPath path (found_or m o)
found_or-KeepsPath path m none k c = k c
found_or-KeepsPath path m (some a) k c = refl

module _ {W : Type 0} (env : Env W) (db : TagDb) (path : List ℕ) where
  turn-KeepsPath : (i : ℕ) (name : List ℕ) → KeepsPath path (turn env db i name)
  unfolding turn fetch look_from bp_tagdb_symbol_at store_symbol
  turn-KeepsPath i name c =
      let idx = (cache_at i c).known_count in
      bind-KeepsPath path (fetch env db i idx) (λ u. look_from env i name idx)
        (bind-KeepsPath path (bp_client_call env (symbol_spec db.handle idx))
          (store_symbol env i idx)
          (λ d.
            ap (find_locked path)
              (bp_client_call-Keeps env (symbol_spec db.handle idx) d).tag_caches)
          (λ s d.
            find_locked-update path (append_at idx s) d.tag_caches i (append_at-is_of path idx s)))
        (λ u d. refl) c

  walk-KeepsPath : (n i : ℕ) (name : List ℕ) → KeepsPath path (walk env n db i name)
  unfolding walk
  walk-KeepsPath zero i name c = refl
  walk-KeepsPath (suc n) i name c =
      elim (Bool-cases (ltb (cache_at i c).known_count (cache_at i c).total_count)) [
        | inl more ↦
            rw (more, walk)
              (bind-KeepsPath path (turn env db i name) (found_or (walk env n db i name))
                (turn-KeepsPath i name)
                (λ o. found_or-KeepsPath path (walk env n db i name) o (walk-KeepsPath n i name)) c)
        | inr over ↦ rw (over, walk) refl
      ]

  lookup_in-KeepsPath : (i : ℕ) (name : List ℕ) → KeepsPath path (lookup_in env db i name)
  unfolding lookup_in
  lookup_in-KeepsPath i name c = elim (Bool-cases ((cache_at i c).cap_count == 0)) [
    | inl empty ↦ rw (empty, lookup_in) refl
    | inr memory ↦
        rw (memory, lookup_in)
          (found_or-KeepsPath path (walk env ((cache_at i c).total_count + 1) db i name) _
            (walk-KeepsPath _ i name) c)
  ]

module _ {W : Type 0} (env : Env W) (db : TagDb) where
  -- A lookup that found a symbol, in a client whose caches are whole, finds the same one when it is
  -- repeated at once, and the second time nothing is sent and nothing changes.
  pub lookup_symbol_again :
      (name : List ℕ) (c d : Client W) (s : SymbolInfo)
      → AllWhole c.tag_caches
      → bp_tagdb_lookup_symbol env (some db) name c ≡ (d, ok s)
      → bp_tagdb_lookup_symbol env (some db) name d ≡ (d, ok s)
  unfolding bp_tagdb_lookup_symbol
  lookup_symbol_again name c d s w e =
      at (bp_tag_cache_find_or_alloc db.path c.tag_caches) refl
        (find_or_alloc-AllWhole db.path c.tag_caches w) e
    where
      at :
          (r : List TagCache × Option ℕ)
          → bp_tag_cache_find_or_alloc db.path c.tag_caches ≡ r
          → AllWhole r.0
          → in_cache (λ i. lookup_in env db i name) r c ≡ (d, ok s)
          → in_cache
              (λ i. lookup_in env db i name)
              (bp_tag_cache_find_or_alloc db.path d.tag_caches)
              d
            ≡ (d, ok s)
      at (ds, none) f v e = absurd (err-ok (ap (λ r. r.1) e))
        where
          err-ok : {x : ℤ} → ◌≡◌ {A = Result SymbolInfo} (err x) (ok s) → ⊥
          err-ok q = cc
      at (ds, some i) f v e =
          let c1 : Client W = record c { tag_caches = ds } in
          let same =
            subst
              (λ (r : Client W × Result SymbolInfo).
                find_locked db.path r.0.tag_caches ≡ find_locked db.path ds)
              e (lookup_in-KeepsPath env db db.path i name c1) in
          let answered =
            subst (Answered env db i name c1) e (lookup_in-Answered env db i name c1 (v i)) in
          ap (λ (r : List TagCache × Option ℕ). in_cache (λ j. lookup_in env db j name) r d)
            (find_or_alloc_again db.path c.tag_caches ds d.tag_caches i f same)
          ∙ lookup_in_known env db i name d s answered.whole answered.answer
