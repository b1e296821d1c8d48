-- ===== src/Tags/Walk/Search.antt =====
-- A lookup of c/src/tagcache.c against a search of the symbols that its cache holds in the end.
use cmee1y1_clients.Base.{
  ℕ, zero, suc, ◌+◌, ◌-◌, ◌≤◌, ◌<◌, ◌≡◌, ◌≢◌, refl, ap, sym, ◌∙◌, subst, Option, none, some, List,
  get_or, set, inl, inr, Bool-cases, Result, ok, err, arith, eq_bytes, get_or-set_ne,
}
use mathlib.Core.Path.{subst⁻¹}
use cmee1y1_clients.State.{SymbolInfo, TagCache, Client, Env, continue}
use cmee1y1_clients.Tags.{TagDb}
use cmee1y1_clients.Tags.Cache.{blank_symbol}
use cmee1y1_clients.Tags.Walk.{scan_names, append_at, cache_at, fetch, look_from, turn}
use cmee1y1_clients.Tags.Walk.Runs.{
  IsWalkable, IsNext, append_at-IsNext, append_at-next, Walks, exhausted, refused, found, further,
  Fetched, turn-Fetched,
}

-- The entries before an index do not see what is stored there.
scan_names-set :
    (name : List ℕ) (syms : List SymbolInfo) (j : ℕ) (s : SymbolInfo) (i n : ℕ)
    → i + n ≤ j
    → scan_names name (set syms j s) i n ≡ scan_names name syms i n
unfolding scan_names
scan_names-set name syms j s i zero h = refl
scan_names-set name syms j s i (suc n) h =
    let here : get_or (set syms j s) i blank_symbol ≡ get_or syms i blank_symbol =
      get_or-set_ne syms j i s blank_symbol (λ e. omega (arith, e, h)) in
    let there = scan_names-set name syms j s (i + 1) n (omega arith) in rw (here, there) refl

-- A search that finds nothing in all entries but the last is one of the last.
scan_names_last :
    (name : List ℕ) (syms : List SymbolInfo) (i m j : ℕ)
    → i + m ≡ j
    → scan_names name syms i m ≡ none
    → scan_names name syms i (suc m) ≡ scan_names name syms j 1
unfolding scan_names
scan_names_last name syms i zero j e h =
    let same : i ≡ j = omega (arith, e) in ap (λ (x : ℕ). scan_names name syms x 1) same
scan_names_last name syms i (suc m) j e h =
    elim (Bool-cases (eq_bytes (get_or syms i blank_symbol).name name)) [
      | inl same ↦ absurd (some-none (rw same at h))
      | inr differs ↦
          rw differs (scan_names_last name syms (i + 1) m j (omega (arith, e)) (rw differs at h))
    ]
  where
    some-none : {x : SymbolInfo} → some x ≢ none
    some-none q = cc

-- A result as what a search returns.
abbrev pub to_option {ℓ} : {A : Type ℓ} → Result A → Option A
to_option (ok a) = some a
to_option (err e) = none

-- The search of all the symbols that a cache knows.
abbrev pub search : List ℕ → TagCache → Option SymbolInfo
search name k = scan_names name k.symbols 0 k.known_count

-- What is not among the symbols known is found, if at all, in the one appended.
search-append :
    (name : List ℕ) (k : TagCache) (s : SymbolInfo)
    → IsWalkable k
    → k.known_count < k.total_count
    → search name k ≡ none
    → let l = append_at k.known_count s k in
      search name l ≡ scan_names name l.symbols k.known_count (l.known_count - k.known_count)
search-append name k s h room missing =
    let one : k.known_count + 1 - k.known_count ≡ 1 = omega arith in
    let before = scan_names-set name k.symbols k.known_count s 0 k.known_count (omega arith) in
    let next : k.known_count + 1 ≡ suc k.known_count = omega arith in
    rw (append_at-next k s h.whole room h.memory, one, next)
      (scan_names_last name (set k.symbols k.known_count s) 0 k.known_count k.known_count
        (omega arith) (before ∙ missing))

module _ {W : Type 0} (env : Env W) (db : TagDb) (i : ℕ) (name : List ℕ) where
  abbrev Looked : ℕ → Client W × Result (Option SymbolInfo) → Type 0
  Looked idx (d, ok o) =
      o ≡ scan_names name (cache_at i d).symbols idx ((cache_at i d).known_count - idx)
  Looked idx (d, err e) = Unit

  turn-Looked : (c : Client W) → Looked (cache_at i c).known_count (turn env db i name c)
  unfolding turn look_from
  turn-Looked c = after (fetch env db i (cache_at i c).known_count c)
    where
      after :
          (r : Client W × Result (Unit {0}))
          → Looked
              (cache_at i c).known_count
              (continue (λ u. look_from env i name (cache_at i c).known_count) r)
      after (d, ok u) = refl
      after (d, err e) = tt

  -- What a lookup leaves: a cache that is whole, of a table of the same size, in which a search
  -- answers what the lookup did.
  pub record Searched (c : Client W) (r : Client W × Result SymbolInfo) : Type 0 where
    pub walkable : IsWalkable (cache_at i r.0)
    pub total : (cache_at i r.0).total_count ≡ (cache_at i c).total_count
    pub answer : search name (cache_at i r.0) ≡ to_option r.1

  -- A turn's cache, and the search of it.
  turn_lem :
      (c : Client W) (o : Option SymbolInfo) (d : Client W)
      → IsWalkable (cache_at i c)
      → (cache_at i c).known_count < (cache_at i c).total_count
      → search name (cache_at i c) ≡ none
      → turn env db i name c ≡ (d, ok o)
      → IsNext (cache_at i c) (cache_at i d) × (search name (cache_at i d) ≡ o)
  turn_lem c o d h room missing e =
      let (s, appended) =
        subst (λ r. Fetched env db i (cache_at i c) r) e (turn-Fetched env db i name c) in
      let looked = subst (λ r. Looked (cache_at i c).known_count r) e (turn-Looked c) in
      (
        subst⁻¹ (IsNext (cache_at i c)) appended (append_at-IsNext (cache_at i c) s h room),
        subst⁻¹
              (λ l.
                search name l
                ≡ scan_names name l.symbols (cache_at i c).known_count
                    (l.known_count - (cache_at i c).known_count))
              appended (search-append name (cache_at i c) s h room missing)
            ∙ sym looked,
      )

  -- A run's end, from a cache that does not know the name.
  pub Walks-Searched :
      (c : Client W) (r : Client W × Result SymbolInfo)
      → Walks env db i name c r
      → IsWalkable (cache_at i c)
      → search name (cache_at i c) ≡ none
      → Searched c r
  Walks-Searched c r (exhausted c' over) h missing = record {
    walkable = h;
    total = refl;
    answer = missing;
  }
  Walks-Searched c r (refused c' d e room t) h missing =
      let kept : cache_at i d ≡ cache_at i c =
        subst (λ x. Fetched env db i (cache_at i c) x) t (turn-Fetched env db i name c) in
      record {
        walkable = subst⁻¹ IsWalkable kept h;
        total = ap (λ (k : TagCache). k.total_count) kept;
        answer = ap (search name) kept ∙ missing;
      }
  Walks-Searched c r (found c' d s room t) h missing =
      let (next, answer) = turn_lem c (some s) d h room missing t in
      record { walkable = next.walkable; total = next.total; answer = answer }
  Walks-Searched c r (further c' d r' room t on) h missing =
      let (next, answer) = turn_lem c none d h room missing t in
      let rest = Walks-Searched d r on next.walkable answer in
      record { walkable = rest.walkable; total = rest.total ∙ next.total; answer = rest.answer }
