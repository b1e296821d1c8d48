-- ===== src/Tags/Walk/Runs.antt =====
-- The loops of c/src/tagcache.c that walk a controller's table end, and how.
use cmee1y1_clients.Base.{
  ℕ, zero, suc, ◌+◌, ◌-◌, ◌%◌, ◌^◌, ◌≤◌, ◌<◌, ◌≡◌, ◌≢◌, refl, ap, sym, ◌∙◌, true, ◌&&◌, Option,
  none, some, List, [], ◌∷◌, length, get_or, set, ltb, ◌==◌, inl, inr, Bool-cases, ℤ, Result, ok,
  err, arith, length-set,
}
use mathlib.Core.Path.{subst⁻¹}
use cmee1y1_clients.State.{SymbolInfo, TagCache, Client, Env, continue}
use cmee1y1_clients.State.Code
use cmee1y1_clients.Call.{bp_client_call}
use cmee1y1_clients.Conn.Frame.{bp_client_call-Keeps}
use cmee1y1_clients.Tags.{TagDb}
use cmee1y1_clients.Tags.Cache.{zeroed_cache, update}
use cmee1y1_clients.Tags.Symbols.{symbol_spec, bp_tagdb_symbol_at}
use cmee1y1_clients.Tags.Walk.{
  append_at, found_or, cache_at, store_symbol, fetch, look_from, turn, walk,
}

-- A cache is whole if its array has its capacity, it claims to know no more than that, and the
-- capacity is the size of the controller's table, unless there is no memory.
pub record IsWhole (k : TagCache) : Type 0 where
  pub array : length k.symbols ≡ k.cap_count
  pub known : k.known_count ≤ k.cap_count
  pub total : k.cap_count ≢ 0 → k.cap_count ≡ k.total_count
  pub word : k.cap_count < 2 ^ 16

pub get_or-update :
    (f : TagCache → TagCache) (xs : List TagCache) (i : ℕ) (d : TagCache)
    → f d ≡ d
    → get_or (update f xs i) i d ≡ f (get_or xs i d)
get_or-update f [] i d h = sym h
get_or-update f (x ∷ xs) zero d h = refl
get_or-update f (x ∷ xs) (suc i) d h = get_or-update f xs i d h

append_at-zeroed : (idx : ℕ) (s : SymbolInfo) → append_at idx s zeroed_cache ≡ zeroed_cache
unfolding append_at
append_at-zeroed idx s = elim (Bool-cases (idx == 0)) [
  | inl e ↦ rw (e, append_at) refl
  | inr e ↦ rw (e, append_at) refl
]

-- A cache that has room takes the symbol with the next index.
pub append_at-next :
    (k : TagCache) (s : SymbolInfo)
    → IsWhole k
    → k.known_count < k.total_count
    → k.cap_count ≢ 0
    → append_at k.known_count s k
      ≡ record k { symbols = set k.symbols k.known_count s; known_count = k.known_count + 1 }
unfolding append_at
append_at-next k s w room memory =
    let full : k.cap_count ≡ k.total_count = w.total memory in
    let below : k.cap_count < 2 ^ 16 = w.word in
    let fits : (k.known_count == k.known_count && ltb k.known_count k.cap_count) ≡ true =
      ground arith in
    let small : (k.known_count + 1) % 2 ^ 16 ≡ k.known_count + 1 = omega arith in
    rw (fits, append_at)
      (ap (λ (n : ℕ). record k { symbols = set k.symbols k.known_count s; known_count = n }) small)

-- A cache that a walk may go on with: whole, with memory.
pub record IsWalkable (k : TagCache) : Type 0 where
  pub whole : IsWhole k
  pub memory : k.cap_count ≢ 0

pub record IsNext (k l : TagCache) : Type 0 where
  pub walkable : IsWalkable l
  pub known : l.known_count ≡ k.known_count + 1
  pub total : l.total_count ≡ k.total_count

pub append_at-IsNext :
    (k : TagCache) (s : SymbolInfo)
    → IsWalkable k
    → k.known_count < k.total_count
    → IsNext k (append_at k.known_count s k)
append_at-IsNext k s h room =
    let w = h.whole in
    let full : k.cap_count ≡ k.total_count = w.total h.memory in
    rw (append_at-next k s w room h.memory) (record {
      walkable = record {
        whole = record {
          array = length-set k.symbols k.known_count s ∙ w.array;
          known = omega arith;
          total = w.total;
          word = w.word;
        };
        memory = h.memory;
      };
      known = refl;
      total = refl;
    })

module _ {W : Type 0} (env : Env W) (db : TagDb) (i : ℕ) where
  -- How a turn changes the cache: it takes the next symbol, or the call failed and it is kept.
  abbrev pub Fetched {ℓ} : {A : Type ℓ} → TagCache → Client W × Result A → Type 0
  Fetched k (d, ok a) = (s : SymbolInfo) × (cache_at i d ≡ append_at k.known_count s k)
  Fetched k (d, err e) = cache_at i d ≡ k

  pub fetch-Fetched :
      (c : Client W) → Fetched (cache_at i c) (fetch env db i (cache_at i c).known_count c)
  unfolding fetch store_symbol bp_tagdb_symbol_at
  fetch-Fetched c =
      let spec = symbol_spec db.handle (cache_at i c).known_count in
      let same = (bp_client_call-Keeps env spec c).tag_caches in
      after (bp_client_call env spec c) same
    where
      after :
          (r : Client W × Result SymbolInfo)
          → r.0.tag_caches ≡ c.tag_caches
          → Fetched (cache_at i c) (continue (store_symbol env i (cache_at i c).known_count) r)
      after (d, ok s) same =
          let idx = (cache_at i c).known_count in
          (
            s,
            ap (λ cs. get_or (update (append_at idx s) cs i) i zeroed_cache) same
                ∙ get_or-update (append_at idx s) c.tag_caches i zeroed_cache
                    (append_at-zeroed idx s),
          )
      after (d, err e) same = ap (λ cs. get_or cs i zeroed_cache) same

  pub turn-Fetched : (name : List ℕ) (c : Client W) → Fetched (cache_at i c) (turn env db i name c)
  unfolding turn look_from
  turn-Fetched name c = after (fetch env db i (cache_at i c).known_count c) (fetch-Fetched c)
    where
      after :
          (r : Client W × Result (Unit {0}))
          → Fetched (cache_at i c) r
          → Fetched
              (cache_at i c)
              (continue (λ u. look_from env i name (cache_at i c).known_count) r)
      after (d, ok u) f = f
      after (d, err e) f = f

  -- A run of the lookup's loop from a client to the client and the result that it ends with: every
  -- turn but the last asks for one symbol that is not the one looked for.
  pub data Walks (name : List ℕ) : Client W → Client W × Result SymbolInfo → Type 0 where
    exhausted :
        (c : Client W)
        → (cache_at i c).total_count ≤ (cache_at i c).known_count
        → Walks name c (c, err Code.param_range)
    refused :
        (c d : Client W) (e : ℤ)
        → (cache_at i c).known_count < (cache_at i c).total_count
        → turn env db i name c ≡ (d, err e)
        → Walks name c (d, err e)
    found :
        (c d : Client W) (s : SymbolInfo)
        → (cache_at i c).known_count < (cache_at i c).total_count
        → turn env db i name c ≡ (d, ok (some s))
        → Walks name c (d, ok s)
    further :
        (c d : Client W) (r : Client W × Result SymbolInfo)
        → (cache_at i c).known_count < (cache_at i c).total_count
        → turn env db i name c ≡ (d, ok none)
        → Walks name d r
        → Walks name c r

  -- The loop of a lookup ends: in a cache with memory that is whole, one turn more than there are
  -- symbols unknown is enough for it to run to one of its exits.
  pub walk-Walks :
      (name : List ℕ) (n : ℕ) (c : Client W)
      → IsWalkable (cache_at i c)
      → (cache_at i c).total_count - (cache_at i c).known_count < n
      → Walks name c (walk env n db i name c)
  unfolding walk
  walk-Walks name zero c h enough = elim enough [ ]
  walk-Walks name (suc n) c h enough =
      elim (Bool-cases (ltb (cache_at i c).known_count (cache_at i c).total_count)) [
        | inr over ↦ rw (over, walk) (exhausted c (ground (arith, over)))
        | inl more ↦
            rw (more, walk)
              (after (λ d. walk-Walks name n d) (turn env db i name c) refl (turn-Fetched name c)
                (ground (arith, more)))
      ]
    where
      after :
          ((d : Client W)
            → IsWalkable (cache_at i d)
            → (cache_at i d).total_count - (cache_at i d).known_count < n
            → Walks name d (walk env n db i name d))
          → (r : Client W × Result (Option SymbolInfo)) → turn env db i name c ≡ r
          → Fetched (cache_at i c) r
          → (cache_at i c).known_count < (cache_at i c).total_count
          → Walks name c (continue (found_or (walk env n db i name)) r)
      after again (d, err e) t f more = refused c d e more t
      after again (d, ok (some s)) t f more = found c d s more t
      after again (d, ok none) t (s, e) more =
          let next = subst⁻¹ (IsNext (cache_at i c)) e (append_at-IsNext (cache_at i c) s h more) in
          let known = next.known in
          let total = next.total in
          further c d _ more t (again d next.walkable (omega (arith, known, total, enough)))
