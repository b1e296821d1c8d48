-- ===== src/Tags/Walk/Lookup.antt =====
-- What a lookup in one cache answers, and what a preload leaves (c/src/tagcache.c).
use cmee1y1_clients.Base.{
  ℕ, zero, suc, ◌+◌, ◌-◌, ◌<◌, ◌≡◌, ◌≢◌, refl, ap, sym, ◌∙◌, false, Option, none, some, List, ltb,
  ◌==◌, inl, inr, Bool-cases, Result, ok, err, arith,
}
use mathlib.Core.Path.{subst⁻¹}
use cmee1y1_clients.State.{SymbolInfo, TagCache, Client, Env, continue}
use cmee1y1_clients.State.Code
use cmee1y1_clients.Tags.{TagDb}
use cmee1y1_clients.Tags.Walk.{
  scan_names, found_or, cache_at, fetch, walk, lookup_in, fill_cache, preload_in,
}
use cmee1y1_clients.Tags.Walk.Runs.{
  IsWhole, IsWalkable, IsNext, append_at-IsNext, walk-Walks, Fetched, fetch-Fetched,
}
use cmee1y1_clients.Tags.Walk.Search.{to_option, search, Walks-Searched}

search_nothing : (name : List ℕ) (k : TagCache) → k.known_count ≡ 0 → search name k ≡ none
unfolding scan_names
search_nothing name k e = ap (scan_names name k.symbols 0) e

-- What a lookup answers if a search of the whole table gave this.
abbrev pub answer_of : Option SymbolInfo → Result SymbolInfo
answer_of none = err Code.param_range
answer_of (some s) = ok s

module _ {W : Type 0} (env : Env W) (db : TagDb) (i : ℕ) where
  -- What a lookup leaves and answers: the cache is whole, and a search of it answers the same.
  pub record Answered (name : List ℕ) (c : Client W) (r : Client W × Result SymbolInfo)
      : Type 0 where
    pub whole : IsWhole (cache_at i r.0)
    pub total : (cache_at i r.0).total_count ≡ (cache_at i c).total_count
    pub answer : search name (cache_at i r.0) ≡ to_option r.1

  pub lookup_in-Answered :
      (name : List ℕ) (c : Client W)
      → IsWhole (cache_at i c)
      → Answered name c (lookup_in env db i name c)
  unfolding lookup_in
  lookup_in-Answered name c w = elim (Bool-cases ((cache_at i c).cap_count == 0)) [
    | inl empty ↦
        let known = w.known in
        let nothing : (cache_at i c).known_count ≡ 0 = ground (arith, known, empty) in
        rw (empty, lookup_in)
          (record { whole = w; total = refl; answer = search_nothing name (cache_at i c) nothing })
    | inr memory ↦
        rw (memory, lookup_in)
          (after (search name (cache_at i c)) refl (λ e. ground (arith, memory, e)))
  ]
    where
      after :
          (o : Option SymbolInfo)
          → search name (cache_at i c) ≡ o
          → (cache_at i c).cap_count ≢ 0
          → Answered name c (found_or (walk env ((cache_at i c).total_count + 1) db i name) o c)
      after (some s) e memory = record { whole = w; total = refl; answer = e }
      after none e memory =
          let h : IsWalkable (cache_at i c) = record { whole = w; memory = memory } in
          let r =
            Walks-Searched env db i name c _
              (walk-Walks env db i name ((cache_at i c).total_count + 1) c h (omega arith)) h e in
          record { whole = r.walkable.whole; total = r.total; answer = r.answer }

  -- A symbol that the cache knows is answered from it: nothing is sent and nothing changes.
  pub lookup_in_known :
      (name : List ℕ) (c : Client W) (s : SymbolInfo)
      → IsWhole (cache_at i c)
      → search name (cache_at i c) ≡ some s
      → lookup_in env db i name c ≡ (c, ok s)
  unfolding lookup_in
  lookup_in_known name c s w known = elim (Bool-cases ((cache_at i c).cap_count == 0)) [
    | inl empty ↦
        let k = w.known in
        let nothing : (cache_at i c).known_count ≡ 0 = ground (arith, k, empty) in
        absurd (some-none (sym known ∙ search_nothing name (cache_at i c) nothing))
    | inr memory ↦ rw (memory, known, lookup_in) refl
  ]
    where
      some-none : {x : SymbolInfo} → some x ≢ none
      some-none q = cc

  -- How the loop of a preload ends: with the whole table, or where a call failed.
  abbrev pub Filled : Client W → Client W × Result (Unit {0}) → Type 0
  Filled c (d, ok u) =
      IsWalkable (cache_at i d)
      × ((cache_at i d).known_count ≡ (cache_at i c).total_count)
      × ((cache_at i d).total_count ≡ (cache_at i c).total_count)
  Filled c (d, err e) =
      IsWalkable (cache_at i d)
      × ((cache_at i d).total_count ≡ (cache_at i c).total_count)
      × ((b : Client W) × (fetch env db i (cache_at i b).known_count b ≡ (d, err e)))

  Filled-next :
      (c d : Client W) (r : Client W × Result (Unit {0}))
      → (cache_at i d).total_count ≡ (cache_at i c).total_count
      → Filled d r
      → Filled c r
  Filled-next c d (e, ok u) t (h, known, total) = (h, known ∙ t, total ∙ t)
  Filled-next c d (e, err x) t (h, total, failed) = (h, total ∙ t, failed)

  -- The loop of a preload ends, in a cache with memory that is whole, within one turn more than there
  -- are symbols unknown.
  fill_cache-Filled :
      (n : ℕ) (c : Client W)
      → IsWalkable (cache_at i c)
      → (cache_at i c).total_count - (cache_at i c).known_count < n
      → Filled c (fill_cache env n db i c)
  unfolding fill_cache
  fill_cache-Filled zero c h enough = elim enough [ ]
  fill_cache-Filled (suc n) c h enough =
      elim (Bool-cases (ltb (cache_at i c).known_count (cache_at i c).total_count)) [
        | inr over ↦
            let full = h.whole.total h.memory in
            let known = h.whole.known in
            rw (over, fill_cache) (h, ground (arith, over, full, known), refl)
        | inl more ↦
            rw (more, fill_cache)
              (after (λ d. fill_cache-Filled n d) (fetch env db i (cache_at i c).known_count c) refl
                (fetch-Fetched env db i c) (ground (arith, more)))
      ]
    where
      after :
          ((d : Client W)
            → IsWalkable (cache_at i d)
            → (cache_at i d).total_count - (cache_at i d).known_count < n
            → Filled d (fill_cache env n db i d))
          → (r : Client W × Result (Unit {0})) → fetch env db i (cache_at i c).known_count c ≡ r
          → Fetched env db i (cache_at i c) r
          → (cache_at i c).known_count < (cache_at i c).total_count
          → Filled c (continue (λ u. fill_cache env n db i) r)
      after again (d, err e) t f more =
          (subst⁻¹ IsWalkable f h, ap (λ (k : TagCache). k.total_count) f, (c, t))
      after again (d, ok u) t (s, e) more =
          let next = subst⁻¹ (IsNext (cache_at i c)) e (append_at-IsNext (cache_at i c) s h more) in
          let known = next.known in
          let total = next.total in
          Filled-next c d _ total (again d next.walkable (omega (arith, known, total, enough)))

  -- A preload of a whole cache with memory returns, having asked for all symbols of the table or the
  -- error of the first call that failed; the cache is whole then, and what was learnt before a
  -- failure is kept.
  pub preload_in-Filled :
      (c : Client W) → IsWalkable (cache_at i c) → Filled c (preload_in env db i c)
  unfolding preload_in
  preload_in-Filled c h =
      let m = h.memory in
      let memory : ((cache_at i c).cap_count == 0) ≡ false = ground (arith, m) in
      rw (memory, preload_in) (fill_cache-Filled ((cache_at i c).total_count + 1) c h (omega arith))
