-- ===== src/Tags/Walk/Told.antt =====
-- A lookup that fails says so by a code (c/src/tagcache.c).
use cmee1y1_clients.Base.{
  ℕ, zero, suc, ◌+◌, Bool, true, false, Option, none, some, List, ltb, ◌==◌, inl, inr, Bool-cases,
  Result, ok, err, if◌then◌else◌,
}
use cmee1y1_clients.State.{TagCache, Client, Env, M, continue, ◌>>=◌}
use cmee1y1_clients.Call.{bp_client_call}
use cmee1y1_clients.Call.Slots.{Locks}
use cmee1y1_clients.Call.Outcome.{IsTold, bp_client_call-IsTold}
use cmee1y1_clients.Tags.{TagDb}
use cmee1y1_clients.Tags.Cache.{bp_tag_cache_find_or_alloc}
use cmee1y1_clients.Tags.Symbols.{symbol_spec, bp_tagdb_symbol_at}
use cmee1y1_clients.Tags.Walk.{
  found_or, cache_at, store_symbol, fetch, look_from, turn, walk, lookup_in, in_cache,
  bp_tagdb_lookup_symbol,
}

-- An operation whose failures have codes other than `BP_OK`.
abbrev pub Tells {ℓ} : {W : Type 0} {A : Type ℓ} → M W A → Type 0
Tells {W} m = (c : Client W) → IsTold (m c).1

pub bind-Tells {ℓ κ} :
    {W : Type 0} {A : Type ℓ} {B : Type κ} (m : M W A) (f : A → M W B)
    → Tells m
    → ((a : A) → Tells (f a))
    → Tells (m >>= f)
bind-Tells {W} {A} m f k l c = after (m c) (k c)
  where
    after : (r : Client W × Result A) → IsTold r.1 → IsTold (continue f r).1
    after (d, ok a) t = l a d
    after (d, err e) t = t

pub if-Tells {ℓ} :
    {W : Type 0} {A : Type ℓ} (b : Bool) (x y : Client W × Result A)
    → IsTold x.1
    → IsTold y.1
    → IsTold (if b then x else y).1
if-Tells true x y s t = s
if-Tells false x y s t = t

found_or-Tells {ℓ} :
    {W : Type 0} {A : Type ℓ} (m : M W A) (o : Option A) → Tells m → Tells (found_or m o)
found_or-Tells m none k c = k c
found_or-Tells m (some a) k c = tt

module _ {W : Type 0} (env : Env W) (locks : Locks env) (db : TagDb) where
  fetch-Tells : (i idx : ℕ) → Tells (fetch env db i idx)
  unfolding fetch bp_tagdb_symbol_at store_symbol
  fetch-Tells i idx =
      bind-Tells (bp_client_call env (symbol_spec db.handle idx)) (store_symbol env i idx)
        (λ c. bp_client_call-IsTold env (symbol_spec db.handle idx) c locks) (λ s c. tt)

  turn-Tells : (i : ℕ) (name : List ℕ) → Tells (turn env db i name)
  unfolding turn look_from
  turn-Tells i name c =
      bind-Tells (fetch env db i (cache_at i c).known_count)
        (λ u. look_from env i name (cache_at i c).known_count)
        (fetch-Tells i (cache_at i c).known_count) (λ u d. tt) c

  walk-Tells : (n i : ℕ) (name : List ℕ) → Tells (walk env n db i name)
  unfolding walk
  walk-Tells zero i name c = λ e. cc
  walk-Tells (suc n) i name c =
      elim (Bool-cases (ltb (cache_at i c).known_count (cache_at i c).total_count)) [
        | inl more ↦
            rw (more, walk)
              (bind-Tells (turn env db i name) (found_or (walk env n db i name)) (turn-Tells i name)
                (λ o. found_or-Tells (walk env n db i name) o (walk-Tells n i name)) c)
        | inr over ↦ rw (over, walk) (λ e. cc)
      ]

  lookup_in-Tells : (i : ℕ) (name : List ℕ) → Tells (lookup_in env db i name)
  unfolding lookup_in
  lookup_in-Tells i name c = elim (Bool-cases ((cache_at i c).cap_count == 0)) [
    | inl empty ↦ rw (empty, lookup_in) (λ e. cc)
    | inr memory ↦
        rw (memory, lookup_in)
          (found_or-Tells (walk env ((cache_at i c).total_count + 1) db i name) _
            (walk-Tells _ i name) c)
  ]

  -- A lookup that fails returns a code that is not `BP_OK`.
  pub lookup_symbol-Tells : (name : List ℕ) → Tells (bp_tagdb_lookup_symbol env (some db) name)
  unfolding bp_tagdb_lookup_symbol
  lookup_symbol-Tells name c = at (bp_tag_cache_find_or_alloc db.path c.tag_caches)
    where
      at : (r : List TagCache × Option ℕ) → IsTold (in_cache (λ i. lookup_in env db i name) r c).1
      at (cs, none) = λ e. cc
      at (cs, some i) = lookup_in-Tells i name _
