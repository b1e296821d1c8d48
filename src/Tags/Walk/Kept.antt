-- ===== src/Tags/Walk/Kept.antt =====
-- Operations on a client keep its symbol caches whole (c/src/tagcache.c, and the build of
-- c/src/tagdb.c).
use cmee1y1_clients.Base.{
  Bool-cases, ◌==◌, inl, inr, ℕ, zero, suc, ◌+◌, ◌^◌, ◌<◌, Bool, true, false, Option, none, some,
  List, if◌then◌else◌, Result, ok, err,
}
use mathlib.Core.Path.{subst⁻¹}
use cmee1y1_clients.State.{TagCache, Client, Env, M, continue, ◌>>=◌}
use cmee1y1_clients.Call.{bp_client_call}
use cmee1y1_clients.Conn.Frame.{Keeps, bp_client_call-Keeps}
use cmee1y1_clients.Tags.{TagDb}
use cmee1y1_clients.Tags.Cache.{
  resized, bp_tag_cache_find_or_alloc, bp_tag_cache_invalidate, bp_tag_cache_free_all,
}
use cmee1y1_clients.Tags.Symbols.{
  bp_tagdb_symbol_at, symbol_spec, reset_on, bp_tag_cache_reset_after_build,
}
use cmee1y1_clients.Tags.Walk.{
  append_at, found_or, cache_at, store_symbol, fetch, look_from, turn, walk, lookup_in, in_cache,
  bp_tagdb_lookup_symbol, fill_cache, preload_in, bp_tagdb_preload_symbols,
}
use cmee1y1_clients.Tags.Walk.Whole.{
  AllWhole, resized-IsWhole, append_at-IsWhole, update-AllWhole, find_or_alloc-AllWhole,
  invalidate-AllWhole, free_all-AllWhole,
}

-- An operation that keeps the caches whole.
abbrev pub KeepsWhole {ℓ} : {W : Type 0} {A : Type ℓ} → M W A → Type 0
KeepsWhole {W} m = (c : Client W) → AllWhole c.tag_caches → AllWhole (m c).0.tag_caches

bind-KeepsWhole {ℓ κ} :
    {W : Type 0} {A : Type ℓ} {B : Type κ} (m : M W A) (f : A → M W B)
    → KeepsWhole m
    → ((a : A) → KeepsWhole (f a))
    → KeepsWhole (m >>= f)
bind-KeepsWhole {W} {A} m f k l c w = after (m c) (k c w)
  where
    after :
        (r : Client W × Result A) → AllWhole r.0.tag_caches → AllWhole (continue f r).0.tag_caches
    after (d, ok a) v = l a d v
    after (d, err e) v = v

if-KeepsWhole {ℓ} :
    {W : Type 0} {A : Type ℓ} (b : Bool) (x y : Client W × Result A)
    → AllWhole x.0.tag_caches
    → AllWhole y.0.tag_caches
    → AllWhole (if b then x else y).0.tag_caches
if-KeepsWhole true x y v w = v
if-KeepsWhole false x y v w = w

Keeps-KeepsWhole {ℓ} : {W : Type 0} {A : Type ℓ} (m : M W A) → Keeps m → KeepsWhole m
Keeps-KeepsWhole m k c w = subst⁻¹ AllWhole (k c).tag_caches w

found_or-KeepsWhole {ℓ} :
    {W : Type 0} {A : Type ℓ} (m : M W A) (o : Option A) → KeepsWhole m → KeepsWhole (found_or m o)
found_or-KeepsWhole m none k c w = k c w
found_or-KeepsWhole m (some a) k c w = w

in_cache-KeepsWhole {ℓ} :
    {W : Type 0} {A : Type ℓ} (m : ℕ → M W A) (path : List ℕ)
    → ((i : ℕ) → KeepsWhole (m i))
    → KeepsWhole {A = A} (λ c. in_cache m (bp_tag_cache_find_or_alloc path c.tag_caches) c)
in_cache-KeepsWhole {W} m path k c w =
    at (bp_tag_cache_find_or_alloc path c.tag_caches) (find_or_alloc-AllWhole path c.tag_caches w)
  where
    at : (r : List TagCache × Option ℕ) → AllWhole r.0 → AllWhole (in_cache m r c).0.tag_caches
    at (cs, none) v = v
    at (cs, some i) v = k i _ v

module _ {W : Type 0} (env : Env W) (db : TagDb) where
  fetch-KeepsWhole : (i idx : ℕ) → KeepsWhole (fetch env db i idx)
  unfolding fetch bp_tagdb_symbol_at store_symbol
  fetch-KeepsWhole i idx =
      bind-KeepsWhole (bp_client_call env (symbol_spec db.handle idx)) (store_symbol env i idx)
        (Keeps-KeepsWhole (bp_client_call env (symbol_spec db.handle idx))
          (bp_client_call-Keeps env (symbol_spec db.handle idx)))
        (λ s c w. update-AllWhole (append_at idx s) c.tag_caches i (append_at-IsWhole idx s) w)

  turn-KeepsWhole : (i : ℕ) (name : List ℕ) → KeepsWhole (turn env db i name)
  unfolding turn look_from
  turn-KeepsWhole i name c w =
      bind-KeepsWhole (fetch env db i (cache_at i c).known_count)
        (λ u. look_from env i name (cache_at i c).known_count)
        (fetch-KeepsWhole i (cache_at i c).known_count) (λ u d v. v) c w

  walk-KeepsWhole : (n i : ℕ) (name : List ℕ) → KeepsWhole (walk env n db i name)
  unfolding walk
  walk-KeepsWhole zero i name c w = w
  walk-KeepsWhole (suc n) i name c w =
      if-KeepsWhole _ _ _
        (bind-KeepsWhole (turn env db i name) (found_or (walk env n db i name))
          (turn-KeepsWhole i name)
          (λ o. found_or-KeepsWhole (walk env n db i name) o (walk-KeepsWhole n i name)) c w)
        w

  fill_cache-KeepsWhole : (n i : ℕ) → KeepsWhole (fill_cache env n db i)
  unfolding fill_cache
  fill_cache-KeepsWhole zero i c w = w
  fill_cache-KeepsWhole (suc n) i c w =
      if-KeepsWhole _ _ _
        (bind-KeepsWhole (fetch env db i (cache_at i c).known_count) (λ u. fill_cache env n db i)
          (fetch-KeepsWhole i _) (λ u. fill_cache-KeepsWhole n i) c w)
        w

  lookup_in-KeepsWhole : (i : ℕ) (name : List ℕ) → KeepsWhole (lookup_in env db i name)
  unfolding lookup_in
  lookup_in-KeepsWhole i name c w = elim (Bool-cases ((cache_at i c).cap_count == 0)) [
    | inl empty ↦ rw (empty, lookup_in) w
    | inr memory ↦
        rw (memory, lookup_in)
          (found_or-KeepsWhole (walk env ((cache_at i c).total_count + 1) db i name) _
            (walk-KeepsWhole _ i name) c w)
  ]

  lookup-KeepsWhole : (name : List ℕ) → KeepsWhole (bp_tagdb_lookup_symbol env (some db) name)
  unfolding bp_tagdb_lookup_symbol
  lookup-KeepsWhole name =
      in_cache-KeepsWhole (λ i. lookup_in env db i name) db.path (λ i. lookup_in-KeepsWhole i name)

  preload_in-KeepsWhole : (i : ℕ) → KeepsWhole (preload_in env db i)
  unfolding preload_in
  preload_in-KeepsWhole i c w = elim (Bool-cases ((cache_at i c).cap_count == 0)) [
    | inl empty ↦ rw (empty, preload_in) w
    | inr memory ↦ rw (memory, preload_in) (fill_cache-KeepsWhole _ i c w)
  ]

  preload-KeepsWhole : KeepsWhole (bp_tagdb_preload_symbols env (some db))
  unfolding bp_tagdb_preload_symbols
  preload-KeepsWhole = in_cache-KeepsWhole (preload_in env db) db.path preload_in-KeepsWhole

  reset-AllWhole :
      (n : ℕ) (c : Client W)
      → n < 2 ^ 16
      → AllWhole c.tag_caches
      → AllWhole (bp_tag_cache_reset_after_build env db.path n c).tag_caches
  unfolding bp_tag_cache_reset_after_build reset_on
  reset-AllWhole n c h w =
      at (bp_tag_cache_find_or_alloc db.path c.tag_caches)
        (find_or_alloc-AllWhole db.path c.tag_caches w)
    where
      at : (r : List TagCache × Option ℕ) → AllWhole r.0 → AllWhole (reset_on env n r c).tag_caches
      at (cs, none) v = v
      at (cs, some i) v = update-AllWhole (resized n _) cs i (λ k x. resized-IsWhole n _ k h) v

  -- Every operation on the symbol caches keeps them whole: a build that found fewer than 65536
  -- symbols (the count is a `uint16_t`), with memory or without, a lookup and a preload, whatever the
  -- server answers to them, dropping a path's symbols, and dropping all caches.
  pub caches-AllWhole :
      (c : Client W) (name : List ℕ) (n : ℕ)
      → n < 2 ^ 16
      → AllWhole c.tag_caches
      → AllWhole (bp_tag_cache_reset_after_build env db.path n c).tag_caches
        × AllWhole (bp_tagdb_lookup_symbol env (some db) name c).0.tag_caches
        × AllWhole (bp_tagdb_preload_symbols env (some db) c).0.tag_caches
        × AllWhole (bp_tag_cache_invalidate db.path c.tag_caches)
        × AllWhole (bp_tag_cache_free_all c.tag_caches)
  caches-AllWhole c name n h w = (
    reset-AllWhole n c h w,
    lookup-KeepsWhole name c w,
    preload-KeepsWhole c w,
    invalidate-AllWhole db.path c.tag_caches w,
    free_all-AllWhole c.tag_caches w,
  )
