-- ===== src/Tags/Walk.antt =====
-- c/src/tagcache.c: looking a symbol up by its name, and the walk of the controller's table that fills
-- the cache as far as a lookup needs it.

pub mod Runs
pub mod Search
pub mod Whole
pub mod Kept
pub mod Again
pub mod Told
pub mod Lookup
use cmee1y1_clients.Base.{
  ℕ, zero, suc, ◌+◌, ◌-◌, ◌%◌, ◌^◌, ◌&&◌, Option, none, some, List, get_or, set, ltb, ◌==◌,
  eq_bytes, if◌then◌else◌, ok, err,
}
use cmee1y1_clients.State.{
  SymbolInfo, TagCache, Client, Env, M, ◌>>=◌, ◌>>◌, fail, return, continue,
}
use cmee1y1_clients.State.Code
use cmee1y1_clients.Tags.{TagDb}
use cmee1y1_clients.Tags.Cache.{blank_symbol, zeroed_cache, update, bp_tag_cache_find_or_alloc}
use cmee1y1_clients.Tags.Symbols.{bp_tagdb_symbol_at}

-- The first symbol of a name among the `n` from index `i`. A NUL ends both names for `strcmp`.
unfoldable pub scan_names : List ℕ → List SymbolInfo → ℕ → ℕ → Option SymbolInfo
scan_names name syms i zero = none
scan_names name syms i (suc n) =
    let rest = scan_names name syms (i + 1) n in
    let s = get_or syms i blank_symbol in if eq_bytes s.name name then some s else rest

-- A symbol is appended if its index is still the next one and there is room. The count is a
-- `uint16_t`.
unfoldable pub append_at : ℕ → SymbolInfo → TagCache → TagCache
append_at idx s k =
    if idx == k.known_count && ltb k.known_count k.cap_count
    then record k {
      symbols = set k.symbols k.known_count s;
      known_count = (k.known_count + 1) % 2 ^ 16;
    }
    else k

-- What an operation goes on with if a search found nothing.
abbrev pub found_or {ℓ} : {W : Type 0} {A : Type ℓ} → M W A → Option A → M W A
found_or m none = m
found_or m (some a) = return a

-- The cache at an index.
abbrev pub cache_at : {W : Type 0} → ℕ → Client W → TagCache
cache_at i c = get_or c.tag_caches i zeroed_cache

-- What is done with the cache that was found or allocated.
abbrev pub in_cache {ℓ} : {W : Type 0} {A : Type ℓ} → (ℕ → M W A) → List TagCache × Option ℕ → M W A
in_cache m (cs, none) c = (record c { tag_caches = cs }, err Code.client_open)
in_cache m (cs, some i) c = m i (record c { tag_caches = cs })

module _ {W : Type 0} (env : Env W) where
  unfoldable pub store_symbol : ℕ → ℕ → SymbolInfo → M W (Unit {0})
  store_symbol i idx s c =
      (record c { tag_caches = update (append_at idx s) c.tag_caches i }, ok tt)

  -- The symbol with the index `idx` is asked for and stored in cache `i`.
  unfoldable pub fetch : TagDb → ℕ → ℕ → M W (Unit {0})
  fetch db i idx = do s ← bp_tagdb_symbol_at env (some db) idx; store_symbol i idx s

  -- The entries of cache `i` from `idx` on.
  unfoldable pub look_from : ℕ → List ℕ → ℕ → M W (Option SymbolInfo)
  look_from i name idx c =
      let k = cache_at i c in (c, ok (scan_names name k.symbols idx (k.known_count - idx)))

  -- One turn of the loop of a lookup.
  unfoldable pub turn : TagDb → ℕ → List ℕ → M W (Option SymbolInfo)
  turn db i name c =
      let idx = (cache_at i c).known_count in (fetch db i idx >> look_from i name idx) c

  -- The loop of a lookup, with so many turns and tests at most.
  unfoldable pub walk : ℕ → TagDb → ℕ → List ℕ → M W SymbolInfo
  walk zero db i name c = (c, err Code.no_return)
  walk (suc n) db i name c =
      let k = cache_at i c in
      if ltb k.known_count k.total_count
      then (turn db i name >>= found_or (walk n db i name)) c
      else (c, err Code.param_range)

  -- A cache without memory was not filled by a build.
  unfoldable pub lookup_in : TagDb → ℕ → List ℕ → M W SymbolInfo
  lookup_in db i name c =
      let k = cache_at i c in
      if k.cap_count == 0
      then (c, err Code.param_range)
      else found_or (walk (k.total_count + 1) db i name) (scan_names name k.symbols 0 k.known_count)
          c

  -- The name and the out pointer are there.
  unfoldable pub bp_tagdb_lookup_symbol : Option TagDb → List ℕ → M W SymbolInfo
  bp_tagdb_lookup_symbol none name c = (c, err Code.null_arg)
  bp_tagdb_lookup_symbol (some db) name c =
      in_cache (λ i. lookup_in db i name) (bp_tag_cache_find_or_alloc db.path c.tag_caches) c

  -- The loop of a preload.
  unfoldable pub fill_cache : ℕ → TagDb → ℕ → M W (Unit {0})
  fill_cache zero db i c = (c, err Code.no_return)
  fill_cache (suc n) db i c =
      let k = cache_at i c in
      if ltb k.known_count k.total_count
      then (fetch db i k.known_count >> fill_cache n db i) c
      else (c, ok tt)

  unfoldable pub preload_in : TagDb → ℕ → M W (Unit {0})
  preload_in db i c =
      let k = cache_at i c in
      if k.cap_count == 0 then (c, err Code.param_range) else fill_cache (k.total_count + 1) db i c

  unfoldable pub bp_tagdb_preload_symbols : Option TagDb → M W (Unit {0})
  bp_tagdb_preload_symbols none c = (c, err Code.null_arg)
  bp_tagdb_preload_symbols (some db) c =
      in_cache (preload_in db) (bp_tag_cache_find_or_alloc db.path c.tag_caches) c
