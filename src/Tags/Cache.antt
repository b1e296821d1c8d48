-- ===== src/Tags/Cache.antt =====
-- c/src/tagcache.c: the symbol caches of a client, one for each controller path: finding, allocating,
-- resizing and dropping them.
pub mod Allocation
use cmee1y1_clients.Base.{
  ℕ, zero, suc, ◌<◌, ◌≤◌, ◌≡◌, ◌≢◌, refl, sym, ◌∙◌, Bool, true, false, ◌&&◌, Option, none, some,
  List, [], ◌∷◌, length, get_elem?, set, replicate, ltb, if◌then◌else◌, eq_bytes, eq_bytes_refl,
  arith, subst, Bool-cases, ◌⊎◌, inl, inr, length-replicate, get_elem?-set_self, get_elem?-set_ne,
  length-set,
}
use mathlib.Core.Option
use cmee1y1_clients.State.{SymbolInfo, TagCache}

abbrev pub cache_max : ℕ
cache_max = 8

abbrev pub blank_symbol : SymbolInfo
blank_symbol = record {
  name = [];
  data_type = 0;
  struct_type = 0;
  elem_byte_size = 0;
  dim0 = 0;
  dim1 = 0;
  dim2 = 0;
  flags = 0;
}

abbrev pub is_of : List ℕ → TagCache → Bool
is_of path c = c.in_use && eq_bytes c.path path

-- The index of the cache for a path.
unfoldable pub find_locked : List ℕ → List TagCache → Option ℕ
find_locked path [] = none
find_locked path (c ∷ cs) =
    let rest = Option.map suc (find_locked path cs) in if is_of path c then some 0 else rest

unfoldable pub alloc_locked : List TagCache → Option ℕ
alloc_locked [] = none
alloc_locked (c ∷ cs) =
    let rest = Option.map suc (alloc_locked cs) in if c.in_use then rest else some 0

abbrev pub fresh_cache : List ℕ → TagCache
fresh_cache path = record {
  in_use = true;
  path = path;
  symbols = [];
  cap_count = 0;
  known_count = 0;
  total_count = 0;
}

-- The caches afterwards, and the index of the path's.
unfoldable pub find_or_alloc_at :
    List ℕ → List TagCache → Option ℕ → Option ℕ → List TagCache × Option ℕ
find_or_alloc_at path cs (some i) free = (cs, some i)
find_or_alloc_at path cs none none = (cs, none)
find_or_alloc_at path cs none (some i) = (set cs i (fresh_cache path), some i)

unfoldable pub bp_tag_cache_find_or_alloc : List ℕ → List TagCache → List TagCache × Option ℕ
bp_tag_cache_find_or_alloc path cs =
    if ltb 254 (length path)
    then (cs, none)
    else find_or_alloc_at path cs (find_locked path cs) (alloc_locked cs)

abbrev pub emptied : TagCache → TagCache
emptied c = record c { symbols = []; cap_count = 0; known_count = 0; total_count = 0 }

-- A function applied to the element at an index.
abbrev pub update {ℓ} : {A : Type ℓ} → (A → A) → List A → ℕ → List A
update f [] i = []
update f (x ∷ xs) zero = f x ∷ xs
update f (x ∷ xs) (suc i) = x ∷ update f xs i

unfoldable pub invalidate_at : Option ℕ → List TagCache → List TagCache
invalidate_at none cs = cs
invalidate_at (some i) cs = update emptied cs i

unfoldable pub bp_tag_cache_invalidate : List ℕ → List TagCache → List TagCache
bp_tag_cache_invalidate path cs = invalidate_at (find_locked path cs) cs

-- `memset(c, 0, sizeof(*c))`.
abbrev pub zeroed_cache : TagCache
zeroed_cache = record {
  in_use = false;
  path = [];
  symbols = [];
  cap_count = 0;
  known_count = 0;
  total_count = 0;
}

unfoldable pub bp_tag_cache_free_all : List TagCache → List TagCache
bp_tag_cache_free_all [] = []
bp_tag_cache_free_all (c ∷ cs) = (if c.in_use then zeroed_cache else c) ∷ bp_tag_cache_free_all cs

-- A cache after a build of `n` symbols; `got` tells whether `calloc` returned memory.
unfoldable pub resized : ℕ → Bool → TagCache → TagCache
resized n got c =
    let empty = record (emptied c) { total_count = n } in
    if ltb 0 n && got
    then record empty { symbols = replicate n blank_symbol; cap_count = n }
    else empty
