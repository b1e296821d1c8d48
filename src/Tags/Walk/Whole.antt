-- ===== src/Tags/Walk/Whole.antt =====
-- The symbol caches of a client stay whole (c/src/tagcache.c, and the build of c/src/tagdb.c).
use cmee1y1_clients.Base.{
  ℕ, zero, suc, ◌+◌, ◌%◌, ◌^◌, ◌≤◌, ◌<◌, refl, ◌∙◌, Bool, true, false, ◌&&◌, Option, none, some,
  List, [], ◌∷◌, length, get_or, set, ltb, ◌==◌, if◌then◌else◌, inl, inr, Bool-cases, arith,
  length-set, length-replicate,
}
use cmee1y1_clients.State.{SymbolInfo, TagCache}
use cmee1y1_clients.Tags.Cache.{
  zeroed_cache, fresh_cache, blank_symbol, emptied, update, resized, find_locked, alloc_locked,
  find_or_alloc_at, bp_tag_cache_find_or_alloc, invalidate_at, bp_tag_cache_invalidate,
  bp_tag_cache_free_all,
}
use cmee1y1_clients.Tags.Walk.{append_at}
use cmee1y1_clients.Tags.Walk.Runs.{IsWhole}

abbrev pub AllWhole : List TagCache → Type 0
AllWhole cs = (j : ℕ) → IsWhole (get_or cs j zeroed_cache)

pub zeroed-IsWhole : IsWhole zeroed_cache
zeroed-IsWhole = record {
  array = refl;
  known = omega arith;
  total = λ h. absurd (h refl);
  word = omega arith;
}

-- A cache without an array is whole, whatever size the table has.
emptied-IsWhole : (k : TagCache) → IsWhole (emptied k)
emptied-IsWhole k = record {
  array = refl;
  known = omega arith;
  total = λ h. absurd (h refl);
  word = omega arith;
}

pub resized-IsWhole : (n : ℕ) (got : Bool) (k : TagCache) → n < 2 ^ 16 → IsWhole (resized n got k)
unfolding resized
resized-IsWhole n got k h = elim (Bool-cases (ltb 0 n && got)) [
  | inl some_memory ↦
      rw (some_memory, resized)
        (record {
          array = length-replicate n blank_symbol;
          known = omega arith;
          total = λ e. refl;
          word = h;
        })
  | inr no_memory ↦
      rw (no_memory, resized)
        (record {
          array = refl;
          known = omega arith;
          total = λ e. absurd (e refl);
          word = omega arith;
        })
]

pub append_at-IsWhole :
    (idx : ℕ) (s : SymbolInfo) (k : TagCache) → IsWhole k → IsWhole (append_at idx s k)
unfolding append_at
append_at-IsWhole idx s k w =
    elim (Bool-cases (idx == k.known_count && ltb k.known_count k.cap_count)) [
      | inr other ↦ rw (other, append_at) w
      | inl next ↦
          let word = w.word in
          let room : k.known_count < k.cap_count = ground (arith, next) in
          let small : (k.known_count + 1) % 2 ^ 16 ≤ k.cap_count = omega (arith, word, room) in
          rw (next, append_at)
            (record {
              array = length-set k.symbols k.known_count s ∙ w.array;
              known = small;
              total = w.total;
              word = w.word;
            })
    ]

pub update-AllWhole :
    (f : TagCache → TagCache) (cs : List TagCache) (i : ℕ)
    → ((k : TagCache) → IsWhole k → IsWhole (f k))
    → AllWhole cs
    → AllWhole (update f cs i)
update-AllWhole f [] i h w j = w j
update-AllWhole f (c ∷ cs) zero h w zero = h c (w 0)
update-AllWhole f (c ∷ cs) zero h w (suc j) = w (suc j)
update-AllWhole f (c ∷ cs) (suc i) h w zero = w 0
update-AllWhole f (c ∷ cs) (suc i) h w (suc j) = update-AllWhole f cs i h (λ l. w (suc l)) j

set-AllWhole :
    (cs : List TagCache) (i : ℕ) (k : TagCache) → IsWhole k → AllWhole cs → AllWhole (set cs i k)
set-AllWhole [] i k h w j = w j
set-AllWhole (c ∷ cs) zero k h w zero = h
set-AllWhole (c ∷ cs) zero k h w (suc j) = w (suc j)
set-AllWhole (c ∷ cs) (suc i) k h w zero = w 0
set-AllWhole (c ∷ cs) (suc i) k h w (suc j) = set-AllWhole cs i k h (λ l. w (suc l)) j

pub find_or_alloc-AllWhole :
    (path : List ℕ) (cs : List TagCache)
    → AllWhole cs
    → AllWhole (bp_tag_cache_find_or_alloc path cs).0
unfolding bp_tag_cache_find_or_alloc find_or_alloc_at
find_or_alloc-AllWhole path cs w = elim (Bool-cases (ltb 254 (length path))) [
  | inl long ↦ rw (long, bp_tag_cache_find_or_alloc) w
  | inr fits ↦ rw (fits, bp_tag_cache_find_or_alloc) (at (find_locked path cs) (alloc_locked cs))
]
  where
    at : (found free : Option ℕ) → AllWhole (find_or_alloc_at path cs found free).0
    at (some i) free = w
    at none none = w
    at none (some i) = set-AllWhole cs i (fresh_cache path) (emptied-IsWhole (fresh_cache path)) w

pub invalidate-AllWhole :
    (path : List ℕ) (cs : List TagCache) → AllWhole cs → AllWhole (bp_tag_cache_invalidate path cs)
unfolding bp_tag_cache_invalidate invalidate_at
invalidate-AllWhole path cs w = at (find_locked path cs)
  where
    at : (found : Option ℕ) → AllWhole (invalidate_at found cs)
    at none = w
    at (some i) = update-AllWhole emptied cs i (λ k h. emptied-IsWhole k) w

pub free_all-AllWhole : (cs : List TagCache) → AllWhole cs → AllWhole (bp_tag_cache_free_all cs)
unfolding bp_tag_cache_free_all
free_all-AllWhole [] w j = w j
free_all-AllWhole (c ∷ cs) w zero = either c.in_use
  where
    either : (b : Bool) → IsWhole (if b then zeroed_cache else c)
    either true = zeroed-IsWhole
    either false = w 0
free_all-AllWhole (c ∷ cs) w (suc j) = free_all-AllWhole cs (λ l. w (suc l)) j
