-- ===== src/Tags/Cache/Allocation.antt =====
-- What allocation and a build do to the symbol caches (c/src/tagcache.c).
use cmee1y1_clients.Base.{
  ℕ, zero, suc, ◌<◌, ◌≤◌, ◌≡◌, ◌≢◌, refl, Bool, true, false, Option, none, some, List, [], ◌∷◌,
  length, get_elem?, ltb, arith, subst, Bool-cases, ◌⊎◌, inl, inr, length-replicate,
  get_elem?-set_self, get_elem?-set_ne, length-set,
}
use cmee1y1_clients.State.{TagCache}
use cmee1y1_clients.Tags.Cache.{
  blank_symbol, is_of, find_locked, alloc_locked, fresh_cache, find_or_alloc_at,
  bp_tag_cache_find_or_alloc, resized,
}

-- A cache is well formed if its array has its capacity, it does not claim to know more than that,
-- and never more than the controller has.
pub record IsSized (c : TagCache) : Type 0 where
  pub array : length c.symbols ≡ c.cap_count
  pub known : c.known_count ≤ c.cap_count
  pub total : c.known_count ≤ c.total_count

-- After a build the cache knows nothing, so that no symbol of the table before it is found, and it
-- has room for the whole new table, unless there is no memory.
pub resized-IsSized :
    (n : ℕ) (got : Bool) (c : TagCache)
    → IsSized (resized n got c)
      × ((resized n got c).known_count ≡ 0)
      × (got ≡ true → (resized n got c).cap_count ≡ n)
      × ((resized n got c).total_count ≡ n)
unfolding resized
resized-IsSized zero got c =
    (record { array = refl; known = omega arith; total = omega arith }, refl, λ e. refl, refl)
resized-IsSized (suc n) true c =
    let some_symbols : ltb 0 (suc n) ≡ true = ground arith in
    rw some_symbols (
      record {
        array = length-replicate (suc n) blank_symbol;
        known = omega arith;
        total = omega arith;
      },
      refl,
      λ e. refl,
      refl,
    )
resized-IsSized (suc n) false c =
    let some_symbols : ltb 0 (suc n) ≡ true = ground arith in
    rw some_symbols
      (record { array = refl; known = omega arith; total = omega arith }, refl, λ e. cc, refl)

find_locked-some :
    (path : List ℕ) (cs : List TagCache) (i : ℕ)
    → find_locked path cs ≡ some i
    → (d : TagCache) × (get_elem? cs i ≡ some d) × (is_of path d ≡ true)
unfolding find_locked
find_locked-some path [] i e = cc
find_locked-some path (c ∷ cs) zero e = (c, refl, ground (arith, e))
find_locked-some path (c ∷ cs) (suc i) e = find_locked-some path cs i (ground (arith, e))

find_locked-none :
    (path : List ℕ) (cs : List TagCache)
    → find_locked path cs ≡ none
    → (i : ℕ) (d : TagCache) → get_elem? cs i ≡ some d
    → is_of path d ≡ false
unfolding find_locked
find_locked-none path [] e i d g = cc
find_locked-none path (c ∷ cs) e zero d g =
    let same : c ≡ d = cc in subst (λ x. is_of path x ≡ false) same (ground (arith, e))
find_locked-none path (c ∷ cs) e (suc i) d g = find_locked-none path cs (ground (arith, e)) i d g

alloc_locked-some :
    (cs : List TagCache) (i : ℕ)
    → alloc_locked cs ≡ some i
    → (d : TagCache) × (get_elem? cs i ≡ some d) × (d.in_use ≡ false)
unfolding alloc_locked
alloc_locked-some [] i e = cc
alloc_locked-some (c ∷ cs) zero e = (c, refl, ground (arith, e))
alloc_locked-some (c ∷ cs) (suc i) e = alloc_locked-some cs i (ground (arith, e))

alloc_locked-none :
    (cs : List TagCache)
    → alloc_locked cs ≡ none
    → (j : ℕ) (d : TagCache) → get_elem? cs j ≡ some d
    → d.in_use ≡ true
unfolding alloc_locked
alloc_locked-none [] e j d g = cc
alloc_locked-none (c ∷ cs) e zero d g =
    let same : c ≡ d = cc in subst (λ (x : TagCache). x.in_use ≡ true) same (ground (arith, e))
alloc_locked-none (c ∷ cs) e (suc j) d g = alloc_locked-none cs (ground (arith, e)) j d g

get_elem?-some-below :
    (cs : List TagCache) (i : ℕ) (d : TagCache) → get_elem? cs i ≡ some d → i < length cs
get_elem?-some-below [] i d g = cc
get_elem?-some-below (c ∷ cs) zero d g = omega arith
get_elem?-some-below (c ∷ cs) (suc i) d g = omega (arith, get_elem?-some-below cs i d g)

-- No cache is the path's.
abbrev pub Unknown : List ℕ → List TagCache → Type 0
Unknown path cs = (j : ℕ) (d : TagCache) → get_elem? cs j ≡ some d → is_of path d ≡ false

-- What an allocation does: the caches afterwards and the index that it gave. There is none only for a
-- long path, or for an unknown one while all caches are in use. Else it is the path's cache, with
-- nothing changed, or for an unknown path a fresh one in an unused place, with nothing else changed.
abbrev pub Allocated : List ℕ → List TagCache → List TagCache × Option ℕ → Type 0
Allocated path cs (after, none) =
    (after ≡ cs)
    × ((254 < length path)
        ⊎ (Unknown path cs × ((j : ℕ) (d : TagCache) → get_elem? cs j ≡ some d → d.in_use ≡ true)))
Allocated path cs (after, some i) =
    (length path ≤ 254)
    × (((after ≡ cs) × ((d : TagCache) × (get_elem? cs i ≡ some d) × (is_of path d ≡ true)))
        ⊎ (Unknown path cs
            × ((d : TagCache) × (get_elem? cs i ≡ some d) × (d.in_use ≡ false))
            × (get_elem? after i ≡ some (fresh_cache path))
            × (length after ≡ length cs)
            × ((j : ℕ) → i ≢ j → get_elem? after j ≡ get_elem? cs j)))

find_or_alloc_at-Allocated :
    (path : List ℕ) (cs : List TagCache) (found free : Option ℕ)
    → length path ≤ 254
    → find_locked path cs ≡ found
    → alloc_locked cs ≡ free
    → Allocated path cs (find_or_alloc_at path cs found free)
unfolding find_or_alloc_at
find_or_alloc_at-Allocated path cs (some i) free short f a =
    (short, inl (refl, find_locked-some path cs i f))
find_or_alloc_at-Allocated path cs none none short f a =
    (refl, inr (find_locked-none path cs f, alloc_locked-none cs a))
find_or_alloc_at-Allocated path cs none (some i) short f a =
    let unused = alloc_locked-some cs i a in
    (
      short,
      inr (
        find_locked-none path cs f,
        (unused.0, unused.1, unused.2),
        get_elem?-set_self cs i (fresh_cache path) (get_elem?-some-below cs i unused.0 unused.1),
        length-set cs i (fresh_cache path),
        λ j h. get_elem?-set_ne cs i j (fresh_cache path) h,
      ),
    )

-- A database gets the cache of its own path: the one that the path has, with nothing changed; or, if it
-- has none, a fresh one in an unused place, and the other caches are kept. It gets none, and nothing
-- changes, only if the path is over 254 bytes, or if it has none and all places are in use.
pub find_or_alloc-Allocated :
    (path : List ℕ) (cs : List TagCache) → Allocated path cs (bp_tag_cache_find_or_alloc path cs)
unfolding bp_tag_cache_find_or_alloc
find_or_alloc-Allocated path cs = elim (Bool-cases (ltb 254 (length path))) [
  | inl long ↦ rw long (refl, inl (ground (arith, long)))
  | inr fits ↦ rw fits (find_or_alloc_at-Allocated path cs _ _ (ground (arith, fits)) refl refl)
]
