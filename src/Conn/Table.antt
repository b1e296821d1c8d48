-- ===== src/Conn/Table.antt =====
-- The connection table (c/src/conn.c: `find_conn`, `alloc_conn`, and the stores into an entry), as a
-- finite map from app handles to connections.
use cmee1y1_clients.Base.{
  ℕ, zero, suc, ◌≡◌, refl, Bool, true, false, ◌&&◌, Option, none, some, List, [], ◌∷◌, get_elem?,
  set, ◌==◌, if◌then◌else◌, arith,
}
use mathlib.Core.Option
use cmee1y1_clients.State.{Conn}

abbrev pub max_conns : ℕ
max_conns = 16

-- Whether an entry is the one that `find_conn` looks for.
abbrev pub is_for : ℕ → Conn → Bool
is_for h e = e.in_use && e.app_handle == h

-- The index of the first entry in use for a handle.
unfoldable pub find_conn : ℕ → List Conn → Option ℕ
find_conn h [] = none
find_conn h (e ∷ es) =
    let rest = Option.map suc (find_conn h es) in if is_for h e then some 0 else rest

-- The index of the first free entry.
unfoldable pub alloc_conn : List Conn → Option ℕ
alloc_conn [] = none
alloc_conn (e ∷ es) = let rest = Option.map suc (alloc_conn es) in if e.in_use then rest else some 0

-- The map that a table stands for.
unfoldable pub lookup : ℕ → List Conn → Option Conn
lookup h [] = none
lookup h (e ∷ es) = let rest = lookup h es in if is_for h e then some e else rest

-- No handle is in use twice.
abbrev pub Distinct : List Conn → Type 0
Distinct [] = Unit {0}
Distinct (e ∷ es) = (e.in_use ≡ true → lookup e.app_handle es ≡ none) × Distinct es

pub find_conn-none : (h : ℕ) (es : List Conn) → find_conn h es ≡ none → lookup h es ≡ none
unfolding find_conn lookup
find_conn-none h [] e = refl
find_conn-none h (x ∷ es) e = ground (arith, find_conn-none h es)

find_conn-zero :
    (h : ℕ) (x : Conn) (es : List Conn) → find_conn h (x ∷ es) ≡ some 0 → is_for h x ≡ true
unfolding find_conn
find_conn-zero h x es k = ground arith

find_conn-suc :
    (h i : ℕ) (x : Conn) (es : List Conn)
    → find_conn h (x ∷ es) ≡ some (suc i)
    → (is_for h x ≡ false) × (find_conn h es ≡ some i)
unfolding find_conn
find_conn-suc h i x es k = (ground arith, ground arith)

pub find_conn-some :
    (h i : ℕ) (es : List Conn)
    → find_conn h es ≡ some i
    → (e : Conn) × (get_elem? es i ≡ some e) × (lookup h es ≡ some e)
unfolding find_conn lookup
find_conn-some h i [] k = cc
find_conn-some h zero (x ∷ es) k = (x, refl, rw (find_conn-zero h x es k))
find_conn-some h (suc i) (x ∷ es) k =
    let (miss, found) = find_conn-suc h i x es k in
    let (e, at, seen) = find_conn-some h i es found in (e, at, rw miss seen)

pub lookup-is_for : (h : ℕ) (es : List Conn) (e : Conn) → lookup h es ≡ some e → is_for h e ≡ true
unfolding lookup
lookup-is_for h [] e k = cc
lookup-is_for h (x ∷ es) e k = ground (arith, lookup-is_for h es e)

-- A connection stored in the first free entry is added to the map.
pub lookup-set_alloc :
    (es : List Conn) (i : ℕ) (e : Conn) (h : ℕ)
    → alloc_conn es ≡ some i
    → e.in_use ≡ true
    → lookup e.app_handle es ≡ none
    → lookup h (set es i e) ≡ (if e.app_handle == h then some e else lookup h es)
unfolding alloc_conn lookup
lookup-set_alloc [] i e h a u n = cc
lookup-set_alloc (x ∷ es) zero e h a u n = ground arith
lookup-set_alloc (x ∷ es) (suc i) e h a u n = ground (arith, lookup-set_alloc es i e h)

-- An entry that is freed is taken out of the map, and nothing else is.
pub lookup-set_free :
    (es : List Conn) (i h k : ℕ) (e f : Conn)
    → Distinct es
    → find_conn h es ≡ some i
    → get_elem? es i ≡ some e
    → f.in_use ≡ false
    → lookup k (set es i f) ≡ (if h == k then none else lookup k es)
unfolding find_conn lookup
lookup-set_free [] i h k e f d n g u = cc
lookup-set_free (x ∷ es) zero h k e f d n g u = ground (arith, find_conn-zero h x es n, d)
lookup-set_free (x ∷ es) (suc i) h k e f d n g u = ground (
  arith,
  find_conn-suc h i x es n,
  find_conn-some h i es (find_conn-suc h i x es n).1,
  d,
  lookup-set_free es i h k e f,
)

-- An entry that is overwritten with one for the same handle is replaced in the map.
pub lookup-set_update :
    (es : List Conn) (i h k : ℕ) (f : Conn)
    → find_conn h es ≡ some i
    → f.in_use ≡ true
    → f.app_handle ≡ h
    → lookup k (set es i f) ≡ (if h == k then some f else lookup k es)
unfolding find_conn lookup
lookup-set_update [] i h k f n u a = cc
lookup-set_update (x ∷ es) zero h k f n u a = ground (arith, find_conn-zero h x es n)
lookup-set_update (x ∷ es) (suc i) h k f n u a =
    ground (arith, find_conn-suc h i x es n, lookup-set_update es i h k f)

pub Distinct-set_alloc :
    (es : List Conn) (i : ℕ) (e : Conn)
    → alloc_conn es ≡ some i
    → e.in_use ≡ true
    → lookup e.app_handle es ≡ none
    → Distinct es
    → Distinct (set es i e)
unfolding alloc_conn lookup
Distinct-set_alloc [] i e a u n d = tt
Distinct-set_alloc (x ∷ es) zero e a u n d = (λ _. ground arith, d.1)
Distinct-set_alloc (x ∷ es) (suc i) e a u n d = (
  λ v. ground (arith, d.0 v, lookup-set_alloc es i e x.app_handle),
  ground (arith, Distinct-set_alloc es i e),
)

pub Distinct-set_free :
    (es : List Conn) (i h : ℕ) (f : Conn)
    → find_conn h es ≡ some i
    → f.in_use ≡ false
    → Distinct es
    → Distinct (set es i f)
unfolding find_conn lookup
Distinct-set_free [] i h f n u d = tt
Distinct-set_free (x ∷ es) zero h f n u d = (λ v. cc, d.1)
Distinct-set_free (x ∷ es) (suc i) h f n u d =
    let (miss, found) = find_conn-suc h i x es n in
    let (e, at, seen) = find_conn-some h i es found in
    (
      λ v. ground (arith, d.0 v, lookup-set_free es i h x.app_handle e f d.1 found at u),
      Distinct-set_free es i h f found u d.1,
    )

pub Distinct-set_update :
    (es : List Conn) (i h : ℕ) (f : Conn)
    → find_conn h es ≡ some i
    → f.in_use ≡ true
    → f.app_handle ≡ h
    → Distinct es
    → Distinct (set es i f)
unfolding find_conn lookup
Distinct-set_update [] i h f n u a d = tt
Distinct-set_update (x ∷ es) zero h f n u a d =
    (λ v. ground (arith, d.0, find_conn-zero h x es n), d.1)
Distinct-set_update (x ∷ es) (suc i) h f n u a d =
    let (miss, found) = find_conn-suc h i x es n in
    (
      λ v. ground (arith, d.0 v, lookup-set_update es i h x.app_handle f found u a),
      Distinct-set_update es i h f found u a d.1,
    )

-- There is no room exactly where every entry is in use.
pub alloc_conn-none :
    (es : List Conn) (i : ℕ) (e : Conn)
    → alloc_conn es ≡ none
    → get_elem? es i ≡ some e
    → e.in_use ≡ true
unfolding alloc_conn
alloc_conn-none [] i e a g = cc
alloc_conn-none (x ∷ es) zero e a g = ground arith
alloc_conn-none (x ∷ es) (suc i) e a g = ground (arith, alloc_conn-none es i e)
