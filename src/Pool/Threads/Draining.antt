-- ===== src/Pool/Threads/Draining.antt =====
-- The wait in `bp_client_pool_close` (c/src/pool.c) can always come to its end.
use cmee1y1_clients.Base.{
  ℕ, zero, suc, ◌+◌, ◌≤◌, ◌<◌, ◌≡◌, refl, sym, ap, ◌∙◌, ◌⊎◌, inl, inr, true, false, if◌then◌else◌,
  arith, eq_or_ne, Bool-cases,
}
use cmee1y1_clients.State.{Pool, PoolEntry}
use cmee1y1_clients.Pool.{entry, any_busy}
use cmee1y1_clients.Pool.Threads.{Shared, Reach, here, next, Inv}
use cmee1y1_clients.Pool.Threads.Exclusion.{Touches, Step-Inv, Reach-Inv}
use cmee1y1_clients.Pool.Threads.Owned.{Owned, Step-Owned, Freed, free_held}

-- How many of the first `n` entries are borrowed.
abbrev busy_count : ℕ → Pool → ℕ
busy_count zero p = 0
busy_count (suc n) p = (if (entry p n).in_use then 1 else 0) + busy_count n p

busy_count_same : (n i : ℕ) (p q : Pool) → n ≤ i → Touches i p q → busy_count n q ≡ busy_count n p
busy_count_same zero i p q h touch = refl
busy_count_same (suc n) i p q h touch =
    let here : (entry q n).in_use ≡ (entry p n).in_use =
      ap (λ (x : PoolEntry). x.in_use) (touch.others n (λ e. omega (arith, e, h))) in
    let rest = busy_count_same n i p q (omega arith) touch in rw (here, rest) refl

busy_count_freed :
    (n i : ℕ) (p q : Pool)
    → i < n
    → Touches i p q
    → (entry p i).in_use ≡ true
    → (entry q i).in_use ≡ false
    → busy_count n p ≡ suc (busy_count n q)
busy_count_freed zero i p q h touch used free = elim h [ ]
busy_count_freed (suc n) i p q h touch used free = elim (eq_or_ne i n) [
  | inl same ↦
      let before : (entry p n).in_use ≡ true =
        ap (λ (x : ℕ). (entry p x).in_use) (sym same) ∙ used in
      let now : (entry q n).in_use ≡ false = ap (λ (x : ℕ). (entry q x).in_use) (sym same) ∙ free in
      let rest = busy_count_same n i p q (omega (arith, same)) touch in
      rw (before, now, rest) (omega arith)
  | inr differs ↦
      let here : (entry q n).in_use ≡ (entry p n).in_use =
        ap (λ (x : PoolEntry). x.in_use) (touch.others n differs) in
      let rest = busy_count_freed n i p q (omega (arith, h, differs)) touch used free in
      rw (here, rest) (omega arith)
]

-- No entry is borrowed, or one that is.
busy_or_not :
    (n : ℕ) (p : Pool) → (any_busy n p ≡ false) ⊎ ((i : ℕ) × (i < n) × ((entry p i).in_use ≡ true))
unfolding any_busy
busy_or_not zero p = inl refl
busy_or_not (suc n) p = elim (Bool-cases (entry p n).in_use) [
  | inl used ↦ inr (n, omega arith, used)
  | inr free ↦ elim (busy_or_not n p) [
    | inl none_busy ↦ inl (rw (free, any_busy) none_busy)
    | inr (i, low, used) ↦ inr (i, omega (arith, low), used)
  ]
]

-- The end of a request that frees a borrowed entry.
free_one :
    (u : Shared) (v : Inv u) (o : Owned u) (i : ℕ)
    → i < u.pool.size
    → (entry u.pool i).in_use ≡ true
    → (f : Freed u v o i) × (busy_count u.pool.size u.pool
        ≡ suc (busy_count f.state.pool.size f.state.pool))
free_one u v o i low used =
    let (t, held) = o i low used in
    let f = free_held u v o t i (u.task t) refl held in
    (
      f,
      busy_count_freed u.pool.size i u.pool f.state.pool low f.touch used f.free
          ∙ ap (λ (n : ℕ). suc (busy_count n f.state.pool)) (sym f.touch.size),
    )

drain :
    (m : ℕ) (s u : Shared)
    → Reach s u
    → Inv u
    → Owned u
    → busy_count u.pool.size u.pool ≤ m
    → (w : Shared) × Reach s w × (any_busy w.pool.size w.pool ≡ false)
drain zero s u r v o few = elim (busy_or_not u.pool.size u.pool) [
  | inl quiet ↦ (u, r, quiet)
  | inr (i, low, used) ↦
      let (f, fewer) = free_one u v o i low used in absurd (omega (arith, fewer, few))
]
drain (suc m) s u r v o few = elim (busy_or_not u.pool.size u.pool) [
  | inl quiet ↦ (u, r, quiet)
  | inr (i, low, used) ↦
      let (f, fewer) = free_one u v o i low used in
      drain m s f.state (next r f.step) (Step-Inv u v f.step) (Step-Owned u v o f.step)
        (omega (arith, fewer, few))
]

Reach-Owned : {s u : Shared} → Inv s → Owned s → Reach s u → Owned u
Reach-Owned v o here = o
Reach-Owned v o (next r st) = Step-Owned _ (Reach-Inv v r) (Reach-Owned v o r) st

-- The wait of a close does not hang by itself: from every state that a run of the threads reaches from
-- one where the invariant holds and every marked entry has a holder, a run goes on to a state where no
-- entry is borrowed.
pub Reach-drains :
    (s u : Shared)
    → Inv s
    → Owned s
    → Reach s u
    → (w : Shared) × Reach u w × (any_busy w.pool.size w.pool ≡ false)
Reach-drains s u v o r =
    drain (busy_count u.pool.size u.pool) u u here (Reach-Inv v r) (Reach-Owned v o r) (omega arith)
