-- ===== src/Pool/Acquire.antt =====
-- Which entry a borrower gets.
use cmee1y1_clients.Base.{
  ℕ, zero, suc, ◌+◌, ◌-◌, ◌%◌, ◌≤◌, ◌<◌, ◌≡◌, true, false, none, some, arith, Bool-cases, ◌⊎◌, inl,
  inr, subst, ◌∙◌, ap, eq_or_above, lt_or_le, Option-cases,
}
use native.Mathlib.Nat.{mod-lt, mod-eq_of_lt}
use cmee1y1_clients.State.{Pool}
use cmee1y1_clients.Pool.{
  entry, is_available, search_from, pool_acquire_locked, pool_app_handle, max_slots, max_size,
}

search_from-some :
    (n step start : ℕ) (p : Pool) (i : ℕ)
    → 0 < p.size
    → search_from n step start p ≡ some i
    → (i < p.size) × (is_available p i ≡ true)
unfolding search_from
search_from-some zero step start p i pos e = cc
search_from-some (suc n) step start p i pos e =
    elim (Bool-cases (is_available p ((start + step) % p.size))) [
      | inl free ↦ ground (arith, free, mod-lt (start + step) pos)
      | inr busy ↦ search_from-some n (step + 1) start p i pos (rw busy at e)
    ]

search_from-none :
    (n step start : ℕ) (p : Pool) (k : ℕ)
    → search_from n step start p ≡ none
    → step ≤ k
    → k < step + n
    → is_available p ((start + k) % p.size) ≡ false
unfolding search_from
search_from-none zero step start p k e a b = absurd (omega arith)
search_from-none (suc n) step start p k e a b =
    elim (Bool-cases (is_available p ((start + step) % p.size))) [
      | inl free ↦ ground (arith, free)
      | inr busy ↦ elim (eq_or_above step k a) [
        | inl same ↦ subst (λ j. is_available p ((start + j) % p.size) ≡ false) same busy
        | inr above ↦ search_from-none n (step + 1) start p k (rw busy at e) above (omega arith)
      ]
    ]

mod_wrap : (i n : ℕ) → i < n → (i + n) % n ≡ i
mod_wrap i n h = grind arith

-- The steps of the round robin reach every index.
step_to : (start i n : ℕ) → start < n → i < n → (k : ℕ) × (k < n) × ((start + k) % n ≡ i)
step_to start i n a b = elim (lt_or_le i start) [
  | inl below ↦ (i + n - start, omega arith, ap (λ (t : ℕ). t % n) (omega arith) ∙ mod_wrap i n b)
  | inr above ↦ (i - start, omega arith, ap (λ (t : ℕ). t % n) (omega arith) ∙ mod-eq_of_lt b)
]

-- In a pool that is not of size 0 a borrower gets an entry of the pool that is neither borrowed nor
-- dead, and goes without only if there is none, wherever the round robin starts.
pub pool_acquire_finds :
    (p : Pool) (seed : ℕ)
    → 0 < p.size
    → ((i : ℕ) × (pool_acquire_locked p seed ≡ some i)
        × (i < p.size)
        × ((entry p i).in_use ≡ false)
        × ((entry p i).dead ≡ false))
      ⊎ ((pool_acquire_locked p seed ≡ none)
          × ((i : ℕ) → i < p.size → ((entry p i).in_use ≡ true) ⊎ ((entry p i).dead ≡ true)))
unfolding pool_acquire_locked
pool_acquire_finds p seed pos = elim (Option-cases (search_from p.size 0 (seed % p.size) p)) [
  | inl e ↦ inr (
    e,
    λ i h.
        let (k, short, hits) = step_to (seed % p.size) i p.size (mod-lt seed pos) h in
        let out =
          subst (λ j. is_available p j ≡ false) hits
            (search_from-none p.size 0 (seed % p.size) p k e (omega arith) (omega arith)) in
        ground (arith, out),
  )
  | inr (i, e) ↦
      let (below, free) = search_from-some p.size 0 (seed % p.size) p i pos e in
      inl (i, e, below, ground (arith, free), ground (arith, free))
]

-- For slots below 20 and indices below 16: pool handles stay out of the callers' range, and no two
-- connections of a client's pools share one.
pub pool_app_handle-injective :
    (s t i j : ℕ)
    → s < max_slots
    → t < max_slots
    → i < max_size
    → j < max_size
    → (0x8000 ≤ pool_app_handle s i)
      × (pool_app_handle s i ≡ pool_app_handle t j → (s ≡ t) × (i ≡ j))
unfolding pool_app_handle
pool_app_handle-injective s t i j a b c d = (omega arith, λ e. (omega arith, omega arith))
