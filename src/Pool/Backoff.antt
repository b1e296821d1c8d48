-- ===== src/Pool/Backoff.antt =====
-- The back-off of the automatic reopening.
use cmee1y1_clients.Base.{
  ℕ, zero, suc, ◌*◌, ◌^◌, ◌≤◌, ◌<◌, ◌≡◌, refl, ◌⊎◌, inl, inr, Bool, true, false, arith, length, set,
  get_or, get_or-set_self, get_or-set_ne, min, subst, eq_or_ne,
}
use mathlib.Core.Path.{subst⁻¹}
use native.Mathlib.Nat.{pow-suc}
use cmee1y1_clients.State.{Pool, PoolEntry}
use cmee1y1_clients.Pool.{
  entry, put_entry, blank_entry, give_back, finish_ping, finish_reopen, next_backoff,
  keepalive_interval_ms,
}

-- The back-off of an entry is unset or between 1 s and 30 s, and set once the entry is dead.
abbrev pub IsBackedOff : PoolEntry → Type 0
IsBackedOff e =
    (e.reopen_backoff_ms ≤ 30000)
    × ((e.reopen_backoff_ms ≡ 0) ⊎ (1000 ≤ e.reopen_backoff_ms))
    × (e.dead ≡ true → 1000 ≤ e.reopen_backoff_ms)

-- Failing `k` times in a row, from the first failed ping on.
abbrev pub failures : ℕ → ℕ → ℕ
failures zero b = b
failures (suc k) b = next_backoff (failures k b)

-- The `k`-th failed reopening in a row waits min(1000 * 2 ^ k, 30000) milliseconds.
pub failures-doubles : (k : ℕ) → failures k 1000 ≡ min (1000 * 2 ^ k) 30000
unfolding next_backoff
failures-doubles zero = refl
failures-doubles (suc k) = rw (failures-doubles k) (ground (arith, pow-suc 2 k))

-- The keepalive thread wakes every half `keepalive_ms`, kept between 0.5 s and 5 s.
pub keepalive_interval_bounds :
    (k : ℕ) → (500 ≤ keepalive_interval_ms k) × (keepalive_interval_ms k ≤ 5000)
unfolding keepalive_interval_ms
keepalive_interval_bounds k = ground arith

-- A property of all entries survives the replacement of one by an entry that has it.
pub put_entry-All :
    (P : PoolEntry → Type 0) (p : Pool) (i : ℕ) (e : PoolEntry)
    → i < length p.entries
    → P e
    → ((j : ℕ) → P (entry p j))
    → ((j : ℕ) → P (entry (put_entry p i e) j))
put_entry-All P p i e h pe all j = elim (eq_or_ne i j) [
  | inl same ↦
      subst (λ k. P (get_or (set p.entries i e) k blank_entry)) same
        (subst⁻¹ P (get_or-set_self p.entries i e blank_entry h) pe)
  | inr other ↦ subst⁻¹ P (get_or-set_ne p.entries i j e blank_entry other) (all j)
]

abbrev pub AllBackedOff : Pool → Type 0
AllBackedOff p = (j : ℕ) → IsBackedOff (entry p j)

-- Where every back-off is in its bounds, it is so after a ping, answered or not; an entry that is
-- declared dead has one of at least 1 s.
pub finish_ping-IsBackedOff :
    (p : Pool) (i now later : ℕ) (answered : Bool)
    → i < length p.entries
    → AllBackedOff p
    → AllBackedOff (finish_ping p i answered now later)
unfolding finish_ping give_back
finish_ping-IsBackedOff p i now later true h all = put_entry-All IsBackedOff p i _ h (all i) all
finish_ping-IsBackedOff p i now later false h all =
    let b = all i in put_entry-All IsBackedOff p i _ h (ground (arith, b)) all

-- Where every back-off is in its bounds, it is so after an attempt to reopen a dead entry, whether it
-- succeeds or fails: no dead entry waits longer than 30 s or shorter than 1 s.
pub finish_reopen-IsBackedOff :
    (p : Pool) (i now : ℕ) (opened : Bool)
    → i < length p.entries
    → (entry p i).dead ≡ true
    → AllBackedOff p
    → AllBackedOff (finish_reopen p i opened now)
unfolding finish_reopen next_backoff
finish_reopen-IsBackedOff p i now true h d all =
    put_entry-All IsBackedOff p i _ h (omega arith, inr (omega arith), λ e. omega arith) all
finish_reopen-IsBackedOff p i now false h d all =
    let b = all i in put_entry-All IsBackedOff p i _ h (ground (arith, b)) all
