-- ===== src/Pool/Deadline.antt =====
-- c/src/pool.c: the deadlines of the keepalive thread's waits.
use cmee1y1_clients.Base.{
  ℕ, ◌+◌, ◌-◌, ◌*◌, ◌/◌, ◌%◌, ◌<◌, ◌≡◌, arith, leb, if◌then◌else◌, Bool-cases, inl, inr,
}

pub record Timespec : Type 0 where
  pub tv_sec : ℕ
  pub tv_nsec : ℕ

abbrev carried : Timespec → Timespec
carried ts =
    if leb 1000000000 ts.tv_nsec
    then record { tv_sec = ts.tv_sec + 1; tv_nsec = ts.tv_nsec - 1000000000 }
    else ts

-- `ts` is what the clock gives. The delay is the interval of the thread, which is not negative.
unfoldable pub deadline_add_ms : Timespec → ℕ → Timespec
deadline_add_ms ts delta_ms = carried (record {
  tv_sec = ts.tv_sec + delta_ms / 1000;
  tv_nsec = ts.tv_nsec + delta_ms % 1000 * 1000000;
})

-- From a valid time of the clock a deadline is valid again, and lies the delay after it.
pub deadline_add_ms_lem :
    (ts : Timespec) (delta_ms : ℕ)
    → ts.tv_nsec < 1000000000
    → let d = deadline_add_ms ts delta_ms in
      (d.tv_nsec < 1000000000)
      × (d.tv_sec * 1000000000 + d.tv_nsec
          ≡ ts.tv_sec * 1000000000 + ts.tv_nsec + delta_ms * 1000000)
unfolding deadline_add_ms
deadline_add_ms_lem ts delta_ms valid =
    elim (Bool-cases (leb 1000000000 (ts.tv_nsec + delta_ms % 1000 * 1000000))) [
      | inl over ↦ rw (over) (ground (arith, valid, over), ground (arith, valid, over))
      | inr fits ↦ rw (fits) (ground (arith, valid, fits), ground (arith, valid, fits))
    ]
