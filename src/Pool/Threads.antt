-- ===== src/Pool/Threads.antt =====
-- The threads that share a pool. Each critical section of c/src/pool.c is one step; between two
-- steps of a thread, while its request is on the wire, any other thread may take a step.
pub mod Exclusion
pub mod Owned
pub mod Draining
use cmee1y1_clients.Base.{
  ℕ, ◌+◌, ◌<◌, ◌≤◌, ◌≡◌, ◌≢◌, refl, sym, ap, ◌∙◌, ◌⊎◌, inl, inr, Bool, true, false, Option, some,
  none, ◌==◌, if◌then◌else◌, arith, length, subst, eq_or_ne,
}
use cmee1y1_clients.State.{Pool, PoolEntry}
use cmee1y1_clients.Pool.{
  entry, claim, give_back, is_ping_due, finish_ping, is_reopen_due, claim_reopen, finish_reopen,
  pool_acquire_locked, next_seed, begin_close, any_busy, zeroed, search_from,
}

-- What a thread is doing: nothing with the pool, blocked on the condition variable, or holding an
-- entry while it sends a request, a ping or a Forward Open on its connection.
pub data Task : Type 0 where
  idle waiting : Task
  using pinging reopening : ℕ → Task

-- The entry that a task holds.
unfoldable pub holds : Task → Option ℕ
holds idle = none
holds waiting = none
holds (using i) = some i
holds (pinging i) = some i
holds (reopening i) = some i

pub record Shared : Type 0 where
  pub pool : Pool
  pub rr_seed : ℕ
  pub task : ℕ → Task

abbrev pub with_task : (ℕ → Task) → ℕ → Task → ℕ → Task
with_task task t k = λ u. if u == t then k else task u

abbrev pub IsReady : Task → Type 0
IsReady k = (k ≡ idle) ⊎ (k ≡ waiting)

-- A thread `t` takes a step. The clock's readings are arbitrary, and any idle thread may do what only
-- the keepalive thread does, or begin the closing, so there are more runs here than in C.
pub data Step (s : Shared) : Shared → Type 0 where
  borrow :
      (t i : ℕ)
      → IsReady (s.task t)
      → s.pool.initialized ≡ true
      → pool_acquire_locked s.pool s.rr_seed ≡ some i
      → Step s (record {
        pool = claim s.pool i;
        rr_seed = next_seed s.rr_seed;
        task = with_task s.task t (using i);
      })
  block :
      (t : ℕ)
      → IsReady (s.task t)
      → s.pool.initialized ≡ true
      → pool_acquire_locked s.pool s.rr_seed ≡ none
      → Step s (record s { rr_seed = next_seed s.rr_seed; task = with_task s.task t waiting })
  refused :
      (t : ℕ)
      → IsReady (s.task t)
      → s.pool.initialized ≡ false
      → Step s (record s { task = with_task s.task t idle })
  returned :
      (t i now : ℕ)
      → s.task t ≡ using i
      → Step s (record s { pool = give_back s.pool i now; task = with_task s.task t idle })
  ping :
      (t i now : ℕ)
      → s.task t ≡ idle
      → i < s.pool.size
      → s.pool.ka_stop ≡ false
      → is_ping_due s.pool i now ≡ true
      → Step s (record s { pool = claim s.pool i; task = with_task s.task t (pinging i) })
  pinged :
      (t i now later : ℕ) (answered : Bool)
      → s.task t ≡ pinging i
      → Step s (record s {
        pool = finish_ping s.pool i answered now later;
        task = with_task s.task t idle;
      })
  reopen :
      (t i now : ℕ)
      → s.task t ≡ idle
      → i < s.pool.size
      → s.pool.ka_stop ≡ false
      → is_reopen_due s.pool i now ≡ true
      → Step s
          (record s { pool = claim_reopen s.pool i now; task = with_task s.task t (reopening i) })
  reopened :
      (t i now : ℕ) (opened : Bool)
      → s.task t ≡ reopening i
      → Step s
          (record s { pool = finish_reopen s.pool i opened now; task = with_task s.task t idle })
  closing : Step s (record s { pool = begin_close s.pool })

pub data Reach (s : Shared) : Shared → Type 0 where
  here : Reach s s
  next : {u v : Shared} → Reach s u → Step u v → Reach s v

-- What holds at any time: a held entry is one of the pool's and is marked, and no two threads hold
-- the same one.
pub record Inv (s : Shared) : Type 0 where
  pub sized : s.pool.size ≤ length s.pool.entries
  pub not_empty : 0 < s.pool.size
  pub in_range : (t i : ℕ) → holds (s.task t) ≡ some i → i < s.pool.size
  pub marked : (t i : ℕ) → holds (s.task t) ≡ some i → (entry s.pool i).in_use ≡ true
  pub exclusive : (t u i : ℕ) → holds (s.task t) ≡ some i → holds (s.task u) ≡ some i → t ≡ u
