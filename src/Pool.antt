-- ===== src/Pool.antt =====
-- c/src/pool.c: the connection pool of a backplane slot. Each function here is what runs while the
-- pool's mutex is held; Pool/Threads.antt interleaves them.
pub mod Acquire
pub mod Backoff
pub mod Threads
pub mod Lifecycle
pub mod Batch
pub mod Closing
pub mod Deadline
pub mod Borrow
pub mod Keepalive
use cmee1y1_clients.Base.{
  ℕ, zero, suc, ◌+◌, ◌-◌, ◌*◌, ◌/◌, ◌%◌, ◌^◌, ◌<◌, Bool, true, false, not, ◌&&◌, ◌||◌, Option, none,
  some, List, [], ◌∷◌, get_or, set, replicate, ltb, ◌==◌, if◌then◌else◌,
}
use cmee1y1_clients.State.{Pool, PoolEntry}

-- `BP_POOL_MAX_SIZE`, `BP_POOL_MAX_SLOTS` and `BP_POOL_APP_HANDLE_BASE`.
abbrev pub max_size : ℕ
max_size = 16

abbrev pub max_slots : ℕ
max_slots = 20

-- The fields do not overlap for a slot below 20 and an index below 16, so `|` is written `+`.
unfoldable pub pool_app_handle : ℕ → ℕ → ℕ
pool_app_handle slot index = (0x8000 + slot * 2 ^ 8 + index) % 2 ^ 16

abbrev pub blank_entry : PoolEntry
blank_entry = record {
  in_use = false;
  app_handle = 0;
  last_used = 0;
  dead = false;
  last_reopen_attempt = 0;
  reopen_backoff_ms = 0;
}

-- `pool->entries[i]`.
abbrev pub entry : Pool → ℕ → PoolEntry
entry p i = get_or p.entries i blank_entry

abbrev pub put_entry : Pool → ℕ → PoolEntry → Pool
put_entry p i e = record p { entries = set p.entries i e }

abbrev pub is_available : Pool → ℕ → Bool
is_available p i = not (entry p i).in_use && not (entry p i).dead

-- The first available index among `start`, `start + 1`, … modulo the size, from `step` on, `n`
-- steps being left.
unfoldable pub search_from : ℕ → ℕ → ℕ → Pool → Option ℕ
search_from zero step start p = none
search_from (suc n) step start p =
    let rest = search_from n (step + 1) start p in
    let i = (start + step) % p.size in if is_available p i then some i else rest

unfoldable pub claim : Pool → ℕ → Pool
claim p i = put_entry p i (record (entry p i) { in_use = true })

-- The index with the pool in which it is marked; `seed` is the static counter.
unfoldable pub pool_acquire_locked : Pool → ℕ → Option ℕ
pool_acquire_locked p seed = search_from p.size 0 (seed % p.size) p

abbrev pub next_seed : ℕ → ℕ
next_seed seed = (seed + 1) % 2 ^ 32

-- The end of `bp_client_pool_txrx`.
unfoldable pub give_back : Pool → ℕ → ℕ → Pool
give_back p i now = put_entry p i (record (entry p i) { in_use = false; last_used = now })

-- An entry is pinged if it is free, alive and idle for long enough. C subtracts in `long`; where
-- the difference is negative, both tests say that it is too early, as `keepalive_ms` and the
-- back-off are positive.
unfoldable pub is_ping_due : Pool → ℕ → ℕ → Bool
is_ping_due p i now =
    let e = entry p i in not (e.in_use || e.dead || ltb ((now - e.last_used) * 1000) p.keepalive_ms)

-- After a ping; `answered` is `prc == BP_OK`, and `now` and `later` are the two readings of the clock.
unfoldable pub finish_ping : Pool → ℕ → Bool → ℕ → ℕ → Pool
finish_ping p i true now later = give_back p i now
finish_ping p i false now later = put_entry p i (record (entry p i) {
  in_use = false;
  last_used = now;
  dead = true;
  last_reopen_attempt = later;
  reopen_backoff_ms =
      if (entry p i).reopen_backoff_ms == 0 then 1000 else (entry p i).reopen_backoff_ms;
})

unfoldable pub is_reopen_due : Pool → ℕ → ℕ → Bool
is_reopen_due p i now =
    let e = entry p i in
    not (not e.dead || e.in_use)
    && not (ltb ((now - e.last_reopen_attempt) * 1000) e.reopen_backoff_ms)

unfoldable pub claim_reopen : Pool → ℕ → ℕ → Pool
claim_reopen p i now =
    put_entry p i (record (entry p i) { in_use = true; last_reopen_attempt = now })

unfoldable pub next_backoff : ℕ → ℕ
next_backoff b = if ltb 30000 (b * 2) then 30000 else b * 2

unfoldable pub finish_reopen : Pool → ℕ → Bool → ℕ → Pool
finish_reopen p i true now =
    put_entry p i (record (entry p i) {
      in_use = false;
      dead = false;
      last_used = now;
      reopen_backoff_ms = 1000;
    })
finish_reopen p i false now = put_entry p i (record (entry p i) {
  in_use = false;
  reopen_backoff_ms = next_backoff (entry p i).reopen_backoff_ms;
})

-- The interval at which the keepalive thread wakes.
unfoldable pub keepalive_interval_ms : ℕ → ℕ
keepalive_interval_ms keepalive_ms =
    let a = keepalive_ms / 2 in
    let b = if ltb a 500 then 500 else a in if ltb 5000 b then 5000 else b

-- `bp_client_pool_close` up to the join of the keepalive thread.
unfoldable pub begin_close : Pool → Pool
begin_close p = record p { initialized = false; ka_stop = true }

-- Whether an entry below `n` is borrowed.
unfoldable pub any_busy : ℕ → Pool → Bool
any_busy zero p = false
any_busy (suc n) p = (entry p n).in_use || any_busy n p

-- `memset(pool, 0, sizeof(*pool))`.
abbrev pub zeroed : Pool
zeroed = record {
  initialized = false;
  slot = 0;
  size = 0;
  keepalive_ms = 0;
  conn_params = 0;
  entries = replicate max_size blank_entry;
  ka_active = false;
  ka_stop = false;
}
