-- ===== src/Tests/Pools.antt =====
-- Runs of the pool's theorems.
use cmee1y1_clients.Base.{
  ℕ, zero, suc, ◌<◌, ◌≡◌, refl, true, false, none, some, [], ◌∷◌, inl, inr, ◌⊎◌, arith, replicate,
}
use cmee1y1_clients.State.{Pool}
use cmee1y1_clients.Pool.{
  entry, blank_entry, pool_acquire_locked, search_from, any_busy, claim, give_back, next_seed,
}
use cmee1y1_clients.Pool.Acquire.{pool_acquire_finds}
use cmee1y1_clients.Pool.Backoff.{AllBackedOff}
use cmee1y1_clients.Pool.Threads.{
  idle, using, holds, Shared, borrow, returned, Reach, here, next, Inv, with_task,
}
use cmee1y1_clients.Pool.Threads.Exclusion.{Reach-exclusive, Reach-drained}
use cmee1y1_clients.State.{Client}
use cmee1y1_clients.Conn.Table.{lookup, Distinct}
use cmee1y1_clients.Pool.{zeroed}
use cmee1y1_clients.Pool.Lifecycle.{PoolSpec, bp_client_pool_open}
use cmee1y1_clients.Pool.Lifecycle.Transaction.{Pooled, pool_open-Pooled}
use cmee1y1_clients.Pool.Borrow.{bp_client_pool_txrx}
use cmee1y1_clients.Pool.Borrow.Lent.{Ended, pool_txrx-Ended}
use cmee1y1_clients.Tests.{server, client, message}

abbrev pub pool : Pool
pool = record {
  initialized = true;
  slot = 3;
  size = 2;
  keepalive_ms = 1000;
  conn_params = 0;
  entries = blank_entry ∷ record blank_entry { dead = true; reopen_backoff_ms = 1000 } ∷ [];
  ka_active = true;
  ka_stop = false;
}

abbrev pub shared : Shared
shared = record { pool = pool; rr_seed = 0; task = λ t. idle }

pub shared-Inv : Inv shared
unfolding holds
shared-Inv = record {
  sized = omega arith;
  not_empty = omega arith;
  in_range = λ t i h. cc;
  marked = λ t i h. cc;
  exclusive = λ t u i h g. cc;
}

first_free : pool_acquire_locked pool 0 ≡ some 0
unfolding pool_acquire_locked search_from
first_free = refl

-- Thread 4 has borrowed entry 0.
abbrev pub lent : Shared
lent = record {
  pool = claim pool 0;
  rr_seed = next_seed 0;
  task = with_task shared.task 4 (using 0);
}

pub borrowed : Reach shared lent
borrowed = next here (borrow 4 0 (inl refl) refl first_free)

Reach-exclusive_example :
    (◌≡◌ {A = ℕ} 4 4) × (0 < lent.pool.size) × ((entry lent.pool 0).in_use ≡ true)
unfolding holds
Reach-exclusive_example = Reach-exclusive shared lent shared-Inv borrowed 4 4 0 refl refl

-- Thread 4 has given it back at time 9.
abbrev restored : Shared
restored = record lent { pool = give_back lent.pool 0 9; task = with_task lent.task 4 idle }

given_back : Reach shared restored
given_back = next borrowed (returned 4 0 9 refl)

none_busy : any_busy restored.pool.size restored.pool ≡ false
unfolding any_busy claim give_back
none_busy = refl

Reach-drained_example : holds (restored.task 4) ≡ none
Reach-drained_example = Reach-drained shared restored shared-Inv given_back none_busy 4

pool_acquire_finds_example :
    ((i : ℕ) × (pool_acquire_locked pool 7 ≡ some i)
      × (i < 2)
      × ((entry pool i).in_use ≡ false)
      × ((entry pool i).dead ≡ false))
    ⊎ ((pool_acquire_locked pool 7 ≡ none)
        × ((i : ℕ) → i < 2 → ((entry pool i).in_use ≡ true) ⊎ ((entry pool i).dead ≡ true)))
pool_acquire_finds_example = pool_acquire_finds pool 7 (omega arith)

pool-AllBackedOff : AllBackedOff pool
pool-AllBackedOff zero = (omega arith, inl refl, λ e. cc)
pool-AllBackedOff (suc zero) = (omega arith, inr (omega arith), λ e. omega arith)
pool-AllBackedOff (suc (suc j)) = (omega arith, inl refl, λ e. cc)

abbrev two_conns : PoolSpec
two_conns = record { slot = 3; size = 2; keepalive_ms = 1000; conn_params = 0 }

-- A client with no connection and no pool.
abbrev pub unpooled : Client (Unit {0})
unpooled = record client { pools = replicate 20 zeroed }

pub unpooled-Distinct : Distinct unpooled.txrx_conns
unfolding lookup
unpooled-Distinct = (λ e. refl, (λ e. refl, tt))

pool_open-Pooled_example :
    Pooled server two_conns unpooled (bp_client_pool_open server (some two_conns) unpooled)
pool_open-Pooled_example = pool_open-Pooled server two_conns unpooled unpooled-Distinct refl

-- The pool of slot 3 is open.
abbrev pub pooled : Client (Unit {0})
pooled = record unpooled { pools = zeroed ∷ zeroed ∷ zeroed ∷ pool ∷ [] }

pool_txrx-Ended_example :
    Ended server 3 message pooled (bp_client_pool_txrx server 3 message pooled)
pool_txrx-Ended_example =
    pool_txrx-Ended server 3 message pooled (omega arith) (omega arith) (omega arith)
