-- ===== src/Tests/Batches.antt =====
-- Runs of the theorems on batches of a pool, on its keepalive and on closing a pool.
use cmee1y1_clients.Base.{
  ℕ, zero, suc, ◌+◌, ◌*◌, ◌≤◌, ◌<◌, ◌≡◌, ◌⊎◌, ◌↔◌, refl, Bool, true, false, arith, pos,
}
use cmee1y1_clients.State.Code
use cmee1y1_clients.Pool.{any_busy}
use cmee1y1_clients.Pool.Batch.{
  Outcome, Batch, Step, Run, here, next, take, leave, complete, started, mark_rest, overall, ended,
}
use cmee1y1_clients.Pool.Batch.Ends.{Over, batch_ends}
use cmee1y1_clients.Pool.Batch.Results.{batch_result}
use cmee1y1_clients.Pool.Keepalive.{keepalive_turn}
use cmee1y1_clients.Pool.Keepalive.Stored.{Turned}
use cmee1y1_clients.Pool.Keepalive.Whole.{keepalive_turn-Turned}
use cmee1y1_clients.Pool.Threads.{Shared, Reach}
use cmee1y1_clients.Pool.Threads.Draining.{Reach-drains}
use cmee1y1_clients.Pool.Threads.Owned.{Owned}
use cmee1y1_clients.Tests.{server}
use cmee1y1_clients.Tests.Pools.{pooled, shared, shared-Inv, lent, borrowed}

abbrev fresh : ℕ → Outcome
fresh i = record { rc = pos 0; resp_len = 7 }

abbrev answered : ℕ → Outcome
answered i = record { rc = pos 0; resp_len = 4 }

abbrev all_return : ℕ → Bool
all_return i = true

-- One worker takes the only item, its request is answered, and it ends.
done_run : (c : Batch) × Run all_return answered (started 1 1 fresh) 3 c × (c.worker 0 ≡ ended)
done_run = (
  _,
  next (next (next here (take 0 refl (omega arith))) (complete 0 0 refl refl))
      (leave 0 refl (omega arith)),
  refl,
)

batch_ends_example :
    (3 ≤ 2 * 1 + 1)
    × (((w : ℕ) → w < 1 → Over all_return (done_run.0.worker w))
        ⊎ ((d : Batch) × Step all_return answered done_run.0 d))
batch_ends_example = batch_ends 1 1 fresh all_return answered 3 done_run.0 done_run.1

ended_all : (w : ℕ) → w < 1 → done_run.0.worker w ≡ ended
unfolding done_run
ended_all zero h = refl
ended_all (suc w) h = absurd (omega (arith, h))

batch_result_example :
    ((i : ℕ) → i < 1 → mark_rest done_run.0 i ≡ answered i)
    × ((overall 1 (mark_rest done_run.0) ≡ Code.bp_ok)
        ↔ ((i : ℕ) → i < 1 → (answered i).rc ≡ Code.bp_ok))
batch_result_example =
    batch_result 1 1 fresh answered 3 done_run.0 done_run.1 (omega arith) ended_all

shared-Owned : Owned shared
shared-Owned zero h used = cc
shared-Owned (suc zero) h used = cc
shared-Owned (suc (suc i)) h used = absurd (omega (arith, h))

-- Thread 4 holds entry 0.
Reach-drains_example : (w : Shared) × Reach lent w × (any_busy w.pool.size w.pool ≡ false)
Reach-drains_example = Reach-drains shared lent shared-Inv shared-Owned borrowed

keepalive_turn-Turned_example : Turned 3 pooled (keepalive_turn server 3 pooled).0
keepalive_turn-Turned_example = keepalive_turn-Turned server 3 pooled (omega arith) (omega arith)
