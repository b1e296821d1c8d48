-- ===== src/Pool/Borrow.antt =====
-- c/src/pool.c: a request through a pool by `bp_client_pool_txrx`, as it goes while no other thread
-- uses the pool. Pool/Threads has its critical sections among those of other threads.
pub mod Lent
use cmee1y1_clients.Base.{
  ℕ, ◌||◌, not, Option, none, some, ltb, ◌==◌, is_none, if◌then◌else◌, Result, err,
}
use cmee1y1_clients.State.{Client, Env}
use cmee1y1_clients.State.Code
use cmee1y1_clients.Message.{Message, Reply, max_slot}
use cmee1y1_clients.Conn.{bp_client_txrx_msg}
use cmee1y1_clients.Pool.{entry, claim, next_seed, pool_acquire_locked, give_back}
use cmee1y1_clients.Pool.Lifecycle.{pool_at, put_pool, conn_spec}

module _ {W : Type 0} (env : Env W) where
  -- The entry is given back whatever the request came to.
  unfoldable pub after_txrx : ℕ → ℕ → Client W × Result Reply → Client W × Result Reply
  after_txrx slot i (c, r) =
      let t = env.time c.world in
      (put_pool (record c { world = t.0 }) slot (give_back (pool_at c slot) i t.1), r)

  -- Entry `i` was found. The counter of the search has gone on.
  unfoldable pub txrx_on : ℕ → Message → ℕ → Client W → Client W × Result Reply
  txrx_on slot m i c =
      let p = pool_at c slot in
      after_txrx slot i (
        bp_client_txrx_msg env (some (conn_spec slot p.conn_params (entry p i).app_handle)) m
          (put_pool (record c { rr_seed = next_seed c.rr_seed }) slot (claim p i)))

  -- Without an entry the call waits, and there is no result.
  unfoldable pub txrx_found : ℕ → Message → Option ℕ → Client W → Option (Client W × Result Reply)
  txrx_found slot m none c = none
  txrx_found slot m (some i) c = some (txrx_on slot m i c)

  unfoldable pub bp_client_pool_txrx : ℕ → Message → Client W → Option (Client W × Result Reply)
  bp_client_pool_txrx slot m c =
      if is_none m.cip_request || not m.resp_data || m.req_size == 0 || m.resp_capacity == 0
      then some (c, err Code.null_arg)
      else if ltb max_slot slot
      then some (c, err Code.slot_too_large)
      else if not (pool_at c slot).initialized
      then some (c, err Code.not_open)
      else txrx_found slot m (pool_acquire_locked (pool_at c slot) c.rr_seed) c
