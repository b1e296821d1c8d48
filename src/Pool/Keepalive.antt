-- ===== src/Pool/Keepalive.antt =====
-- c/src/pool.c: a turn of the keepalive thread with its requests, as it goes while no other thread uses
-- the pool. Pool/Threads has its critical sections among those of other threads, and Pool/Deadline the
-- time for which it sleeps before a turn.
pub mod Turns
pub mod Frame
pub mod Stored
pub mod Whole
use cmee1y1_clients.Base.{
  ℕ, zero, suc, ◌+◌, ◌||◌, not, Bool, true, false, some, List, [], ◌∷◌, if◌then◌else◌, Result, ok,
  err,
}
use cmee1y1_clients.State.{Client, Env, M}
use cmee1y1_clients.Message.{Message, Reply}
use cmee1y1_clients.Conn.{
  ConnIds, bp_client_txrx_open, bp_client_txrx_msg, bp_txrx_force_close_local,
}
use cmee1y1_clients.Pool.{
  entry, claim, is_ping_due, finish_ping, is_reopen_due, claim_reopen, finish_reopen,
}
use cmee1y1_clients.Pool.Lifecycle.{pool_at, put_pool, conn_spec}

-- `POOL_KEEPALIVE_REQ`, with a reply of 64 bytes at most. The slot comes from the connection.
abbrev pub keepalive_req : Message
keepalive_req = record {
  slot = 0;
  cip_request = some (0x01 ∷ 0x02 ∷ 0x20 ∷ 0x01 ∷ 0x24 ∷ 0x01 ∷ []);
  req_size = 6;
  timeout_ms = 5000;
  resp_data = true;
  resp_capacity = 64;
}

module _ {W : Type 0} (env : Env W) where
  unfoldable pub after_ping : ℕ → ℕ → Client W × Result Reply → Client W
  after_ping slot i (c, ok reply) =
      let t = env.time c.world in
      put_pool (record c { world = t.0 }) slot (finish_ping (pool_at c slot) i true t.1 t.1)
  after_ping slot i (c, err rc) =
      let t = env.time c.world in
      let u = env.time t.0 in
      put_pool (record c { world = u.0 }) slot (finish_ping (pool_at c slot) i false t.1 u.1)

  -- `now` is the time at which the turn began.
  unfoldable pub ping_entry : ℕ → ℕ → ℕ → Client W → Client W
  ping_entry slot now i c =
      let p = pool_at c slot in
      if is_ping_due p i now
      then after_ping slot i (
          bp_client_txrx_msg env (some (conn_spec slot p.conn_params (entry p i).app_handle))
            keepalive_req (put_pool c slot (claim p i)))
      else c

  unfoldable pub after_reopen : ℕ → ℕ → Client W × Result ConnIds → Client W
  after_reopen slot i (c, ok ids) =
      let t = env.time c.world in
      put_pool (record c { world = t.0 }) slot (finish_reopen (pool_at c slot) i true t.1)
  after_reopen slot i (c, err rc) = put_pool c slot (finish_reopen (pool_at c slot) i false 0)

  -- The stale connection is dropped here and a new one is opened under the same handle.
  unfoldable pub reopen_claimed : ℕ → ℕ → ℕ → Client W → Client W
  reopen_claimed slot i now c =
      let p = pool_at c slot in
      let h = (entry p i).app_handle in
      after_reopen slot i (
        bp_client_txrx_open env (some (conn_spec slot p.conn_params h))
          (bp_txrx_force_close_local env h (put_pool c slot (claim_reopen p i now))).0)

  unfoldable pub reopen_entry : ℕ → ℕ → Client W → Client W
  reopen_entry slot i c =
      let p = pool_at c slot in
      let t = env.time c.world in
      let d = record c { world = t.0 } in
      if not (entry p i).dead || (entry p i).in_use
      then c
      else if is_reopen_due p i t.1
      then reopen_claimed slot i t.1 d
      else d

  -- The loop over the entries from `i` on, `n` being left; it ends early where the pool closes.
  unfoldable pub each_entry : (ℕ → Client W → Client W) → ℕ → ℕ → ℕ → Client W → Client W × Bool
  each_entry f slot zero i c = (c, false)
  each_entry f slot (suc n) i c =
      let rest = each_entry f slot n (i + 1) (f i c) in
      if (pool_at c slot).ka_stop then (c, true) else rest

  -- A turn, and whether the thread ends.
  unfoldable pub keepalive_turn : ℕ → Client W → Client W × Bool
  keepalive_turn slot c =
      let t = env.time c.world in
      let n = (pool_at c slot).size in
      let a = each_entry (ping_entry slot t.1) slot n 0 (record c { world = t.0 }) in
      let b = each_entry (reopen_entry slot) slot n 0 a.0 in if a.1 then a else b
