-- ===== src/Pool/Lifecycle.antt =====
-- c/src/pool.c: the opening of a pool, and the closing of its connections.
pub mod Filled
pub mod Opening
pub mod Transaction
use cmee1y1_clients.Base.{
  ℕ, zero, suc, ◌+◌, ◌<◌, Bool, true, false, not, ◌||◌, Option, none, some, List, [], ◌∷◌, ◌++◌,
  length, get_or, set, replicate, drop, ltb, ◌==◌, if◌then◌else◌, ℤ, Result, ok, err,
}
use cmee1y1_clients.State.{Pool, PoolEntry, Client, Env, M, fail}
use cmee1y1_clients.State.Code
use cmee1y1_clients.Message.{max_slot}
use cmee1y1_clients.Conn.{ConnSpec, ConnIds, bp_client_txrx_open, bp_client_txrx_close}
use cmee1y1_clients.Pool.{max_size, max_slots, pool_app_handle, blank_entry, zeroed, begin_close}

-- A `bp_pool_spec_t`.
pub record PoolSpec : Type 0 where
  pub slot : ℕ
  pub size : ℕ
  pub keepalive_ms : ℕ
  pub conn_params : ℕ

-- The connection of a handle to a backplane slot.
abbrev pub conn_spec : ℕ → ℕ → ℕ → ConnSpec
conn_spec slot conn_params app_handle = record {
  app_handle = app_handle;
  options = 0;
  encoded_path = some (0x01 ∷ slot ∷ []);
  path_size = 2;
  conn_params = conn_params;
}

-- The pool's state after its `n` entries are there.
abbrev pub filled_pool : PoolSpec → List PoolEntry → Pool
filled_pool spec es = record {
  initialized = true;
  slot = spec.slot;
  size = spec.size;
  keepalive_ms = spec.keepalive_ms;
  conn_params = spec.conn_params;
  entries = es ++ drop (length es) (replicate max_size blank_entry);
  ka_active = false;
  ka_stop = false;
}

abbrev pub pool_at : {W : Type 0} → Client W → ℕ → Pool
pool_at c slot = get_or c.pools slot zeroed

abbrev pub put_pool : {W : Type 0} → Client W → ℕ → Pool → Client W
put_pool c slot p = record c { pools = set c.pools slot p }

-- An entry that was opened is in front of those that were opened after it; a failure ends the loop.
unfoldable pub join_opened :
    {W : Type 0}
    → PoolEntry
    → Client W × Result ConnIds
    → Client W × (List PoolEntry × ℤ)
    → Client W × (List PoolEntry × ℤ)
join_opened e (c, ok ids) (d, (es, rc)) = (d, (e ∷ es, rc))
join_opened e (c, err rc) rest = (c, ([], rc))

module _ {W : Type 0} (env : Env W) where
  -- The loop that opens entry `i` and the ones after it, `n` being left: the entries that were opened,
  -- and the code of the failure that ended the loop, after which no other is opened.
  unfoldable pub open_entries : PoolSpec → ℕ → ℕ → ℕ → Client W → Client W × (List PoolEntry × ℤ)
  open_entries spec now zero i c = (c, ([], Code.bp_ok))
  open_entries spec now (suc n) i c =
      let h = pool_app_handle spec.slot i in
      let r = bp_client_txrx_open env (some (conn_spec spec.slot spec.conn_params h)) c in
      join_opened (record blank_entry { app_handle = h; last_used = now }) r
        (open_entries spec now n (i + 1) r.0)

  -- The connections of the entries are closed, whatever the closes return.
  unfoldable pub close_entries : ℕ → ℕ → List PoolEntry → Client W → Client W
  close_entries slot conn_params [] c = c
  close_entries slot conn_params (e ∷ es) c =
      close_entries slot conn_params es
        (bp_client_txrx_close env (some (conn_spec slot conn_params e.app_handle)) c).0

  -- The keepalive thread is started where there is an interval; its failure only ends the keepalive.
  unfoldable pub start_keepalive : PoolSpec → Pool → M W (Unit {0})
  start_keepalive spec p c =
      let s = env.spawn c.world in
      if ltb 0 spec.keepalive_ms
      then (
        put_pool (record c { world = s.0 }) spec.slot
            (if s.1 then record p { ka_active = true } else record p { keepalive_ms = 0 }),
        ok tt,
      )
      else (put_pool c spec.slot p, ok tt)

  -- A pool that was opened in part is rolled back.
  unfoldable pub settle : PoolSpec → Client W × (List PoolEntry × ℤ) → Client W × Result (Unit {0})
  settle spec (c, (es, rc)) =
      if length es == spec.size
      then start_keepalive spec (filled_pool spec es) c
      else (put_pool (close_entries spec.slot spec.conn_params es c) spec.slot zeroed, err rc)

  unfoldable pub open_all : PoolSpec → M W (Unit {0})
  open_all spec c =
      let t = env.time c.world in
      settle spec (open_entries spec t.1 spec.size 0 (record c { world = t.0 }))

  unfoldable pub bp_client_pool_open : Option PoolSpec → M W (Unit {0})
  bp_client_pool_open none c = (c, err Code.null_arg)
  bp_client_pool_open (some spec) c =
      if ltb max_slot spec.slot
      then (c, err Code.slot_too_large)
      else if ltb spec.size 1 || ltb max_size spec.size
      then (c, err Code.param_range)
      else if (pool_at c spec.slot).initialized
      then (c, err Code.generic)
      else open_all spec c
