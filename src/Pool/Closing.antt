-- ===== src/Pool/Closing.antt =====
-- c/src/pool.c: the closing of a pool by `bp_client_pool_close`.
pub mod Closed
use cmee1y1_clients.Base.{
  ℕ, Bool, true, false, not, Option, none, some, List, [], ◌∷◌, take, ltb, ◌==◌, if◌then◌else◌,
  Result, ok, err, leb,
}
use cmee1y1_clients.State.{Pool, PoolEntry, Client, Env}
use cmee1y1_clients.State.Code
use cmee1y1_clients.Pool.{max_slots, zeroed, begin_close, any_busy}
use cmee1y1_clients.Pool.Lifecycle.{pool_at, put_pool, close_entries}

-- Entries without a handle are passed over.
unfoldable pub live_entries : List PoolEntry → List PoolEntry
live_entries [] = []
live_entries (e ∷ es) = let rest = live_entries es in if e.app_handle == 0 then rest else e ∷ rest

-- The pool when the keepalive thread has been joined, if there was one.
abbrev pub stopped : Pool → Pool
stopped p = record (begin_close p) { ka_active = false }

module _ {W : Type 0} (env : Env W) where
  -- What is done when no entry is borrowed.
  unfoldable pub close_drained : ℕ → Client W → Client W
  close_drained slot c =
      let p = pool_at c slot in
      put_pool (close_entries env slot p.conn_params (live_entries (take p.size p.entries)) c) slot
        zeroed

  -- While an entry is borrowed the close waits: without a step of the borrower it does not return,
  -- and there is no result.
  unfoldable pub bp_client_pool_close : ℕ → Client W → Option (Client W × Result (Unit {0}))
  bp_client_pool_close slot c =
      let p = pool_at c slot in
      let d = put_pool c slot (stopped p) in
      if leb max_slots slot
      then some (c, err Code.slot_too_large)
      else if not p.initialized
      then some (c, ok tt)
      else if any_busy p.size (stopped p)
      then none
      else some (close_drained slot d, ok tt)
