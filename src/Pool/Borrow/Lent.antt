-- ===== src/Pool/Borrow/Lent.antt =====
-- What a request through a pool comes to (c/src/pool.c), while no other thread uses the pool.
use cmee1y1_clients.Base.{
  ℕ, ◌<◌, ◌≤◌, ◌≡◌, ◌⊎◌, refl, inl, inr, true, false, not, ◌||◌, Option, none, some, length, ltb,
  ◌==◌, is_none, arith, Bool-cases, Result, err, ℤ,
}
use cmee1y1_clients.State.{Client, Env}
use cmee1y1_clients.State.Code
use cmee1y1_clients.Message.{Message, Reply, max_slot}
use cmee1y1_clients.Conn.{bp_client_txrx_msg}
use cmee1y1_clients.Pool.{entry, claim, next_seed, give_back}
use cmee1y1_clients.Pool.Acquire.{pool_acquire_finds}
use cmee1y1_clients.Pool.Lifecycle.{pool_at, put_pool, conn_spec}
use cmee1y1_clients.Pool.Keepalive.Turns.{returned-InOrder}
use cmee1y1_clients.Pool.Keepalive.Frame.{txrx_msg-KeepsPools}
use cmee1y1_clients.Pool.Keepalive.Stored.{Turned, Turned-twice}
use cmee1y1_clients.Pool.Borrow.{after_txrx, txrx_on, txrx_found, bp_client_pool_txrx}

module _ {W : Type 0} (env : Env W) (slot : ℕ) (m : Message) (c : Client W) where
  -- The client whose pool has lent entry `i`.
  abbrev pub lending : ℕ → Client W
  lending i = put_pool (record c { rr_seed = next_seed c.rr_seed }) slot (claim (pool_at c slot) i)

  -- What the connection of entry `i` answers.
  abbrev pub answer_of : ℕ → Result Reply
  answer_of i =
      let p = pool_at c slot in
      (bp_client_txrx_msg env (some (conn_spec slot p.conn_params (entry p i).app_handle)) m
        (lending i)).1

  -- How a request ends.
  abbrev pub Ended : Option (Client W × Result Reply) → Type 0
  Ended none =
      (i : ℕ)
      → i < (pool_at c slot).size
      → ((entry (pool_at c slot) i).in_use ≡ true) ⊎ ((entry (pool_at c slot) i).dead ≡ true)
  Ended (some (d, r)) =
      ((d ≡ c) × ((e : ℤ) × (r ≡ err e)))
      ⊎ ((i : ℕ) × (i < (pool_at c slot).size)
          × ((entry (pool_at c slot) i).in_use ≡ false)
          × ((entry (pool_at c slot) i).dead ≡ false)
          × (r ≡ answer_of i)
          × Turned slot c d)

  txrx_on-Turned :
      (i : ℕ)
      → slot < length c.pools
      → i < length (pool_at c slot).entries
      → (entry (pool_at c slot) i).in_use ≡ false
      → Turned slot c (txrx_on env slot m i c).0
  unfolding txrx_on after_txrx
  txrx_on-Turned i low room free =
      let p = pool_at c slot in
      let spec = conn_spec slot p.conn_params (entry p i).app_handle in
      let r = bp_client_txrx_msg env (some spec) m (lending i) in
      let t = env.time r.0.world in
      Turned-twice slot (claim p i) (λ q. give_back q i t.1) c r.0 (txrx_on env slot m i c).0 low
        (txrx_msg-KeepsPools env spec m (lending i)) refl (returned-InOrder p i room t.1 free)

  -- For a pool of at least one entry, with an entry for each index below its size: a request waits only
  -- if no entry is free and alive; and otherwise it returns an error and changes nothing, or it returns
  -- what the connection of a free entry that is alive answers, and leaves each entry borrowed exactly
  -- if it was before, with its handle, and the other slots' pools unchanged.
  pub pool_txrx-Ended :
      slot < length c.pools
      → 0 < (pool_at c slot).size
      → (pool_at c slot).size ≤ length (pool_at c slot).entries
      → Ended (bp_client_pool_txrx env slot m c)
  unfolding bp_client_pool_txrx txrx_found txrx_on after_txrx
  pool_txrx-Ended low some_entry room =
      let p = pool_at c slot in
      let bad =
        is_none m.cip_request || not m.resp_data || m.req_size == 0 || m.resp_capacity == 0 in
      elim (Bool-cases bad) [
        | inl null ↦ rw (null, bp_client_pool_txrx) (inl (refl, (Code.null_arg, refl)))
        | inr fine ↦ elim (Bool-cases (ltb max_slot slot)) [
          | inl large ↦
              rw (fine, large, bp_client_pool_txrx) (inl (refl, (Code.slot_too_large, refl)))
          | inr small ↦ elim (Bool-cases p.initialized) [
            | inr closed ↦
                rw (fine, small, closed, bp_client_pool_txrx) (inl (refl, (Code.not_open, refl)))
            | inl opened ↦ elim (pool_acquire_finds p c.rr_seed some_entry) [
              | inr (nothing, taken) ↦ rw (fine, small, opened, nothing, bp_client_pool_txrx) taken
              | inl (i, found, below, free, alive) ↦
                  rw (fine, small, opened, found, bp_client_pool_txrx)
                    (inr (
                      i,
                      below,
                      free,
                      alive,
                      refl,
                      txrx_on-Turned i low (omega (arith, below, room)) free,
                    ))
            ]
          ]
        ]
      ]
