-- ===== src/Pool/Keepalive/Whole.antt =====
-- The client after a turn of the keepalive thread (c/src/pool.c), while no other thread uses its pool.
use cmee1y1_clients.Base.{
  ℕ, zero, suc, ◌+◌, ◌<◌, ◌≤◌, ◌≡◌, refl, ◌∙◌, inl, inr, true, false, not, ◌||◌, some, length,
  arith, Bool-cases, Result, ok, err,
}
use cmee1y1_clients.State.{Pool, Client, Env}
use cmee1y1_clients.Message.{Reply}
use cmee1y1_clients.Conn.{
  ConnSpec, ConnIds, bp_client_txrx_open, bp_client_txrx_msg, bp_txrx_force_close_local,
}
use cmee1y1_clients.Pool.{
  entry, claim, is_ping_due, finish_ping, is_reopen_due, claim_reopen, finish_reopen,
}
use cmee1y1_clients.Pool.Lifecycle.{pool_at, put_pool, conn_spec}
use cmee1y1_clients.Pool.Keepalive.{
  keepalive_req, after_ping, ping_entry, after_reopen, reopen_claimed, reopen_entry, each_entry,
  keepalive_turn,
}
use cmee1y1_clients.Pool.Keepalive.Turns.{ping-InOrder, reopen-InOrder}
use cmee1y1_clients.Pool.Keepalive.Frame.{
  txrx_open-KeepsPools, txrx_msg-KeepsPools, force_close-pools,
}
use cmee1y1_clients.Pool.Keepalive.Stored.{Turned, Turned-same, Turned-trans, Turned-twice}

module _ {W : Type 0} (env : Env W) (slot : ℕ) where
  -- The entries below `n` are there, and so is the pool.
  abbrev Present : ℕ → Client W → Type 0
  Present n c = (slot < length c.pools) × (n ≤ length (pool_at c slot).entries)

  Turned-Present : {n : ℕ} {c d : Client W} → Turned slot c d → Present n c → Present n d
  Turned-Present t (low, room) =
      let slots = t.slots in
      let count = t.in_order.count in (omega (arith, low, slots), omega (arith, room, count))

  ping_entry-Turned :
      (now i : ℕ) (c : Client W) → Present (i + 1) c → Turned slot c (ping_entry env slot now i c)
  unfolding ping_entry after_ping
  ping_entry-Turned now i c (low, room) = elim (Bool-cases (is_ping_due p i now)) [
    | inr early ↦ rw (early, ping_entry) (Turned-same slot c c refl)
    | inl due ↦
        rw (due, ping_entry)
          (after (bp_client_txrx_msg env (some spec) keepalive_req d)
            (txrx_msg-KeepsPools env spec keepalive_req d)
            (unfold is_ping_due in ground (arith, due)))
  ]
    where
      p : Pool
      p = pool_at c slot

      d : Client W
      d = put_pool c slot (claim p i)

      spec : ConnSpec
      spec = conn_spec slot p.conn_params (entry p i).app_handle

      after :
          (r : Client W × Result Reply)
          → r.0.pools ≡ d.pools
          → (entry p i).in_use ≡ false
          → Turned slot c (after_ping env slot i r)
      after (e, ok reply) kept free =
          let t = env.time e.world in
          Turned-twice slot (claim p i) (λ q. finish_ping q i true t.1 t.1) c e
            (after_ping env slot i (e, ok reply)) low kept refl
            (ping-InOrder p i (omega (arith, room)) t.1 t.1 true free)
      after (e, err rc) kept free =
          let t = env.time e.world in
          let u = env.time t.0 in
          Turned-twice slot (claim p i) (λ q. finish_ping q i false t.1 u.1) c e
            (after_ping env slot i (e, err rc)) low kept refl
            (ping-InOrder p i (omega (arith, room)) t.1 u.1 false free)

  reopen_claimed-Turned :
      (i now : ℕ) (c : Client W)
      → Present (i + 1) c
      → (entry (pool_at c slot) i).in_use ≡ false
      → (entry (pool_at c slot) i).dead ≡ true
      → Turned slot c (reopen_claimed env slot i now c)
  unfolding reopen_claimed after_reopen
  reopen_claimed-Turned i now c (low, room) free dead =
      after (bp_client_txrx_open env (some spec) stale)
        (txrx_open-KeepsPools env spec stale ∙ dropped)
    where
      p : Pool
      p = pool_at c slot

      h : ℕ
      h = (entry p i).app_handle

      d : Client W
      d = put_pool c slot (claim_reopen p i now)

      stale : Client W
      stale = (bp_txrx_force_close_local env h d).0

      dropped : stale.pools ≡ d.pools
      dropped = force_close-pools env h d

      spec : ConnSpec
      spec = conn_spec slot p.conn_params h

      after :
          (r : Client W × Result ConnIds)
          → r.0.pools ≡ d.pools
          → Turned slot c (after_reopen env slot i r)
      after (e, ok ids) kept =
          let t = env.time e.world in
          Turned-twice slot (claim_reopen p i now) (λ q. finish_reopen q i true t.1) c e
            (after_reopen env slot i (e, ok ids)) low kept refl
            (reopen-InOrder p i (omega (arith, room)) now t.1 true free dead)
      after (e, err rc) kept =
          Turned-twice slot (claim_reopen p i now) (λ q. finish_reopen q i false 0) c e
            (after_reopen env slot i (e, err rc)) low kept refl
            (reopen-InOrder p i (omega (arith, room)) now 0 false free dead)

  reopen_entry-Turned :
      (i : ℕ) (c : Client W) → Present (i + 1) c → Turned slot c (reopen_entry env slot i c)
  unfolding reopen_entry
  reopen_entry-Turned i c present =
      let p = pool_at c slot in
      let t = env.time c.world in
      let e = entry p i in
      elim (Bool-cases (not e.dead || e.in_use)) [
        | inl alive ↦ rw (alive, reopen_entry) (Turned-same slot c c refl)
        | inr dead ↦ elim (Bool-cases (is_reopen_due p i t.1)) [
          | inr early ↦ rw (dead, early, reopen_entry) (Turned-same slot c _ refl)
          | inl due ↦
              rw (dead, due, reopen_entry)
                (Turned-trans slot (Turned-same slot c (record c { world = t.0 }) refl) (
                  reopen_claimed-Turned i t.1 (record c { world = t.0 }) present
                    (ground (arith, dead)) (ground (arith, dead))))
        ]
      ]

  each_entry-Turned :
      (f : ℕ → Client W → Client W)
      → ((i : ℕ) (c : Client W) → Present (i + 1) c → Turned slot c (f i c))
      → (n i : ℕ) (c : Client W) → Present (i + n) c
      → Turned slot c (each_entry env f slot n i c).0
  unfolding each_entry
  each_entry-Turned f k zero i c present = Turned-same slot c c refl
  each_entry-Turned f k (suc n) i c (low, room) = elim (Bool-cases (pool_at c slot).ka_stop) [
    | inl stop ↦ rw (stop, each_entry) (Turned-same slot c c refl)
    | inr on ↦
        let first = k i c (low, omega (arith, room)) in
        rw (on, each_entry)
          (Turned-trans slot first (
            each_entry-Turned f k n (i + 1) (f i c)
              (Turned-Present first (low, omega (arith, room)))))
  ]

  -- For a pool that has an entry for each index below its size: whatever the pings and the
  -- attempts to reopen come to, after a turn that no other thread interrupts each entry of the pool
  -- is borrowed exactly if it was before, and has its handle; the back-offs are in their bounds if they
  -- were; and the other slots' pools are unchanged.
  pub keepalive_turn-Turned :
      (c : Client W)
      → slot < length c.pools
      → (pool_at c slot).size ≤ length (pool_at c slot).entries
      → Turned slot c (keepalive_turn env slot c).0
  unfolding keepalive_turn
  keepalive_turn-Turned c low room =
      let t = env.time c.world in
      let n = (pool_at c slot).size in
      let d : Client W = record c { world = t.0 } in
      let a = each_entry env (ping_entry env slot t.1) slot n 0 d in
      let pings =
        each_entry-Turned (ping_entry env slot t.1) (ping_entry-Turned t.1) n 0 d
          (low, omega (arith, room)) in
      let reopens =
        each_entry-Turned (reopen_entry env slot) reopen_entry-Turned n 0 a.0
          (Turned-Present pings (low, omega (arith, room))) in
      let start = Turned-same slot c d refl in
      elim (Bool-cases a.1) [
        | inl ends ↦ rw (ends, keepalive_turn) (Turned-trans slot start pings)
        | inr on ↦
            rw (on, keepalive_turn) (Turned-trans slot start (Turned-trans slot pings reopens))
      ]
