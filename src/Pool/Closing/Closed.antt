-- ===== src/Pool/Closing/Closed.antt =====
-- What closing a pool leaves (c/src/pool.c).
use mathlib.Core.Path.{subst⁻¹}
use cmee1y1_clients.Base.{
  ℕ, zero, suc, ◌<◌, ◌≤◌, ◌⊎◌, ◌||◌, ◌≡◌, ◌≢◌, refl, ap, sym, ◌∙◌, inl, inr, Bool, true, false,
  Option, none, some, List, [], ◌∷◌, take, length, get_or, set, if◌then◌else◌, Result, ok, err, leb,
  leb→le, arith, Bool-cases, get_or-set_self, get_or-set_ne, length-set,
}
use cmee1y1_clients.State.{Pool, PoolEntry, Client, Env, continue}
use cmee1y1_clients.State.Code
use cmee1y1_clients.Message.{Reply, bp_client_message_send}
use cmee1y1_clients.Cip.{bp_record_cip_error}
use cmee1y1_clients.Conn
use cmee1y1_clients.Conn.{
  freed, refuse, finish_close, short_message, close_at, close_conn, bp_client_txrx_close,
}
use cmee1y1_clients.Conn.Wire.{build_fc, fc_refused}
use cmee1y1_clients.Conn.Table.{find_conn, lookup, Distinct}
use cmee1y1_clients.Conn.Frame.{message_send-Keeps}
use cmee1y1_clients.Pool.{entry, max_slots, zeroed, any_busy, begin_close}
use cmee1y1_clients.Pool.Lifecycle.{pool_at, put_pool, close_entries}
use cmee1y1_clients.Pool.Lifecycle.Opening.{owns, close_entries-Gone}
use cmee1y1_clients.Pool.Closing.{live_entries, stopped, close_drained, bp_client_pool_close}

any_busy-stopped : (n : ℕ) (p : Pool) → any_busy n (stopped p) ≡ any_busy n p
unfolding any_busy begin_close
any_busy-stopped zero p = refl
any_busy-stopped (suc n) p = ap (λ (b : Bool). (entry p n).in_use || b) (any_busy-stopped n p)

module _ {W : Type 0} (env : Env W) where
  finish_close-pools :
      (slot : ℕ) (r : Client W × Result Reply)
      → (continue (finish_close env slot) r).0.pools ≡ r.0.pools
  unfolding finish_close refuse bp_record_cip_error
  finish_close-pools slot (c, err e) = refl
  finish_close-pools slot (c, ok reply) = elim (Bool-cases (fc_refused reply)) [
    | inl refused ↦ rw (refused, finish_close) refl
    | inr fine ↦ rw (fine, finish_close) refl
  ]

  close_at-pools : (found : Option ℕ) (c : Client W) → (close_at env found c).0.pools ≡ c.pools
  unfolding close_at close_conn
  close_at-pools none c = refl
  close_at-pools (some i) c =
      let e = Conn.entry c.txrx_conns i in
      let d : Client W = record c { txrx_conns = set c.txrx_conns i (freed e) } in
      let m = short_message e.slot (build_fc e.conn_serial e.vendor_id e.orig_serial) in
      finish_close-pools e.slot (bp_client_message_send env m d)
      ∙ (message_send-Keeps env m d).pools

  pub close_entries-pools :
      (slot params : ℕ) (es : List PoolEntry) (c : Client W)
      → (close_entries env slot params es c).pools ≡ c.pools
  unfolding close_entries bp_client_txrx_close
  close_entries-pools slot params [] c = refl
  close_entries-pools slot params (e ∷ es) c =
      close_entries-pools slot params es _ ∙ close_at-pools (find_conn e.app_handle c.txrx_conns) c

  -- The handles of a pool's entries.
  abbrev pub handles : Pool → ℕ → Bool
  handles p = owns (live_entries (take p.size p.entries))

  -- A close: the pool is empty, the handles of its entries are gone, and nothing else changed.
  pub record PoolClosed (slot : ℕ) (c d : Client W) : Type 0 where
    pub emptied : pool_at d slot ≡ zeroed
    pub others : (k : ℕ) → slot ≢ k → pool_at d k ≡ pool_at c k
    pub gone :
        (h : ℕ)
        → lookup h d.txrx_conns
          ≡ (if handles (pool_at c slot) h then none else lookup h c.txrx_conns)
    pub distinct : Distinct d.txrx_conns

  close_drained-PoolClosed :
      (slot : ℕ) (c : Client W)
      → slot < length c.pools
      → Distinct c.txrx_conns
      → PoolClosed slot c (close_drained env slot c)
  unfolding close_drained
  close_drained-PoolClosed slot c low d =
      let p = pool_at c slot in
      let es = live_entries (take p.size p.entries) in
      let kept = close_entries-pools slot p.conn_params es c in
      let (distinct, gone) = close_entries-Gone env slot p.conn_params es c d in
      let there = subst⁻¹ (λ (ps : List Pool). slot < length ps) kept low in
      record {
        emptied = get_or-set_self _ slot zeroed zeroed there;
        others = λ k h.
            get_or-set_ne _ slot k zeroed zeroed h
            ∙ ap (λ (ps : List Pool). get_or ps k zeroed) kept;
        gone = gone;
        distinct = distinct;
      }

  -- How a close ends, if it does.
  abbrev pub Ended : ℕ → Client W → Option (Client W × Result (Unit {0})) → Type 0
  Ended slot c none =
      ((pool_at c slot).initialized ≡ true)
      × (any_busy (pool_at c slot).size (pool_at c slot) ≡ true)
  Ended slot c (some (d, err e)) = (d ≡ c) × (e ≡ Code.slot_too_large) × (max_slots ≤ slot)
  Ended slot c (some (d, ok u)) =
      ((d ≡ c) × ((pool_at c slot).initialized ≡ false))
      ⊎ (((pool_at c slot).initialized ≡ true) × PoolClosed slot c d)

  pool_present : (ps : List Pool) (i : ℕ) → (get_or ps i zeroed).initialized ≡ true → i < length ps
  pool_present [] i e = cc
  pool_present (p ∷ ps) zero e = omega arith
  pool_present (p ∷ ps) (suc i) e = omega (arith, pool_present ps i e)

  -- Marking the pool before the wait changes nothing that the close reads.
  stopped-PoolClosed :
      (slot : ℕ) (c e : Client W)
      → slot < length c.pools
      → PoolClosed slot (put_pool c slot (stopped (pool_at c slot))) e
      → PoolClosed slot c e
  unfolding begin_close
  stopped-PoolClosed slot c e low closed =
      let p = stopped (pool_at c slot) in
      let here : pool_at (put_pool c slot p) slot ≡ p = get_or-set_self c.pools slot p zeroed low in
      record {
        emptied = closed.emptied;
        others = λ k h. closed.others k h ∙ get_or-set_ne c.pools slot k p zeroed h;
        gone = λ h.
            closed.gone h
            ∙ ap (λ (q : Pool). if handles q h then none else lookup h c.txrx_conns) here;
        distinct = closed.distinct;
      }

  pub pool_close-Ended :
      (slot : ℕ) (c : Client W)
      → Distinct c.txrx_conns
      → Ended slot c (bp_client_pool_close env slot c)
  unfolding bp_client_pool_close
  pool_close-Ended slot c d =
      let p = pool_at c slot in
      elim (Bool-cases (leb max_slots slot)) [
        | inl large ↦ rw (large, bp_client_pool_close) (refl, refl, leb→le max_slots slot large)
        | inr small ↦ elim (Bool-cases p.initialized) [
          | inr closed ↦ rw (small, closed, bp_client_pool_close) (inl (refl, closed))
          | inl opened ↦ elim (Bool-cases (any_busy p.size (stopped p))) [
            | inl busy ↦
                rw (small, opened, busy, bp_client_pool_close)
                  (opened, sym (any_busy-stopped p.size p) ∙ busy)
            | inr drained ↦
                let low = pool_present c.pools slot opened in
                rw (small, opened, drained, bp_client_pool_close)
                  (inr (
                    opened,
                    stopped-PoolClosed slot c _ low (
                        close_drained-PoolClosed slot (put_pool c slot (stopped p))
                          (subst⁻¹ (λ (n : ℕ). slot < n) (length-set c.pools slot (stopped p)) low)
                          d),
                  ))
          ]
        ]
      ]
