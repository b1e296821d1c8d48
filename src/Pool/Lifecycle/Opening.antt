-- ===== src/Pool/Lifecycle/Opening.antt =====
-- What opening a pool does to the connection table.
use cmee1y1_clients.Base.{
  ℕ, zero, suc, ◌+◌, ◌≡◌, refl, ap, sym, ◌∙◌, inl, inr, Bool, true, false, ◌||◌, none, some, List,
  [], ◌∷◌, length, ltb, ◌==◌, if◌then◌else◌, ℤ, Result, ok, err, is_none, arith, subst, Bool-cases,
}
use mathlib.Core.Path.{subst⁻¹}
use cmee1y1_clients.State.{Conn, Pool, PoolEntry, Client, Env}
use cmee1y1_clients.Conn.{ConnIds, bp_client_txrx_open, bp_client_txrx_close}
use cmee1y1_clients.Conn.Table.{lookup, Distinct}
use cmee1y1_clients.Conn.Open.{Opened, txrx_open-Opened}
use cmee1y1_clients.Conn.Use.{Closes, txrx_close-Closes}
use cmee1y1_clients.Pool.{blank_entry, pool_app_handle}
use cmee1y1_clients.Pool.Lifecycle.{
  PoolSpec, conn_spec, open_entries, close_entries, settle, start_keepalive, filled_pool,
  join_opened,
}

-- Whether an entry has a handle.
abbrev pub owns : List PoolEntry → ℕ → Bool
owns [] k = false
owns (e ∷ es) k = e.app_handle == k || owns es k

-- A close as a map: the handle is gone.
record Gone (h : ℕ) (before after : List Conn) : Type 0 where
  gone : (k : ℕ) → lookup k after ≡ (if h == k then none else lookup k before)
  distinct : Distinct after

module _ {W : Type 0} (env : Env W) where
  Closes-Gone :
      (h : ℕ) (c : Client W) (r : Client W × Result (Unit {0}))
      → Distinct c.txrx_conns
      → Closes env h c r
      → Gone h c.txrx_conns r.0.txrx_conns
  Closes-Gone h c r d (inl (absent, e)) =
      let same : r.0.txrx_conns ≡ c.txrx_conns =
        ap (λ (x : Client W × Result (Unit {0})). x.0.txrx_conns) e in
      record {
        gone = λ k. ap (lookup k) same ∙ ground (arith, absent);
        distinct = subst Distinct (sym same) d;
      }
  Closes-Gone h c r d (inr (e, f, seen, sent, out, after)) = record {
    gone = after.gone;
    distinct = after.distinct;
  }

  pub close_entries-Gone :
      (slot params : ℕ) (es : List PoolEntry) (c : Client W)
      → Distinct c.txrx_conns
      → let after = (close_entries env slot params es c).txrx_conns in
        Distinct after
        × ((k : ℕ) → lookup k after ≡ (if owns es k then none else lookup k c.txrx_conns))
  unfolding close_entries
  close_entries-Gone slot params [] c d = (d, λ k. refl)
  close_entries-Gone slot params (e ∷ es) c d =
      let spec = conn_spec slot params e.app_handle in
      let r = bp_client_txrx_close env (some spec) c in
      let g = Closes-Gone e.app_handle c r d (txrx_close-Closes env spec c d) in
      let (distinct, rest) = close_entries-Gone slot params es r.0 g.distinct in
      (distinct, λ k. ground (arith, rest k, g.gone k))

  -- The entries that were opened are the handles that were added.
  pub record Added (es : List PoolEntry) (before after : List Conn) : Type 0 where
    pub distinct : Distinct after
    pub fresh : (k : ℕ) → owns es k ≡ true → lookup k before ≡ none
    pub there : (k : ℕ) → owns es k ≡ true → is_none (lookup k after) ≡ false
    pub others : (k : ℕ) → owns es k ≡ false → lookup k after ≡ lookup k before

  Added-none : (c : Client W) → Distinct c.txrx_conns → Added [] c.txrx_conns c.txrx_conns
  Added-none c d = record {
    distinct = d;
    fresh = λ k h. cc;
    there = λ k h. cc;
    others = λ k h. refl;
  }

  join_opened-Added :
      (e : PoolEntry) (before : List Conn) (r : Client W × Result ConnIds)
      (rest : Client W × (List PoolEntry × ℤ))
      → Distinct before
      → Opened e.app_handle before r.0.txrx_conns r.1
      → (Distinct r.0.txrx_conns → Added rest.1.0 r.0.txrx_conns rest.0.txrx_conns)
      → let j = join_opened e r rest in Added j.1.0 before j.0.txrx_conns
  unfolding join_opened
  join_opened-Added e before (c, err rc) rest d o later =
      subst (λ es. Added [] es c.txrx_conns) o (Added-none c (subst Distinct (sym o) d))
  join_opened-Added e before (c, ok ids) (f, (es, rc)) d (absent, here, others, size, kept) later =
      let a = later (kept d) in
      record {
        distinct = a.distinct;
        fresh = λ k h. elim (Bool-cases (e.app_handle == k)) [
          | inl same ↦ ground (arith, absent, same)
          | inr other ↦
              sym (others k (ground (arith, other))) ∙ a.fresh k (ground (arith, h, other))
        ];
        there = λ k h. elim (Bool-cases (owns es k)) [
          | inl mine ↦ a.there k mine
          | inr other ↦
              let same : e.app_handle ≡ k = ground (arith, h, other) in
              ap is_none
                (a.others k other ∙ ap (λ (x : ℕ). lookup x c.txrx_conns) (sym same) ∙ here.1)
        ];
        others = λ k h. a.others k (ground (arith, h)) ∙ others k (ground (arith, h));
      }

  pub open_entries-Added :
      (spec : PoolSpec) (now n i : ℕ) (c : Client W)
      → Distinct c.txrx_conns
      → let r = open_entries env spec now n i c in Added r.1.0 c.txrx_conns r.0.txrx_conns
  unfolding open_entries
  open_entries-Added spec now zero i c d = Added-none c d
  open_entries-Added spec now (suc n) i c d =
      let h = pool_app_handle spec.slot i in
      let t = conn_spec spec.slot spec.conn_params h in
      let r = bp_client_txrx_open env (some t) c in
      join_opened-Added (record blank_entry { app_handle = h; last_used = now }) c.txrx_conns r _ d
        (txrx_open-Opened env t c) (open_entries-Added spec now n (i + 1) r.0)

  -- What an opening of a pool does to the connections: on failure every handle has the connection, or
  -- none, that it had; on success the handles of as many entries as were asked for, none of which was
  -- in use, have one each, and every other handle what it had.
  abbrev pub PoolOpened : PoolSpec → List Conn → List Conn → Result (Unit {0}) → Type 0
  PoolOpened spec before after (err rc) = (k : ℕ) → lookup k after ≡ lookup k before
  PoolOpened spec before after (ok u) =
      (es : List PoolEntry) × (length es ≡ spec.size)
      × ((k : ℕ) → owns es k ≡ true → (lookup k before ≡ none) × (is_none (lookup k after) ≡ false))
      × ((k : ℕ) → owns es k ≡ false → lookup k after ≡ lookup k before)

  pub start_keepalive-conns :
      (spec : PoolSpec) (p : Pool) (c : Client W)
      → ((start_keepalive env spec p c).0.txrx_conns ≡ c.txrx_conns)
        × ((start_keepalive env spec p c).1 ≡ ok tt)
  unfolding start_keepalive
  start_keepalive-conns spec p c = elim (Bool-cases (ltb 0 spec.keepalive_ms)) [
    | inl on ↦ rw (on, start_keepalive) (refl, refl)
    | inr off ↦ rw (off, start_keepalive) (refl, refl)
  ]

  pub settle-PoolOpened :
      (spec : PoolSpec) (before : List Conn) (r : Client W × (List PoolEntry × ℤ))
      → Added r.1.0 before r.0.txrx_conns
      → let s = settle env spec r in PoolOpened spec before s.0.txrx_conns s.1
  unfolding settle
  settle-PoolOpened spec before (c, (es, rc)) a = elim (Bool-cases (length es == spec.size)) [
    | inl all ↦
        let (conns, done) = start_keepalive-conns spec (filled_pool spec es) c in
        rw (all, settle)
          (subst⁻¹ (PoolOpened spec before _) done (
            subst⁻¹ (λ t. PoolOpened spec before t (ok tt)) conns
              (es, ground (arith, all), λ k h. (a.fresh k h, a.there k h), a.others)))
    | inr partial ↦
        let (kept, gone) = close_entries-Gone spec.slot spec.conn_params es c a.distinct in
        rw (partial, settle)
          (λ k. elim (Bool-cases (owns es k)) [
            | inl mine ↦ ground (arith, gone k, mine, a.fresh k mine)
            | inr other ↦ ground (arith, gone k, other, a.others k other)
          ])
  ]
