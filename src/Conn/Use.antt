-- ===== src/Conn/Use.antt =====
-- Using and closing a connection: what happens to the table, and what is sent.
use cmee1y1_clients.Base.{
  ℕ, zero, suc, ◌≡◌, refl, ap, sym, ◌∙◌, Option, none, some, List, [], ◌∷◌, Result, ok, err, length,
  set, get_elem?, ◌==◌, if◌then◌else◌, arith, inl, inr, Bool-cases, ◌⊎◌, length-set,
}
use mathlib.Core.Path.{subst⁻¹}
use cmee1y1_clients.State.{Conn, Client, Env, M, continue}
use cmee1y1_clients.State.Code
use cmee1y1_clients.Message.{Reply, bp_client_message_send}
use cmee1y1_clients.Cip.{bp_record_cip_error}
use cmee1y1_clients.Conn.Wire.{build_fc, fc_refused}
use cmee1y1_clients.Conn.Table.{
  find_conn, lookup, Distinct, find_conn-none, find_conn-some, lookup-set_free, Distinct-set_free,
}
use cmee1y1_clients.Conn.Frame.{message_send-Keeps}
use cmee1y1_clients.Conn.{
  ConnSpec, short_message, entry, freed, force_close_at, bp_txrx_force_close_local, refuse,
  finish_close, close_conn, close_at, bp_client_txrx_close,
}

-- The handle's entry is gone, and the other handles have theirs.
pub record Removed (h : ℕ) (before after : List Conn) : Type 0 where
  pub gone : (k : ℕ) → lookup k after ≡ (if h == k then none else lookup k before)
  pub size : length after ≡ length before
  pub distinct : Distinct after

pub entry-at : (es : List Conn) (i : ℕ) (e : Conn) → get_elem? es i ≡ some e → entry es i ≡ e
entry-at [] i e g = cc
entry-at (x ∷ es) zero e g = ground arith
entry-at (x ∷ es) (suc i) e g = entry-at es i e g

freed-Removed :
    (es : List Conn) (h i : ℕ)
    → Distinct es
    → find_conn h es ≡ some i
    → Removed h es (set es i (freed (entry es i)))
freed-Removed es h i d n =
    let (e, at, seen) = find_conn-some h i es n in
    record {
      gone = λ k. lookup-set_free es i h k e (freed (entry es i)) d n at refl;
      size = length-set es i _;
      distinct = Distinct-set_free es i h _ n refl d;
    }

module _ {W : Type 0} (env : Env W) where
  refuse-conns {ℓ} :
      (A : Type ℓ) (slot : ℕ) (reply : Reply) (c : Client W)
      → (refuse env {A = A} slot reply c).0.txrx_conns ≡ c.txrx_conns
  unfolding refuse bp_record_cip_error
  refuse-conns A slot reply c = refl

  finish_close-conns :
      (slot : ℕ) (reply : Reply) (c : Client W)
      → (finish_close env slot reply c).0.txrx_conns ≡ c.txrx_conns
  unfolding finish_close
  finish_close-conns slot reply c = elim (Bool-cases (fc_refused reply)) [
    | inl bad ↦ rw (bad, finish_close) (refuse-conns (Unit {0}) slot reply c)
    | inr good ↦ rw (good, finish_close) refl
  ]

  continue-conns {ℓ κ} :
      {A : Type ℓ} {B : Type κ} (f : A → M W B) (r : Client W × Result A)
      → ((a : A) (c : Client W) → (f a c).0.txrx_conns ≡ c.txrx_conns)
      → (continue f r).0.txrx_conns ≡ r.0.txrx_conns
  continue-conns f (d, ok a) k = k a d
  continue-conns f (d, err e) k = refl

  close_conn-conns : (e : Conn) (c : Client W) → (close_conn env e c).0.txrx_conns ≡ c.txrx_conns
  unfolding close_conn
  close_conn-conns e c =
      let m = short_message e.slot (build_fc e.conn_serial e.vendor_id e.orig_serial) in
      continue-conns (finish_close env e.slot) (bp_client_message_send env m c)
        (finish_close-conns e.slot)
      ∙ (message_send-Keeps env m c).txrx_conns

  -- What a close does: without an entry for the handle, nothing; else the entry leaves the table,
  -- and a Forward_Close with the entry's own serials is sent.
  abbrev pub Closes : ℕ → Client W → Client W × Result (Unit {0}) → Type 0
  Closes h c r =
      ((lookup h c.txrx_conns ≡ none) × (r ≡ (c, err Code.not_open)))
      ⊎ ((e : Conn) × (d : Client W) × (lookup h c.txrx_conns ≡ some e)
          × (r ≡ close_conn env e d)
          × Removed h c.txrx_conns d.txrx_conns
          × Removed h c.txrx_conns r.0.txrx_conns)

  close_at-Closes :
      (h : ℕ) (c : Client W) (found : Option ℕ)
      → Distinct c.txrx_conns
      → find_conn h c.txrx_conns ≡ found
      → Closes h c (close_at env found c)
  unfolding close_at
  close_at-Closes h c none d n = inl (find_conn-none h c.txrx_conns n, refl)
  close_at-Closes h c (some i) d n =
      let es = c.txrx_conns in
      let (e, at, seen) = find_conn-some h i es n in
      let out = freed-Removed es h i d n in
      inr (
        entry es i,
        record c { txrx_conns = set es i (freed (entry es i)) },
        seen ∙ ap some (sym (entry-at es i e at)),
        refl,
        out,
        subst⁻¹ (Removed h es) (close_conn-conns (entry es i) _) out,
      )

  -- Where no handle is in use twice: `bp_client_txrx_close` frees the entry of its handle whatever
  -- becomes of the Forward_Close, and answers `BP_ERR_NOT_OPEN`, changing nothing, where the handle
  -- has no entry.
  pub txrx_close-Closes :
      (spec : ConnSpec) (c : Client W)
      → Distinct c.txrx_conns
      → Closes spec.app_handle c (bp_client_txrx_close env (some spec) c)
  unfolding bp_client_txrx_close
  txrx_close-Closes spec c d = close_at-Closes spec.app_handle c _ d refl

  force_close_at-Removed :
      (h : ℕ) (c : Client W) (found : Option ℕ)
      → Distinct c.txrx_conns
      → find_conn h c.txrx_conns ≡ found
      → let r = force_close_at env found c in
        ((r ≡ (c, err Code.not_open)) × (lookup h c.txrx_conns ≡ none))
        ⊎ ((r.1 ≡ ok tt) × (r.0.ipc ≡ c.ipc) × Removed h c.txrx_conns r.0.txrx_conns)
  unfolding force_close_at
  force_close_at-Removed h c none d n = inl (refl, find_conn-none h c.txrx_conns n)
  force_close_at-Removed h c (some i) d n = inr (refl, refl, freed-Removed c.txrx_conns h i d n)

  -- Where no handle is in use twice: the local close removes the handle's entry and no other, sends
  -- nothing, and answers `BP_ERR_NOT_OPEN`, changing nothing, where there is none.
  pub force_close-Removed :
      (h : ℕ) (c : Client W)
      → Distinct c.txrx_conns
      → let r = bp_txrx_force_close_local env h c in
        ((r ≡ (c, err Code.not_open)) × (lookup h c.txrx_conns ≡ none))
        ⊎ ((r.1 ≡ ok tt) × (r.0.ipc ≡ c.ipc) × Removed h c.txrx_conns r.0.txrx_conns)
  unfolding bp_txrx_force_close_local
  force_close-Removed h c d = force_close_at-Removed h c _ d refl
