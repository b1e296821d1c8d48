-- ===== src/Conn/Messages.antt =====
-- A message over a connection: where it goes, and what it does to the table.
use cmee1y1_clients.Base.{
  ℕ, ◌+◌, ◌%◌, ◌^◌, ◌≡◌, ◌≢◌, refl, ap, sym, ◌∙◌, ◌⊎◌, inl, inr, true, false, not, ◌||◌, Option,
  none, some, Result, err, set, is_none, ◌==◌, if◌then◌else◌, arith, length, length-set, eq_or_ne,
  Bool-cases,
}
use cmee1y1_clients.State.{Conn, Client, Env}
use cmee1y1_clients.State.Code
use cmee1y1_clients.Message.{Message, Reply, bp_client_message_send}
use cmee1y1_clients.Conn.Table.{
  is_for, find_conn, lookup, find_conn-none, find_conn-some, lookup-is_for, lookup-set_update,
}
use cmee1y1_clients.Conn.Frame.{message_send-Keeps}
use cmee1y1_clients.Conn.{ConnSpec, entry, msg_on, bp_client_txrx_msg}
use cmee1y1_clients.Conn.Use.{entry-at}

abbrev pub counted : Conn → Conn
counted e = record e { sequence = (e.sequence + 1) % 2 ^ 16 }

module _ {W : Type 0} (env : Env W) where
  -- What a connected message does: without an entry for the handle, nothing; else the message goes to
  -- the backplane slot of that entry, and the entry's sequence is counted up, and nothing else of the
  -- table changes.
  abbrev pub Converses : ℕ → Message → Client W → Client W × Result Reply → Type 0
  Converses h m c r =
      ((lookup h c.txrx_conns ≡ none) × (r ≡ (c, err Code.not_open)))
      ⊎ ((e : Conn) × (d : Client W) × (lookup h c.txrx_conns ≡ some e)
          × (r ≡ bp_client_message_send env (record m { slot = e.slot; timeout_ms = 5000 }) d)
          × (length r.0.txrx_conns ≡ length c.txrx_conns)
          × ((k : ℕ)
              → lookup k r.0.txrx_conns
                ≡ (if h == k then some (counted e) else lookup k c.txrx_conns)))

  msg_on-Converses :
      (h : ℕ) (m : Message) (c : Client W) (found : Option ℕ)
      → find_conn h c.txrx_conns ≡ found
      → Converses h m c (msg_on env (record m { timeout_ms = 5000 }) found c)
  unfolding msg_on
  msg_on-Converses h m c none n = inl (find_conn-none h c.txrx_conns n, refl)
  msg_on-Converses h m c (some i) n =
      let es = c.txrx_conns in
      let (e, at, seen) = find_conn-some h i es n in
      let same : entry es i ≡ e = entry-at es i e at in
      let mine : is_for h (entry es i) ≡ true =
        lookup-is_for h es (entry es i) (seen ∙ ap some (sym same)) in
      let d : Client W = record c { txrx_conns = set es i (counted (entry es i)) } in
      let sent = record m { slot = (entry es i).slot; timeout_ms = 5000 } in
      let kept = (message_send-Keeps env sent d).txrx_conns in
      inr (
        entry es i,
        d,
        seen ∙ ap some (sym same),
        refl,
        ap length kept ∙ length-set es i _,
        λ k.
            ap (lookup k) kept
            ∙ lookup-set_update es i h k (counted (entry es i)) n (ground (arith, mine))
                (ground (arith, mine)),
      )

  -- A request and a reply's buffer that are there.
  abbrev pub IsGiven : Message → Type 0
  IsGiven m =
      (is_none m.cip_request ≡ false)
      × (m.req_size ≢ 0)
      × (m.resp_data ≡ true)
      × (m.resp_capacity ≢ 0)

  -- A request that is not there or empty, or a buffer that is not.
  abbrev pub IsMissing : Message → Type 0
  IsMissing m =
      (is_none m.cip_request ≡ true)
      ⊎ (m.req_size ≡ 0)
      ⊎ (m.resp_data ≡ false)
      ⊎ (m.resp_capacity ≡ 0)

  request_or_none : (m : Message) → IsMissing m ⊎ IsGiven m
  request_or_none m = elim (Bool-cases (is_none m.cip_request)) [
    | inl gone ↦ inl (inl gone)
    | inr there ↦ elim (eq_or_ne m.req_size 0) [
      | inl empty ↦ inl (inr (inl empty))
      | inr long ↦ elim (Bool-cases m.resp_data) [
        | inr lost ↦ inl (inr (inr (inl lost)))
        | inl got ↦ elim (eq_or_ne m.resp_capacity 0) [
          | inl full ↦ inl (inr (inr (inr full)))
          | inr room ↦ inr (there, long, got, room)
        ]
      ]
    ]
  ]

  msg_given-Converses :
      (spec : ConnSpec) (m : Message) (c : Client W)
      → IsGiven m
      → Converses spec.app_handle m c (bp_client_txrx_msg env (some spec) m c)
  unfolding bp_client_txrx_msg
  msg_given-Converses spec m c (a, b, d, e) =
      let guard : (is_none m.cip_request
            || m.req_size == 0
            || not m.resp_data
            || m.resp_capacity == 0)
          ≡ false =
        ground (arith, a, b, d, e) in
      rw guard (msg_on-Converses spec.app_handle m c _ refl)

  -- `bp_client_txrx_msg` without a request, or without room for a reply, answers `BP_ERR_NULL_ARG` and
  -- changes nothing. With both it sends over the connection of its handle, to the slot for which that
  -- was opened, and answers `BP_ERR_NOT_OPEN`, changing nothing, where the handle has none; the table
  -- changes by the count of that connection's messages only.
  pub txrx_msg-Converses :
      (spec : ConnSpec) (m : Message) (c : Client W)
      → (IsMissing m × (bp_client_txrx_msg env (some spec) m c ≡ (c, err Code.null_arg)))
        ⊎ (IsGiven m × Converses spec.app_handle m c (bp_client_txrx_msg env (some spec) m c))
  unfolding bp_client_txrx_msg
  txrx_msg-Converses spec m c = elim (request_or_none m) [
    | inl missing ↦ inl (missing, ground (arith, missing))
    | inr given ↦ inr (given, msg_given-Converses spec m c given)
  ]
