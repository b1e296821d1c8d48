-- ===== src/Message/Send.antt =====
-- `bp_client_message_send` from the caller's side: which messages are sent, and what comes back.
use cmee1y1_clients.Base.{
  ℕ, ◌+◌, ◌*◌, ◌^◌, ◌≤◌, ◌<◌, ◌≡◌, ◌≢◌, ap, ◌∙◌, true, false, ◌⊎◌, inl, inr, List, Option, none,
  some, Result, ok, err, ℤ, arith,
}
use cmee1y1_clients.State.{Client, Env, Ipc, signalled}
use cmee1y1_clients.State.Code
use mathlib.Core.Path.{subst⁻¹}
use cmee1y1_clients.Call.{
  bp_client_call, scan, slot_count, errorcode, mark_slot, request, write_header,
}
use cmee1y1_clients.Call.Slots.{Locks}
use cmee1y1_clients.Call.Request.{Header, request-Header}
use cmee1y1_clients.Call.Outcome.{presented, presented_slot, await_ok, bp_client_call_answered}
use cmee1y1_clients.Message.{
  Message, Reply, max_req, max_slot, message_spec, msg_read, send_checked, send_from,
  bp_client_message_send,
}
use cmee1y1_clients.Message.Wire.{
  Carries, msg_fill-Carries, msg_fill-keeps, Brings, msg_read-Brings,
}

-- The messages that are sent at all.
pub record IsSendable (m : Message) (req : List ℕ) : Type 0 where
  pub has_request : m.cip_request ≡ some req
  pub not_empty : m.req_size ≢ 0
  pub fits : m.req_size ≤ max_req
  pub has_buffer : m.resp_data ≡ true
  pub has_room : m.resp_capacity ≢ 0
  pub on_backplane : m.slot ≤ max_slot

abbrev pub IsSized : Message → Type 0
IsSized m = (m.req_size ≢ 0) × (m.req_size ≤ max_req)

-- The tests of a message whose request is there.
abbrev pub RejectedRequest : Message → ℤ → Type 0
RejectedRequest m e =
    (((m.req_size ≡ 0) ⊎ (max_req < m.req_size)) × (e ≡ Code.param_range))
    ⊎ (IsSized m × ((m.resp_data ≡ false) ⊎ (m.resp_capacity ≡ 0)) × (e ≡ Code.null_arg))
    ⊎ (IsSized m
        × (m.resp_data ≡ true)
        × (m.resp_capacity ≢ 0)
        × (max_slot < m.slot)
        × (e ≡ Code.slot_too_large))

module _ {W : Type 0} (env : Env W) where
  send_checked_call :
      (m : Message) (req : List ℕ) (c : Client W)
      → IsSendable m req
      → send_checked env m req c ≡ bp_client_call env (message_spec m req) c
  unfolding send_checked
  send_checked_call m req c v =
      ground (arith, v.not_empty, v.fits, v.has_buffer, v.has_room, v.on_backplane)

  message_send_call :
      (m : Message) (req : List ℕ) (c : Client W)
      → IsSendable m req
      → bp_client_message_send env m c ≡ bp_client_call env (message_spec m req) c
  unfolding bp_client_message_send send_from
  message_send_call m req c v =
      ap (λ (o : Option (List ℕ)). send_from env m o c) v.has_request ∙ send_checked_call m req c v

  -- What is wrong with a message, in the order in which the code tests it.
  abbrev pub Rejected : Message → ℤ → Type 0
  Rejected m e =
      ((m.cip_request ≡ none) × (e ≡ Code.param_range))
      ⊎ ((req : List ℕ) × (m.cip_request ≡ some req) × RejectedRequest m e)

  send_checked-Rejected :
      (m : Message) (req : List ℕ) (c : Client W) (e : ℤ)
      → RejectedRequest m e
      → send_checked env m req c ≡ (c, err e)
  unfolding send_checked
  send_checked-Rejected m req c e (inl h) = ground (arith, h)
  send_checked-Rejected m req c e (inr (inl h)) = ground (arith, h)
  send_checked-Rejected m req c e (inr (inr h)) = ground (arith, h)

  -- A message that is missing, empty, over 500 bytes, without room for a reply or off the backplane
  -- is refused before any IPC: the client is as it was, and the code names the first fault.
  pub message_send-Rejected :
      (m : Message) (c : Client W) (e : ℤ)
      → Rejected m e
      → bp_client_message_send env m c ≡ (c, err e)
  unfolding bp_client_message_send send_from
  message_send-Rejected m c e (inl (h, k)) =
      ap (λ (o : Option (List ℕ)). send_from env m o c) h ∙ ground (arith, k)
  message_send-Rejected m c e (inr (req, h, k)) =
      ap (λ (o : Option (List ℕ)). send_from env m o c) h ∙ send_checked-Rejected m req c e k

  -- Where the lock can be taken, slot `i` is the first one free, the post succeeds and the engine
  -- answers with the errorcode 0: a sendable message reaches it in that slot, under its header and
  -- unaltered, and the caller gets the engine's reply: the status at +0x3207C, and from +0x1907A on as
  -- many bytes as the size at +0x3207A says, but no more than the caller's buffer holds.
  pub message_send_delivers :
      (m : Message) (req : List ℕ) (c : Client W) (i : ℕ) (w : W) (after : Ipc)
      → IsSendable m req
      → Locks env
      → scan slot_count 0 c.ipc ≡ some i
      → (env.post (env.lock c.world).0).1 ≡ true
      → env.serve (env.post (env.lock c.world).0).0 i 5000 (presented env (message_spec m req) i c)
        ≡ (w, signalled after)
      → errorcode after i ≡ 0
      → let sent = (presented env (message_spec m req) i c).shm i in
        Header
          (message_spec m req)
          c.pid
          i
          ((mark_slot i (c.tid * 2 ^ 32 + c.pid) c.ipc).shm i)
          sent
        × Carries m req sent
        × ((r : Reply) × ((bp_client_message_send env m c).1 ≡ ok r) × Brings m (after.shm i) r)
  unfolding request
  message_send_delivers m req c i w after v locks found posted answer fine =
      let spec = message_spec m req in
      let sent = presented_slot env spec i c in
      (
        subst⁻¹ (Header spec c.pid i _) sent
            (request-Header spec c.pid i _ (λ q. msg_fill-keeps m req q)),
        subst⁻¹ (Carries m req) sent (msg_fill-Carries m req (write_header spec c.pid i _) v.fits),
        (
          msg_read m (after.shm i),
          ap (λ (r : Client W × Result Reply). r.1) (message_send_call m req c v)
              ∙ bp_client_call_answered env spec c i locks found posted
              ∙ await_ok env spec i w after _ answer fine,
          msg_read-Brings m (after.shm i),
        ),
      )
