-- ===== src/Message.antt =====
-- c/src/message.c: one CIP request to a backplane slot and its reply, over OCXcip_MessageSend.
pub mod Wire
pub mod Send
use cmee1y1_clients.Base.{
  ℕ, ◌<◌, Bool, true, false, not, ◌||◌, Option, none, some, List, take, length, ltb, ◌==◌,
  if◌then◌else◌, codes, min,
}
use cmee1y1_clients.Memory.{Buffer, st_u8, bp_st_u16, bp_ld_u16, bp_ld_u32, memcpy, slice}
use cmee1y1_clients.State.{Env, M, fail}
use cmee1y1_clients.State.Code
use cmee1y1_clients.Call.{CallSpec, bp_client_call}

-- `BP_MSG_MAX_SLOT` and `BP_MSG_MAX_REQ`.
abbrev pub max_slot : ℕ
max_slot = 0x13

abbrev pub max_req : ℕ
max_req = 500

-- The input fields of a `bp_message_t`. `cip_request` is what the pointer points at, `none` for
-- NULL; `resp_data` tells whether the reply's buffer is there.
pub record Message : Type 0 where
  pub slot : ℕ
  pub cip_request : Option (List ℕ)
  pub req_size : ℕ
  pub timeout_ms : ℕ
  pub resp_data : Bool
  pub resp_capacity : ℕ

-- Its output fields, with the bytes that were copied to the reply's buffer.
pub record Reply : Type 0 where
  pub resp_len : ℕ
  pub status : ℕ
  pub resp : List ℕ

unfoldable pub msg_fill : Message → List ℕ → Buffer → Buffer
msg_fill m req p =
    let p1 = memcpy p 0x78 (take m.req_size req) in
    let p2 = bp_st_u16 (bp_st_u16 p1 0x19078 m.req_size) 0x3207a m.resp_capacity in
    bp_st_u16 (st_u8 p2 0x32080 m.slot) 0x32082 m.timeout_ms

unfoldable pub msg_read : Message → Buffer → Reply
msg_read m p =
    let sent = bp_ld_u16 p 0x3207a in
    let got = if ltb m.resp_capacity sent then m.resp_capacity else sent in
    record { resp_len = got; status = bp_ld_u32 p 0x3207c; resp = slice p 0x1907a got }

abbrev pub message_spec : Message → List ℕ → CallSpec Reply
message_spec m req = record {
  fn_name = codes "OCXcip_MessageSend";
  payload_size = 0x32088;
  fill_payload = msg_fill m req;
  read_reply = msg_read m;
  timeout_ms = 5000;
}

module _ {W : Type 0} (env : Env W) where
  -- The guards that follow the test of the request, and the call.
  unfoldable pub send_checked : Message → List ℕ → M W Reply
  send_checked m req =
      if m.req_size == 0 || ltb max_req m.req_size
      then fail Code.param_range
      else if not m.resp_data || m.resp_capacity == 0
      then fail Code.null_arg
      else if ltb max_slot m.slot
      then fail Code.slot_too_large
      else bp_client_call env (message_spec m req)

  unfoldable pub send_from : Message → Option (List ℕ) → M W Reply
  send_from m none = fail Code.param_range
  send_from m (some req) = send_checked m req

  unfoldable pub bp_client_message_send : Message → M W Reply
  bp_client_message_send m = send_from m m.cip_request
