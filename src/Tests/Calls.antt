-- ===== src/Tests/Calls.antt =====
-- Runs of the dispatcher's and the message's theorems.
use cmee1y1_clients.Base.{ℕ, ◌+◌, ◌*◌, ◌^◌, ◌≡◌, refl, none, List, [], ◌∷◌, ok, err, inr, arith}
use cmee1y1_clients.Memory.{slice, ld_u64, bp_ld_u16, bp_ld_u32, bp_st_u32, bp_st_u16, memcpy}
use cmee1y1_clients.State.{Ipc, CipStatus}
use cmee1y1_clients.State.Code
use cmee1y1_clients.Call.{
  scan, slot_count, owner_of, mark_slot, bp_client_call, write_header, request, errorcode, poll,
  set_slot,
}
use cmee1y1_clients.Call.Request.{Header, request-Header, write_header-cleared}
use cmee1y1_clients.Call.Outcome.{Polled, poll-Polled, presented, bp_client_call-frees}
use cmee1y1_clients.Call.Remote.{Called, bp_client_call-Called}
use cmee1y1_clients.Message.{Reply, message_spec, msg_read, bp_client_message_send}
use cmee1y1_clients.Message.Wire.{Brings, Carries, msg_read_whole}
use cmee1y1_clients.Message.Send.{IsSendable, message_send-Rejected, message_send_delivers}
use cmee1y1_clients.Cip.{bp_record_cip_error, bp_client_last_cip_error, last_cip_error_once}
use cmee1y1_clients.Tests.{
  serving, server, memory, client, busy_client, message, spec, server-Locks, client_slot,
}

bp_client_call-frees_example :
    let after = (bp_client_call server spec client).0.ipc in
    (owner_of (after.shm 1) ≡ 0) × (after.sem_req 1 ≡ 0) × (after.sem_resp 1 ≡ 0)
bp_client_call-frees_example = bp_client_call-frees server spec client 1 server-Locks client_slot

bp_client_call-Called_example : Called server spec client (bp_client_call server spec client).1
bp_client_call-Called_example = bp_client_call-Called server spec client

busy_slots : scan slot_count 0 busy_client.ipc ≡ none
unfolding scan ld_u64 bp_ld_u32
busy_slots = refl

poll-Polled_example :
    Polled 1
      (presented server spec 1 client ∷ memory ∷ [])
      (poll 1 (presented server spec 1 client) (memory ∷ []))
poll-Polled_example = poll-Polled 1 (presented server spec 1 client) (memory ∷ [])

request-Header_example : Header spec 77 1 (memory.shm 0) (request spec 77 1 (memory.shm 0))
request-Header_example = request-Header spec 77 1 (memory.shm 0) (λ q i h. refl)

write_header-cleared_example : write_header spec 77 1 (λ o. 9) 0x80 ≡ 0
write_header-cleared_example =
    write_header-cleared spec 77 1 (λ o. 9) 0x80 (omega arith) (omega arith)

abbrev request_bytes : List ℕ
request_bytes = 0x0E ∷ 0x03 ∷ []

message-IsSendable : IsSendable message request_bytes
message-IsSendable = record {
  has_request = refl;
  not_empty = omega arith;
  fits = omega arith;
  has_buffer = refl;
  has_room = omega arith;
  on_backplane = omega arith;
}

msg_read_whole_example :
    (msg_read message (λ o. 0)).resp ≡ slice (λ o. 0) 0x1907a (bp_ld_u16 (λ o. 0) 0x3207a)
msg_read_whole_example = msg_read_whole message (λ o. 0) (unfold bp_ld_u16 in omega arith)

message_send-Rejected_example :
    bp_client_message_send server (record message { slot = 20 }) client
    ≡ (client, err Code.slot_too_large)
message_send-Rejected_example =
    message_send-Rejected server (record message { slot = 20 }) client Code.slot_too_large
      (inr (
        request_bytes,
        refl,
        inr (inr ((omega arith, omega arith), refl, omega arith, omega arith, refl)),
      ))

abbrev older : CipStatus
older = record { service = 1; status = 2; ext_status = 3; slot = 4 }

abbrev newest : CipStatus
newest = record { service = 5; status = 6; ext_status = 7; slot = 8 }

last_cip_error_once_example :
    let read =
      bp_client_last_cip_error (bp_record_cip_error newest (bp_record_cip_error older client)) in
    (read.1 ≡ ok newest) × (bp_client_last_cip_error read.0 ≡ (read.0, err Code.generic))
last_cip_error_once_example = last_cip_error_once older newest client

abbrev sent : Ipc
sent = presented server (message_spec message request_bytes) 1 client

serving_ok : errorcode (serving sent 1) 1 ≡ 0
unfolding set_slot bp_ld_u32 bp_st_u32 bp_st_u16 memcpy
serving_ok = refl

message_send_delivers_example :
    Header
      (message_spec message request_bytes)
      77
      1
      ((mark_slot 1 (78 * 2 ^ 32 + 77) memory).shm 1)
      (sent.shm 1)
    × Carries message request_bytes (sent.shm 1)
    × ((r : Reply) × ((bp_client_message_send server message client).1 ≡ ok r)
        × Brings message ((serving sent 1).shm 1) r)
message_send_delivers_example =
    message_send_delivers server message request_bytes client 1 tt (serving sent 1)
      message-IsSendable server-Locks client_slot refl refl serving_ok
