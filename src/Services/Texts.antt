-- ===== src/Services/Texts.antt =====
-- c/src/errors.c: the texts of codes, and the engine's own text of a code. A text is its bytes,
-- without the NUL; a dash has three.
pub mod Bounds
use cmee1y1_clients.Base.{
  ℕ, ◌+◌, Bool, false, List, [], ◌∷◌, ◌++◌, ◌==◌, if◌then◌else◌, codes, ℤ, pos, negsuc,
}
use cmee1y1_clients.Memory.{Buffer, bp_st_u32, c_string}
use cmee1y1_clients.State.{Env, M}
use cmee1y1_clients.State.Code
use cmee1y1_clients.Call.{CallSpec, bp_client_call}

abbrev pub same_code : ℤ → ℤ → Bool
same_code (pos m) (pos n) = m == n
same_code (negsuc m) (negsuc n) = m == n
same_code (pos m) (negsuc n) = false
same_code (negsuc m) (pos n) = false

-- A row of a table, with the rows after it.
abbrev pub row : Bool → List ℕ → List ℕ → List ℕ
row here text rest = if here then text else rest

unfoldable pub bp_strerror : ℤ → List ℕ
bp_strerror rc = row (same_code rc Code.bp_ok) (codes "ok") (
    row (same_code rc Code.generic) (codes "generic failure") (
      row (same_code rc Code.send_request) (codes "sem_post on bpReq failed") (
        row (same_code rc Code.recv_answer) (codes "sem_wait on bpResp failed (server crashed?)") (
          row (same_code rc Code.null_arg) (codes "null argument") (
            row (same_code rc Code.pending)
              (codes "still pending (server hasn't replied "
                ++ (226 ∷ 128 ∷ 148 ∷ [])
                ++ codes " server crash?)")
              (row (same_code rc Code.not_open) (codes "not open / Open() not called or IPC lost") (
                row (same_code rc Code.param_range)
                  (codes "parameter range error (check path string format: P:1,S:2 not 1,2)")
                  (row (same_code rc Code.slot_too_large)
                    (codes "response too large for slot (reduce batch size)")
                    (row (same_code rc Code.cip_status)
                      (codes "CIP-layer rejection (call bp_client_last_cip_error for details)")
                      (row (same_code rc Code.client_open)
                        (codes
                          "shm_open/ftruncate/mmap failed (is bpServer running? --ipc=host set?)")
                        (row (same_code rc Code.no_free_slot)
                          (codes "all 16 slots in use (other clients holding slots)")
                          (codes "unknown error"))))))))))))

-- The extended statuses of the general status 1.
unfoldable pub connection_text : ℕ → List ℕ
connection_text ext_status =
    row (ext_status == 0x0100)
      (codes "connection in use (stale conn from prior session "
        ++ (226 ∷ 128 ∷ 148 ∷ [])
        ++ codes " let PLC idle-time-out ~40s or restart bpServer)")
      (row (ext_status == 0x0103)
        (codes "transport class unsupported (controller firmware rejected class 0xA3)")
        (row (ext_status == 0x0107)
          (codes
            "connection ID not found in Forward_Close (PLC already cleaned up; safe to ignore on close)")
          (row (ext_status == 0x0113) (codes "no more connections available on target") (
            row (ext_status == 0x0114) (codes "vendor id or product code mismatch in Forward_Close")
              (row (ext_status == 0x0115) (codes "device type mismatch in Forward_Close") (
                row (ext_status == 0x0116) (codes "revision mismatch in Forward_Close") (
                  row (ext_status == 0x0117) (codes "non-listen-only connection not opened") (
                    row (ext_status == 0x0119) (codes "Forward_Close conn ID mismatch") (
                      row (ext_status == 0x011A) (codes "target application out of connections") (
                        row (ext_status == 0x0203) (codes "connection timeout") (
                          row (ext_status == 0x0204) (codes "Unconnected_Send timeout") (
                            row (ext_status == 0x0205) (codes "parameter error in Unconnected_Send")
                              (row (ext_status == 0x0206)
                                (codes "message too large for Unconnected_Send")
                                (row (ext_status == 0x0311) (codes "port not available") (
                                  row (ext_status == 0x0312) (codes "link address not available") (
                                    row (ext_status == 0x0315)
                                      (codes "invalid segment type or value in path")
                                      (row (ext_status == 0x0316)
                                        (codes "invalid attribute (connection path malformed)")
                                        (row (ext_status == 0x0317)
                                          (codes "key segment not preceded by port segment")
                                          (row (ext_status == 0x0318)
                                            (codes "link address to self invalid")
                                            (codes "connection failure"))))))))))))))))))))

unfoldable pub bp_cip_status_string : ℕ → ℕ → List ℕ
bp_cip_status_string status ext_status = row (status == 0x00) (codes "success") (
    row (status == 0x01) (connection_text ext_status) (
      row (status == 0x02)
        (codes "resource unavailable (most often: conn_params requesting oversized buffer "
          ++ (226 ∷ 128 ∷ 148 ∷ [])
          ++ codes " try conn_params=0)")
        (row (status == 0x03) (codes "invalid parameter value") (
          row (status == 0x04) (codes "path segment error (bad tag name or EPATH)") (
            row (status == 0x05)
              (codes "path destination unknown (slot empty, or object doesn't accept this service)")
              (row (status == 0x06) (codes "partial transfer") (
                row (status == 0x07) (codes "connection lost") (
                  row (status == 0x08) (codes "service not supported by target object") (
                    row (status == 0x09) (codes "invalid attribute value") (
                      row (status == 0x0A) (codes "attribute list error") (
                        row (status == 0x0B) (codes "already in requested state") (
                          row (status == 0x0C) (codes "object state conflict") (
                            row (status == 0x0D) (codes "object already exists") (
                              row (status == 0x0E)
                                (codes "attribute not settable (write to read-only)")
                                (row (status == 0x0F) (codes "privilege violation") (
                                  row (status == 0x10) (codes "device state conflict") (
                                    row (status == 0x11) (codes "reply data too large") (
                                      row (status == 0x12)
                                        (codes "fragmentation of primitive value")
                                        (row (status == 0x13) (codes "not enough data") (
                                          row (status == 0x14) (codes "attribute not supported") (
                                            row (status == 0x15) (codes "too much data") (
                                              row (status == 0x16) (codes "object does not exist") (
                                                row (status == 0x17)
                                                  (codes
                                                    "service fragmentation sequence not in progress")
                                                  (row (status == 0x18)
                                                    (codes "no stored attribute data")
                                                    (row (status == 0x19)
                                                      (codes "store operation failure")
                                                      (row (status == 0x1A)
                                                        (codes
                                                          "routing failure: request packet too large")
                                                        (row (status == 0x1B)
                                                          (codes
                                                            "routing failure: response packet too large")
                                                          (row (status == 0x1C)
                                                            (codes
                                                            "missing attribute list entry data")
                                                            (row (status == 0x1D)
                                                            (codes "invalid attribute value list")
                                                            (row (status == 0x1E)
                                                            (codes "embedded service error")
                                                            (row (status == 0x1F)
                                                            (codes "vendor-specific error")
                                                            (row (status == 0x20)
                                                            (codes "invalid parameter")
                                                            (row (status == 0x21)
                                                            (codes
                                                            "write-once value or medium already written")
                                                            (row (status == 0x22)
                                                            (codes "invalid reply received")
                                                            (row (status == 0x25)
                                                            (codes "key failure in path")
                                                            (row (status == 0x26)
                                                            (codes "path size invalid")
                                                            (row (status == 0x27)
                                                            (codes "unexpected attribute in list")
                                                            (row (status == 0x28)
                                                            (codes "invalid member id")
                                                            (row (status == 0x29)
                                                            (codes "member not settable")
                                                            (codes
                                                            "unknown CIP status"))))))))))))))))))))))))))))))))))))))))

-- `error_code` is the pattern of an `int32_t`.
unfoldable pub es_fill : ℕ → Buffer → Buffer
es_fill error_code p = bp_st_u32 p 0x78 error_code

unfoldable pub es_read : Buffer → List ℕ
es_read p = c_string p 0x7C 78

abbrev pub error_string_spec : ℕ → CallSpec (List ℕ)
error_string_spec error_code = record {
  fn_name = codes "OCXcip_ErrorString";
  payload_size = 0xD0;
  fill_payload = es_fill error_code;
  read_reply = es_read;
  timeout_ms = 5000;
}

unfoldable pub bp_client_error_string : {W : Type 0} → Env W → ℕ → M W (List ℕ)
bp_client_error_string env error_code = bp_client_call env (error_string_spec error_code)
