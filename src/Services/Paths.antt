-- ===== src/Services/Paths.antt =====
-- c/src/path.c: parsing a path, and the path that every service writes.
pub mod Fills
use cmee1y1_clients.Base.{ℕ, Option, some, List, ltb, if◌then◌else◌, codes}
use cmee1y1_clients.Memory.{Buffer, bp_st_u16, bp_ld_u16, bp_ld_u32, slice}
use cmee1y1_clients.State.{Env, M}
use cmee1y1_clients.Call.{CallSpec, bp_client_call}
use cmee1y1_clients.Services.{path_fill, with_path}

-- A `bp_parsed_path_t`. `encoded` is the part of the array that is filled.
pub record ParsedPath : Type 0 where
  pub encoded_size : ℕ
  pub encoded : List ℕ
  pub cip_class : ℕ
  pub segment_flags : ℕ
  pub instance_id : ℕ
  pub attr_flags : ℕ

unfoldable pub pp_fill : List ℕ → ℕ → Buffer → Buffer
pp_fill text cap p = bp_st_u16 (path_fill text p) 0x280 cap

-- The size is cut to the array's 256 bytes.
unfoldable pub pp_read : Buffer → ParsedPath
pp_read p =
    let size = bp_ld_u16 p 0x280 in
    let encoded_size = if ltb 256 size then 256 else size in
    record {
      encoded_size = encoded_size;
      encoded = slice p 0x180 encoded_size;
      cip_class = bp_ld_u16 p 0x178;
      segment_flags = p 0x17A;
      instance_id = bp_ld_u32 p 0x17C;
      attr_flags = p 0x282;
    }

abbrev pub parse_spec : List ℕ → CallSpec ParsedPath
parse_spec text = record {
  fn_name = codes "OCXcip_ParsePath";
  payload_size = 0x288;
  fill_payload = pp_fill text 256;
  read_reply = pp_read;
  timeout_ms = 5000;
}

unfoldable pub bp_client_parse_path : {W : Type 0} → Env W → Option (List ℕ) → M W ParsedPath
bp_client_parse_path env text = with_path (λ name. bp_client_call env (parse_spec name)) text
