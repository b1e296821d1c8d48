-- ===== src/Tags/Symbols.antt =====
-- c/src/tagdb.c: opening, building and asking a tag database of the engine.
pub mod Answers
use cmee1y1_clients.Base.{
  ℕ, zero, suc, ◌+◌, ◌*◌, ◌%◌, ◌^◌, ◌<◌, ◌≤◌, ◌≡◌, ◌≢◌, refl, ap, ◌⊎◌, inl, inr, Bool, true, false,
  not, ◌||◌, Option, none, some, List, length, take, ltb, ◌==◌, if◌then◌else◌, codes, pos, negsuc,
  Result, ok, err, arith, All, Bool-cases,
}
use cmee1y1_clients.Memory.{
  Buffer, st_u8, bp_st_u16, bp_st_u32, bp_ld_u16, bp_ld_u32, memcpy, memset, c_string,
}
use cmee1y1_clients.State.{SymbolInfo, TagCache, Client, Env, M, ◌>>=◌, fail}
use cmee1y1_clients.State.Code
use cmee1y1_clients.Call.{CallSpec, bp_client_call}
use cmee1y1_clients.Call.Slots.{Locks}
use cmee1y1_clients.Call.Outcome.{IsTold, bp_client_call-IsTold}
use cmee1y1_clients.Tags.{TagDb}
use cmee1y1_clients.Tags.Cache.{bp_tag_cache_find_or_alloc, resized, update}

-- A `bp_struct_info_t` and a `bp_struct_member_info_t`. The names hold no NUL.
pub record StructInfo : Type 0 where
  pub name : List ℕ
  pub data_type : ℕ
  pub byte_size : ℕ
  pub n_members : ℕ

pub record StructMemberInfo : Type 0 where
  pub name : List ℕ
  pub data_type : ℕ
  pub struct_id : ℕ
  pub byte_size : ℕ
  pub offset : ℕ
  pub array_count : ℕ
  pub flags : ℕ

unfoldable pub ctdh_fill : List ℕ → Buffer → Buffer
ctdh_fill path p =
    let name = take 254 path in
    bp_st_u16 (st_u8 (memcpy (memset p 0x78 0 256) 0x78 name) (0x78 + length name) 0) 0x178 0

unfoldable pub simple_handle_fill : ℕ → Buffer → Buffer
simple_handle_fill handle p = bp_st_u32 p 0x78 handle

unfoldable pub sym_fill : ℕ → ℕ → Buffer → Buffer
sym_fill handle index p = bp_st_u16 (bp_st_u32 p 0x78 handle) (0x78 + 4) index

unfoldable pub smi_fill : ℕ → ℕ → ℕ → Buffer → Buffer
smi_fill handle struct_id member_index p =
    bp_st_u16 (bp_st_u16 (bp_st_u32 p 0x78 handle) 0x7C struct_id) 0x7E member_index

-- The 128 bytes of a symbol start at +0x80.
unfoldable pub parse_symbol : Buffer → SymbolInfo
parse_symbol p = record {
  name = c_string p 0x80 99;
  data_type = bp_ld_u16 p (0x80 + 0x64);
  struct_type = bp_ld_u16 p (0x80 + 0x68);
  elem_byte_size = bp_ld_u32 p (0x80 + 0x6C);
  dim0 = bp_ld_u32 p (0x80 + 0x70);
  dim1 = bp_ld_u32 p (0x80 + 0x74);
  dim2 = bp_ld_u32 p (0x80 + 0x78);
  flags = bp_ld_u16 p (0x80 + 0x7C);
}

unfoldable pub si_read : Buffer → StructInfo
si_read p = record {
  name = c_string p 0x80 39;
  data_type = bp_ld_u32 p (0x80 + 0x2C);
  byte_size = bp_ld_u32 p (0x80 + 0x30);
  n_members = bp_ld_u16 p (0x80 + 0x36);
}

unfoldable pub smi_read : Buffer → StructMemberInfo
smi_read p = record {
  name = c_string p 0x80 43;
  data_type = bp_ld_u16 p (0x80 + 0x2C);
  struct_id = bp_ld_u16 p (0x80 + 0x30);
  byte_size = bp_ld_u32 p (0x80 + 0x34);
  offset = bp_ld_u32 p (0x80 + 0x38);
  array_count = bp_ld_u32 p (0x80 + 0x40);
  flags = p (0x80 + 0x44);
}

unfoldable pub bp_symbol_is_array : SymbolInfo → Bool
bp_symbol_is_array s = not (s.dim0 == 0)

unfoldable pub bp_symbol_is_struct : SymbolInfo → Bool
bp_symbol_is_struct s = not (s.struct_type == 0)

-- `& 0x1FFF`. A NULL symbol, for which the three answer 0, is left out.
unfoldable pub bp_symbol_type_code : SymbolInfo → ℕ
bp_symbol_type_code s = s.data_type % 2 ^ 13

-- A call without a reply of its own.
abbrev pub handle_spec : List ℕ → ℕ → CallSpec (Unit {0})
handle_spec name handle = record {
  fn_name = name;
  payload_size = 0x80;
  fill_payload = simple_handle_fill handle;
  read_reply = λ p. tt;
  timeout_ms = 5000;
}

abbrev pub open_spec : List ℕ → CallSpec ℕ
open_spec path = record {
  fn_name = codes "OCXcip_CreateTagDbHandle";
  payload_size = 0x180;
  fill_payload = ctdh_fill path;
  read_reply = λ p. bp_ld_u32 p 0x17C;
  timeout_ms = 5000;
}

abbrev pub build_spec : ℕ → CallSpec ℕ
build_spec handle = record {
  fn_name = codes "OCXcip_BuildTagDb";
  payload_size = 0x80;
  fill_payload = simple_handle_fill handle;
  read_reply = λ p. bp_ld_u16 p (0x78 + 4);
  timeout_ms = 30000;
}

abbrev pub symbol_spec : ℕ → ℕ → CallSpec SymbolInfo
symbol_spec handle index = record {
  fn_name = codes "OCXcip_GetSymbolInfo";
  payload_size = 0x100;
  fill_payload = sym_fill handle index;
  read_reply = parse_symbol;
  timeout_ms = 5000;
}

abbrev pub struct_spec : ℕ → ℕ → CallSpec StructInfo
struct_spec handle struct_id = record {
  fn_name = codes "OCXcip_GetStructInfo";
  payload_size = 0xB8;
  fill_payload = sym_fill handle struct_id;
  read_reply = si_read;
  timeout_ms = 5000;
}

abbrev pub member_spec : ℕ → ℕ → ℕ → CallSpec StructMemberInfo
member_spec handle struct_id member_index = record {
  fn_name = codes "OCXcip_GetStructMbrInfo";
  payload_size = 0xD0;
  fill_payload = smi_fill handle struct_id member_index;
  read_reply = smi_read;
  timeout_ms = 5000;
}

-- The engine's answers "differs" and "never built" are errorcodes, and both mean that the table has
-- to be built again.
unfoldable pub version_changed : Result (Unit {0}) → Result Bool
version_changed (ok u) = ok false
version_changed (err (pos n)) =
    if n == 0 then ok false else if n == 0x14 || n == 0x15 then ok true else err (pos n)
version_changed (err e) = err e

module _ {W : Type 0} (env : Env W) where
  -- The record of a handle, of 272 bytes where pointers have 8, is allocated after the engine gave it.
  unfoldable pub keep_handle : List ℕ → ℕ → M W TagDb
  keep_handle path handle c =
      let r = env.alloc c.world 272 in
      (
        record c { world = r.0 },
        if r.1 then ok (record { handle = handle; path = path }) else err Code.client_open,
      )

  unfoldable pub open_checked : List ℕ → M W TagDb
  open_checked path = do handle ← bp_client_call env (open_spec path); keep_handle path handle

  unfoldable pub bp_tagdb_open : Option (List ℕ) → M W TagDb
  bp_tagdb_open none = fail Code.null_arg
  bp_tagdb_open (some path) =
      if ltb 254 (length path) then fail Code.param_range else open_checked path

  -- Nothing is sent for the handle 0. The outcome is not looked at.
  unfoldable pub bp_tagdb_close : Option TagDb → Client W → Client W
  bp_tagdb_close none c = c
  bp_tagdb_close (some db) c =
      if db.handle == 0
      then c
      else (bp_client_call env (handle_spec (codes "OCXcip_DeleteTagDbHandle") db.handle) c).0

  -- Symbols have 124 bytes. `calloc` is called for a table that is not empty.
  unfoldable pub reset_on : ℕ → List TagCache × Option ℕ → Client W → Client W
  reset_on n (cs, none) c = record c { tag_caches = cs }
  reset_on n (cs, some i) c =
      let r = if ltb 0 n then env.alloc c.world (n * 124) else (c.world, true) in
      record c { world = r.0; tag_caches = update (resized n r.1) cs i }

  -- Its own result is not looked at.
  unfoldable pub bp_tag_cache_reset_after_build : List ℕ → ℕ → Client W → Client W
  bp_tag_cache_reset_after_build path n c =
      reset_on n (bp_tag_cache_find_or_alloc path c.tag_caches) c

  unfoldable pub rebuilt : List ℕ → ℕ → M W ℕ
  rebuilt path n c = (bp_tag_cache_reset_after_build path n c, ok n)

  unfoldable pub bp_tagdb_build : Option TagDb → M W ℕ
  bp_tagdb_build none = fail Code.null_arg
  bp_tagdb_build (some db) = do n ← bp_client_call env (build_spec db.handle); rebuilt db.path n

  unfoldable pub bp_tagdb_test_version : Option TagDb → M W Bool
  bp_tagdb_test_version none c = (c, err Code.null_arg)
  bp_tagdb_test_version (some db) c =
      let r = bp_client_call env (handle_spec (codes "OCXcip_TestTagDbVer") db.handle) c in
      (r.0, version_changed r.1)

  unfoldable pub bp_tagdb_symbol_at : Option TagDb → ℕ → M W SymbolInfo
  bp_tagdb_symbol_at none index = fail Code.null_arg
  bp_tagdb_symbol_at (some db) index = bp_client_call env (symbol_spec db.handle index)

  unfoldable pub bp_tagdb_get_struct_info : Option TagDb → ℕ → M W StructInfo
  bp_tagdb_get_struct_info none struct_id = fail Code.null_arg
  bp_tagdb_get_struct_info (some db) struct_id =
      bp_client_call env (struct_spec db.handle struct_id)

  unfoldable pub bp_tagdb_get_struct_member : Option TagDb → ℕ → ℕ → M W StructMemberInfo
  bp_tagdb_get_struct_member none struct_id member_index = fail Code.null_arg
  bp_tagdb_get_struct_member (some db) struct_id member_index =
      bp_client_call env (member_spec db.handle struct_id member_index)
