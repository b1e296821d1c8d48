-- ===== src/Tags.antt =====
-- c/src/access.c and c/src/accessdb.c: reading and writing tags. One call carries up to 16 requests:
-- a header, a descriptor per request, and one data area in which the requests' bytes follow each other.
pub mod Batch
pub mod Access
pub mod AccessDb
pub mod Cache
pub mod Symbols
pub mod Values
pub mod Scalars
pub mod Walk
pub mod Multi
use cmee1y1_clients.Base.{
  ℕ, zero, suc, ◌+◌, ◌-◌, ◌*◌, ◌/◌, ◌%◌, ◌^◌, ◌<◌, Bool, true, false, not, ◌&&◌, ◌||◌, Option, none,
  some, List, [], ◌∷◌, ◌++◌, length, take, drop, ltb, ◌==◌, if◌then◌else◌, codes, Result, ok, err,
}
use cmee1y1_clients.Memory.{
  Buffer, st_u8, bp_st_u16, bp_st_u32, bp_st_u64, bp_ld_u32, memcpy, memset, slice,
}
use cmee1y1_clients.State.{Env, M, fail}
use cmee1y1_clients.State.Code
use cmee1y1_clients.Call.{CallSpec, slot_stride, bp_client_call}

-- A `bp_tagdb_t`: the engine's handle and the path, which holds no NUL.
pub record TagDb : Type 0 where
  pub handle : ℕ
  pub path : List ℕ

-- `BP_ACTION_READ` and `BP_ACTION_WRITE`.
abbrev pub action_read : ℕ
action_read = 1

abbrev pub action_write : ℕ
action_write = 2

-- A `bp_tag_request_t`. `bytes` is what the pointer points at, `none` for NULL.
pub record TagRequest : Type 0 where
  pub tag_name : List ℕ
  pub data_type : ℕ
  pub elem_byte_size : ℕ
  pub action : ℕ
  pub elem_count : ℕ
  pub bytes : Option (List ℕ)
  pub result : ℕ

-- The bytes of a request's data, in `uint32_t`.
unfoldable pub nbytes : TagRequest → ℕ
nbytes r = r.elem_byte_size * r.elem_count % 2 ^ 32

-- The data area's size. The sum is one of `uint32_t`.
unfoldable pub total_data_bytes : List TagRequest → ℕ
total_data_bytes [] = 0
total_data_bytes (r ∷ rs) = (nbytes r + total_data_bytes rs) % 2 ^ 32

-- For a write with data, the caller's bytes go to the data area.
unfoldable pub put_data : ℕ → ℕ → Option (List ℕ) → ℕ → Buffer → Buffer
put_data action n none off p = p
put_data action n (some bs) off p =
    if action == action_write && ltb 0 n then memcpy p off (take n bs) else p

-- For a read with a buffer, the bytes of the data area go to the caller's buffer.
unfoldable pub get_data : ℕ → ℕ → Option (List ℕ) → ℕ → Buffer → Option (List ℕ)
get_data action n none off p = none
get_data action n (some bs) off p =
    some (if action == action_read && ltb 0 n then slice p off n ++ drop n bs else bs)

-- The loop of a fill: `i` and `off` are the index and the data offset of the first request left.
-- `describe` writes the descriptor of a request with its index.
unfoldable pub fill_each :
    (ℕ → TagRequest → Buffer → Buffer) → ℕ → ℕ → List TagRequest → Buffer → Buffer
fill_each describe i off [] p = p
fill_each describe i off (r ∷ rs) p =
    fill_each describe (i + 1) ((off + nbytes r) % 2 ^ 32) rs
      (put_data r.action (nbytes r) r.bytes off (describe i r p))

-- The loop of a read: the requests with the results and the data that the server wrote.
unfoldable pub read_each : (ℕ → ℕ) → ℕ → ℕ → List TagRequest → Buffer → List TagRequest
read_each result_at i off [] p = []
read_each result_at i off (r ∷ rs) p =
    record r {
      result = bp_ld_u32 p (result_at i);
      bytes = get_data r.action (nbytes r) r.bytes off p;
    }
    ∷ read_each result_at (i + 1) ((off + nbytes r) % 2 ^ 32) rs p

-- Descriptor `i` of OCXcip_AccessTagData.
abbrev pub req_start : ℕ → ℕ
req_start i = 0x180 + i * 0x120

unfoldable pub describe : ℕ → TagRequest → Buffer → Buffer
describe i r p =
    let o = req_start i in
    let p1 = memcpy (memset p o 0 0x120) o (take 254 r.tag_name) in
    let p2 = bp_st_u16 (bp_st_u16 p1 (o + 0x100) r.data_type) (o + 0x102) r.elem_byte_size in
    let p3 = bp_st_u16 (bp_st_u16 p2 (o + 0x104) r.action) (o + 0x106) r.elem_count in
    bp_st_u64 (st_u8 p3 (o + 0x108) 0) (o + 0x110) 0

unfoldable pub access_fill : TagDb → List TagRequest → ℕ → Buffer → Buffer
access_fill db rs data_area_start p =
    let p1 = memcpy (memset p 0x78 0 256) 0x78 (take 254 db.path) in
    let p2 = bp_st_u16 (bp_st_u16 p1 0x178 0) 0x17A (length rs) in
    fill_each describe 0 data_area_start rs p2

unfoldable pub access_read : List TagRequest → ℕ → Buffer → List TagRequest
access_read rs data_area_start p = read_each (λ i. req_start i + 0x118) 0 data_area_start rs p

-- Descriptor `i` of OCXcip_AccessTagDataDb, which is wider.
abbrev pub req_start_db : ℕ → ℕ
req_start_db i = 0x88 + i * 0x128

unfoldable pub describe_db : ℕ → TagRequest → Buffer → Buffer
describe_db i r p =
    let o = req_start_db i in
    let p1 = memcpy (memset p o 0 0x128) o (take 254 r.tag_name) in
    let p2 = bp_st_u32 (bp_st_u16 p1 (o + 0x100) r.action) (o + 0x104) r.data_type in
    bp_st_u32 (bp_st_u32 p2 (o + 0x108) r.elem_byte_size) (o + 0x10C) r.elem_count

unfoldable pub accessdb_fill : TagDb → List TagRequest → ℕ → Buffer → Buffer
accessdb_fill db rs data_area_start p =
    let p1 =
      bp_st_u16 (bp_st_u32 (memset p 0x78 0 (0x88 - 0x78)) 0x78 db.handle) 0x80 (length rs) in
    fill_each describe_db 0 data_area_start rs p1

unfoldable pub accessdb_read : List TagRequest → ℕ → Buffer → List TagRequest
accessdb_read rs data_area_start p = read_each (λ i. req_start_db i + 0x120) 0 data_area_start rs p

-- Where the data area starts, for so many requests, 1 at least.
abbrev pub data_area_start : ℕ → ℕ
data_area_start count = 0x2A0 + (count - 1) * 0x120

abbrev pub data_area_start_db : ℕ → ℕ
data_area_start_db count = 0x1B0 + (count - 1) * 0x128

unfoldable pub payload_size : ℕ → List TagRequest → ℕ
payload_size start rs = (start + total_data_bytes rs) % 2 ^ 32

abbrev pub access_spec : TagDb → List TagRequest → CallSpec (List TagRequest)
access_spec db rs =
    let start = data_area_start (length rs) in
    record {
      fn_name = codes "OCXcip_AccessTagData";
      payload_size = payload_size start rs;
      fill_payload = access_fill db rs start;
      read_reply = access_read rs start;
      timeout_ms = 10000;
    }

abbrev pub accessdb_spec : TagDb → List TagRequest → CallSpec (List TagRequest)
accessdb_spec db rs =
    let start = data_area_start_db (length rs) in
    record {
      fn_name = codes "OCXcip_AccessTagDataDb";
      payload_size = payload_size start rs;
      fill_payload = accessdb_fill db rs start;
      read_reply = accessdb_read rs start;
      timeout_ms = 10000;
    }

module _ {W : Type 0} (env : Env W) where
  -- The guards that the two services share, on the requests and the payload's size.
  unfoldable pub access_checked :
      CallSpec (List TagRequest) → List TagRequest → M W (List TagRequest)
  access_checked spec rs =
      if length rs == 0
      then fail Code.null_arg
      else if ltb 16 (length rs)
      then fail Code.param_range
      else if ltb (slot_stride - 0x80) spec.payload_size
      then fail Code.slot_too_large
      else bp_client_call env spec

  -- The requests with their results. A NULL array of requests is one of none, which is refused with
  -- the same code.
  unfoldable pub bp_tagdb_access : Option TagDb → List TagRequest → M W (List TagRequest)
  bp_tagdb_access none rs = fail Code.null_arg
  bp_tagdb_access (some db) rs = access_checked (access_spec db rs) rs

  unfoldable pub bp_tagdb_access_db : Option TagDb → List TagRequest → M W (List TagRequest)
  bp_tagdb_access_db none rs = fail Code.null_arg
  bp_tagdb_access_db (some db) rs = access_checked (accessdb_spec db rs) rs
