-- ===== src/Structs.antt =====
-- c/src/struct.c: whole structures read and written by one message to the controller.
pub mod Requests
pub mod Replies
pub mod Written
use cmee1y1_clients.Base.{
  ℕ, ◌+◌, ◌-◌, ◌*◌, ◌/◌, ◌%◌, ◌^◌, Bool, true, not, ◌&&◌, ◌||◌, Option, none, some, List, [], ◌∷◌,
  ◌++◌, length, get_or, take, drop, ltb, leb, ◌==◌, if◌then◌else◌, Result, ok, err,
}
use cmee1y1_clients.Memory.{le16}
use cmee1y1_clients.State.{CipStatus, Client, Env, M, ◌>>=◌, fail, return}
use cmee1y1_clients.State.Code
use cmee1y1_clients.Message.{Message, Reply, max_req, bp_client_message_send}
use cmee1y1_clients.Cip.{bp_record_cip_error}

-- The path of a symbol: its name with its length, padded to an even number of bytes.
unfoldable pub symbolic_ioi_path : List ℕ → List ℕ
symbolic_ioi_path tag =
    let raw = 0x91 ∷ (length tag % 2 ^ 8) ∷ tag in
    if length raw % 2 == 0 then raw else raw ++ 0x00 ∷ []

-- Its size in words of 16 bits.
unfoldable pub ioi_words : List ℕ → ℕ
ioi_words tag = length (symbolic_ioi_path tag) / 2 % 2 ^ 8

unfoldable pub read_request : List ℕ → List ℕ
read_request tag = 0x4C ∷ ioi_words tag ∷ (symbolic_ioi_path tag ++ le16 1)

-- C builds the request in an array of 761 bytes, which more than 500 bytes of data overflow before
-- the size is tested.
unfoldable pub write_request : List ℕ → ℕ → List ℕ → List ℕ
write_request tag handle bytes =
    0x4D ∷ ioi_words tag ∷ (symbolic_ioi_path tag ++ 0xA0 ∷ 0x02 ∷ (le16 handle ++ le16 1 ++ bytes))

abbrev pub struct_message : ℕ → List ℕ → ℕ → Message
struct_message slot req capacity = record {
  slot = slot;
  cip_request = some req;
  req_size = length req;
  timeout_ms = 5000;
  resp_data = true;
  resp_capacity = capacity;
}

-- The array for the reply has 512 bytes.
unfoldable pub struct_capacity : ℕ → ℕ
struct_capacity out_cap = if ltb 512 out_cap then 512 else out_cap

-- The words of extended status that a reply announces.
abbrev pub ext_words : Reply → ℕ
ext_words r = if leb 4 r.resp_len then get_or r.resp 3 0 else 0

unfoldable pub struct_refusal : ℕ → Reply → CipStatus
struct_refusal slot r = record {
  service = get_or r.resp 0 0;
  status = get_or r.resp 2 0;
  ext_status =
      if leb 1 (ext_words r) && leb (4 + ext_words r * 2) r.resp_len
      then get_or r.resp 4 0 + get_or r.resp 5 0 * 2 ^ 8
      else 0;
  slot = slot;
}

-- What a read returns: the structure's handle and its bytes.
pub record StructData : Type 0 where
  pub handle : ℕ
  pub bytes : List ℕ

-- The body behind the header of `o` bytes: a type, the handle and the bytes.
unfoldable pub struct_body : ℕ → ℕ → Reply → Result StructData
struct_body out_cap o r =
    let size = r.resp_len - o - 4 in
    if ltb r.resp_len (o + 4)
    then err Code.generic
    else if ltb out_cap size
    then err Code.param_range
    else ok (record {
      handle = get_or r.resp (o + 2) 0 + get_or r.resp (o + 3) 0 * 2 ^ 8;
      bytes = take size (drop (o + 4) r.resp);
    })

module _ {W : Type 0} where
  abbrev pub refused {ℓ} : {A : Type ℓ} → ℕ → Reply → M W A
  refused slot r c = (bp_record_cip_error (struct_refusal slot r) c, err Code.cip_status)

  unfoldable pub take_struct : ℕ → ℕ → Reply → M W StructData
  take_struct slot out_cap r c =
      if ltb r.resp_len 4
      then (c, err Code.generic)
      else if not (get_or r.resp 2 0 == 0)
      then refused slot r c
      else (c, struct_body out_cap (4 + ext_words r * 2) r)

  unfoldable pub take_written : ℕ → Reply → M W (Unit {0})
  take_written slot r c =
      if ltb r.resp_len 3
      then (c, err Code.generic)
      else if not (get_or r.resp 2 0 == 0)
      then refused slot r c
      else (c, ok tt)

abbrev pub tag_refused : List ℕ → Bool
tag_refused tag = length tag == 0 || ltb 250 (length tag)

module _ {W : Type 0} (env : Env W) where
  unfoldable pub bp_client_read_struct : ℕ → Option (List ℕ) → ℕ → M W StructData
  bp_client_read_struct slot none out_cap = fail Code.null_arg
  bp_client_read_struct slot (some tag) out_cap =
      if tag_refused tag
      then fail Code.param_range
      else if ltb out_cap 16
      then fail Code.param_range
      else (do
        r ←
            bp_client_message_send env
              (struct_message slot (read_request tag) (struct_capacity out_cap))
        take_struct slot out_cap r)

  -- The array for the reply has 64 bytes.
  unfoldable pub send_struct : ℕ → List ℕ → M W (Unit {0})
  send_struct slot req =
      if ltb max_req (length req)
      then fail Code.param_range
      else (do r ← bp_client_message_send env (struct_message slot req 64); take_written slot r)

  unfoldable pub bp_client_write_struct : ℕ → Option (List ℕ) → ℕ → List ℕ → M W (Unit {0})
  bp_client_write_struct slot none handle bytes = fail Code.null_arg
  bp_client_write_struct slot (some tag) handle bytes =
      if tag_refused tag
      then fail Code.param_range
      else if length bytes == 0
      then fail Code.param_range
      else send_struct slot (write_request tag handle bytes)
