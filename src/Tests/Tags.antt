-- ===== src/Tests/Tags.antt =====
-- Runs of the tags' theorems.
use cmee1y1_clients.Base.{
  Option, ℕ, ◌+◌, ◌-◌, ◌≤◌, ◌≡◌, refl, some, List, [], ◌∷◌, map, inr, length, arith, replicate,
  get_elem?,
}
use cmee1y1_clients.Memory.{Buffer, slice, of_bytes, bp_ld_u16, bp_ld_u32}
use cmee1y1_clients.Call.{slot_stride}
use cmee1y1_clients.Tags.{
  TagDb, TagRequest, nbytes, total_data_bytes, req_start, access_fill, access_read, accessdb_fill,
  data_area_start, data_area_start_db, payload_size,
}
use cmee1y1_clients.Tags.Batch.{sum_bytes}
use cmee1y1_clients.Tags.Access.{
  Described, IsBatch, access_fill-bounds, access_fill-Described, access_fill-bytes, access_read-at,
  Taken,
}
use cmee1y1_clients.Tags.AccessDb.{IsBatchDb, accessdb_fill-bytes}
use cmee1y1_clients.Tags.Cache.{bp_tag_cache_find_or_alloc, zeroed_cache}
use cmee1y1_clients.Tags.Cache.Allocation.{Allocated, find_or_alloc-Allocated}
use cmee1y1_clients.Tags.Values.Bits.{
  dwords_for_bits, pack_bits, unpack_bits, flag, unpack_bits-pack_bits,
}
use cmee1y1_clients.Tags.Scalars.{
  uint, Value, kind_for_atomic, kind_of_code, sized_kind, encode_scalar, decode_scalar, normal,
  decode_scalar-encode_scalar,
}

abbrev pub db : TagDb
db = record { handle = 9; path = 80 ∷ 58 ∷ 49 ∷ [] }

abbrev writing : TagRequest
writing = record {
  tag_name = 65 ∷ 66 ∷ [];
  data_type = 0xC3;
  elem_byte_size = 2;
  action = 2;
  elem_count = 1;
  bytes = some (7 ∷ 8 ∷ []);
  result = 0;
}

abbrev reading : TagRequest
reading = record {
  tag_name = 67 ∷ [];
  data_type = 0xC4;
  elem_byte_size = 4;
  action = 1;
  elem_count = 1;
  bytes = some (0 ∷ 0 ∷ 0 ∷ 0 ∷ []);
  result = 0;
}

abbrev batch : List TagRequest
batch = reading ∷ writing ∷ []

batch-IsBatch : IsBatch batch
unfolding nbytes
batch-IsBatch = record { not_empty = omega arith; at_most = omega arith; no_wrap = omega arith }

batch-IsBatchDb : IsBatchDb batch
unfolding nbytes
batch-IsBatchDb = record { not_empty = omega arith; at_most = omega arith; no_wrap = omega arith }

abbrev noise : Buffer
noise o = 9

batch_fits : payload_size (data_area_start 2) batch ≤ slot_stride - 0x80
unfolding payload_size total_data_bytes nbytes
batch_fits = omega arith

batch_fits_db : payload_size (data_area_start_db 2) batch ≤ slot_stride - 0x80
unfolding payload_size total_data_bytes nbytes
batch_fits_db = omega arith

access_fill-bounds_example : access_fill db batch (data_area_start 2) noise slot_stride ≡ 9
access_fill-bounds_example =
    access_fill-bounds db batch batch-IsBatch noise batch_fits slot_stride (inr (omega arith))

access_fill-Described_example :
    let q = access_fill db batch (data_area_start 2) noise in
    (slice q 0x78 3 ≡ db.path)
    × (q (0x78 + 3) ≡ 0)
    × (bp_ld_u16 q 0x17A ≡ 2)
    × Described writing q (req_start 1)
access_fill-Described_example = access_fill-Described db batch batch-IsBatch noise 1 writing refl

access_fill-bytes_example :
    slice
      (access_fill db batch (data_area_start 2) noise)
      (data_area_start 2 + sum_bytes (reading ∷ []))
      (nbytes writing)
    ≡ 7 ∷ 8 ∷ []
unfolding nbytes
access_fill-bytes_example =
    access_fill-bytes db batch batch-IsBatch noise 1 writing (7 ∷ 8 ∷ []) refl refl refl refl

access_read-at_example :
    (after : Option (List ℕ)) × (get_elem? (access_read batch (data_area_start 2) noise) 0
      ≡ some (record reading { result = bp_ld_u32 noise (req_start 0 + 0x118); bytes = after }))
    × Taken db batch batch-IsBatch noise reading (data_area_start 2 + sum_bytes []) after
access_read-at_example = access_read-at db batch batch-IsBatch noise 0 reading refl

accessdb_fill-bytes_example :
    slice
      (accessdb_fill db batch (data_area_start_db 2) noise)
      (data_area_start_db 2 + sum_bytes (reading ∷ []))
      (nbytes writing)
    ≡ 7 ∷ 8 ∷ []
unfolding nbytes
accessdb_fill-bytes_example =
    accessdb_fill-bytes db batch batch-IsBatchDb noise 1 writing (7 ∷ 8 ∷ []) refl refl refl refl

find_or_alloc-Allocated_example :
    Allocated db.path
      (replicate 8 zeroed_cache)
      (bp_tag_cache_find_or_alloc db.path (replicate 8 zeroed_cache))
find_or_alloc-Allocated_example = find_or_alloc-Allocated db.path (replicate 8 zeroed_cache)

abbrev flags : List ℕ
flags = 1 ∷ 0 ∷ 2 ∷ []

unpack_bits-pack_bits_example :
    unpack_bits 3 0 (pack_bits 0 flags (replicate (dwords_for_bits 3) 0)) ≡ map flag flags
unpack_bits-pack_bits_example = unpack_bits-pack_bits flags (omega arith)

abbrev value : Value
value = record { kind = uint; bits = 513 }

value_kind : kind_for_atomic 0x20C7 2 ≡ uint
unfolding kind_for_atomic kind_of_code sized_kind
value_kind = refl

decode_scalar-encode_scalar_example :
    (bs : List ℕ) × (encode_scalar uint 513 2 ≡ some bs)
    × (length bs ≡ 2)
    × (decode_scalar uint (of_bytes bs) ≡ record { kind = uint; bits = normal uint 513 })
decode_scalar-encode_scalar_example =
    decode_scalar-encode_scalar 0x20C7 2 value value_kind (λ e. cc)
