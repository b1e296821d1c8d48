-- ===== src/Tags/AccessDb.antt =====
-- What the engine finds in the slot of an OCXcip_AccessTagDataDb request (c/src/accessdb.c), whose
-- descriptors have 32-bit fields.
use cmee1y1_clients.Base.{
  ℕ, ◌+◌, ◌-◌, ◌%◌, ◌^◌, ◌≤◌, ◌<◌, ◌≡◌, ◌≢◌, ap, ◌∙◌, ◌⊎◌, inl, inr, some, List, length, take,
  length-take, arith, get_elem?,
}
use cmee1y1_clients.Memory.{
  Buffer, bp_st_u16, bp_st_u32, bp_ld_u16, bp_ld_u32, memcpy, memset, slice,
}
use cmee1y1_clients.Memory.Laws.{
  memcpy-out, memset-out, st_u16-out, st_u32-out, ld_u16-agree, ld_u16-st, ld_u32-agree, ld_u32-st,
  ld_u32-Apart, slice-agree, memset-memcpy_read,
}
use cmee1y1_clients.Call.{slot_stride}
use cmee1y1_clients.Tags.{
  TagDb, TagRequest, nbytes, action_write, req_start_db, describe_db, accessdb_fill,
  data_area_start_db, payload_size,
}
use cmee1y1_clients.Tags.Batch.{
  sum_bytes, total_data_bytes-sum, Outside, Bounded, fill_each-out, fill_each-describe,
  fill_each-bytes,
}

short : (name : List ℕ) → length (take 254 name) ≤ 254
short name = omega (arith, length-take 254 name)

-- A descriptor as the engine reads it at `o`.
pub record DescribedDb (r : TagRequest) (q : Buffer) (o : ℕ) : Type 0 where
  pub tag_name : slice q o (length (take 254 r.tag_name)) ≡ take 254 r.tag_name
  pub tag_name_ends : q (o + length (take 254 r.tag_name)) ≡ 0
  pub action : bp_ld_u16 q (o + 0x100) ≡ r.action % 2 ^ 16
  pub data_type : bp_ld_u32 q (o + 0x104) ≡ r.data_type % 2 ^ 32
  pub elem_byte_size : bp_ld_u32 q (o + 0x108) ≡ r.elem_byte_size % 2 ^ 32
  pub elem_count : bp_ld_u32 q (o + 0x10C) ≡ r.elem_count % 2 ^ 32

module _ (i : ℕ) (r : TagRequest) (p : Buffer) where
  abbrev named : Buffer
  named = memcpy (memset p (req_start_db i) 0 0x128) (req_start_db i) (take 254 r.tag_name)

  abbrev directed : Buffer
  directed = bp_st_u16 named (req_start_db i + 0x100) r.action

  abbrev typed : Buffer
  typed = bp_st_u32 directed (req_start_db i + 0x104) r.data_type

  abbrev sized : Buffer
  sized = bp_st_u32 typed (req_start_db i + 0x108) r.elem_byte_size

  describe_db-typed : (k : ℕ) → k < req_start_db i + 0x104 → describe_db i r p k ≡ directed k
  unfolding describe_db
  describe_db-typed k h =
      st_u32-out sized (req_start_db i + 0x10C) r.elem_count k (inl (omega arith))
      ∙ st_u32-out typed (req_start_db i + 0x108) r.elem_byte_size k (inl (omega arith))
      ∙ st_u32-out directed (req_start_db i + 0x104) r.data_type k (inl (omega arith))

  describe_db-name : (k : ℕ) → k < req_start_db i + 0x100 → describe_db i r p k ≡ named k
  describe_db-name k h =
      describe_db-typed k (omega arith)
      ∙ st_u16-out named (req_start_db i + 0x100) r.action k (inl (omega arith))

  describe_db-within :
      (k : ℕ) → Outside (req_start_db i) (req_start_db i + 0x128) k → describe_db i r p k ≡ p k
  unfolding describe_db
  describe_db-within k (inl h) =
      describe_db-name k (omega arith)
      ∙ memcpy-out _ (req_start_db i) (take 254 r.tag_name) k (inl h)
      ∙ memset-out p (req_start_db i) 0 0x128 k (inl h)
  describe_db-within k (inr h) =
      st_u32-out sized (req_start_db i + 0x10C) r.elem_count k (inr (omega arith))
      ∙ st_u32-out typed (req_start_db i + 0x108) r.elem_byte_size k (inr (omega arith))
      ∙ st_u32-out directed (req_start_db i + 0x104) r.data_type k (inr (omega arith))
      ∙ st_u16-out named (req_start_db i + 0x100) r.action k (inr (omega arith))
      ∙ memcpy-out _ (req_start_db i) (take 254 r.tag_name) k
          (inr (omega (arith, short r.tag_name)))
      ∙ memset-out p (req_start_db i) 0 0x128 k (inr h)

  describe_db-DescribedDb : DescribedDb r (describe_db i r p) (req_start_db i)
  unfolding describe_db
  describe_db-DescribedDb =
      let o = req_start_db i in
      let (name, nul) =
        memset-memcpy_read p o 0x128 (take 254 r.tag_name) (omega (arith, short r.tag_name)) in
      record {
        tag_name =
            slice-agree _ named o _ (λ k a b. describe_db-name k (omega (arith, short r.tag_name)))
            ∙ name;
        tag_name_ends = describe_db-name _ (omega (arith, short r.tag_name)) ∙ nul;
        action =
            ld_u16-agree _ directed (o + 0x100) (λ k a b. describe_db-typed k (omega arith))
            ∙ ld_u16-st named (o + 0x100) r.action;
        data_type =
            ld_u32-Apart sized (o + 0x104) (o + 0x10C) r.elem_count (inl (omega arith))
            ∙ ld_u32-Apart typed (o + 0x104) (o + 0x108) r.elem_byte_size (inl (omega arith))
            ∙ ld_u32-st directed (o + 0x104) r.data_type;
        elem_byte_size =
            ld_u32-Apart sized (o + 0x108) (o + 0x10C) r.elem_count (inl (omega arith))
            ∙ ld_u32-st typed (o + 0x108) r.elem_byte_size;
        elem_count = ld_u32-st sized (o + 0x10C) r.elem_count;
      }

DescribedDb-agree :
    (r : TagRequest) (q s : Buffer) (o : ℕ)
    → ((k : ℕ) → o ≤ k → k < o + 0x128 → s k ≡ q k)
    → DescribedDb r q o
    → DescribedDb r s o
DescribedDb-agree r q s o same d =
    let field = λ (x : ℕ) (h : x + 4 ≤ 0x128).
      ld_u32-agree s q (o + x) (λ k a b. same k (omega arith) (omega (arith, h))) in
    record {
      tag_name =
          slice-agree s q o _ (λ k a b. same k a (omega (arith, short r.tag_name))) ∙ d.tag_name;
      tag_name_ends = same _ (omega arith) (omega (arith, short r.tag_name)) ∙ d.tag_name_ends;
      action =
          ld_u16-agree s q (o + 0x100) (λ k a b. same k (omega arith) (omega arith)) ∙ d.action;
      data_type = field 0x104 (omega arith) ∙ d.data_type;
      elem_byte_size = field 0x108 (omega arith) ∙ d.elem_byte_size;
      elem_count = field 0x10C (omega arith) ∙ d.elem_count;
    }

describe_db-Bounded : Bounded req_start_db 0x128 describe_db
describe_db-Bounded = record { apart = λ i. omega arith; within = describe_db-within }

-- A batch for which the sizes' sum does not wrap in 32 bits.
pub record IsBatchDb (rs : List TagRequest) : Type 0 where
  pub not_empty : length rs ≢ 0
  pub at_most : length rs ≤ 16
  pub no_wrap : data_area_start_db (length rs) + sum_bytes rs < 2 ^ 32

module _ (db : TagDb) (rs : List TagRequest) (v : IsBatchDb rs) (p : Buffer) where
  -- What stands in the slot when the loop starts.
  abbrev headed : Buffer
  headed = bp_st_u16 (bp_st_u32 (memset p 0x78 0 (0x88 - 0x78)) 0x78 db.handle) 0x80 (length rs)

  -- For 1 to 16 requests whose sizes' sum does not wrap in 32 bits: where the payload fits, as the
  -- guard tests it, a request through the database's handle writes between the header's end and the
  -- slot's end only.
  pub accessdb_fill-bounds :
      payload_size (data_area_start_db (length rs)) rs ≤ slot_stride - 0x80
      → (k : ℕ) → (k < 0x78) ⊎ (slot_stride ≤ k)
      → accessdb_fill db rs (data_area_start_db (length rs)) p k ≡ p k
  unfolding accessdb_fill payload_size
  accessdb_fill-bounds fits k (inl h) =
      fill_each-out req_start_db 0x128 describe_db describe_db-Bounded 0 _ rs headed k v.no_wrap
        (inl (omega arith)) (inl (omega arith))
      ∙ st_u16-out _ 0x80 (length rs) k (inl (omega arith))
      ∙ st_u32-out _ 0x78 db.handle k (inl (omega arith))
      ∙ memset-out p 0x78 0 (0x88 - 0x78) k (inl h)
  accessdb_fill-bounds fits k (inr h) =
      fill_each-out req_start_db 0x128 describe_db describe_db-Bounded 0 _ rs headed k v.no_wrap
        (inr (omega (arith, v.at_most)))
        (inr (omega (arith, fits, v.no_wrap, total_data_bytes-sum rs)))
      ∙ st_u16-out _ 0x80 (length rs) k (inr (omega arith))
      ∙ st_u32-out _ 0x78 db.handle k (inr (omega arith))
      ∙ memset-out p 0x78 0 (0x88 - 0x78) k (inr (omega arith))

  -- For 1 to 16 requests whose sizes' sum does not wrap in 32 bits: the engine finds the handle, the
  -- number of requests and, at its place, the descriptor of every request; no descriptor is
  -- overwritten by another or by the data.
  pub accessdb_fill-DescribedDb :
      (j : ℕ) (r : TagRequest)
      → get_elem? rs j ≡ some r
      → let q = accessdb_fill db rs (data_area_start_db (length rs)) p in
        (bp_ld_u32 q 0x78 ≡ db.handle % 2 ^ 32)
        × (bp_ld_u16 q 0x80 ≡ length rs)
        × DescribedDb r q (req_start_db j)
  unfolding accessdb_fill
  accessdb_fill-DescribedDb j r g =
      let start = data_area_start_db (length rs) in
      let (b, same) =
        fill_each-describe req_start_db 0x128 describe_db describe_db-Bounded 0 start j rs r headed
          v.no_wrap (omega (arith, v.not_empty)) g in
      let front = λ (k : ℕ) (h : k < 0x88).
        fill_each-out req_start_db 0x128 describe_db describe_db-Bounded 0 start rs headed k
          v.no_wrap (inl (omega (arith, h))) (inl (omega (arith, h))) in
      (
        ld_u32-agree _ (bp_st_u32 (memset p 0x78 0 (0x88 - 0x78)) 0x78 db.handle) 0x78 (λ k lo hi.
              front k (omega arith) ∙ st_u16-out _ 0x80 (length rs) k (inl (omega arith)))
            ∙ ld_u32-st _ 0x78 db.handle,
        ld_u16-agree _ headed 0x80 (λ k lo hi. front k (omega arith))
            ∙ ld_u16-st _ 0x80 (length rs)
            ∙ mod_small,
        DescribedDb-agree r (describe_db j r b) _ (req_start_db j)
            (λ k lo hi.
              same k (omega arith) (omega arith)
              ∙ ap (λ (n : ℕ). describe_db n r b k) (omega arith))
            (describe_db-DescribedDb j r b),
      )
    where
      mod_small : length rs % 2 ^ 16 ≡ length rs
      mod_small = omega (arith, v.at_most)

  -- The bytes of a write stand whole in the data area, after those of the requests before it.
  pub accessdb_fill-bytes :
      (j : ℕ) (r : TagRequest) (bs : List ℕ)
      → get_elem? rs j ≡ some r
      → r.action ≡ action_write
      → r.bytes ≡ some bs
      → length bs ≡ nbytes r
      → slice
          (accessdb_fill db rs (data_area_start_db (length rs)) p)
          (data_area_start_db (length rs) + sum_bytes (take j rs))
          (nbytes r)
        ≡ bs
  unfolding accessdb_fill
  accessdb_fill-bytes j r bs g a d n =
      fill_each-bytes req_start_db 0x128 describe_db describe_db-Bounded 0 _ j rs r bs headed
        v.no_wrap (omega (arith, v.not_empty)) g a d n
