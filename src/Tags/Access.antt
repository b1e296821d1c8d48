-- ===== src/Tags/Access.antt =====
-- What the engine finds in the slot of an OCXcip_AccessTagData request (c/src/access.c).
mod Descriptor
pub use Descriptor.{Described}
use cmee1y1_clients.Base.{
  ℕ, ◌+◌, ◌-◌, ◌%◌, ◌^◌, ◌≤◌, ◌<◌, ◌≡◌, ◌≢◌, ap, ◌∙◌, ◌⊎◌, inl, inr, some, none, Option, List, ◌++◌,
  length, take, drop, refl, sym, Bool-cases, ltb, ◌==◌, length-take, arith, get_elem?,
}
use cmee1y1_clients.Memory.{Buffer, bp_st_u16, bp_ld_u16, bp_ld_u32, memcpy, memset, slice}
use cmee1y1_clients.Memory.Laws.{
  memcpy-out, memset-out, st_u16-out, st_u8-out, st_u64-out, ld_u16-agree, ld_u16-st, ld_u16-Apart,
  slice-agree, memset-memcpy_read,
}
use cmee1y1_clients.Call.{slot_stride}
use cmee1y1_clients.Tags.{
  TagDb, TagRequest, nbytes, action_write, action_read, req_start, describe, access_fill,
  data_area_start, payload_size, access_read, get_data,
}
use cmee1y1_clients.Tags.Batch.{
  sum_bytes, total_data_bytes-sum, Outside, Bounded, fill_each-out, fill_each-describe,
  fill_each-bytes, read_each-at,
}
use Descriptor.{short, Described-agree, describe-Bounded, counted-Described}

-- A batch for which the sizes' sum does not wrap in 32 bits.
pub record IsBatch (rs : List TagRequest) : Type 0 where
  pub not_empty : length rs ≢ 0
  pub at_most : length rs ≤ 16
  pub no_wrap : data_area_start (length rs) + sum_bytes rs < 2 ^ 32

module _ (db : TagDb) (rs : List TagRequest) (v : IsBatch rs) (p : Buffer) where
  -- What stands in the slot when the loop starts.
  abbrev headed : Buffer
  headed =
      bp_st_u16 (bp_st_u16 (memcpy (memset p 0x78 0 256) 0x78 (take 254 db.path)) 0x178 0) 0x17A
        (length rs)

  -- For 1 to 16 requests whose sizes' sum does not wrap in 32 bits: where the payload fits, as the
  -- guard tests it, a request writes between the header's end and the slot's end only, so it leaves
  -- the header and the next slot alone.
  pub access_fill-bounds :
      payload_size (data_area_start (length rs)) rs ≤ slot_stride - 0x80
      → (k : ℕ) → (k < 0x78) ⊎ (slot_stride ≤ k)
      → access_fill db rs (data_area_start (length rs)) p k ≡ p k
  unfolding access_fill payload_size
  access_fill-bounds fits k (inl h) =
      fill_each-out req_start 0x120 describe describe-Bounded 0 _ rs headed k v.no_wrap
        (inl (omega arith)) (inl (omega arith))
      ∙ st_u16-out _ 0x17A (length rs) k (inl (omega arith))
      ∙ st_u16-out _ 0x178 0 k (inl (omega arith))
      ∙ memcpy-out _ 0x78 (take 254 db.path) k (inl h)
      ∙ memset-out p 0x78 0 256 k (inl h)
  access_fill-bounds fits k (inr h) =
      fill_each-out req_start 0x120 describe describe-Bounded 0 _ rs headed k v.no_wrap
        (inr (omega (arith, v.at_most)))
        (inr (omega (arith, fits, v.no_wrap, total_data_bytes-sum rs)))
      ∙ st_u16-out _ 0x17A (length rs) k (inr (omega arith))
      ∙ st_u16-out _ 0x178 0 k (inr (omega arith))
      ∙ memcpy-out _ 0x78 (take 254 db.path) k (inr (omega (arith, short db.path)))
      ∙ memset-out p 0x78 0 256 k (inr (omega arith))

  -- For 1 to 16 requests whose sizes' sum does not wrap in 32 bits: the engine finds the database's
  -- path, the number of requests and, at its place, the descriptor of every request; no descriptor
  -- is overwritten by another or by the data.
  pub access_fill-Described :
      (j : ℕ) (r : TagRequest)
      → get_elem? rs j ≡ some r
      → let q = access_fill db rs (data_area_start (length rs)) p in
        (slice q 0x78 (length (take 254 db.path)) ≡ take 254 db.path)
        × (q (0x78 + length (take 254 db.path)) ≡ 0)
        × (bp_ld_u16 q 0x17A ≡ length rs)
        × Described r q (req_start j)
  unfolding access_fill
  access_fill-Described j r g =
      let start = data_area_start (length rs) in
      let (b, same) =
        fill_each-describe req_start 0x120 describe describe-Bounded 0 start j rs r headed v.no_wrap
          (omega (arith, v.not_empty)) g in
      let front = λ (k : ℕ) (h : k < 0x180).
        fill_each-out req_start 0x120 describe describe-Bounded 0 start rs headed k v.no_wrap
          (inl (omega (arith, h))) (inl (omega (arith, h))) in
      let path = λ (k : ℕ) (h : k < 0x178).
        front k (omega (arith, h))
        ∙ st_u16-out _ 0x17A (length rs) k (inl (omega (arith, h)))
        ∙ st_u16-out _ 0x178 0 k (inl h) in
      let (name, nul) =
        memset-memcpy_read p 0x78 256 (take 254 db.path) (omega (arith, short db.path)) in
      (
        slice-agree _ _ 0x78 _ (λ k lo hi. path k (omega (arith, short db.path))) ∙ name,
        path _ (omega (arith, short db.path)) ∙ nul,
        ld_u16-agree _ headed 0x17A (λ k lo hi. front k (omega arith))
            ∙ ld_u16-st _ 0x17A (length rs)
            ∙ mod_small,
        Described-agree r (describe j r b) _ (req_start j)
            (λ k lo hi.
              same k (omega arith) (omega arith) ∙ ap (λ (n : ℕ). describe n r b k) (omega arith))
            (counted-Described j r b),
      )
    where
      mod_small : length rs % 2 ^ 16 ≡ length rs
      mod_small = omega (arith, v.at_most)

  -- For 1 to 16 requests whose sizes' sum does not wrap in 32 bits: the bytes of a write that has as
  -- many as its size says stand whole in the data area, after those of the requests before it.
  pub access_fill-bytes :
      (j : ℕ) (r : TagRequest) (bs : List ℕ)
      → get_elem? rs j ≡ some r
      → r.action ≡ action_write
      → r.bytes ≡ some bs
      → length bs ≡ nbytes r
      → slice
          (access_fill db rs (data_area_start (length rs)) p)
          (data_area_start (length rs) + sum_bytes (take j rs))
          (nbytes r)
        ≡ bs
  unfolding access_fill
  access_fill-bytes j r bs g a d n =
      fill_each-bytes req_start 0x120 describe describe-Bounded 0 _ j rs r bs headed v.no_wrap
        (omega (arith, v.not_empty)) g a d n

  -- What becomes of a request's buffer if its place in the data area is `off`.
  abbrev pub Taken : TagRequest → ℕ → Option (List ℕ) → Type 0
  Taken r off after =
      ((r.action ≡ action_read)
        × ((bs : List ℕ) × (r.bytes ≡ some bs)
            × (after ≡ some (slice p off (nbytes r) ++ drop (nbytes r) bs))))
      ⊎ (((r.action ≢ action_read) ⊎ (r.bytes ≡ none)) × (after ≡ r.bytes))

  get_data-Taken :
      (r : TagRequest) (off : ℕ) → Taken r off (get_data r.action (nbytes r) r.bytes off p)
  unfolding get_data slice
  get_data-Taken r off = at r.bytes refl
    where
      n : ℕ
      n = nbytes r

      at : (o : Option (List ℕ)) → r.bytes ≡ o → Taken r off (get_data r.action n o off p)
      at none e = inr (inr e, sym e)
      at (some bs) e = elim (Bool-cases (r.action == action_read)) [
        | inr other ↦ inr (inl (λ s. ground (arith, other, s)), rw other (sym e))
        | inl read ↦ elim (Bool-cases (ltb 0 n)) [
          | inl long ↦ inl (ground (arith, read), (bs, e, rw (read, long) refl))
          | inr empty ↦
              let nothing : n ≡ 0 = ground (arith, empty) in
              inl (
                ground (arith, read),
                (
                  bs,
                  e,
                  rw (read, empty)
                      (ap (λ (m : ℕ). some (slice p off m ++ drop m bs)) (sym nothing)),
                ),
              )
        ]
      ]

  -- For 1 to 16 requests whose sizes' sum does not wrap in 32 bits: after the reply every request
  -- has the result of its own descriptor; the buffer of a read holds the bytes of the place in the
  -- data area in which a write of its size would have stood, and behind these what it held before; and
  -- a request that is no read, or has no buffer, keeps what it has.
  pub access_read-at :
      (j : ℕ) (r : TagRequest)
      → get_elem? rs j ≡ some r
      → (after : Option (List ℕ)) × (get_elem? (access_read rs (data_area_start (length rs)) p) j
          ≡ some (record r { result = bp_ld_u32 p (req_start j + 0x118); bytes = after }))
        × Taken r (data_area_start (length rs) + sum_bytes (take j rs)) after
  unfolding access_read
  access_read-at j r g =
      let place = data_area_start (length rs) + sum_bytes (take j rs) in
      (
        get_data r.action (nbytes r) r.bytes place p,
        read_each-at (λ i. req_start i + 0x118) 0 (data_area_start (length rs)) j rs r p v.no_wrap g
            ∙ ap
                (λ (n : ℕ). some (record r {
                  result = bp_ld_u32 p (req_start n + 0x118);
                  bytes = get_data r.action (nbytes r) r.bytes place p;
                }))
                (omega arith),
        get_data-Taken r place,
      )
