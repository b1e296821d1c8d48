-- ===== src/Call/Request.antt =====
-- What the server finds in the slot of a request.
use cmee1y1_clients.Base.{
  ℕ, ◌+◌, ◌-◌, ◌%◌, ◌^◌, ◌≤◌, ◌<◌, ◌≡◌, refl, List, length, take, length-take, arith, ◌⊎◌, inl, inr,
  ◌∙◌,
}
use cmee1y1_clients.Memory.{
  Buffer, bp_st_u16, bp_st_u32, bp_ld_u16, bp_ld_u32, ld_u64, memset, slice,
}
use cmee1y1_clients.Memory.Laws.{
  memset-in, memset-out, memcpy-out, st_u16-out, st_u32-out, slice-memcpy, slice-agree,
  ld_u32-agree, ld_u16-agree,
}
use cmee1y1_clients.Call.{
  CallSpec, slot_stride, pending_error_bits, owner_of, write_name, write_header, request,
}

-- The name is read back up to its NUL, and the rest of the slot is left alone.
name_short : (name : List ℕ) → length (take 63 name) ≤ 63
name_short name = omega (arith, length-take 63 name)

write_name-out :
    (name : List ℕ) (p : Buffer) (i : ℕ) → (i < 8) ⊎ (72 ≤ i) → write_name name p i ≡ p i
unfolding write_name
write_name-out name p i h =
    memcpy-out (memset p 8 0 64) 8 (take 63 name) i (outside h)
    ∙ memset-out p 8 0 64 i (omega arith)
  where
    outside : (i < 8) ⊎ (72 ≤ i) → (i < 8) ⊎ (8 + length (take 63 name) ≤ i)
    outside (inl a) = inl a
    outside (inr b) = inr (omega (arith, name_short name))

write_name-read :
    (name : List ℕ) (p : Buffer)
    → (slice (write_name name p) 8 (length (take 63 name)) ≡ take 63 name)
      × (write_name name p (8 + length (take 63 name)) ≡ 0)
unfolding write_name
write_name-read name p = (
  slice-memcpy (memset p 8 0 64) 8 (take 63 name),
  memcpy-out (memset p 8 0 64) 8 (take 63 name) _ (inr (omega arith))
      ∙ memset-in p 8 0 64 _ (omega arith) (omega (arith, name_short name)),
)

module _ {ℓ} {A : Type ℓ} (spec : CallSpec A) (pid slot : ℕ) (p : Buffer) where
  -- The fields of a request in slot `q`, over what stood in the slot before.
  pub record Header (q : Buffer) : Type 0 where
    pub opcode : bp_ld_u16 q 0x00 ≡ 0x00CA
    pub payload_size : bp_ld_u32 q 0x04 ≡ spec.payload_size % 2 ^ 32
    pub fn_name : slice q 0x08 (length (take 63 spec.fn_name)) ≡ take 63 spec.fn_name
    pub fn_name_ends : q (0x08 + length (take 63 spec.fn_name)) ≡ 0
    pub client_pid : bp_ld_u32 q 0x48 ≡ pid % 2 ^ 32
    pub is_docker : bp_ld_u16 q 0x4C ≡ 1
    pub not_answered : bp_ld_u32 q 0x50 ≡ pending_error_bits
    pub slot_owner : owner_of q ≡ owner_of p
    pub slot_number : bp_ld_u32 q 0x60 ≡ slot % 2 ^ 32
    pub padding :
        (bp_ld_u16 q 0x02 ≡ 0)
        × (bp_ld_u16 q 0x4E ≡ 0)
        × (bp_ld_u32 q 0x54 ≡ 0)
        × (bp_ld_u32 q 0x64 ≡ 0)
    pub reserved : (i : ℕ) → 0x68 ≤ i → i < 0x78 → q i ≡ 0

  -- What stands in the slot when the name is written.
  before_name : Buffer
  before_name = bp_st_u32 (bp_st_u16 (bp_st_u16 p 0x00 0x00CA) 0x02 0) 0x04 spec.payload_size

  header_cells :
      (i : ℕ) → i < 0x48 → write_header spec pid slot p i ≡ write_name spec.fn_name before_name i
  unfolding write_header before_name
  header_cells i h =
      memset-out _ 0x78 0 (slot_stride - 0x78) i (inl (omega arith))
      ∙ memset-out _ 0x68 0 0x10 i (inl (omega arith))
      ∙ st_u32-out _ 0x64 0 i (inl (omega arith))
      ∙ st_u32-out _ 0x60 slot i (inl (omega arith))
      ∙ st_u32-out _ 0x54 0 i (inl (omega arith))
      ∙ st_u32-out _ 0x50 pending_error_bits i (inl (omega arith))
      ∙ st_u16-out _ 0x4E 0 i (inl (omega arith))
      ∙ st_u16-out _ 0x4C 1 i (inl (omega arith))
      ∙ st_u32-out _ 0x48 pid i (inl (omega arith))

  header_reserved : (i : ℕ) → 0x68 ≤ i → i < 0x78 → write_header spec pid slot p i ≡ 0
  unfolding write_header
  header_reserved i a b =
      memset-out _ 0x78 0 (slot_stride - 0x78) i (inl b)
      ∙ memset-in _ 0x68 0 0x10 i a (omega (arith, b))

  write_header-Header : Header (write_header spec pid slot p)
  unfolding write_header before_name bp_st_u16 bp_st_u32 bp_ld_u16 bp_ld_u32 ld_u64 memset
  write_header-Header =
      let out = write_name-out spec.fn_name before_name in
      let (name, nul) = write_name-read spec.fn_name before_name in
      record {
        opcode = omega (arith, out 0 (inl (omega arith)), out 1 (inl (omega arith)));
        payload_size = omega (
          arith,
          out 4 (inl (omega arith)),
          out 5 (inl (omega arith)),
          out 6 (inl (omega arith)),
          out 7 (inl (omega arith)),
        );
        fn_name =
            slice-agree _ _ 8 _ (λ i a b. header_cells i (omega (arith, name_short spec.fn_name)))
            ∙ name;
        fn_name_ends = header_cells _ (omega (arith, name_short spec.fn_name)) ∙ nul;
        client_pid = omega arith;
        is_docker = refl;
        not_answered = refl;
        slot_owner = omega (
          arith,
          out 88 (inr (omega arith)),
          out 89 (inr (omega arith)),
          out 90 (inr (omega arith)),
          out 91 (inr (omega arith)),
          out 92 (inr (omega arith)),
          out 93 (inr (omega arith)),
          out 94 (inr (omega arith)),
          out 95 (inr (omega arith)),
        );
        slot_number = omega arith;
        padding =
            (omega (arith, out 2 (inl (omega arith)), out 3 (inl (omega arith))), refl, refl, refl);
        reserved = λ i a b. header_reserved i a b;
      }

  Header-agree : (q r : Buffer) → ((i : ℕ) → i < 0x78 → r i ≡ q i) → Header q → Header r
  unfolding ld_u64
  Header-agree q r same h = record {
    opcode = ld_u16-agree r q 0 (λ i a b. same i (omega arith)) ∙ h.opcode;
    payload_size = ld_u32-agree r q 4 (λ i a b. same i (omega arith)) ∙ h.payload_size;
    fn_name =
        slice-agree r q 8 _ (λ i a b. same i (omega (arith, name_short spec.fn_name))) ∙ h.fn_name;
    fn_name_ends = same _ (omega (arith, name_short spec.fn_name)) ∙ h.fn_name_ends;
    client_pid = ld_u32-agree r q 0x48 (λ i a b. same i (omega arith)) ∙ h.client_pid;
    is_docker = ld_u16-agree r q 0x4C (λ i a b. same i (omega arith)) ∙ h.is_docker;
    not_answered = ld_u32-agree r q 0x50 (λ i a b. same i (omega arith)) ∙ h.not_answered;
    slot_owner = omega (
      arith,
      ld_u32-agree r q 0x58 (λ i a b. same i (omega arith)),
      ld_u32-agree r q 0x5C (λ i a b. same i (omega arith)),
      h.slot_owner,
    );
    slot_number = ld_u32-agree r q 0x60 (λ i a b. same i (omega arith)) ∙ h.slot_number;
    padding =
        let (p1, p2, p3, p4) = h.padding in
        (
          ld_u16-agree r q 0x02 (λ i a b. same i (omega arith)) ∙ p1,
          ld_u16-agree r q 0x4E (λ i a b. same i (omega arith)) ∙ p2,
          ld_u32-agree r q 0x54 (λ i a b. same i (omega arith)) ∙ p3,
          ld_u32-agree r q 0x64 (λ i a b. same i (omega arith)) ∙ p4,
        );
    reserved = λ i a b. same i b ∙ h.reserved i a b;
  }

  -- A request whose `fill_payload` writes the payload only, from +0x78 on, has the header that the
  -- protocol asks for: opcode, sizes, name, pid and slot number, "not answered" for an errorcode,
  -- the owner that the reservation wrote, and zeros in the padding and in the reserved bytes.
  pub request-Header :
      ((q : Buffer) (i : ℕ) → i < 0x78 → spec.fill_payload q i ≡ q i)
      → Header (request spec pid slot p)
  unfolding request
  request-Header keeps =
      Header-agree (write_header spec pid slot p) _ (keeps (write_header spec pid slot p))
        write_header-Header

  -- Before it is filled, the payload is zero up to the end of the slot, whatever stood there.
  pub write_header-cleared :
      (i : ℕ) → 0x78 ≤ i → i < slot_stride → write_header spec pid slot p i ≡ 0
  unfolding write_header
  write_header-cleared i h k = memset-in _ 0x78 0 (slot_stride - 0x78) i h (omega arith)
