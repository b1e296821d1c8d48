-- ===== src/Conn/Wire.antt =====
-- The bytes that c/src/conn.c builds and reads: Large Forward Open and Forward_Close requests, and
-- what is wrong with a reply.
use cmee1y1_clients.Base.{
  ℕ, ◌+◌, ◌*◌, ◌^◌, ◌<◌, ◌≤◌, ◌≡◌, refl, Bool, not, ◌&&◌, ◌||◌, List, [], ◌∷◌, ◌++◌, length, get_or,
  ltb, leb, ◌==◌, if◌then◌else◌, arith,
}
use cmee1y1_clients.Memory.{le16, le32, of_bytes, bp_ld_u16, bp_ld_u32}
use cmee1y1_clients.State.{CipStatus}
use cmee1y1_clients.Message.{Reply}

abbrev pub lfo_default_ot_size : ℕ
lfo_default_ot_size = 4000

abbrev pub lfo_max_ot_size : ℕ
lfo_max_ot_size = 4002

abbrev pub lfo_params_hi : ℕ
lfo_params_hi = 0x42000000

abbrev pub lfo_rpi_us : ℕ
lfo_rpi_us = 10000000

abbrev pub lfo_vendor_id : ℕ
lfo_vendor_id = 0x0001

-- `LFO_PARAMS_HI | ot_size_bytes`: the size has 16 bits, and the constant's lower 16 are 0.
unfoldable pub build_lfo : ℕ → ℕ → ℕ → List ℕ
build_lfo conn_serial orig_serial ot_size_bytes =
    let params = le32 (lfo_params_hi + ot_size_bytes) in
    (0x5B ∷ 0x02 ∷ 0x20 ∷ 0x06 ∷ 0x24 ∷ 0x01 ∷ 0x05 ∷ 0xF7 ∷ [])
    ++ le32 0x80010000
    ++ le32 0x80000001
    ++ le16 conn_serial
    ++ le16 lfo_vendor_id
    ++ le32 orig_serial
    ++ le32 0x00000003
    ++ le32 lfo_rpi_us
    ++ params
    ++ le32 lfo_rpi_us
    ++ params
    ++ (0xA3 ∷ 0x02 ∷ 0x20 ∷ 0x02 ∷ 0x24 ∷ 0x01 ∷ [])

unfoldable pub build_fc : ℕ → ℕ → ℕ → List ℕ
build_fc conn_serial vendor_id orig_serial =
    (0x4E ∷ 0x02 ∷ 0x20 ∷ 0x06 ∷ 0x24 ∷ 0x01 ∷ 0x0A ∷ 0x0E ∷ [])
    ++ le16 conn_serial
    ++ le16 vendor_id
    ++ le32 orig_serial
    ++ (0x02 ∷ 0x00 ∷ 0x20 ∷ 0x02 ∷ 0x24 ∷ 0x01 ∷ [])

-- `conn_params` 0 asks for the default; what exceeds the hardware's limit is capped.
unfoldable pub ot_size_of : ℕ → ℕ
ot_size_of conn_params =
    let wanted = if conn_params == 0 then lfo_default_ot_size else conn_params in
    if ltb lfo_max_ot_size wanted then lfo_max_ot_size else wanted

-- The tests of a Forward Open and a Forward_Close reply.
unfoldable pub lfo_refused : Reply → Bool
lfo_refused r =
    ltb r.resp_len 12
    || not (get_or r.resp 0 0 == 0xDB) && not (get_or r.resp 0 0 == 0xD4)
    || not (get_or r.resp 2 0 == 0x00)

unfoldable pub fc_refused : Reply → Bool
fc_refused r =
    ltb r.resp_len 4 || not (get_or r.resp 0 0 == 0xCE) || not (get_or r.resp 2 0 == 0x00)

-- The status that a refused reply is recorded with.
unfoldable pub refusal : ℕ → Reply → CipStatus
refusal slot r = record {
  service = if r.resp_len == 0 then 0 else get_or r.resp 0 0;
  status = if leb 3 r.resp_len then get_or r.resp 2 0 else 0xFF;
  ext_status =
      if leb 6 r.resp_len && not (get_or r.resp 3 0 == 0)
      then get_or r.resp 4 0 + get_or r.resp 5 0 * 2 ^ 8
      else 0;
  slot = slot;
}

pub length-build_lfo : (s o z : ℕ) → length (build_lfo s o z) ≡ 50
unfolding build_lfo le16 le32
length-build_lfo s o z = refl

pub length-build_fc : (s v o : ℕ) → length (build_fc s v o) ≡ 22
unfolding build_fc le16 le32
length-build_fc s v o = refl

-- The negotiated size is never 0 and never above the hardware's 4002 bytes.
pub ot_size_bounds : (p : ℕ) → (0 < ot_size_of p) × (ot_size_of p ≤ lfo_max_ot_size)
unfolding ot_size_of
ot_size_bounds p = ground arith

-- For serials and a size that fit their fields: the controller reads out of a Forward Open the
-- serials and, in both directions, the size that went in, and the size does not disturb the flags in
-- the upper half of its field.
pub build_lfo_fields :
    (s o z : ℕ)
    → s < 2 ^ 16
    → o < 2 ^ 32
    → z < 2 ^ 16
    → let q = of_bytes (build_lfo s o z) in
      (bp_ld_u16 q 16 ≡ s)
      × (bp_ld_u16 q 18 ≡ lfo_vendor_id)
      × (bp_ld_u32 q 20 ≡ o)
      × (bp_ld_u32 q 32 ≡ lfo_params_hi + z)
      × (bp_ld_u32 q 40 ≡ lfo_params_hi + z)
unfolding build_lfo le16 le32 of_bytes bp_ld_u16 bp_ld_u32
build_lfo_fields s o z a b c = (omega arith, refl, omega arith, omega arith, omega arith)

-- A Forward_Close names the connection by the serials and the vendor of its Forward Open.
pub build_fc-matches-lfo :
    (s o z : ℕ)
    → let opened = of_bytes (build_lfo s o z) in
      let closed = of_bytes (build_fc s lfo_vendor_id o) in
      (bp_ld_u16 closed 8 ≡ bp_ld_u16 opened 16)
      × (bp_ld_u16 closed 10 ≡ bp_ld_u16 opened 18)
      × (bp_ld_u32 closed 12 ≡ bp_ld_u32 opened 20)
unfolding build_lfo build_fc le16 le32 of_bytes bp_ld_u16 bp_ld_u32
build_fc-matches-lfo s o z = (refl, refl, refl)
