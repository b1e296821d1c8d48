-- ===== src/Memory.antt =====
-- Byte memory (c/src/proto.h): a buffer maps an offset to the byte stored there, and the
-- little-endian accessors `bp_ld_*` and `bp_st_*` with `memcpy` and `memset` act on it.
pub mod Laws
use cmee1y1_clients.Base.{
  ℕ, zero, suc, ◌+◌, ◌-◌, ◌*◌, ◌/◌, ◌%◌, ◌^◌, List, [], ◌∷◌, length, get_or, ltb, leb, ◌==◌,
  if◌then◌else◌, ◌&&◌,
}

abbrev pub Buffer : Type 0
Buffer = ℕ → ℕ

-- `p[o] = (uint8_t)v`.
unfoldable pub st_u8 : Buffer → ℕ → ℕ → Buffer
st_u8 m o v = λ i. if i == o then v % 256 else m i

unfoldable pub bp_st_u16 : Buffer → ℕ → ℕ → Buffer
unfolding st_u8
bp_st_u16 m o v = st_u8 (st_u8 m o v) (o + 1) (v / 2 ^ 8)

unfoldable pub bp_st_u32 : Buffer → ℕ → ℕ → Buffer
unfolding st_u8
bp_st_u32 m o v =
    st_u8 (st_u8 (st_u8 (st_u8 m o v) (o + 1) (v / 2 ^ 8)) (o + 2) (v / 2 ^ 16)) (o + 3)
      (v / 2 ^ 24)

unfoldable pub bp_st_u64 : Buffer → ℕ → ℕ → Buffer
unfolding bp_st_u32
bp_st_u64 m o v = bp_st_u32 (bp_st_u32 m o (v % 2 ^ 32)) (o + 4) (v / 2 ^ 32 % 2 ^ 32)

-- The shifted bytes do not overlap, so `|` is written `+`.
unfoldable pub bp_ld_u16 : Buffer → ℕ → ℕ
bp_ld_u16 m o = m o + m (o + 1) * 2 ^ 8

unfoldable pub bp_ld_u32 : Buffer → ℕ → ℕ
bp_ld_u32 m o = m o + m (o + 1) * 2 ^ 8 + m (o + 2) * 2 ^ 16 + m (o + 3) * 2 ^ 24

-- The two halves of a 64-bit field, as `reserve_slot` and `wc_ld_u64` join them.
unfoldable pub ld_u64 : Buffer → ℕ → ℕ
unfolding bp_ld_u32
ld_u64 m o = bp_ld_u32 m o + bp_ld_u32 m (o + 4) * 2 ^ 32

-- `memcpy(p + o, bs, length bs)`.
unfoldable pub memcpy : Buffer → ℕ → List ℕ → Buffer
memcpy m o bs = λ i. if leb o i && ltb (i - o) (length bs) then get_or bs (i - o) 0 else m i

-- `memset(p + o, v, n)`.
unfoldable pub memset : Buffer → ℕ → ℕ → ℕ → Buffer
memset m o v n = λ i. if leb o i && ltb (i - o) n then v else m i

-- The bytes of a little-endian field.
unfoldable pub le16 : ℕ → List ℕ
le16 v = (v % 256) ∷ (v / 2 ^ 8 % 256) ∷ []

unfoldable pub le32 : ℕ → List ℕ
le32 v = (v % 256) ∷ (v / 2 ^ 8 % 256) ∷ (v / 2 ^ 16 % 256) ∷ (v / 2 ^ 24 % 256) ∷ []

-- The `n` bytes from `o` on, as a `memcpy` out of the buffer reads them.
unfoldable pub slice : Buffer → ℕ → ℕ → List ℕ
slice m o zero = []
slice m o (suc n) = m o ∷ slice m (o + 1) n

-- The bytes from `o` on up to the first NUL, `n` at most: `while (k < n && p[k] != 0) k++`.
unfoldable pub c_string : Buffer → ℕ → ℕ → List ℕ
c_string m o zero = []
c_string m o (suc n) = let rest = c_string m (o + 1) n in if m o == 0 then [] else m o ∷ rest

-- A buffer over a list, zero past its end.
unfoldable pub of_bytes : List ℕ → Buffer
of_bytes bs = λ i. get_or bs i 0
