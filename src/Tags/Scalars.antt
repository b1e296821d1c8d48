-- ===== src/Tags/Scalars.antt =====
-- The typed values of c/src/multitag.c: which kind a symbol's type stands for, and how a value of that
-- kind is encoded and decoded. The batches of such values are in Tags/Multi.
use cmee1y1_clients.Base.{
  ℕ, ◌+◌, ◌*◌, ◌/◌, ◌%◌, ◌^◌, ◌≡◌, ◌≢◌, refl, ap, sym, ◌∙◌, Bool, Option, none, some, List, [], ◌∷◌,
  ◌++◌, length, ◌==◌, if◌then◌else◌, arith,
}
use cmee1y1_clients.Memory.{Buffer, le16, le32, of_bytes, bp_ld_u16, bp_ld_u32}

-- `bp_value_kind_t`, without its strings and structures, which no scalar has.
pub data Kind : Type 0 where
  no_kind boolean sint usint int_ uint dint udint lint ulint real lreal : Kind

-- A `bp_value_t`: the kind and the pattern of bits of the value. A Boolean is C's `int`.
pub record Value : Type 0 where
  pub kind : Kind
  pub bits : ℕ

unfoldable pub sized_kind : Bool → Kind → Kind
sized_kind fits k = if fits then k else no_kind

-- The `switch` on the type code.
unfoldable pub kind_of_code : ℕ → ℕ → Kind
kind_of_code code n =
    if code == 0xC1
    then sized_kind (n == 1) boolean
    else if code == 0xC2
    then sized_kind (n == 1) sint
    else if code == 0xC3
    then sized_kind (n == 2) int_
    else if code == 0xC4
    then sized_kind (n == 4) dint
    else if code == 0xC5
    then sized_kind (n == 8) lint
    else if code == 0xC6
    then sized_kind (n == 1) usint
    else if code == 0xC7
    then sized_kind (n == 2) uint
    else if code == 0xC8
    then sized_kind (n == 4) udint
    else if code == 0xC9
    then sized_kind (n == 8) ulint
    else if code == 0xCA
    then sized_kind (n == 4) real
    else if code == 0xCB
    then sized_kind (n == 8) lreal
    else no_kind

-- The type code is the lower 13 bits of the type.
unfoldable pub kind_for_atomic : ℕ → ℕ → Kind
kind_for_atomic data_type elem_byte_size = kind_of_code (data_type % 2 ^ 13) elem_byte_size

unfoldable pub decode_scalar : Kind → Buffer → Value
decode_scalar no_kind p = record { kind = no_kind; bits = 0 }
decode_scalar boolean p = record { kind = boolean; bits = if p 0 == 0 then 0 else 1 }
decode_scalar sint p = record { kind = sint; bits = p 0 }
decode_scalar usint p = record { kind = usint; bits = p 0 }
decode_scalar int_ p = record { kind = int_; bits = bp_ld_u16 p 0 }
decode_scalar uint p = record { kind = uint; bits = bp_ld_u16 p 0 }
decode_scalar dint p = record { kind = dint; bits = bp_ld_u32 p 0 }
decode_scalar udint p = record { kind = udint; bits = bp_ld_u32 p 0 }
decode_scalar real p = record { kind = real; bits = bp_ld_u32 p 0 }
decode_scalar lint p = record { kind = lint; bits = bp_ld_u32 p 0 + bp_ld_u32 p 4 * 2 ^ 32 }
decode_scalar ulint p = record { kind = ulint; bits = bp_ld_u32 p 0 + bp_ld_u32 p 4 * 2 ^ 32 }
decode_scalar lreal p = record { kind = lreal; bits = bp_ld_u32 p 0 + bp_ld_u32 p 4 * 2 ^ 32 }

abbrev only : Bool → List ℕ → Option (List ℕ)
only fits bs = if fits then some bs else none

abbrev le64 : ℕ → List ℕ
le64 v = le32 (v % 2 ^ 32) ++ le32 (v / 2 ^ 32)

-- The bytes that are written, where the kind has the expected size.
unfoldable pub encode_scalar : Kind → ℕ → ℕ → Option (List ℕ)
encode_scalar no_kind v n = none
encode_scalar boolean v n = only (n == 1) ((if v == 0 then 0 else 1) ∷ [])
encode_scalar sint v n = only (n == 1) ((v % 256) ∷ [])
encode_scalar usint v n = only (n == 1) ((v % 256) ∷ [])
encode_scalar int_ v n = only (n == 2) (le16 v)
encode_scalar uint v n = only (n == 2) (le16 v)
encode_scalar dint v n = only (n == 4) (le32 v)
encode_scalar udint v n = only (n == 4) (le32 v)
encode_scalar real v n = only (n == 4) (le32 v)
encode_scalar lint v n = only (n == 8) (le64 v)
encode_scalar ulint v n = only (n == 8) (le64 v)
encode_scalar lreal v n = only (n == 8) (le64 v)

abbrev pub width : Kind → ℕ
width no_kind = 0
width boolean = 1
width sint = 1
width usint = 1
width int_ = 2
width uint = 2
width dint = 4
width udint = 4
width real = 4
width lint = 8
width ulint = 8
width lreal = 8

-- The value that a pattern of bits stands for in a kind.
abbrev pub normal : Kind → ℕ → ℕ
normal boolean v = if v == 0 then 0 else 1
normal k v = v % 2 ^ (8 * width k)

pub kind_for_atomic-width :
    (t n : ℕ) (k : Kind) → kind_for_atomic t n ≡ k → k ≢ no_kind → n ≡ width k
unfolding kind_for_atomic kind_of_code sized_kind
kind_for_atomic-width t n no_kind e h = absurd (h refl)
kind_for_atomic-width t n boolean e h = ground (arith, e)
kind_for_atomic-width t n sint e h = ground (arith, e)
kind_for_atomic-width t n usint e h = ground (arith, e)
kind_for_atomic-width t n int_ e h = ground (arith, e)
kind_for_atomic-width t n uint e h = ground (arith, e)
kind_for_atomic-width t n dint e h = ground (arith, e)
kind_for_atomic-width t n udint e h = ground (arith, e)
kind_for_atomic-width t n real e h = ground (arith, e)
kind_for_atomic-width t n lint e h = ground (arith, e)
kind_for_atomic-width t n ulint e h = ground (arith, e)
kind_for_atomic-width t n lreal e h = ground (arith, e)

at :
    (k : Kind) {x y : ℕ}
    → x ≡ y
    → ◌≡◌ {A = Value} (record { kind = k; bits = x }) (record { kind = k; bits = y })
at k e = ap (λ b. record { kind = k; bits = b }) e

ld_le16 : (v : ℕ) → bp_ld_u16 (of_bytes (le16 v)) 0 ≡ v % 2 ^ 16
unfolding of_bytes le16 bp_ld_u16
ld_le16 v = omega arith

ld_le32 : (v : ℕ) → bp_ld_u32 (of_bytes (le32 v)) 0 ≡ v % 2 ^ 32
unfolding of_bytes le32 bp_ld_u32
ld_le32 v = omega arith

ld_le64 :
    (v : ℕ)
    → bp_ld_u32 (of_bytes (le64 v)) 0 + bp_ld_u32 (of_bytes (le64 v)) 4 * 2 ^ 32 ≡ v % 2 ^ 64
unfolding of_bytes le32 bp_ld_u32
ld_le64 v = omega arith

encode_scalar-decode :
    (k : Kind) (v : ℕ)
    → k ≢ no_kind
    → (bs : List ℕ) × (encode_scalar k v (width k) ≡ some bs)
      × (length bs ≡ width k)
      × (decode_scalar k (of_bytes bs) ≡ record { kind = k; bits = normal k v })
unfolding encode_scalar decode_scalar of_bytes le16 le32 bp_ld_u16 bp_ld_u32
encode_scalar-decode no_kind v h = absurd (h refl)
encode_scalar-decode boolean v h = (_, refl, refl, at boolean (ground arith))
encode_scalar-decode sint v h = (_, refl, refl, refl)
encode_scalar-decode usint v h = (_, refl, refl, refl)
encode_scalar-decode int_ v h = (_, refl, refl, at int_ (ld_le16 v))
encode_scalar-decode uint v h = (_, refl, refl, at uint (ld_le16 v))
encode_scalar-decode dint v h = (_, refl, refl, at dint (ld_le32 v))
encode_scalar-decode udint v h = (_, refl, refl, at udint (ld_le32 v))
encode_scalar-decode real v h = (_, refl, refl, at real (ld_le32 v))
encode_scalar-decode lint v h = (_, refl, refl, at lint (ld_le64 v))
encode_scalar-decode ulint v h = (_, refl, refl, at ulint (ld_le64 v))
encode_scalar-decode lreal v h = (_, refl, refl, at lreal (ld_le64 v))

-- A value whose kind is the one of a symbol's type and size is encoded, in as many bytes as the symbol
-- has, and decoding these gives the value back: the pattern of bits within the kind's width, and 0 or
-- 1 for a Boolean.
pub decode_scalar-encode_scalar :
    (t n : ℕ) (v : Value)
    → kind_for_atomic t n ≡ v.kind
    → v.kind ≢ no_kind
    → (bs : List ℕ) × (encode_scalar v.kind v.bits n ≡ some bs)
      × (length bs ≡ n)
      × (decode_scalar v.kind (of_bytes bs) ≡ record { kind = v.kind; bits = normal v.kind v.bits })
decode_scalar-encode_scalar t n v e h =
    let size : n ≡ width v.kind = kind_for_atomic-width t n v.kind e h in
    let (bs, encoded, long, decoded) = encode_scalar-decode v.kind v.bits h in
    (bs, ap (encode_scalar v.kind v.bits) size ∙ encoded, long ∙ sym size, decoded)
