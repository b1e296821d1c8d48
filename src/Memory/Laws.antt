-- ===== src/Memory/Laws.antt =====
-- Laws of the byte memory: what a read sees after a write, at the same place and elsewhere.
use cmee1y1_clients.Base.{
  ℕ, zero, suc, ◌+◌, ◌-◌, ◌/◌, ◌%◌, ◌^◌, ◌≤◌, ◌<◌, ◌≡◌, refl, ◌⊎◌, inl, inr, List, [], ◌∷◌, length,
  get_or, arith, ap, ◌∙◌, ap₂, ◌≢◌,
}
use cmee1y1_clients.Memory.{
  Buffer, st_u8, bp_st_u16, bp_st_u32, bp_st_u64, bp_ld_u16, bp_ld_u32, ld_u64, memcpy, memset,
  slice,
}

-- Reading back what was stored.
pub ld_u16-st : (m : Buffer) (o v : ℕ) → bp_ld_u16 (bp_st_u16 m o v) o ≡ v % 2 ^ 16
unfolding bp_ld_u16 bp_st_u16
ld_u16-st m o v = ground arith

pub ld_u32-st : (m : Buffer) (o v : ℕ) → bp_ld_u32 (bp_st_u32 m o v) o ≡ v % 2 ^ 32
unfolding bp_ld_u32 bp_st_u32
ld_u32-st m o v = ground arith

-- A store leaves the cells outside its range alone.
pub st_u8-out : (m : Buffer) (o v i : ℕ) → i ≢ o → st_u8 m o v i ≡ m i
unfolding st_u8
st_u8-out m o v i h = ground arith

pub st_u16-out : (m : Buffer) (o v i : ℕ) → (i < o) ⊎ (o + 2 ≤ i) → bp_st_u16 m o v i ≡ m i
unfolding bp_st_u16
st_u16-out m o v i h = ground arith

pub st_u32-out : (m : Buffer) (o v i : ℕ) → (i < o) ⊎ (o + 4 ≤ i) → bp_st_u32 m o v i ≡ m i
unfolding bp_st_u32
st_u32-out m o v i h = ground arith

pub st_u64-out : (m : Buffer) (o v i : ℕ) → (i < o) ⊎ (o + 8 ≤ i) → bp_st_u64 m o v i ≡ m i
unfolding bp_st_u64
st_u64-out m o v i h = ground (
  arith,
  st_u32-out (bp_st_u32 m o (v % 2 ^ 32)) (o + 4) (v / 2 ^ 32 % 2 ^ 32) i,
  st_u32-out m o (v % 2 ^ 32) i,
)

pub memcpy-out :
    (m : Buffer) (o : ℕ) (bs : List ℕ) (i : ℕ)
    → (i < o) ⊎ (o + length bs ≤ i)
    → memcpy m o bs i ≡ m i
unfolding memcpy
memcpy-out m o bs i h = ground arith

pub memcpy-in :
    (m : Buffer) (o : ℕ) (bs : List ℕ) (i : ℕ)
    → i < length bs
    → memcpy m o bs (o + i) ≡ get_or bs i 0
unfolding memcpy
memcpy-in m o bs i h = let e : o + i - o ≡ i = omega arith in ground (arith, e)

pub memset-out : (m : Buffer) (o v n i : ℕ) → (i < o) ⊎ (o + n ≤ i) → memset m o v n i ≡ m i
unfolding memset
memset-out m o v n i h = ground arith

pub memset-in : (m : Buffer) (o v n i : ℕ) → o ≤ i → i < o + n → memset m o v n i ≡ v
unfolding memset
memset-in m o v n i h k = ground arith

pub length-slice : (m : Buffer) (o n : ℕ) → length (slice m o n) ≡ n
unfolding slice
length-slice m o zero = refl
length-slice m o (suc n) = omega (arith, length-slice m (o + 1) n)

-- Two buffers that agree on a range have the same slice of it.
pub slice-agree :
    (m k : Buffer) (o n : ℕ) → ((i : ℕ) → o ≤ i → i < o + n → m i ≡ k i) → slice m o n ≡ slice k o n
unfolding slice
slice-agree m k o zero h = refl
slice-agree m k o (suc n) h =
    ap₂ ◌∷◌ (h o (omega arith) (omega arith))
      (slice-agree m k (o + 1) n (λ i a b. h i (omega arith) (omega arith)))

slice-get_or :
    (m : Buffer) (o : ℕ) (bs : List ℕ)
    → ((i : ℕ) → i < length bs → m (o + i) ≡ get_or bs i 0)
    → slice m o (length bs) ≡ bs
unfolding slice
slice-get_or m o [] h = refl
slice-get_or m o (b ∷ bs) h =
    ap₂ ◌∷◌ (ap m (omega arith) ∙ h 0 (omega arith))
      (slice-get_or m (o + 1) bs (λ i p. ap m (omega arith) ∙ h (suc i) (omega arith)))

-- What `memcpy` wrote is read back whole.
pub slice-memcpy : (m : Buffer) (o : ℕ) (bs : List ℕ) → slice (memcpy m o bs) o (length bs) ≡ bs
slice-memcpy m o bs = slice-get_or (memcpy m o bs) o bs (memcpy-in m o bs)

-- A read does not see a store elsewhere.
pub ld_u32-agree :
    (m k : Buffer) (o : ℕ)
    → ((i : ℕ) → o ≤ i → i < o + 4 → m i ≡ k i)
    → bp_ld_u32 m o ≡ bp_ld_u32 k o
unfolding bp_ld_u32
ld_u32-agree m k o h = omega (
  arith,
  h o (omega arith) (omega arith),
  h (o + 1) (omega arith) (omega arith),
  h (o + 2) (omega arith) (omega arith),
  h (o + 3) (omega arith) (omega arith),
)

pub ld_u16-agree :
    (m k : Buffer) (o : ℕ)
    → ((i : ℕ) → o ≤ i → i < o + 2 → m i ≡ k i)
    → bp_ld_u16 m o ≡ bp_ld_u16 k o
unfolding bp_ld_u16
ld_u16-agree m k o h =
    omega (arith, h o (omega arith) (omega arith), h (o + 1) (omega arith) (omega arith))

pub ld_u64-st : (m : Buffer) (o v : ℕ) → v < 2 ^ 64 → ld_u64 (bp_st_u64 m o v) o ≡ v
unfolding ld_u64 bp_st_u64
ld_u64-st m o v h = omega (
  arith,
  ld_u32-agree (bp_st_u32 (bp_st_u32 m o (v % 2 ^ 32)) (o + 4) (v / 2 ^ 32 % 2 ^ 32))
      (bp_st_u32 m o (v % 2 ^ 32)) o
      (λ i a b.
        st_u32-out (bp_st_u32 m o (v % 2 ^ 32)) (o + 4) (v / 2 ^ 32 % 2 ^ 32) i
          (inl (omega arith))),
  ld_u32-st m o (v % 2 ^ 32),
  ld_u32-st (bp_st_u32 m o (v % 2 ^ 32)) (o + 4) (v / 2 ^ 32 % 2 ^ 32),
)

-- Fields that do not overlap.
abbrev pub Apart : ℕ → ℕ → ℕ → ℕ → Type 0
Apart o n o' n' = (o + n ≤ o') ⊎ (o' + n' ≤ o)

pub ld_u16-Apart :
    (m : Buffer) (o o' v : ℕ) → Apart o 2 o' 2 → bp_ld_u16 (bp_st_u16 m o' v) o ≡ bp_ld_u16 m o
ld_u16-Apart m o o' v h = ld_u16-agree _ m o (λ i a b.
    st_u16-out m o' v i (elim h [ inl x ↦ inl (omega arith) | inr x ↦ inr (omega arith) ]))

pub ld_u32-Apart :
    (m : Buffer) (o o' v : ℕ) → Apart o 4 o' 4 → bp_ld_u32 (bp_st_u32 m o' v) o ≡ bp_ld_u32 m o
ld_u32-Apart m o o' v h = ld_u32-agree _ m o (λ i a b.
    st_u32-out m o' v i (elim h [ inl x ↦ inl (omega arith) | inr x ↦ inr (omega arith) ]))

-- A field of zeros and, in front of it, a C string of `n` bytes at most.
pub memset-memcpy_read :
    (m : Buffer) (o n : ℕ) (bs : List ℕ)
    → length bs < n
    → (slice (memcpy (memset m o 0 n) o bs) o (length bs) ≡ bs)
      × (memcpy (memset m o 0 n) o bs (o + length bs) ≡ 0)
memset-memcpy_read m o n bs h = (
  slice-memcpy (memset m o 0 n) o bs,
  memcpy-out (memset m o 0 n) o bs _ (inr (omega arith))
      ∙ memset-in m o 0 n _ (omega arith) (omega arith),
)
