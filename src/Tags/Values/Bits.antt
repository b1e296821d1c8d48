-- ===== src/Tags/Values/Bits.antt =====
-- The packing of a BOOL array into 32-bit words (c/src/access.c).
use cmee1y1_clients.Base.{
  ℕ, zero, suc, ◌+◌, ◌-◌, ◌*◌, ◌/◌, ◌%◌, ◌^◌, ◌<◌, ◌≤◌, ◌≡◌, ◌≢◌, refl, ap, sym, ◌∙◌, inl, inr,
  List, [], ◌∷◌, length, get_or, set, replicate, ◌==◌, if◌then◌else◌, min, arith, map, ap₂,
  length-replicate, length-set, get_or-set_self, get_or-set_ne, subst, eq_or_ne, Bool-cases,
}
use native.Mathlib.Nat.{
  add-mul-div_right, add-div_right, div-eq_of_lt, pow-suc, mul_assoc, one-le-pow,
}

unfoldable pub dwords_for_bits : ℕ → ℕ
dwords_for_bits count = (count + 31) / 32 % 2 ^ 16

-- The loop over the flags from index `i` on. Each bit is set once at most, so `|=` is written `+`.
unfoldable pub pack_bits : ℕ → List ℕ → List ℕ → List ℕ
pack_bits i [] ds = ds
pack_bits i (b ∷ bs) ds =
    pack_bits (i + 1) bs
      (if b == 0 then ds else set ds (i / 32) (get_or ds (i / 32) 0 + 2 ^ (i % 32)))

abbrev pub bit_at : List ℕ → ℕ → ℕ
bit_at ds i = get_or ds (i / 32) 0 / 2 ^ (i % 32) % 2

-- The `n` flags from index `i` on.
unfoldable pub unpack_bits : ℕ → ℕ → List ℕ → List ℕ
unpack_bits zero i ds = []
unpack_bits (suc n) i ds = bit_at ds i ∷ unpack_bits n (i + 1) ds

-- After `i` flags: no bit at or above them is set in any word.
abbrev Filled : ℕ → List ℕ → Type 0
Filled i ds = (k : ℕ) → get_or ds k 0 < 2 ^ min 32 (i - k * 32)

pow-split : (d j : ℕ) → 2 ^ (suc d + j) ≡ 2 ^ d * 2 * 2 ^ j
pow-split d zero =
    let e : suc d + 0 ≡ suc d = omega arith in ap (λ (n : ℕ). 2 ^ n) e ∙ omega (arith, pow-suc 2 d)
pow-split d (suc j) =
    let e : suc d + suc j ≡ suc (suc d + j) = omega arith in
    ap (λ (n : ℕ). 2 ^ n) e
    ∙ pow-suc 2 (suc d + j)
    ∙ ap (λ (n : ℕ). n * 2) (pow-split d j)
    ∙ mul_assoc (2 ^ d * 2) (2 ^ j) 2
    ∙ ap (λ (n : ℕ). 2 ^ d * 2 * n) (sym (pow-suc 2 j))

low_bit : (v m j : ℕ) → v < 2 ^ m → j < m → (v + 2 ^ m) / 2 ^ j % 2 ≡ v / 2 ^ j % 2
low_bit v m j a b =
    let d = m - j - 1 in
    let n : m ≡ suc d + j = omega arith in
    let e : 2 ^ m ≡ 2 ^ d * 2 * 2 ^ j = ap (λ (n : ℕ). 2 ^ n) n ∙ pow-split d j in
    ap (λ (p : ℕ). (v + p) / 2 ^ j % 2) e
    ∙ ap (λ (q : ℕ). q % 2) (add-mul-div_right v (2 ^ d * 2) (one-le-pow j 2 (omega arith)))
    ∙ omega arith

top_bit : (v m : ℕ) → v < 2 ^ m → (v + 2 ^ m) / 2 ^ m % 2 ≡ 1
top_bit v m a =
    ap (λ (q : ℕ). q % 2)
      (add-div_right v (one-le-pow m 2 (omega arith)) ∙ ap (λ (q : ℕ). q + 1) (div-eq_of_lt a))

abbrev pub flag : ℕ → ℕ
flag b = if b == 0 then 0 else 1

abbrev step : ℕ → ℕ → List ℕ → List ℕ
step i b ds = if b == 0 then ds else set ds (i / 32) (get_or ds (i / 32) 0 + 2 ^ (i % 32))

-- What one flag does to the words.
record Stepped (i b : ℕ) (ds es : List ℕ) : Type 0 where
  size : length es ≡ length ds
  filled : Filled (i + 1) es
  flagged : bit_at es i ≡ flag b
  kept : (j : ℕ) → j < i → bit_at es j ≡ bit_at ds j

filled_later :
    (i k x : ℕ) → i / 32 ≢ k → x < 2 ^ min 32 (i - k * 32) → x < 2 ^ min 32 (i + 1 - k * 32)
filled_later i k x h a =
    let e : min 32 (i - k * 32) ≡ min 32 (i + 1 - k * 32) = ground arith in
    subst (λ (n : ℕ). x < 2 ^ n) e a

filled_here : (i x : ℕ) → x < 2 * 2 ^ (i % 32) → x < 2 ^ min 32 (i + 1 - i / 32 * 32)
filled_here i x a =
    let e : suc (i % 32) ≡ min 32 (i + 1 - i / 32 * 32) = omega arith in
    subst (λ (n : ℕ). x < 2 ^ n) e (omega (arith, pow-suc 2 (i % 32), a))

word_small : (i : ℕ) (ds : List ℕ) → Filled i ds → get_or ds (i / 32) 0 < 2 ^ (i % 32)
word_small i ds f =
    let e : min 32 (i - i / 32 * 32) ≡ i % 32 = omega arith in
    subst (λ (n : ℕ). get_or ds (i / 32) 0 < 2 ^ n) e (f (i / 32))

module _ (i b : ℕ) (ds : List ℕ) (h : i < length ds * 32) (f : Filled i ds) where
  small : get_or ds (i / 32) 0 < 2 ^ (i % 32)
  small = word_small i ds f

  abbrev after : List ℕ
  after = set ds (i / 32) (get_or ds (i / 32) 0 + 2 ^ (i % 32))

  here : get_or after (i / 32) 0 ≡ get_or ds (i / 32) 0 + 2 ^ (i % 32)
  here = get_or-set_self ds (i / 32) _ 0 (omega arith)

  there : (k : ℕ) → i / 32 ≢ k → get_or after k 0 ≡ get_or ds k 0
  there k d = get_or-set_ne ds (i / 32) k _ 0 d

  step-Stepped : Stepped i b ds (step i b ds)
  step-Stepped = elim (Bool-cases (b == 0)) [
    | inl unset ↦ rw unset (record {
      size = refl;
      filled = λ k. elim (eq_or_ne (i / 32) k) [
        | inl same ↦
            subst (λ (n : ℕ). get_or ds n 0 < 2 ^ min 32 (i + 1 - n * 32)) same
              (filled_here i (get_or ds (i / 32) 0) (omega (arith, small)))
        | inr other ↦ filled_later i k (get_or ds k 0) other (f k)
      ];
      flagged = rw unset (ap (λ (q : ℕ). q % 2) (div-eq_of_lt small));
      kept = λ j a. refl;
    })
    | inr is_set ↦ rw is_set (record {
      size = length-set ds (i / 32) _;
      filled = λ k. elim (eq_or_ne (i / 32) k) [
        | inl same ↦
            subst (λ (n : ℕ). get_or after n 0 < 2 ^ min 32 (i + 1 - n * 32)) same
              (filled_here i (get_or after (i / 32) 0) (omega (arith, small, here)))
        | inr other ↦ filled_later i k (get_or after k 0) other (omega (arith, f k, there k other))
      ];
      flagged = rw is_set (
          ap (λ (v : ℕ). v / 2 ^ (i % 32) % 2) here
          ∙ top_bit (get_or ds (i / 32) 0) (i % 32) small);
      kept = λ j a. elim (eq_or_ne (i / 32) (j / 32)) [
        | inl same ↦
            ap (λ (n : ℕ). get_or after n 0 / 2 ^ (j % 32) % 2) (sym same)
            ∙ ap (λ (v : ℕ). v / 2 ^ (j % 32) % 2) here
            ∙ low_bit (get_or ds (i / 32) 0) (i % 32) (j % 32) small (omega (arith, same))
            ∙ ap (λ (n : ℕ). get_or ds n 0 / 2 ^ (j % 32) % 2) same
        | inr other ↦ ap (λ (v : ℕ). v / 2 ^ (j % 32) % 2) (there (j / 32) other)
      ];
    })
  ]

-- Flags that are set later leave the earlier ones alone.
pack_bits-kept :
    (i : ℕ) (bs ds : List ℕ) (j : ℕ)
    → i + length bs ≤ length ds * 32
    → Filled i ds
    → j < i
    → bit_at (pack_bits i bs ds) j ≡ bit_at ds j
unfolding pack_bits
pack_bits-kept i [] ds j h f a = refl
pack_bits-kept i (b ∷ bs) ds j h f a =
    let s = step-Stepped i b ds (omega arith) f in
    pack_bits-kept (i + 1) bs (step i b ds) j (omega (arith, s.size)) s.filled (omega arith)
    ∙ s.kept j a

unpack_bits-pack_from :
    (i : ℕ) (bs ds : List ℕ)
    → i + length bs ≤ length ds * 32
    → Filled i ds
    → unpack_bits (length bs) i (pack_bits i bs ds) ≡ map flag bs
unfolding pack_bits unpack_bits
unpack_bits-pack_from i [] ds h f = refl
unpack_bits-pack_from i (b ∷ bs) ds h f =
    let s = step-Stepped i b ds (omega arith) f in
    let es = step i b ds in
    ap₂ ◌∷◌
      (pack_bits-kept (i + 1) bs es i (omega (arith, s.size)) s.filled (omega arith) ∙ s.flagged)
      (unpack_bits-pack_from (i + 1) bs es (omega (arith, s.size)) s.filled)

zeros-Filled : (n i : ℕ) → Filled i (replicate n 0)
zeros-Filled n i k =
    subst (λ (x : ℕ). x < 2 ^ min 32 (i - k * 32)) (sym (blank n k)) (one-le-pow _ 2 (omega arith))
  where
    blank : (n k : ℕ) → ◌≡◌ {A = ℕ} (get_or (replicate n 0) k 0) 0
    blank zero k = refl
    blank (suc n) zero = refl
    blank (suc n) (suc k) = blank n k

-- For fewer than 65536 flags: a BOOL array that is packed into the words that the write sends, and
-- unpacked as the read does, is the same array, every flag that is not 0 being read as 1.
pub unpack_bits-pack_bits :
    (flags : List ℕ)
    → length flags < 2 ^ 16
    → unpack_bits
        (length flags)
        0
        (pack_bits 0 flags (replicate (dwords_for_bits (length flags)) 0))
      ≡ map flag flags
unfolding dwords_for_bits
unpack_bits-pack_bits flags h =
    let n = dwords_for_bits (length flags) in
    unpack_bits-pack_from 0 flags (replicate n 0) (omega (arith, length-replicate {A = ℕ} n 0))
      (zeros-Filled n 0)
