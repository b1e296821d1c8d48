-- ===== src/Tags/Batch.antt =====
-- The loops over a batch of requests: which bytes of the slot they touch.
use cmee1y1_clients.Base.{
  ℕ, zero, suc, ◌+◌, ◌%◌, ◌^◌, ◌≤◌, ◌<◌, ◌≡◌, refl, ap, ap₂, sym, ◌∙◌, ◌⊎◌, inl, inr, Bool, true,
  Option, none, some, List, [], ◌∷◌, length, take, length-take, ltb, ◌==◌, ◌&&◌, if◌then◌else◌,
  arith, get_elem?, Bool-cases, subst,
}
use cmee1y1_clients.Memory.{Buffer, memcpy, slice, bp_ld_u32}
use cmee1y1_clients.Memory.Laws.{memcpy-out, slice-memcpy, slice-agree}
use cmee1y1_clients.Tags.{
  TagRequest, nbytes, total_data_bytes, put_data, get_data, fill_each, read_each, action_write,
}

-- The sizes' sum, which does not wrap.
abbrev pub sum_bytes : List TagRequest → ℕ
sum_bytes [] = 0
sum_bytes (r ∷ rs) = nbytes r + sum_bytes rs

pub total_data_bytes-sum : (rs : List TagRequest) → total_data_bytes rs ≡ sum_bytes rs % 2 ^ 32
unfolding total_data_bytes
total_data_bytes-sum [] = refl
total_data_bytes-sum (r ∷ rs) = omega (arith, total_data_bytes-sum rs)

-- A cell outside of a range.
abbrev pub Outside : ℕ → ℕ → ℕ → Type 0
Outside lo hi k = (k < lo) ⊎ (hi ≤ k)

put_data-out :
    (action n : ℕ) (bytes : Option (List ℕ)) (off : ℕ) (p : Buffer) (k : ℕ)
    → Outside off (off + n) k
    → put_data action n bytes off p k ≡ p k
unfolding put_data
put_data-out action n none off p k h = refl
put_data-out action n (some bs) off p k h = elim (Bool-cases (action == action_write && ltb 0 n)) [
  | inl written ↦ rw written (
      memcpy-out p off (take n bs) k
        (elim h [ inl a ↦ inl a | inr b ↦ inr (omega (arith, length-take n bs)) ]))
  | inr kept ↦ rw kept refl
]

take_all {ℓ} : {A : Type ℓ} (xs : List A) → take (length xs) xs ≡ xs
take_all [] = refl
take_all (x ∷ xs) = ap (◌∷◌ x) (take_all xs)

put_data-written :
    (bs : List ℕ) (off : ℕ) (p : Buffer)
    → slice (put_data action_write (length bs) (some bs) off p) off (length bs) ≡ bs
unfolding put_data slice
put_data-written [] off p = refl
put_data-written (b ∷ bs) off p =
    let n = length (b ∷ bs) in
    let some_bytes : ltb 0 n ≡ true = ground arith in
    ap (λ (c : Bool). slice (if c then memcpy p off (take n (b ∷ bs)) else p) off n) some_bytes
    ∙ subst (λ (ys : List ℕ). slice (memcpy p off ys) off (length (b ∷ bs)) ≡ b ∷ bs)
        (sym (take_all (b ∷ bs))) (slice-memcpy p off (b ∷ bs))

put_data-in :
    (action n : ℕ) (bytes : Option (List ℕ)) (off : ℕ) (p : Buffer) (bs : List ℕ)
    → action ≡ action_write
    → bytes ≡ some bs
    → length bs ≡ n
    → slice (put_data action n bytes off p) off n ≡ bs
put_data-in action n bytes off p bs a d l =
    ap (λ (t : ℕ). slice (put_data t n bytes off p) off n) a
    ∙ ap (λ (o : Option (List ℕ)). slice (put_data action_write n o off p) off n) d
    ∙ ap (λ (k : ℕ). slice (put_data action_write k (some bs) off p) off k) (sym l)
    ∙ put_data-written bs off p

-- Descriptors of one size, one after the other, each written within its bounds.
module _ (start : ℕ → ℕ) (size : ℕ) (describe : ℕ → TagRequest → Buffer → Buffer) where
  pub record Bounded : Type 0 where
    pub apart : (i : ℕ) → start (i + 1) ≡ start i + size
    pub within :
        (i : ℕ) (r : TagRequest) (p : Buffer) (k : ℕ)
        → Outside (start i) (start i + size) k
        → describe i r p k ≡ p k

  start_grows : Bounded → (i n : ℕ) → start i ≤ start (i + n)
  start_grows b i zero = let e : i + 0 ≡ i = omega arith in omega (arith, ap start e)
  start_grows b i (suc n) =
      let e : start (i + suc n) ≡ start (i + n + 1) = ap start (omega arith) in
      omega (arith, e, b.apart (i + n), start_grows b i n)

  -- The loop writes the descriptors and the data area, and nothing else.
  pub fill_each-out :
      Bounded
      → (i off : ℕ) (rs : List TagRequest) (p : Buffer) (k : ℕ) → off + sum_bytes rs < 2 ^ 32
      → Outside (start i) (start (i + length rs)) k
      → Outside off (off + sum_bytes rs) k
      → fill_each describe i off rs p k ≡ p k
  unfolding fill_each
  fill_each-out b i off [] p k w h g = refl
  fill_each-out b i off (r ∷ rs) p k w h g =
      let e : start (i + suc (length rs)) ≡ start (i + 1 + length rs) = ap start (omega arith) in
      let f : (off + nbytes r) % 2 ^ 32 ≡ off + nbytes r = omega (arith, w) in
      let l : start (i + 1) ≤ start (i + 1 + length rs) = start_grows b (i + 1) (length rs) in
      fill_each-out b (i + 1) ((off + nbytes r) % 2 ^ 32) rs _ k (omega (arith, f))
        (elim h [ inl x ↦ inl (omega (arith, b.apart i)) | inr x ↦ inr (omega (arith, e)) ])
        (elim g [ inl x ↦ inl (omega (arith, f)) | inr x ↦ inr (omega (arith, f)) ])
      ∙ put_data-out r.action (nbytes r) r.bytes off (describe i r p) k
          (elim g [ inl x ↦ inl x | inr x ↦ inr (omega arith) ])
      ∙ b.within i r p k (elim h [ inl x ↦ inl x | inr x ↦ inr (omega (arith, b.apart i, l, e)) ])

  -- After the loop the descriptor of the `j`-th request stands as it was written.
  pub fill_each-describe :
      Bounded
      → (i off j : ℕ) (rs : List TagRequest) (r : TagRequest) (p : Buffer)
      → off + sum_bytes rs < 2 ^ 32
      → start (i + length rs) ≤ off
      → get_elem? rs j ≡ some r
      → (q : Buffer) × ((k : ℕ)
          → start (i + j) ≤ k
          → k < start (i + j) + size
          → fill_each describe i off rs p k ≡ describe (i + j) r q k)
  unfolding fill_each
  fill_each-describe b i off j [] r p w below g = cc
  fill_each-describe b i off zero (x ∷ rs) r p w below g =
      let e : start (i + suc (length rs)) ≡ start (i + 1 + length rs) = ap start (omega arith) in
      let z : i + 0 ≡ i = omega arith in
      let s : start (i + 0) ≡ start i = ap start z in
      let l : start (i + 1) ≤ start (i + 1 + length rs) = start_grows b (i + 1) (length rs) in
      let f : (off + nbytes x) % 2 ^ 32 ≡ off + nbytes x = omega (arith, w) in
      (
        p,
        λ k lo hi.
            fill_each-out b (i + 1) ((off + nbytes x) % 2 ^ 32) rs _ k (omega (arith, f))
              (inl (omega (arith, b.apart i, s))) (inl (omega (arith, f, e, l, b.apart i, s)))
            ∙ put_data-out x.action (nbytes x) x.bytes off (describe i x p) k
                (inl (omega (arith, e, l, b.apart i, s)))
            ∙ ap (λ (n : ℕ). describe n x p k) (sym z)
            ∙ ap (λ y. describe (i + 0) y p k) (let same : x ≡ r = cc in same),
      )
  fill_each-describe b i off (suc j) (x ∷ rs) r p w below g =
      let e : start (i + suc (length rs)) ≡ start (i + 1 + length rs) = ap start (omega arith) in
      let z : i + 1 + j ≡ i + suc j = omega arith in
      let f : (off + nbytes x) % 2 ^ 32 ≡ off + nbytes x = omega (arith, w) in
      let (q, same) =
        fill_each-describe b (i + 1) ((off + nbytes x) % 2 ^ 32) j rs r
          (put_data x.action (nbytes x) x.bytes off (describe i x p)) (omega (arith, f))
          (omega (arith, f, e)) g in
      (
        q,
        λ k lo hi.
            same k (omega (arith, ap start z)) (omega (arith, ap start z))
            ∙ ap (λ (n : ℕ). describe n r q k) z,
      )

  -- After the loop the data area holds the bytes of a write where the sizes before it say.
  pub fill_each-bytes :
      Bounded
      → (i off j : ℕ) (rs : List TagRequest) (r : TagRequest) (bs : List ℕ) (p : Buffer)
      → off + sum_bytes rs < 2 ^ 32
      → start (i + length rs) ≤ off
      → get_elem? rs j ≡ some r
      → r.action ≡ action_write
      → r.bytes ≡ some bs
      → length bs ≡ nbytes r
      → slice (fill_each describe i off rs p) (off + sum_bytes (take j rs)) (nbytes r) ≡ bs
  unfolding fill_each
  fill_each-bytes b i off j [] r bs p w below g a d n = cc
  fill_each-bytes b i off zero (x ∷ rs) r bs p w below g a d n =
      let e : start (i + suc (length rs)) ≡ start (i + 1 + length rs) = ap start (omega arith) in
      let f : (off + nbytes x) % 2 ^ 32 ≡ off + nbytes x = omega (arith, w) in
      let same : x ≡ r = cc in
      let z : off + 0 ≡ off = omega arith in
      let m : nbytes x ≡ nbytes r = ap nbytes same in
      ap (λ (o : ℕ). slice (fill_each describe i off (x ∷ rs) p) o (nbytes r)) z
      ∙ slice-agree _ (put_data x.action (nbytes x) x.bytes off (describe i x p)) off (nbytes r)
          (λ k lo hi.
            fill_each-out b (i + 1) ((off + nbytes x) % 2 ^ 32) rs _ k (omega (arith, f))
              (inr (omega (arith, e))) (inl (omega (arith, f, m))))
      ∙ ap (λ (n : ℕ). slice (put_data x.action (nbytes x) x.bytes off (describe i x p)) off n)
          (sym m)
      ∙ put_data-in x.action (nbytes x) x.bytes off (describe i x p) bs
          (ap (λ (y : TagRequest). y.action) same ∙ a) (ap (λ (y : TagRequest). y.bytes) same ∙ d)
          (n ∙ sym m)
  fill_each-bytes b i off (suc j) (x ∷ rs) r bs p w below g a d n =
      let e : start (i + suc (length rs)) ≡ start (i + 1 + length rs) = ap start (omega arith) in
      let f : (off + nbytes x) % 2 ^ 32 ≡ off + nbytes x = omega (arith, w) in
      let y : (off + nbytes x) % 2 ^ 32 + sum_bytes (take j rs)
          ≡ off + (nbytes x + sum_bytes (take j rs)) =
        omega (arith, f) in
      ap (λ (o : ℕ). slice (fill_each describe i off (x ∷ rs) p) o (nbytes r)) (sym y)
      ∙ fill_each-bytes b (i + 1) ((off + nbytes x) % 2 ^ 32) j rs r bs
          (put_data x.action (nbytes x) x.bytes off (describe i x p)) (omega (arith, f))
          (omega (arith, f, e)) g a d n

-- What the loop of a read gives for the `j`-th request.
pub read_each-at :
    (result_at : ℕ → ℕ) (i off j : ℕ) (rs : List TagRequest) (r : TagRequest) (p : Buffer)
    → off + sum_bytes rs < 2 ^ 32
    → get_elem? rs j ≡ some r
    → get_elem? (read_each result_at i off rs p) j
      ≡ some (record r {
        result = bp_ld_u32 p (result_at (i + j));
        bytes = get_data r.action (nbytes r) r.bytes (off + sum_bytes (take j rs)) p;
      })
unfolding read_each
read_each-at result_at i off j [] r p w g = cc
read_each-at result_at i off zero (x ∷ rs) r p w g = rw (same, z, y) refl
  where
    same : x ≡ r
    same = cc

    z : i + 0 ≡ i
    z = omega arith

    y : off + 0 ≡ off
    y = omega arith
read_each-at result_at i off (suc j) (x ∷ rs) r p w g =
    let f : (off + nbytes x) % 2 ^ 32 ≡ off + nbytes x = omega (arith, w) in
    let y : off + nbytes x + sum_bytes (take j rs) ≡ off + (nbytes x + sum_bytes (take j rs)) =
      omega arith in
    let z : i + 1 + j ≡ i + suc j = omega arith in
    let ih =
      read_each-at result_at (i + 1) ((off + nbytes x) % 2 ^ 32) j rs r p (omega (arith, f)) g in
    ih
    ∙ ap₂
        (λ (a b : ℕ). some (record r {
          result = bp_ld_u32 p (result_at a);
          bytes = get_data r.action (nbytes r) r.bytes b p;
        }))
        z (ap (λ (t : ℕ). t + sum_bytes (take j rs)) f ∙ y)
