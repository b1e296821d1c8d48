-- ===== src/Tags/Multi/Writes.antt =====
-- The bytes that c/src/multitag.c sends for a value.
use cmee1y1_clients.Base.{
  ◌⊎◌, ℕ, zero, suc, ◌*◌, ◌%◌, ◌^◌, ◌≡◌, ◌≢◌, refl, ap, sym, ◌∙◌, subst, true, false, Option, none,
  some, List, [], ◌∷◌, ◌++◌, length, take, ◌==◌, if◌then◌else◌, inl, inr, Bool-cases, Result, ok,
  err, arith,
}
use cmee1y1_clients.Memory.{of_bytes}
use cmee1y1_clients.State.{SymbolInfo, Client}
use cmee1y1_clients.State.Code
use cmee1y1_clients.Tags.{nbytes, action_write}
use cmee1y1_clients.Tags.Values.{bytes_behind}
use cmee1y1_clients.Tags.Scalars.{
  Kind, no_kind, boolean, sint, usint, int_, uint, dint, udint, real, lint, ulint, lreal, Value,
  width, normal, kind_for_atomic, kind_for_atomic-width, decode_scalar, encode_scalar,
  decode_scalar-encode_scalar,
}
use cmee1y1_clients.Tags.Multi.{
  Prepared, kind_number, same_kind, is_scalar, scalar_request, padded, prepare_encoded,
  prepare_write,
}
use cmee1y1_clients.Tags.Multi.Requests.{width-bounds}

of_number : ℕ → Kind
of_number n =
    if n == 1
    then boolean
    else if n == 2
    then sint
    else if n == 3
    then int_
    else if n == 4
    then dint
    else if n == 5
    then lint
    else if n == 6
    then usint
    else if n == 7
    then uint
    else if n == 8
    then udint
    else if n == 9
    then ulint
    else if n == 10
    then real
    else if n == 11
    then lreal
    else no_kind

of_number-kind_number : (k : Kind) → of_number (kind_number k) ≡ k
unfolding of_number
of_number-kind_number no_kind = refl
of_number-kind_number boolean = refl
of_number-kind_number sint = refl
of_number-kind_number usint = refl
of_number-kind_number int_ = refl
of_number-kind_number uint = refl
of_number-kind_number dint = refl
of_number-kind_number udint = refl
of_number-kind_number real = refl
of_number-kind_number lint = refl
of_number-kind_number ulint = refl
of_number-kind_number lreal = refl

same_kind-true : (k l : Kind) → same_kind k l ≡ true → k ≡ l
same_kind-true k l e =
    let same : kind_number k ≡ kind_number l = ground (arith, e) in
    sym (of_number-kind_number k) ∙ ap of_number same ∙ of_number-kind_number l

take_front : (bs cs : List ℕ) (n : ℕ) → length bs ≡ n → take n (bs ++ cs) ≡ bs
take_front [] cs n e = subst (λ m. take m cs ≡ []) e refl
take_front (b ∷ bs) cs zero e = absurd (omega (arith, e))
take_front (b ∷ bs) cs (suc n) e = ap (◌∷◌ b) (take_front bs cs n (omega (arith, e)))

-- The value that a request's bytes stand for.
abbrev pub sent : Prepared → Value
sent p = decode_scalar p.kind (of_bytes (take (nbytes p.request) (bytes_behind p.request.bytes)))

abbrev pub as_kind : Value → Value
as_kind v = record { kind = v.kind; bits = normal v.kind v.bits }

-- What becomes of a value that is to be written to a symbol: it is sent, or refused for one of three
-- reasons.
abbrev pub Writes : Value → SymbolInfo → Result Prepared → Type 0
Writes v s (ok p) = sent p ≡ as_kind v
Writes v s (err e) =
    (e ≡ Code.param_range)
    × ((is_scalar s ≡ false)
        ⊎ (kind_for_atomic s.data_type s.elem_byte_size ≡ no_kind)
        ⊎ (kind_for_atomic s.data_type s.elem_byte_size ≢ v.kind))

sent_encoded :
    (name : List ℕ) (v : Value) (s : SymbolInfo) (bs : List ℕ)
    → kind_for_atomic s.data_type s.elem_byte_size ≡ v.kind
    → v.kind ≢ no_kind
    → length bs ≡ s.elem_byte_size
    → decode_scalar v.kind (of_bytes bs) ≡ as_kind v
    → sent (record {
      kind = kind_for_atomic s.data_type s.elem_byte_size;
      request = scalar_request action_write name s (padded bs);
    })
      ≡ as_kind v
unfolding nbytes
sent_encoded name v s bs e typed long decoded =
    let size : s.elem_byte_size ≡ width v.kind =
      kind_for_atomic-width s.data_type s.elem_byte_size v.kind e typed in
    let (low, high) = width-bounds v.kind typed in
    let whole : length bs ≡ s.elem_byte_size % 2 ^ 16 * 1 % 2 ^ 32 =
      omega (arith, long, size, high) in
    ap (λ k. decode_scalar k (of_bytes (take (s.elem_byte_size % 2 ^ 16 * 1 % 2 ^ 32) (padded bs))))
      e
    ∙ ap (λ (x : List ℕ). decode_scalar v.kind (of_bytes x)) (take_front bs _ _ whole)
    ∙ decoded

-- A value is written as it is, or refused with `BP_ERR_PARAM_RANGE`: the bytes of its request, as many
-- as it says, decode to the value, within its kind's width; and it is refused only for a symbol that
-- is no scalar, or of an unknown type, or of another kind than the value.
pub prepare_write-Writes :
    {W : Type 0} (name : List ℕ) (v : Value) (s : SymbolInfo) (c : Client W)
    → Writes v s (prepare_write name v s c).1
unfolding prepare_write prepare_encoded
prepare_write-Writes name v s c =
    let k = kind_for_atomic s.data_type s.elem_byte_size in
    elim (Bool-cases (is_scalar s)) [
      | inr other ↦ rw (other, prepare_write) (refl, inl other)
      | inl scalar ↦ elim (Bool-cases (same_kind k no_kind)) [
        | inl unknown ↦
            rw (scalar, unknown, prepare_write) (refl, inr (inl (same_kind-true k no_kind unknown)))
        | inr known ↦ elim (Bool-cases (same_kind v.kind k)) [
          | inr differs ↦
              rw (scalar, known, differs, prepare_write)
                (refl, inr (inr (λ e. ground (arith, ap kind_number e, differs))))
          | inl same ↦
              rw (scalar, known, same, prepare_write)
                (at (encode_scalar v.kind v.bits s.elem_byte_size) refl
                  (sym (same_kind-true v.kind k same))
                  (λ e. ground (arith, ap kind_number e, same, known)))
        ]
      ]
    ]
  where
    at :
        (o : Option (List ℕ))
        → encode_scalar v.kind v.bits s.elem_byte_size ≡ o
        → kind_for_atomic s.data_type s.elem_byte_size ≡ v.kind
        → v.kind ≢ no_kind
        → Writes v s (prepare_encoded name s (kind_for_atomic s.data_type s.elem_byte_size) o c).1
    at none e k typed =
        let (cs, encoded, long, decoded) =
          decode_scalar-encode_scalar s.data_type s.elem_byte_size v k typed in
        absurd (none-some (sym e ∙ encoded))
      where
        none-some : {x : List ℕ} → none ≢ some x
        none-some q = cc
    at (some bs) e k typed =
        let (cs, encoded, long, decoded) =
          decode_scalar-encode_scalar s.data_type s.elem_byte_size v k typed in
        let same : cs ≡ bs = some-inj (sym encoded ∙ e) in
        subst
          (λ (x : List ℕ).
            sent (record {
              kind = kind_for_atomic s.data_type s.elem_byte_size;
              request = scalar_request action_write name s (padded x);
            })
            ≡ as_kind v)
          same (sent_encoded name v s cs k typed long decoded)
      where
        some-inj : {x y : List ℕ} → some x ≡ some y → x ≡ y
        some-inj q = cc
