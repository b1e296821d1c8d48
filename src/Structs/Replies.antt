-- ===== src/Structs/Replies.antt =====
-- The replies about structures (c/src/struct.c).
use cmee1y1_clients.Base.{
  ℕ, ◌+◌, ◌-◌, ◌*◌, ◌/◌, ◌%◌, ◌^◌, ◌≤◌, ◌<◌, ◌≡◌, refl, ap, inl, inr, false, List, [], ◌∷◌, length,
  get_or, take, drop, ltb, ◌==◌, if◌then◌else◌, Bool-cases, arith, length-take, Result, ok, err,
  some, Option, none,
}
use cmee1y1_clients.State.{Client, Env, continue}
use cmee1y1_clients.State.Code
use cmee1y1_clients.Message.{Reply, bp_client_message_send}
use cmee1y1_clients.Structs.{
  StructData, struct_body, take_struct, struct_message, read_request, struct_capacity, tag_refused,
  bp_client_read_struct, ext_words,
}

-- What a read returns fits the caller's buffer.
abbrev Fits : ℕ → Result StructData → Type 0
Fits out_cap (ok s) = length s.bytes ≤ out_cap
Fits out_cap (err e) = Unit

struct_body-Fits : (out_cap o : ℕ) (r : Reply) → Fits out_cap (struct_body out_cap o r)
unfolding struct_body
struct_body-Fits out_cap o r =
    let size = r.resp_len - o - 4 in
    elim (Bool-cases (ltb r.resp_len (o + 4))) [
      | inl short ↦ rw (short, struct_body) tt
      | inr whole ↦ elim (Bool-cases (ltb out_cap size)) [
        | inl large ↦ rw (whole, large, struct_body) tt
        | inr fits ↦
            let small : size ≤ out_cap = ground (arith, fits) in
            rw (whole, fits, struct_body)
              (omega (arith, small, length-take size (drop (o + 4) r.resp)))
      ]
    ]

-- A reply to a read of a structure: the service with its reply bit, no status, the type, the handle
-- and the bytes.
abbrev pub echo : ℕ → List ℕ → Reply
echo handle bytes = record {
  resp_len = 8 + length bytes;
  status = 0;
  resp =
      0xCC ∷ 0x00 ∷ 0x00 ∷ 0x00 ∷ 0xA0 ∷ 0x02 ∷ (handle % 2 ^ 8) ∷ (handle / 2 ^ 8 % 2 ^ 8) ∷ bytes;
}

take_whole : (xs : List ℕ) → take (length xs) xs ≡ xs
take_whole [] = refl
take_whole (x ∷ xs) = ap (◌∷◌ x) (take_whole xs)

struct_body-echo :
    (out_cap handle : ℕ) (bytes : List ℕ)
    → handle < 2 ^ 16
    → struct_body out_cap 4 (echo handle bytes) ≡ (
        if ltb out_cap (length bytes)
        then err Code.param_range
        else ok (record { handle = handle; bytes = bytes }))
unfolding struct_body
struct_body-echo out_cap handle bytes word =
    let enough : ltb (8 + length bytes) (4 + 4) ≡ false = ground arith in
    let size : 8 + length bytes - 4 - 4 ≡ length bytes = omega arith in
    let same : handle % 2 ^ 8 + handle / 2 ^ 8 % 2 ^ 8 * 2 ^ 8 ≡ handle = omega (arith, word) in
    rw (enough, size, same, take_whole bytes) refl

module _ {W : Type 0} where
  take_struct-Fits :
      (slot out_cap : ℕ) (r : Reply) (c : Client W) → Fits out_cap (take_struct slot out_cap r c).1
  unfolding take_struct
  take_struct-Fits slot out_cap r c = elim (Bool-cases (ltb r.resp_len 4)) [
    | inl short ↦ rw (short, take_struct) tt
    | inr whole ↦ elim (Bool-cases (get_or r.resp 2 0 == 0)) [
      | inr failed ↦ rw (whole, failed, take_struct) tt
      | inl fine ↦ rw (whole, fine, take_struct) (struct_body-Fits out_cap (4 + ext_words r * 2) r)
    ]
  ]

  -- Such a reply gives the handle and the bytes, if these fit the caller's buffer.
  pub take_struct-echo :
      (slot out_cap handle : ℕ) (bytes : List ℕ) (c : Client W)
      → handle < 2 ^ 16
      → take_struct slot out_cap (echo handle bytes) c ≡ (
        c,
        if ltb out_cap (length bytes)
            then err Code.param_range
            else ok (record { handle = handle; bytes = bytes }),
      )
  unfolding take_struct struct_body
  take_struct-echo slot out_cap handle bytes c word =
      let whole : ltb (8 + length bytes) 4 ≡ false = ground arith in
      let header : 4 + ext_words (echo handle bytes) * 2 ≡ 4 = ground arith in
      rw (whole, header, take_struct)
        (ap (λ (x : Result StructData). (c, x)) (struct_body-echo out_cap handle bytes word))

module _ {W : Type 0} (env : Env W) where
  -- Whatever the controller answers, a read of a structure that succeeds returns no more bytes than
  -- the caller's buffer has.
  pub read_struct-Fits :
      (slot out_cap : ℕ) (tag : Option (List ℕ)) (c : Client W)
      → Fits out_cap (bp_client_read_struct env slot tag out_cap c).1
  unfolding bp_client_read_struct
  read_struct-Fits slot out_cap none c = tt
  read_struct-Fits slot out_cap (some tag) c = elim (Bool-cases (tag_refused tag)) [
    | inl bad ↦ rw (bad, bp_client_read_struct) tt
    | inr named ↦ elim (Bool-cases (ltb out_cap 16)) [
      | inl small ↦ rw (named, small, bp_client_read_struct) tt
      | inr roomy ↦
          rw (named, roomy, bp_client_read_struct)
            (after (
              bp_client_message_send env
                (struct_message slot (read_request tag) (struct_capacity out_cap)) c))
    ]
  ]
    where
      after : (r : Client W × Result Reply) → Fits out_cap (continue (take_struct slot out_cap) r).1
      after (d, ok r) = take_struct-Fits slot out_cap r d
      after (d, err e) = tt
