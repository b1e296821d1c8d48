-- ===== src/Tags/Access/Descriptor.antt =====
-- One descriptor of OCXcip_AccessTagData: its bounds, and what the engine reads out of it.
use cmee1y1_clients.Base.{
  ℕ, ◌+◌, ◌%◌, ◌^◌, ◌≤◌, ◌<◌, ◌≡◌, ◌∙◌, inl, inr, List, length, take, length-take, arith,
}
use cmee1y1_clients.Memory.{Buffer, bp_st_u16, bp_ld_u16, memcpy, memset, slice}
use cmee1y1_clients.Memory.Laws.{
  memcpy-out, memset-out, st_u16-out, st_u8-out, st_u64-out, ld_u16-agree, ld_u16-st, ld_u16-Apart,
  slice-agree, memset-memcpy_read,
}
use cmee1y1_clients.Tags.{TagRequest, req_start, describe}
use cmee1y1_clients.Tags.Batch.{Outside, Bounded}

pub short : (name : List ℕ) → length (take 254 name) ≤ 254
short name = omega (arith, length-take 254 name)

-- A descriptor as the engine reads it at `o`.
pub record Described (r : TagRequest) (q : Buffer) (o : ℕ) : Type 0 where
  pub tag_name : slice q o (length (take 254 r.tag_name)) ≡ take 254 r.tag_name
  pub tag_name_ends : q (o + length (take 254 r.tag_name)) ≡ 0
  pub data_type : bp_ld_u16 q (o + 0x100) ≡ r.data_type % 2 ^ 16
  pub elem_byte_size : bp_ld_u16 q (o + 0x102) ≡ r.elem_byte_size % 2 ^ 16
  pub action : bp_ld_u16 q (o + 0x104) ≡ r.action % 2 ^ 16
  pub elem_count : bp_ld_u16 q (o + 0x106) ≡ r.elem_count % 2 ^ 16

module _ (i : ℕ) (r : TagRequest) (p : Buffer) where
  abbrev named : Buffer
  named = memcpy (memset p (req_start i) 0 0x120) (req_start i) (take 254 r.tag_name)

  abbrev typed : Buffer
  typed = bp_st_u16 named (req_start i + 0x100) r.data_type

  abbrev sized : Buffer
  sized = bp_st_u16 typed (req_start i + 0x102) r.elem_byte_size

  abbrev directed : Buffer
  directed = bp_st_u16 sized (req_start i + 0x104) r.action

  abbrev counted : Buffer
  counted = bp_st_u16 directed (req_start i + 0x106) r.elem_count

  describe-front : (k : ℕ) → k < req_start i + 0x108 → describe i r p k ≡ counted k
  unfolding describe
  describe-front k h =
      st_u64-out _ (req_start i + 0x110) 0 k (inl (omega arith))
      ∙ st_u8-out counted (req_start i + 0x108) 0 k (omega arith)

  describe-name : (k : ℕ) → k < req_start i + 0x100 → describe i r p k ≡ named k
  describe-name k h =
      describe-front k (omega arith)
      ∙ st_u16-out directed (req_start i + 0x106) r.elem_count k (inl (omega arith))
      ∙ st_u16-out sized (req_start i + 0x104) r.action k (inl (omega arith))
      ∙ st_u16-out typed (req_start i + 0x102) r.elem_byte_size k (inl (omega arith))
      ∙ st_u16-out named (req_start i + 0x100) r.data_type k (inl (omega arith))

  describe-within : (k : ℕ) → Outside (req_start i) (req_start i + 0x120) k → describe i r p k ≡ p k
  unfolding describe
  describe-within k (inl h) =
      describe-name k (omega arith)
      ∙ memcpy-out _ (req_start i) (take 254 r.tag_name) k (inl h)
      ∙ memset-out p (req_start i) 0 0x120 k (inl h)
  describe-within k (inr h) =
      st_u64-out _ (req_start i + 0x110) 0 k (inr (omega arith))
      ∙ st_u8-out counted (req_start i + 0x108) 0 k (omega arith)
      ∙ st_u16-out directed (req_start i + 0x106) r.elem_count k (inr (omega arith))
      ∙ st_u16-out sized (req_start i + 0x104) r.action k (inr (omega arith))
      ∙ st_u16-out typed (req_start i + 0x102) r.elem_byte_size k (inr (omega arith))
      ∙ st_u16-out named (req_start i + 0x100) r.data_type k (inr (omega arith))
      ∙ memcpy-out _ (req_start i) (take 254 r.tag_name) k (inr (omega (arith, short r.tag_name)))
      ∙ memset-out p (req_start i) 0 0x120 k (inr h)

  pub counted-Described : Described r (describe i r p) (req_start i)
  counted-Described =
      let o = req_start i in
      let (name, nul) =
        memset-memcpy_read p o 0x120 (take 254 r.tag_name) (omega (arith, short r.tag_name)) in
      let read = λ (d : ℕ) (h : d + 2 ≤ 0x108).
        ld_u16-agree (describe i r p) counted (o + d)
          (λ k a b. describe-front k (omega (arith, h))) in
      let past_count = λ (d : ℕ) (h : d + 2 ≤ 0x106).
        read d (omega arith)
        ∙ ld_u16-Apart directed (o + d) (o + 0x106) r.elem_count (inl (omega arith)) in
      let past_action = λ (d : ℕ) (h : d + 2 ≤ 0x104).
        past_count d (omega arith)
        ∙ ld_u16-Apart sized (o + d) (o + 0x104) r.action (inl (omega arith)) in
      record {
        tag_name =
            slice-agree _ named o _ (λ k a b. describe-name k (omega (arith, short r.tag_name)))
            ∙ name;
        tag_name_ends = describe-name _ (omega (arith, short r.tag_name)) ∙ nul;
        data_type =
            past_action 0x100 (omega arith)
            ∙ ld_u16-Apart typed (o + 0x100) (o + 0x102) r.elem_byte_size (inl (omega arith))
            ∙ ld_u16-st named (o + 0x100) r.data_type;
        elem_byte_size =
            past_action 0x102 (omega arith) ∙ ld_u16-st typed (o + 0x102) r.elem_byte_size;
        action = past_count 0x104 (omega arith) ∙ ld_u16-st sized (o + 0x104) r.action;
        elem_count = read 0x106 (omega arith) ∙ ld_u16-st directed (o + 0x106) r.elem_count;
      }

pub Described-agree :
    (r : TagRequest) (q s : Buffer) (o : ℕ)
    → ((k : ℕ) → o ≤ k → k < o + 0x120 → s k ≡ q k)
    → Described r q o
    → Described r s o
Described-agree r q s o same d =
    let field = λ (x : ℕ) (h : x + 2 ≤ 0x120).
      ld_u16-agree s q (o + x) (λ k a b. same k (omega arith) (omega (arith, h))) in
    record {
      tag_name =
          slice-agree s q o _ (λ k a b. same k a (omega (arith, short r.tag_name))) ∙ d.tag_name;
      tag_name_ends = same _ (omega arith) (omega (arith, short r.tag_name)) ∙ d.tag_name_ends;
      data_type = field 0x100 (omega arith) ∙ d.data_type;
      elem_byte_size = field 0x102 (omega arith) ∙ d.elem_byte_size;
      action = field 0x104 (omega arith) ∙ d.action;
      elem_count = field 0x106 (omega arith) ∙ d.elem_count;
    }

pub describe-Bounded : Bounded req_start 0x120 describe
describe-Bounded = record { apart = λ i. omega arith; within = describe-within }
