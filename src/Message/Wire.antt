-- ===== src/Message/Wire.antt =====
-- The request and the reply of OCXcip_MessageSend in the slot's memory.
use cmee1y1_clients.Base.{
  ℕ, ◌%◌, ◌^◌, ◌≤◌, ◌<◌, ◌≡◌, inl, refl, ap, min, ◌∙◌, List, length, take, length-take, arith,
}
use cmee1y1_clients.Memory.{Buffer, st_u8, bp_st_u16, bp_ld_u16, bp_ld_u32, memcpy, slice}
use cmee1y1_clients.Memory.Laws.{
  memcpy-out, st_u16-out, st_u8-out, slice-memcpy, slice-agree, length-slice,
}
use cmee1y1_clients.Message.{Message, Reply, max_req, msg_fill, msg_read}

-- The message that the server reads out of a slot.
pub record Carries (m : Message) (req : List ℕ) (q : Buffer) : Type 0 where
  pub request : slice q 0x78 (length (take m.req_size req)) ≡ take m.req_size req
  pub req_size : bp_ld_u16 q 0x19078 ≡ m.req_size % 2 ^ 16
  pub resp_capacity : bp_ld_u16 q 0x3207a ≡ m.resp_capacity % 2 ^ 16
  pub slot : q 0x32080 ≡ m.slot % 2 ^ 8
  pub timeout_ms : bp_ld_u16 q 0x32082 ≡ m.timeout_ms % 2 ^ 16

module _ (m : Message) (req : List ℕ) (p : Buffer) where
  request_short : m.req_size ≤ max_req → length (take m.req_size req) ≤ max_req
  request_short h = omega (arith, length-take m.req_size req)

  -- Below its last cell the request is what `memcpy` wrote.
  msg_fill-below :
      (i : ℕ) → i < 0x19078 → msg_fill m req p i ≡ memcpy p 0x78 (take m.req_size req) i
  unfolding msg_fill
  msg_fill-below i h =
      st_u16-out _ 0x32082 m.timeout_ms i (inl (omega arith))
      ∙ st_u8-out _ 0x32080 m.slot i (omega arith)
      ∙ st_u16-out _ 0x3207a m.resp_capacity i (inl (omega arith))
      ∙ st_u16-out _ 0x19078 m.req_size i (inl (omega arith))

  -- The header is left alone.
  pub msg_fill-keeps : (i : ℕ) → i < 0x78 → msg_fill m req p i ≡ p i
  msg_fill-keeps i h =
      msg_fill-below i (omega arith) ∙ memcpy-out p 0x78 (take m.req_size req) i (inl h)

  -- For a request of at most 500 bytes: the engine finds the request, both sizes, the backplane slot
  -- and the timeout where the protocol puts them, and none of them overwrites another.
  pub msg_fill-Carries : m.req_size ≤ max_req → Carries m req (msg_fill m req p)
  unfolding msg_fill st_u8 bp_st_u16 bp_ld_u16
  msg_fill-Carries h = record {
    request =
        slice-agree _ (memcpy p 0x78 (take m.req_size req)) 0x78 _
          (λ i a b. msg_fill-below i (omega (arith, request_short h)))
        ∙ slice-memcpy p 0x78 (take m.req_size req);
    req_size = omega arith;
    resp_capacity = omega arith;
    slot = refl;
    timeout_ms = omega arith;
  }

-- The reply that stands in a slot, for a message.
pub record Brings (m : Message) (p : Buffer) (r : Reply) : Type 0 where
  pub status : r.status ≡ bp_ld_u32 p 0x3207C
  pub resp_len : r.resp_len ≡ min (bp_ld_u16 p 0x3207A) m.resp_capacity
  pub resp : r.resp ≡ slice p 0x1907A (min (bp_ld_u16 p 0x3207A) m.resp_capacity)

pub msg_read-Brings : (m : Message) (p : Buffer) → Brings m p (msg_read m p)
unfolding msg_read
msg_read-Brings m p = record { status = refl; resp_len = size; resp = ap (slice p 0x1907A) size }
  where
    size : (msg_read m p).resp_len ≡ min (bp_ld_u16 p 0x3207A) m.resp_capacity
    size = ground arith

-- A reply never exceeds the caller's buffer, whatever length the server claims, and `resp_len` is
-- the number of bytes that were copied.
pub msg_read_bounds :
    (m : Message) (p : Buffer)
    → ((msg_read m p).resp_len ≤ m.resp_capacity)
      × (length (msg_read m p).resp ≡ (msg_read m p).resp_len)
unfolding msg_read
msg_read_bounds m p = (ground arith, length-slice p 0x1907a _)

-- Where the reply fits, the caller gets the whole of it.
pub msg_read_whole :
    (m : Message) (p : Buffer)
    → bp_ld_u16 p 0x3207a ≤ m.resp_capacity
    → (msg_read m p).resp ≡ slice p 0x1907a (bp_ld_u16 p 0x3207a)
unfolding msg_read
msg_read_whole m p h = ground arith
