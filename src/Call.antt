-- ===== src/Call.antt =====
-- c/src/client.c: the slot dispatcher. A call reserves one of the 16 slots of /bpShmem, writes the
-- request there, posts to the server, waits or polls for the reply, reads it, and frees the slot.
pub mod Slots
pub mod Request
pub mod Outcome
pub mod Reply
pub mod Remote
use cmee1y1_clients.Base.{
  ℕ, zero, suc, ◌+◌, ◌-◌, ◌*◌, ◌/◌, ◌%◌, ◌^◌, ◌<◌, Bool, true, false, not, Option, none, some, List,
  [], ◌∷◌, ltb, ◌==◌, if◌then◌else◌, take, ℤ, signed32, Result, ok, err,
}
use cmee1y1_clients.Memory.{
  Buffer, bp_st_u16, bp_st_u32, bp_st_u64, bp_ld_u32, ld_u64, memcpy, memset,
}
use cmee1y1_clients.State.{
  Ipc, Client, Answer, Env, M, ◌>>=◌, ◌>>◌, signalled, timed_out, return, fail,
}
use cmee1y1_clients.State.Code

-- `BP_SLOT_COUNT`, `BP_SLOT_STRIDE` and `BP_PENDING_ERROR_BITS`, which is the pattern of -301.
abbrev pub slot_count : ℕ
slot_count = 16

abbrev pub slot_stride : ℕ
slot_stride = 0x4B000

abbrev pub pending_error_bits : ℕ
pending_error_bits = 0xFFFFFED3

-- A `bp_call_spec_t`. `fill` and `read` are the identity and a constant where C has NULL.
pub record CallSpec {ℓ} (A : Type ℓ) : Type ℓ where
  pub fn_name : List ℕ
  pub payload_size : ℕ
  pub fill_payload : Buffer → Buffer
  pub read_reply : Buffer → A
  pub timeout_ms : ℕ

-- One slot replaced, and the others kept.
unfoldable pub set_slot : Ipc → ℕ → Buffer → Ipc
set_slot ipc i p = record ipc { shm = λ j. if j == i then p else ipc.shm j }

-- `sem_trywait` takes one pending post for as long as there is one.
unfoldable pub sem_drain : ℕ → ℕ
sem_drain zero = zero
sem_drain (suc n) = sem_drain n

unfoldable pub drain : (ℕ → ℕ) → ℕ → ℕ → ℕ
drain sem i = λ j. if j == i then sem_drain (sem i) else sem j

abbrev pub owner_of : Buffer → ℕ
owner_of p = ld_u64 p 0x58

-- The first slot from `i` on with no owner, `n` slots being left.
unfoldable pub scan : ℕ → ℕ → Ipc → Option ℕ
scan zero i ipc = none
scan (suc n) i ipc =
    let rest = scan n (i + 1) ipc in if owner_of (ipc.shm i) == 0 then some i else rest

-- A slot is marked with its owner and rid of stale posts.
unfoldable pub mark_slot : ℕ → ℕ → Ipc → Ipc
mark_slot i owner ipc =
    let marked = set_slot ipc i (bp_st_u64 (ipc.shm i) 0x58 owner) in
    record marked { sem_req = drain ipc.sem_req i; sem_resp = drain ipc.sem_resp i }

module _ {W : Type 0} (env : Env W) where
  -- What follows a lock is skipped where the lock fails.
  unfoldable pub with_lock {ℓ} : {A : Type ℓ} → M W A → M W A → M W A
  with_lock failed m c =
      let l = env.lock c.world in
      let c' : Client W = record c { world = l.0 } in elim l.1 [ true ↦ m c' | false ↦ failed c' ]

  unfoldable pub claim : M W ℕ
  claim c = elim (scan slot_count 0 c.ipc) [
    | none ↦ (c, err Code.no_free_slot)
    | some i ↦ (record c { ipc = mark_slot i (c.tid * 2 ^ 32 + c.pid) c.ipc }, ok i)
  ]

  unfoldable pub reserve_slot : M W ℕ
  reserve_slot = with_lock (fail Code.generic) claim

  unfoldable pub release : ℕ → M W (Unit {0})
  release i c = (record c { ipc = mark_slot i 0 c.ipc }, ok tt)

  unfoldable pub release_slot : ℕ → Client W → Client W
  release_slot i c = (with_lock (return tt) (release i) c).0

-- The function's name: 63 bytes at most, padded by NULs.
unfoldable pub write_name : List ℕ → Buffer → Buffer
write_name name p = memcpy (memset p 0x08 0 64) 0x08 (take 63 name)

-- The request header and the cleared payload, in the order of the stores.
unfoldable pub write_header {ℓ} : {A : Type ℓ} → CallSpec A → ℕ → ℕ → Buffer → Buffer
write_header spec pid slot p =
    let p1 = bp_st_u16 (bp_st_u16 p 0x00 0x00CA) 0x02 0 in
    let p2 = bp_st_u32 p1 0x04 spec.payload_size in
    let p3 = write_name spec.fn_name p2 in
    let p4 = bp_st_u16 (bp_st_u16 (bp_st_u32 p3 0x48 pid) 0x4C 1) 0x4E 0 in
    let p5 = bp_st_u32 (bp_st_u32 p4 0x50 pending_error_bits) 0x54 0 in
    let p6 = bp_st_u32 (bp_st_u32 p5 0x60 slot) 0x64 0 in
    memset (memset p6 0x68 0 0x10) 0x78 0 (slot_stride - 0x78)

-- `fill_payload` runs on the written header.
unfoldable pub request {ℓ} : {A : Type ℓ} → CallSpec A → ℕ → ℕ → Buffer → Buffer
request spec pid slot p = spec.fill_payload (write_header spec pid slot p)

abbrev pub errorcode : Ipc → ℕ → ℕ
errorcode ipc i = bp_ld_u32 (ipc.shm i) 0x50

-- The errorcode is read at once and then at each poll before the deadline. The result is the
-- memory at the last read, and whether the server had answered there.
unfoldable pub poll : ℕ → Ipc → List Ipc → Ipc × Bool
poll i now [] = (now, not (errorcode now i == pending_error_bits))
poll i now (next ∷ later) =
    let rest = poll i next later in
    if errorcode now i == pending_error_bits then rest else (now, true)

unfoldable pub await : ℕ → Answer → Ipc × Bool
await i (signalled ipc) = (ipc, true)
await i (timed_out now later) = poll i now later

-- The errorcode, once there is a reply, and the reply's payload where it is 0.
unfoldable pub conclude {ℓ} : {A : Type ℓ} → CallSpec A → ℕ → Ipc × Bool → Result A
conclude spec i (ipc, false) = err Code.recv_answer
conclude spec i (ipc, true) =
    if errorcode ipc i == 0
    then ok (spec.read_reply (ipc.shm i))
    else err (signed32 (errorcode ipc i))

module _ {W : Type 0} (env : Env W) where
  -- `sem_post(sem_req[i])`, the wait and the reply.
  unfoldable pub exchange {ℓ} : {A : Type ℓ} → CallSpec A → ℕ → M W A
  exchange spec i c =
      let posted = env.post c.world in
      let timeout = if ltb 0 spec.timeout_ms then spec.timeout_ms else 30000 in
      let replied = env.serve posted.0 i timeout c.ipc in
      let last = await i replied.1 in
      elim posted.1 [
        | true ↦ (record c { world = replied.0; ipc = last.0 }, conclude spec i last)
        | false ↦ (record c { world = posted.0 }, err Code.send_request)
      ]

  -- The work on a reserved slot, which is freed in every case (`out:`).
  unfoldable pub call_in {ℓ} : {A : Type ℓ} → CallSpec A → ℕ → M W A
  call_in spec i c =
      let c' = record c { ipc = set_slot c.ipc i (request spec c.pid i (c.ipc.shm i)) } in
      let r = exchange spec i c' in (release_slot env i r.0, r.1)

  unfoldable pub bp_client_call {ℓ} : {A : Type ℓ} → CallSpec A → M W A
  bp_client_call spec = do i ← reserve_slot env; call_in spec i
