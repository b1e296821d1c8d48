-- ===== src/Call/Outcome.antt =====
-- How a call ends: its result, and the slot that it used.
use cmee1y1_clients.Base.{
  ℕ, ◌+◌, ◌*◌, ◌^◌, ◌≡◌, ◌≢◌, inl, inr, refl, Bool, true, false, List, [], ◌∷◌, ◌++◌, ltb, ◌==◌,
  if◌then◌else◌, ==_iff, arith, Result, ok, err, pos, signed32, signed32-ne-zero, Bool-cases, ap,
  ◌∙◌, All, none, some, Option-cases,
}
use cmee1y1_clients.State.{Ipc, Client, Env, Answer, signalled}
use cmee1y1_clients.State.Code
use cmee1y1_clients.State.Laws.{bind_ok, bind_err}
use mathlib.Core.Path.{subst⁻¹}
use cmee1y1_clients.Call.{
  CallSpec, slot_count, pending_error_bits, owner_of, errorcode, set_slot, mark_slot, scan,
  release_slot, request, poll, await, conclude, exchange, call_in, bp_client_call, reserve_slot,
}
use cmee1y1_clients.Call.Slots.{
  Locks, set_slot_self, release_slot-Marked, reserve_some, reserve_none,
}

abbrev pub IsPending : ℕ → Ipc → Type 0
IsPending i ipc = errorcode ipc i ≡ pending_error_bits

-- What the polls saw, oldest first: the server was silent at all of them, or they stopped at the
-- first one that shows an answer.
pub data Polled (i : ℕ) : List Ipc → Ipc × Bool → Type 0 where
  silent :
      (xs : List Ipc) (x : Ipc)
      → All (IsPending i) (xs ++ x ∷ [])
      → Polled i (xs ++ x ∷ []) (x, false)
  answered :
      (xs : List Ipc) (x : Ipc) (ys : List Ipc)
      → All (IsPending i) xs
      → errorcode x i ≢ pending_error_bits
      → Polled i (xs ++ x ∷ ys) (x, true)

Polled-cons :
    (i : ℕ) (now : Ipc) {xs : List Ipc} {r : Ipc × Bool}
    → IsPending i now
    → Polled i xs r
    → Polled i (now ∷ xs) r
Polled-cons i now h (silent xs x a) = silent (now ∷ xs) x (h, a)
Polled-cons i now h (answered xs x ys a b) = answered (now ∷ xs) x ys (h, a) b

-- The polling loop stops at the first poll that shows an answer, and reports silence only if none
-- of them does; it makes at least one.
pub poll-Polled : (i : ℕ) (now : Ipc) (later : List Ipc) → Polled i (now ∷ later) (poll i now later)
unfolding poll
poll-Polled i now [] = elim (Bool-cases (errorcode now i == pending_error_bits)) [
  | inl same ↦ rw same (silent [] now (ground arith, tt))
  | inr differs ↦ rw differs (answered [] now [] tt (ground arith))
]
poll-Polled i now (next ∷ later) = elim (Bool-cases (errorcode now i == pending_error_bits)) [
  | inl same ↦ rw same (Polled-cons i now (ground arith) (poll-Polled i next later))
  | inr differs ↦ rw differs (answered [] now (next ∷ later) tt (ground arith))
]

-- A result that is no success carries a code other than `BP_OK`.
abbrev pub IsTold {ℓ} : {A : Type ℓ} → Result A → Type 0
IsTold (ok a) = Unit
IsTold (err e) = e ≢ pos 0

conclude-IsTold {ℓ} :
    {A : Type ℓ} (spec : CallSpec A) (i : ℕ) (last : Ipc × Bool) → IsTold (conclude spec i last)
unfolding conclude
conclude-IsTold spec i (ipc, false) = λ e. cc
conclude-IsTold spec i (ipc, true) = elim (Bool-cases (errorcode ipc i == 0)) [
  | inl zero_code ↦ rw zero_code tt
  | inr code ↦ rw code (signed32-ne-zero (errorcode ipc i) (ground arith))
]

module _ {ℓ} {W : Type 0} (env : Env W) {A : Type ℓ} (spec : CallSpec A) where
  exchange-IsTold : (i : ℕ) (c : Client W) → IsTold (exchange env spec i c).1
  unfolding exchange
  exchange-IsTold i c = elim (Bool-cases (env.post c.world).1) [
    | inl posted ↦
        rw (posted, exchange)
          (conclude-IsTold spec i (
            await i
              (env.serve (env.post c.world).0 i
                (if ltb 0 spec.timeout_ms then spec.timeout_ms else 30000) c.ipc).1))
    | inr refused ↦ rw (refused, exchange) (λ e. cc)
  ]

  pub bp_client_call-IsTold : (c : Client W) → Locks env → IsTold (bp_client_call env spec c).1
  unfolding bp_client_call call_in
  bp_client_call-IsTold c locks = elim (Option-cases (scan slot_count 0 c.ipc)) [
    | inl full ↦
        subst⁻¹ (λ r. IsTold r.1)
          (bind_err (reserve_slot env) (call_in env spec) c (reserve_none env c locks full))
          (λ e. cc)
    | inr (i, found) ↦
        subst⁻¹ (λ r. IsTold r.1)
          (bind_ok (reserve_slot env) (call_in env spec) c (reserve_some env c i locks found))
          (exchange-IsTold i _)
  ]

  -- The memory that the server is given: the slot is owned by the calling thread, holds the request
  -- and has no stale posts.
  abbrev pub presented : ℕ → Client W → Ipc
  presented i c =
      let marked = mark_slot i (c.tid * 2 ^ 32 + c.pid) c.ipc in
      set_slot marked i (request spec c.pid i (marked.shm i))

  abbrev start : ℕ → Client W → Client W
  start i c = record c { world = (env.lock c.world).0; ipc = presented i c }

  bp_client_call-some :
      (c : Client W) (i : ℕ)
      → Locks env
      → scan slot_count 0 c.ipc ≡ some i
      → bp_client_call env spec c
        ≡ (let r = exchange env spec i (start i c) in (release_slot env i r.0, r.1))
  unfolding bp_client_call call_in
  bp_client_call-some c i locks found =
      bind_ok (reserve_slot env) (call_in env spec) c (reserve_some env c i locks found)

  -- Where the lock can be taken and all 16 slots are owned, the call fails with
  -- `BP_ERR_NO_FREE_SLOT`, and writes nothing.
  pub bp_client_call_full :
      (c : Client W)
      → Locks env
      → scan slot_count 0 c.ipc ≡ none
      → bp_client_call env spec c
        ≡ (record c { world = (env.lock c.world).0 }, err Code.no_free_slot)
  unfolding bp_client_call
  bp_client_call_full c locks full =
      bind_err (reserve_slot env) (call_in env spec) c (reserve_none env c locks full)

  -- Where the lock can be taken, a call that got slot `i`, the first one free, frees it whatever
  -- happened in between: afterwards the slot has no owner and no pending posts.
  pub bp_client_call-frees :
      (c : Client W) (i : ℕ)
      → Locks env
      → scan slot_count 0 c.ipc ≡ some i
      → let after = (bp_client_call env spec c).0.ipc in
        (owner_of (after.shm i) ≡ 0) × (after.sem_req i ≡ 0) × (after.sem_resp i ≡ 0)
  bp_client_call-frees c i locks found =
      let m = release_slot-Marked env i (exchange env spec i (start i c)).0 locks in
      rw (bp_client_call-some c i locks found) (m.owned, m.no_request, m.no_reply)

  -- Where the lock can be taken, slot `i` is the first one free and the post succeeds, the result is
  -- concluded from the server's answer to the presented memory.
  pub bp_client_call_answered :
      (c : Client W) (i : ℕ)
      → Locks env
      → scan slot_count 0 c.ipc ≡ some i
      → (env.post (env.lock c.world).0).1 ≡ true
      → (bp_client_call env spec c).1
        ≡ conclude spec i (
            await i
              (env.serve
                (env.post (env.lock c.world).0).0
                i
                (if ltb 0 spec.timeout_ms then spec.timeout_ms else 30000)
                (presented i c)).1)
  bp_client_call_answered c i locks found posted =
      rw (bp_client_call-some c i locks found) (unfold exchange in rw (posted, exchange) refl)

  pub presented_slot :
      (i : ℕ) (c : Client W)
      → (presented i c).shm i
        ≡ request spec c.pid i ((mark_slot i (c.tid * 2 ^ 32 + c.pid) c.ipc).shm i)
  presented_slot i c = set_slot_self _ i _

  pub await_ok :
      (i : ℕ) (w : W) (after : Ipc) (r : W × Answer)
      → r ≡ (w, signalled after)
      → errorcode after i ≡ 0
      → conclude spec i (await i r.1) ≡ ok (spec.read_reply (after.shm i))
  unfolding await conclude
  await_ok i w after r e fine =
      ap (λ (x : W × Answer). conclude spec i (await i x.1)) e
      ∙ ap
          (λ b.
            if b then ok (spec.read_reply (after.shm i)) else err (signed32 (errorcode after i)))
          ((==_iff _ 0).1 fine)
