-- ===== src/Call/Remote.antt =====
-- A call of c/src/client.c as a remote procedure call: which result goes with which behaviour of the
-- lock, the slots, the semaphores and the engine.
use cmee1y1_clients.Base.{
  ℕ, ◌+◌, ◌*◌, ◌^◌, ◌≡◌, ◌≢◌, inl, inr, refl, Bool, true, false, List, ◌∷◌, ltb, ◌==◌,
  if◌then◌else◌, arith, Result, ok, err, signed32, Bool-cases, All, none, some, Option-cases,
}
use cmee1y1_clients.State.{Ipc, Client, Env, Answer, signalled, timed_out}
use cmee1y1_clients.State.Code
use cmee1y1_clients.State.Laws.{bind_ok, bind_err}
use mathlib.Core.Path.{subst⁻¹}
use cmee1y1_clients.Call.{
  CallSpec, slot_count, errorcode, mark_slot, scan, poll, await, conclude, exchange, call_in,
  bp_client_call, reserve_slot, with_lock, claim,
}
use cmee1y1_clients.Call.Outcome.{IsPending, Polled, silent, answered, poll-Polled, presented}

-- What the calling thread sees of an answer: the memory in which the engine's answer shows, at once or
-- at the first poll that shows one; or no answer at any poll.
abbrev pub Shows : ℕ → Answer → Ipc → Type 0
Shows i (signalled ipc) x = ipc ≡ x
Shows i (timed_out now later) x = Polled i (now ∷ later) (x, true)

abbrev pub IsSilent : ℕ → Answer → Type 0
IsSilent i (signalled ipc) = ⊥
IsSilent i (timed_out now later) = All (IsPending i) (now ∷ later)

module _ {ℓ} {W : Type 0} (env : Env W) {A : Type ℓ} (spec : CallSpec A) (c : Client W) where
  -- The engine's answer to the request in slot `i`, for which it has the call's own time or 30 s.
  abbrev pub answer_in : ℕ → Answer
  answer_in i =
      (env.serve (env.post (env.lock c.world).0).0 i
        (if ltb 0 spec.timeout_ms then spec.timeout_ms else 30000) (presented env spec i c)).1

  -- The slot that a call gets, and whether its post succeeds.
  abbrev pub Holds : ℕ → Bool → Type 0
  Holds i posted =
      ((env.lock c.world).1 ≡ true)
      × (scan slot_count 0 c.ipc ≡ some i)
      × ((env.post (env.lock c.world).0).1 ≡ posted)

  -- The results of a call.
  pub data Called : Result A → Type ℓ where
    unlocked : (env.lock c.world).1 ≡ false → Called (err Code.generic)
    full :
        (env.lock c.world).1 ≡ true
        → scan slot_count 0 c.ipc ≡ none
        → Called (err Code.no_free_slot)
    unsent : (i : ℕ) → Holds i false → Called (err Code.send_request)
    unanswered : (i : ℕ) → Holds i true → IsSilent i (answer_in i) → Called (err Code.recv_answer)
    failed :
        (i : ℕ) (x : Ipc)
        → Holds i true
        → Shows i (answer_in i) x
        → errorcode x i ≢ 0
        → Called (err (signed32 (errorcode x i)))
    done :
        (i : ℕ) (x : Ipc)
        → Holds i true
        → Shows i (answer_in i) x
        → errorcode x i ≡ 0
        → Called (ok (spec.read_reply (x.shm i)))

  All-IsPending :
      (i : ℕ) {xs : List Ipc} {r : Ipc × Bool} → Polled i xs r → r.1 ≡ false → All (IsPending i) xs
  All-IsPending i (silent xs x pending) e = pending
  All-IsPending i (answered xs x ys pending shows) e = cc

  concluded :
      (i : ℕ) (x : Ipc)
      → Holds i true
      → Shows i (answer_in i) x
      → Called (conclude spec i (x, true))
  unfolding conclude
  concluded i x held shows = elim (Bool-cases (errorcode x i == 0)) [
    | inl fine ↦ rw (fine, conclude) (done i x held shows (ground (arith, fine)))
    | inr code ↦ rw (code, conclude) (failed i x held shows (ground (arith, code)))
  ]

  awaited : (i : ℕ) → Holds i true → Called (conclude spec i (await i (answer_in i)))
  unfolding await conclude
  awaited i held = at (answer_in i) refl
    where
      polled :
          (now : Ipc) (later : List Ipc) (r : Ipc × Bool)
          → answer_in i ≡ timed_out now later
          → Polled i (now ∷ later) r
          → Called (conclude spec i r)
      polled now later (x, true) e p = concluded i x held (subst⁻¹ (λ a. Shows i a x) e p)
      polled now later (x, false) e p =
          unanswered i held (subst⁻¹ (IsSilent i) e (All-IsPending i p refl))

      at : (a : Answer) → answer_in i ≡ a → Called (conclude spec i (await i a))
      at (signalled x) e = concluded i x held (subst⁻¹ (λ a. Shows i a x) e refl)
      at (timed_out now later) e = polled now later (poll i now later) e (poll-Polled i now later)

  exchanged :
      (i : ℕ)
      → (env.lock c.world).1 ≡ true
      → scan slot_count 0 c.ipc ≡ some i
      → Called
          (exchange env spec i
            (record c { world = (env.lock c.world).0; ipc = presented env spec i c })).1
  unfolding exchange
  exchanged i held found = elim (Bool-cases (env.post (env.lock c.world).0).1) [
    | inl posted ↦ rw (posted, exchange) (awaited i (held, found, posted))
    | inr refused ↦ rw (refused, exchange) (unsent i (held, found, refused))
  ]

  -- A call has one of six results, each for its reason: `BP_ERR_GENERIC` if the lock cannot be taken;
  -- `BP_ERR_NO_FREE_SLOT` if all 16 slots are owned; and else, in the first slot that is free,
  -- `BP_ERR_SEND_REQUEST` if the post fails; `BP_ERR_RECV_ANSWER` if the engine is silent at every
  -- poll; the engine's errorcode if it is not 0; and what is read from the slot if it is 0.
  pub bp_client_call-Called : Called (bp_client_call env spec c).1
  unfolding bp_client_call reserve_slot with_lock claim call_in
  bp_client_call-Called =
      let l : Client W = record c { world = (env.lock c.world).0 } in
      elim (Bool-cases (env.lock c.world).1) [
        | inr lost ↦
            let e : reserve_slot env c ≡ (l, err Code.generic) = rw (lost, with_lock) refl in
            subst⁻¹ (λ r. Called r.1) (bind_err (reserve_slot env) (call_in env spec) c e)
              (unlocked lost)
        | inl held ↦ elim (Option-cases (scan slot_count 0 c.ipc)) [
          | inl all_owned ↦
              let e : reserve_slot env c ≡ (l, err Code.no_free_slot) =
                rw (held, with_lock) (rw (all_owned, claim) refl) in
              subst⁻¹ (λ r. Called r.1) (bind_err (reserve_slot env) (call_in env spec) c e)
                (full held all_owned)
          | inr (i, found) ↦
              let marked = mark_slot i (c.tid * 2 ^ 32 + c.pid) c.ipc in
              let e : reserve_slot env c ≡ (record l { ipc = marked }, ok i) =
                rw (held, with_lock) (rw (found, claim) refl) in
              subst⁻¹ (λ r. Called r.1) (bind_ok (reserve_slot env) (call_in env spec) c e)
                (exchanged i held found)
        ]
      ]
