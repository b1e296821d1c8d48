-- ===== src/Call/Reply.antt =====
-- What a call that succeeds returns is read from a reply.
use cmee1y1_clients.Base.{
  ℕ, ◌≡◌, refl, Bool, true, false, ltb, ◌==◌, if◌then◌else◌, Result, ok, err, Bool-cases, inl, inr,
}
use cmee1y1_clients.Memory.{Buffer}
use cmee1y1_clients.State.{Ipc, Client, Env, continue}
use cmee1y1_clients.Call.{
  CallSpec, errorcode, await, conclude, exchange, call_in, bp_client_call, reserve_slot,
}

abbrev pub IsReply {ℓ} : {A : Type ℓ} → CallSpec A → Result A → Type ℓ
IsReply spec (ok a) = (p : Buffer) × (a ≡ spec.read_reply p)
IsReply spec (err e) = Unit

conclude-IsReply {ℓ} :
    {A : Type ℓ} (spec : CallSpec A) (i : ℕ) (last : Ipc × Bool)
    → IsReply spec (conclude spec i last)
unfolding conclude
conclude-IsReply spec i (ipc, false) = tt
conclude-IsReply spec i (ipc, true) = elim (Bool-cases (errorcode ipc i == 0)) [
  | inl zero_code ↦ rw zero_code (ipc.shm i, refl)
  | inr code ↦ rw code tt
]

module _ {ℓ} {W : Type 0} (env : Env W) {A : Type ℓ} (spec : CallSpec A) where
  exchange-IsReply : (i : ℕ) (c : Client W) → IsReply spec (exchange env spec i c).1
  unfolding exchange
  exchange-IsReply i c = elim (Bool-cases (env.post c.world).1) [
    | inl posted ↦
        rw (posted, exchange)
          (conclude-IsReply spec i (
            await i
              (env.serve (env.post c.world).0 i
                (if ltb 0 spec.timeout_ms then spec.timeout_ms else 30000) c.ipc).1))
    | inr refused ↦ rw (refused, exchange) tt
  ]

  -- The result of a call that succeeds is what the call reads from some reply.
  pub bp_client_call-IsReply : (c : Client W) → IsReply spec (bp_client_call env spec c).1
  unfolding bp_client_call call_in
  bp_client_call-IsReply c = after (reserve_slot env c)
    where
      after : (r : Client W × Result ℕ) → IsReply spec (continue (call_in env spec) r).1
      after (d, ok i) = exchange-IsReply i _
      after (d, err e) = tt
