-- ===== src/Conn/Frame.antt =====
-- What a call to the server leaves alone: all of the client but its memory.
use cmee1y1_clients.Base.{
  ℕ, ◌≡◌, refl, ◌∙◌, Bool, true, false, Option, none, some, List, inl, inr, Result, ok, err,
  Bool-cases, ◌==◌, ◌||◌, not, ltb, if◌then◌else◌, Option-cases,
}
use cmee1y1_clients.State.{Client, Ipc, Env, M, continue, ◌>>=◌, return, fail}
use cmee1y1_clients.State.Code
use cmee1y1_clients.Call.{
  CallSpec, with_lock, claim, reserve_slot, release, release_slot, exchange, call_in,
  bp_client_call, scan, slot_count, set_slot, request,
}
use cmee1y1_clients.Message.{
  Message, max_req, max_slot, message_spec, send_checked, send_from, bp_client_message_send,
}

-- Two states of a client with the same tables and identity.
pub record SameOwn {W : Type 0} (c d : Client W) : Type 0 where
  pub pid : d.pid ≡ c.pid
  pub tid : d.tid ≡ c.tid
  pub txrx_conns : d.txrx_conns ≡ c.txrx_conns
  pub cip_err : d.cip_err ≡ c.cip_err
  pub pools : d.pools ≡ c.pools
  pub rr_seed : d.rr_seed ≡ c.rr_seed
  pub tag_caches : d.tag_caches ≡ c.tag_caches

module _ {W : Type 0} where
  -- The server, and what it does to the shared memory, are not the client's own.
  pub touched : (c : Client W) (w : W) (p : Ipc) → SameOwn c (record c { world = w; ipc = p })
  touched c w p = record {
    pid = refl;
    tid = refl;
    txrx_conns = refl;
    cip_err = refl;
    pools = refl;
    rr_seed = refl;
    tag_caches = refl;
  }

  pub SameOwn-refl : (c : Client W) → SameOwn c c
  SameOwn-refl c = touched c c.world c.ipc

  pub SameOwn-trans : {c d e : Client W} → SameOwn c d → SameOwn d e → SameOwn c e
  SameOwn-trans a b = record {
    pid = b.pid ∙ a.pid;
    tid = b.tid ∙ a.tid;
    txrx_conns = b.txrx_conns ∙ a.txrx_conns;
    cip_err = b.cip_err ∙ a.cip_err;
    pools = b.pools ∙ a.pools;
    rr_seed = b.rr_seed ∙ a.rr_seed;
    tag_caches = b.tag_caches ∙ a.tag_caches;
  }

-- An operation that leaves the tables and the identity alone.
abbrev pub Keeps {ℓ} : {W : Type 0} {A : Type ℓ} → M W A → Type 0
Keeps {W} m = (c : Client W) → SameOwn c (m c).0

continue-Keeps {ℓ κ} :
    {W : Type 0} {A : Type ℓ} {B : Type κ} (f : A → M W B) (c : Client W) (r : Client W × Result A)
    → ((a : A) → Keeps (f a))
    → SameOwn c r.0
    → SameOwn c (continue f r).0
continue-Keeps f c (d, ok a) k s = SameOwn-trans s (k a d)
continue-Keeps f c (d, err e) k s = s

pub if-Keeps {ℓ} :
    {W : Type 0} {A : Type ℓ} (b : Bool) (m n : M W A)
    → Keeps m
    → Keeps n
    → Keeps (if b then m else n)
if-Keeps true m n k l = k
if-Keeps false m n k l = l

pub bind-Keeps {ℓ κ} :
    {W : Type 0} {A : Type ℓ} {B : Type κ} (m : M W A) (f : A → M W B)
    → Keeps m
    → ((a : A) → Keeps (f a))
    → Keeps (m >>= f)
bind-Keeps m f k l c = continue-Keeps f c (m c) l (k c)

module _ {W : Type 0} (env : Env W) where
  claim-SameOwn : (c : Client W) → SameOwn c (claim env c).0
  unfolding claim
  claim-SameOwn c = elim (Option-cases (scan slot_count 0 c.ipc)) [
    | inl full ↦ rw (full, claim) (SameOwn-refl c)
    | inr (i, found) ↦ rw (found, claim) (touched c _ _)
  ]

  with_lock-Keeps {ℓ} :
      {A : Type ℓ} (failed m : M W A) → Keeps failed → Keeps m → Keeps (with_lock env failed m)
  unfolding with_lock
  with_lock-Keeps failed m k l c = elim (Bool-cases (env.lock c.world).1) [
    | inl held ↦ rw (held, with_lock) (SameOwn-trans (touched c (env.lock c.world).0 c.ipc) (l _))
    | inr lost ↦ rw (lost, with_lock) (SameOwn-trans (touched c (env.lock c.world).0 c.ipc) (k _))
  ]

  release_slot-SameOwn : (i : ℕ) (c : Client W) → SameOwn c (release_slot env i c)
  unfolding release_slot release
  release_slot-SameOwn i c =
      with_lock-Keeps (return tt) (release env i) SameOwn-refl (λ d. touched d d.world _) c

  exchange-Keeps {ℓ} : {A : Type ℓ} (spec : CallSpec A) (i : ℕ) → Keeps (exchange env spec i)
  unfolding exchange
  exchange-Keeps spec i c = elim (Bool-cases (env.post c.world).1) [
    | inl posted ↦ rw (posted, exchange) (touched c _ _)
    | inr refused ↦ rw (refused, exchange) (touched c _ _)
  ]

  pub bp_client_call-Keeps {ℓ} : {A : Type ℓ} (spec : CallSpec A) → Keeps (bp_client_call env spec)
  unfolding bp_client_call reserve_slot call_in
  bp_client_call-Keeps spec =
      bind-Keeps (reserve_slot env) (call_in env spec)
        (with_lock-Keeps (fail Code.generic) (claim env) SameOwn-refl claim-SameOwn)
        (λ i c.
          SameOwn-trans (touched c c.world (set_slot c.ipc i (request spec c.pid i (c.ipc.shm i))))
            (SameOwn-trans (exchange-Keeps spec i _) (release_slot-SameOwn i _)))

  send_checked-Keeps : (m : Message) (req : List ℕ) → Keeps (send_checked env m req)
  unfolding send_checked
  send_checked-Keeps m req = if-Keeps (m.req_size == 0 || ltb max_req m.req_size) _ _ SameOwn-refl (
      if-Keeps (not m.resp_data || m.resp_capacity == 0) _ _ SameOwn-refl (
        if-Keeps (ltb max_slot m.slot) _ _ SameOwn-refl
          (bp_client_call-Keeps (message_spec m req))))

  send_from-Keeps : (m : Message) (o : Option (List ℕ)) → Keeps (send_from env m o)
  unfolding send_from
  send_from-Keeps m none = SameOwn-refl
  send_from-Keeps m (some req) = send_checked-Keeps m req

  -- Sending a message, whatever comes of it, leaves the connection table, the recorded error, the
  -- pools and the caches alone.
  pub message_send-Keeps : (m : Message) → Keeps (bp_client_message_send env m)
  unfolding bp_client_message_send
  message_send-Keeps m = send_from-Keeps m m.cip_request
