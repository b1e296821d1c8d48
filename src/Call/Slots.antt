-- ===== src/Call/Slots.antt =====
-- The reservation of slots: which slot a call gets, and that it is free again afterwards.
use cmee1y1_clients.Base.{
  ℕ, zero, suc, ◌+◌, ◌*◌, ◌^◌, ◌≤◌, ◌<◌, ◌≡◌, ◌≢◌, inl, inr, refl, true, false, Option, none, some,
  ◌==◌, eq_or_above, subst, arith, Result, ok, err, Bool-cases, ap, ◌∙◌,
}
use cmee1y1_clients.Memory.{ld_u64, Buffer}
use cmee1y1_clients.Memory.Laws.{ld_u64-st}
use cmee1y1_clients.State.{Ipc, Client, Env, M, return, fail}
use cmee1y1_clients.State.Code
use cmee1y1_clients.Call.{
  slot_count, owner_of, set_slot, sem_drain, drain, mark_slot, scan, claim, with_lock, reserve_slot,
  release, release_slot,
}

-- What `scan` answers: the first free slot, or that there is none.
abbrev pub Scanned : ℕ → ℕ → Ipc → Option ℕ → Type 0
Scanned n i ipc none = (j : ℕ) → i ≤ j → j < i + n → owner_of (ipc.shm j) ≢ 0
Scanned n i ipc (some k) =
    (i ≤ k)
    × (k < i + n)
    × (owner_of (ipc.shm k) ≡ 0)
    × ((j : ℕ) → i ≤ j → j < k → owner_of (ipc.shm j) ≢ 0)

scan_later :
    (n i : ℕ) (ipc : Ipc) (r : Option ℕ)
    → owner_of (ipc.shm i) ≢ 0
    → Scanned n (i + 1) ipc r
    → Scanned (suc n) i ipc r
scan_later n i ipc none h s = λ j a b. elim (eq_or_above i j a) [
  | inl e ↦ subst (λ k. owner_of (ipc.shm k) ≢ 0) e h
  | inr p ↦ s j p (omega arith)
]
scan_later n i ipc (some k) h s = (
  omega arith,
  omega arith,
  s.2,
  λ j a b. elim (eq_or_above i j a) [
    | inl e ↦ subst (λ k. owner_of (ipc.shm k) ≢ 0) e h
    | inr p ↦ s.3 j p b
  ],
)

scan-Scanned : (n i : ℕ) (ipc : Ipc) → Scanned n i ipc (scan n i ipc)
unfolding scan
scan-Scanned zero i ipc = λ j a b. absurd (omega arith)
scan-Scanned (suc n) i ipc = elim (Bool-cases (owner_of (ipc.shm i) == 0)) [
  | inl free ↦ rw free (omega arith, omega arith, ground arith, λ j a b. absurd (omega arith))
  | inr taken ↦
      rw taken (scan_later n i ipc (scan n (i + 1) ipc) (ground arith) (scan-Scanned n (i + 1) ipc))
]

-- A call takes the first of the 16 slots that has no owner, and `none` means that all have one.
pub scan_first_free : (ipc : Ipc) → Scanned slot_count 0 ipc (scan slot_count 0 ipc)
scan_first_free ipc = scan-Scanned slot_count 0 ipc

pub sem_drain-zero : (n : ℕ) → sem_drain n ≡ 0
unfolding sem_drain
sem_drain-zero zero = refl
sem_drain-zero (suc n) = sem_drain-zero n

-- After a slot was marked: its owner, no pending posts, and the other slots as they were.
pub record Marked (i owner : ℕ) (before after : Ipc) : Type 0 where
  pub owned : owner_of (after.shm i) ≡ owner
  pub no_request : after.sem_req i ≡ 0
  pub no_reply : after.sem_resp i ≡ 0
  pub others : (j : ℕ) → j ≢ i → after.shm j ≡ before.shm j
  pub others_req : (j : ℕ) → j ≢ i → after.sem_req j ≡ before.sem_req j
  pub others_resp : (j : ℕ) → j ≢ i → after.sem_resp j ≡ before.sem_resp j

self_test : (i : ℕ) → (i == i) ≡ true
self_test i = ground arith

other_test : (i j : ℕ) → j ≢ i → (j == i) ≡ false
other_test i j h = ground arith

pub set_slot_self : (ipc : Ipc) (i : ℕ) (p : Buffer) → (set_slot ipc i p).shm i ≡ p
unfolding set_slot
set_slot_self ipc i p = rw (self_test i)

pub mark_slot-Marked :
    (i owner : ℕ) (ipc : Ipc) → owner < 2 ^ 64 → Marked i owner ipc (mark_slot i owner ipc)
unfolding mark_slot ld_u64 set_slot drain
mark_slot-Marked i owner ipc h = record {
  owned = rw (self_test i) (ld_u64-st (ipc.shm i) 0x58 owner h);
  no_request = rw (self_test i) (sem_drain-zero (ipc.sem_req i));
  no_reply = rw (self_test i) (sem_drain-zero (ipc.sem_resp i));
  others = λ j d. rw (other_test i j d);
  others_req = λ j d. rw (other_test i j d);
  others_resp = λ j d. rw (other_test i j d);
}

module _ {W : Type 0} (env : Env W) where
  -- The semaphore /bpShm can always be taken.
  abbrev pub Locks : Type 0
  Locks = (w : W) → (env.lock w).1 ≡ true

  with_lock_held {ℓ} :
      {A : Type ℓ} (failed m : M W A) (c : Client W)
      → Locks
      → with_lock env failed m c ≡ m (record c { world = (env.lock c.world).0 })
  unfolding with_lock
  with_lock_held failed m c locks = rw (locks c.world, with_lock) refl

  pub release_slot_lem :
      (i : ℕ) (c : Client W)
      → Locks
      → release_slot env i c ≡ record c { world = (env.lock c.world).0; ipc = mark_slot i 0 c.ipc }
  unfolding release_slot release
  release_slot_lem i c locks =
      ap (λ (r : Client W × Result (Unit {0})). r.0)
        (with_lock_held (return tt) (release env i) c locks)

  -- Once it is released, a slot has no owner and no pending posts.
  pub release_slot-Marked :
      (i : ℕ) (c : Client W) → Locks → Marked i 0 c.ipc (release_slot env i c).ipc
  release_slot-Marked i c locks =
      rw (release_slot_lem i c locks) (mark_slot-Marked i 0 c.ipc (omega arith))

  pub reserve_some :
      (c : Client W) (i : ℕ)
      → Locks
      → scan slot_count 0 c.ipc ≡ some i
      → reserve_slot env c ≡ (
        record c { world = (env.lock c.world).0; ipc = mark_slot i (c.tid * 2 ^ 32 + c.pid) c.ipc },
        ok i,
      )
  unfolding reserve_slot claim mark_slot
  reserve_some c i locks e =
      with_lock_held (fail Code.generic) (claim env) c locks ∙ rw (e, claim) refl

  pub reserve_none :
      (c : Client W)
      → Locks
      → scan slot_count 0 c.ipc ≡ none
      → reserve_slot env c ≡ (record c { world = (env.lock c.world).0 }, err Code.no_free_slot)
  unfolding reserve_slot claim
  reserve_none c locks e =
      with_lock_held (fail Code.generic) (claim env) c locks ∙ rw (e, claim) refl
