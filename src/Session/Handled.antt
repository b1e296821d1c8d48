-- ===== src/Session/Handled.antt =====
-- Opening a client is all or nothing (c/src/client.c).
use mathlib.Core.Path.{subst⁻¹}
use cmee1y1_clients.Base.{
  ℕ, zero, suc, ◌+◌, ◌≡◌, refl, ap, ◌∙◌, inl, inr, Bool, true, false, ◌&&◌, not, Option, none, some,
  List, [], ◌∷◌, length, replicate, get_or, Result, ok, err, arith, if◌then◌else◌,
}
use cmee1y1_clients.State.{Client, Env, Ipc}
use cmee1y1_clients.State.Code
use cmee1y1_clients.Call.{scan, slot_count}
use cmee1y1_clients.Pool.{max_slots}
use cmee1y1_clients.Pool.Lifecycle.{pool_at}
use cmee1y1_clients.Session.{
  Handles, Session, nothing_open, all_open, close_pools, close_all, go_on, closed, close_sems,
  close_handles, close_fd, unmap, any_open, uses_null, lacks, ready, bp_client_close, drop_caches,
  bp_client_close_session,
}
use cmee1y1_clients.Session.Start.{Os, Opening, open_ipc, give_client, bp_client_open}
use cmee1y1_clients.Session.Complete.{Complete, IsLocked, mapped, open_ipc-Complete}

-- A client without open pools, as a new one is.
abbrev pub NoPools : {W : Type 0} → Client W → Type 0
NoPools c = (s : ℕ) → (pool_at c s).initialized ≡ false

-- How an opening ends that got as far as `o` tells, with the shared memory `ipc`.
abbrev pub Opened :
    {W : Type 0} → Env W → Ipc → Opening W → Option (Session W × Result (Unit {0})) → Type 0
Opened env ipc (w, (h, good)) none =
    (i : ℕ) × (good ≡ false)
    × (h.sem_shmlock ≡ true)
    × ((env.lock w).1 ≡ true)
    × (scan slot_count 0 ipc ≡ some i)
    × ((get_or h.sem_req i false && get_or h.sem_resp i false) ≡ false)
Opened env ipc o (some (s, ok u)) = s.handles ≡ all_open
Opened env ipc o (some (s, err e)) = (s.handles ≡ nothing_open) × (e ≡ Code.client_open)

closed-false : (b : Bool) → closed b ≡ false
closed-false true = refl
closed-false false = refl

close_sems_all : (bs : List Bool) → close_sems bs ≡ replicate (length bs) false
unfolding close_sems
close_sems_all [] = refl
close_sems_all (b ∷ bs) = rw (closed-false b) (ap (◌∷◌ false) (close_sems_all bs))

-- Closing leaves nothing open, in a client with a place for each slot's semaphores.
close_handles_all : (h : Handles) → IsLocked h → close_handles h ≡ nothing_open
unfolding close_handles
close_handles_all h (lock, memory, req, resp) =
    let reqs : close_sems h.sem_req ≡ replicate slot_count false =
      close_sems_all h.sem_req ∙ ap (λ (n : ℕ). replicate n false) req in
    let resps : close_sems h.sem_resp ≡ replicate slot_count false =
      close_sems_all h.sem_resp ∙ ap (λ (n : ℕ). replicate n false) resp in
    rw (closed-false h.shm_fd, closed-false h.shm, closed-false h.sem_shmlock, reqs, resps) refl

lacks-slot :
    (h : Handles) (o : Option ℕ)
    → lacks h o ≡ true
    → (i : ℕ) × (o ≡ some i) × ((get_or h.sem_req i false && get_or h.sem_resp i false) ≡ false)
lacks-slot h none e = cc
lacks-slot h (some i) e = (i, refl, ground (arith, e))

module _ {W : Type 0} (env : Env W) where
  any_open_none : (n s : ℕ) (c : Client W) → NoPools c → any_open env n s c ≡ false
  unfolding any_open
  any_open_none zero s c h = refl
  any_open_none (suc n) s c h = rw (h s) (any_open_none n (s + 1) c h)

  close_pools_none : (n s : ℕ) (c : Client W) → NoPools c → close_pools env n s c ≡ some c
  unfolding close_pools
  close_pools_none zero s c h = refl
  close_pools_none (suc n) s c h = rw (h s, close_pools) (close_pools_none n (s + 1) c h)

  abbrev refused : Option (Session W) → Option (Session W × Result (Unit {0}))
  refused = go_on (λ s. some (s, err Code.client_open))

  uses_null-Opened :
      (c : Client W) (h : Handles)
      → IsLocked h
      → uses_null env h c ≡ true
      → Opened env c.ipc (c.world, (h, false)) none
  unfolding uses_null
  uses_null-Opened c h locked e =
      let parts : ((env.lock c.world).1 && lacks h (scan slot_count 0 c.ipc)) ≡ true =
        rw (locked.0, locked.1) at e in
      let both : ((env.lock c.world).1 ≡ true) × (lacks h (scan slot_count 0 c.ipc) ≡ true) =
        ground (arith, parts) in
      let (i, at_i, missing) = lacks-slot h (scan slot_count 0 c.ipc) both.1 in
      (i, refl, locked.0, both.0, at_i, missing)

  close_all-Opened :
      (c : Client W) (h : Handles)
      → IsLocked h
      → Opened env c.ipc (c.world, (h, false)) (refused (close_all env h c))
  unfolding close_all
  close_all-Opened c h locked = at (uses_null env h c) refl
    where
      at :
          (b : Bool)
          → uses_null env h c ≡ b
          → Opened env c.ipc
              (c.world, (h, false))
              (refused (elim b [
                | true ↦ none
                | false ↦ some (record {
                  client = drop_caches (bp_client_close_session env c).0;
                  handles = close_handles h;
                })
              ]))
      at true e = uses_null-Opened c h locked e
      at false e = (close_handles_all h locked, refl)

  -- A client whose opening failed at a slot's semaphore is closed.
  closed_up :
      (c : Client W) (h : Handles)
      → NoPools c
      → IsLocked h
      → Opened env c.ipc
          (c.world, (h, false))
          (refused (bp_client_close env (record { client = c; handles = h })))
  unfolding bp_client_close
  closed_up c h none_open locked =
      let shut : (any_open env max_slots 0 c && not (ready h)) ≡ false =
        rw (any_open_none max_slots 0 c none_open) refl in
      rw (shut, close_pools_none max_slots 0 c none_open, bp_client_close)
        (close_all-Opened c h locked)

  give_client-Opened :
      (c : Client W) (o : Opening W)
      → NoPools c
      → Complete o
      → Opened env c.ipc o (give_client env c o)
  unfolding give_client
  give_client-Opened c (w, (h, true)) none_open complete = complete
  give_client-Opened c (w, (h, false)) none_open complete = elim complete [
    | inl nothing ↦ before nothing_open nothing (refl, refl)
    | inr (inl memory) ↦ before mapped memory (refl, refl)
    | inr (inr locked) ↦
        subst⁻¹
          (λ (lock : Bool).
            Opened env c.ipc (w, (h, false))
              (elim lock [
                | false ↦ some (
                  record {
                    client = record c { world = w };
                    handles = if h.shm then close_fd (unmap h) else h;
                  },
                  err Code.client_open,
                )
                | true ↦
                    refused (
                      bp_client_close env (record { client = record c { world = w }; handles = h }))
              ]))
          locked.0 (closed_up (record c { world = w }) h none_open locked)
  ]
    where
      before :
          (g : Handles)
          → h ≡ g
          → Opened env c.ipc (w, (g, false)) (give_client env c (w, (g, false)))
          → Opened env c.ipc (w, (h, false)) (give_client env c (w, (h, false)))
      before g same fact =
          subst⁻¹
            (λ (k : Handles). Opened env c.ipc (w, (k, false)) (give_client env c (w, (k, false))))
            same fact

module _ {W : Type 0} (env : Env W) (os : Os W) where
  -- For a client without open pools, as a new one is: after an opening that succeeded the descriptor,
  -- the mapping, the lock and all 32 semaphores are open, and none of them after one that returned an
  -- error, which is `BP_ERR_CLIENT_OPEN`; and it always returns, except where a slot's semaphore could
  -- not be opened, the lock can be taken for the closing of the session, and the free slot that the
  -- closing finds lacks one of its two semaphores.
  pub client_open-Opened :
      (c : Client W)
      → ((s : ℕ) → (pool_at c s).initialized ≡ false)
      → Opened env c.ipc (open_ipc os (env.alloc c.world 1).0) (bp_client_open env os c)
  unfolding bp_client_open
  client_open-Opened c none_open = at (env.alloc c.world 1)
    where
      at :
          (a : W × Bool)
          → Opened env c.ipc (open_ipc os a.0) (elim a.1 [
            | false ↦ some (
              record { client = record c { world = a.0 }; handles = nothing_open },
              err Code.client_open,
            )
            | true ↦ give_client env c (open_ipc os a.0)
          ])
      at (w, false) = (refl, refl)
      at (w, true) = give_client-Opened env c (open_ipc os w) none_open (open_ipc-Complete os w)
