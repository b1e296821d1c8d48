-- ===== src/Session.antt =====
-- c/src/client.c: closing a client, its session with the engine, and what it holds of the operating
-- system. Session/Start opens and reopens it. What a client that was freed leaves in memory is left
-- out.
pub mod Complete
pub mod Handled
pub mod Renewal
pub mod Start
use cmee1y1_clients.Base.{
  ℕ, zero, suc, ◌+◌, Bool, true, false, Option, none, some, List, [], ◌∷◌, ◌&&◌, ◌||◌, not, get_or,
  replicate, set, codes, if◌then◌else◌, Result, ok, err,
}
use cmee1y1_clients.Memory.{Buffer, bp_ld_u32}
use cmee1y1_clients.State.{Client, Env, M}
use cmee1y1_clients.State.Code
use cmee1y1_clients.Call.{CallSpec, slot_count, bp_client_call, scan}
use cmee1y1_clients.Pool.{max_slots}
use cmee1y1_clients.Pool.Lifecycle.{pool_at}
use cmee1y1_clients.Pool.Closing.{bp_client_pool_close}
use cmee1y1_clients.Tags.Cache.{bp_tag_cache_free_all}

-- A service without a request or a reply of its own.
abbrev pub bare_spec {ℓ} : {A : Type ℓ} → List ℕ → ℕ → (Buffer → A) → CallSpec A
bare_spec fn size read = record {
  fn_name = fn;
  payload_size = size;
  fill_payload = λ p. p;
  read_reply = read;
  timeout_ms = 5000;
}

unfoldable pub open_read_reply : Buffer → ℕ
open_read_reply p = bp_ld_u32 p 0x78

module _ {W : Type 0} (env : Env W) where
  unfoldable pub bp_client_open_session : M W ℕ
  bp_client_open_session = bp_client_call env (bare_spec (codes "OCXcip_Open") 0x80 open_read_reply)

  unfoldable pub bp_client_close_session : M W (Unit {0})
  bp_client_close_session = bp_client_call env (bare_spec (codes "OCXcip_Close") 0x78 (λ p. tt))

  unfoldable pub bp_client_dummy : M W (Unit {0})
  bp_client_dummy = bp_client_call env (bare_spec (codes "OCXcip_Dummy") 0x78 (λ p. tt))

-- What a client holds of the operating system: which of the descriptor, the mapping and the semaphores
-- are open.
pub record Handles : Type 0 where
  pub shm_fd : Bool
  pub shm : Bool
  pub sem_shmlock : Bool
  pub sem_req : List Bool
  pub sem_resp : List Bool

abbrev pub every : List Bool → Bool
every [] = true
every (b ∷ bs) = b && every bs

-- All handles are open.
unfoldable pub ready : Handles → Bool
ready h = h.shm && h.sem_shmlock && every h.sem_req && every h.sem_resp

-- Whether a semaphore of the slot that a scan found is not open.
abbrev pub lacks : Handles → Option ℕ → Bool
lacks h none = false
lacks h (some i) = not (get_or h.sem_req i false && get_or h.sem_resp i false)

abbrev pub nothing_open : Handles
nothing_open = record {
  shm_fd = false;
  shm = false;
  sem_shmlock = false;
  sem_req = replicate slot_count false;
  sem_resp = replicate slot_count false;
}

abbrev pub all_open : Handles
all_open = record {
  shm_fd = true;
  shm = true;
  sem_shmlock = true;
  sem_req = replicate slot_count true;
  sem_resp = replicate slot_count true;
}

-- A handle is closed if it is open.
abbrev pub closed : Bool → Bool
closed b = if b then false else b

unfoldable pub close_sems : List Bool → List Bool
close_sems [] = []
close_sems (b ∷ bs) = closed b ∷ close_sems bs

abbrev pub close_lock : Handles → Handles
close_lock h = record h { sem_shmlock = closed h.sem_shmlock }

abbrev pub unmap : Handles → Handles
unmap h = record h { shm = closed h.shm }

abbrev pub close_fd : Handles → Handles
close_fd h = record h { shm_fd = closed h.shm_fd }

-- What a close does with the handles. Each slot's two semaphores are closed together, in C.
unfoldable pub close_handles : Handles → Handles
close_handles h = close_fd (
    unmap
      (close_lock (record h { sem_req = close_sems h.sem_req; sem_resp = close_sems h.sem_resp })))

-- A client with its handles.
pub record Session (W : Type 0) : Type 0 where
  pub client : Client W
  pub handles : Handles

-- What follows a close that returned.
abbrev pub after_close {ℓ} :
    {W : Type 0} {A : Type ℓ}
    → (Client W → Option A)
    → Option (Client W × Result (Unit {0}))
    → Option A
after_close k none = none
after_close k (some (c, r)) = k c

abbrev pub drop_caches : {W : Type 0} → Client W → Client W
drop_caches c = record c { tag_caches = bp_tag_cache_free_all c.tag_caches }

abbrev pub go_on {ℓ κ} : {A : Type ℓ} {B : Type κ} → (A → Option B) → Option A → Option B
go_on k none = none
go_on k (some a) = k a

module _ {W : Type 0} (env : Env W) where
  -- The pools from slot `s` on that are open are closed, `n` being left. A close that waits for an
  -- entry holds everything up.
  unfoldable pub close_pools : ℕ → ℕ → Client W → Option (Client W)
  close_pools zero s c = some c
  close_pools (suc n) s c = elim (pool_at c s).initialized [
    | true ↦ after_close (close_pools n (s + 1)) (bp_client_pool_close env s c)
    | false ↦ close_pools n (s + 1) c
  ]

  -- Whether one of the pools from slot `s` on is open, `n` being left.
  unfoldable pub any_open : ℕ → ℕ → Client W → Bool
  any_open zero s c = false
  any_open (suc n) s c = (pool_at c s).initialized || any_open n (s + 1) c

  -- Whether a call of the engine goes through a null pointer: the lock's semaphore, the memory, which
  -- is scanned under the lock, or a semaphore of the slot that it finds.
  unfoldable pub uses_null : Handles → Client W → Bool
  uses_null h c =
      not h.sem_shmlock || (env.lock c.world).1 && (not h.shm || lacks h (scan slot_count 0 c.ipc))

  -- A session that the engine does not know is no matter.
  unfoldable pub close_all : Handles → Client W → Option (Session W)
  close_all h c = elim (uses_null h c) [
    | true ↦ none
    | false ↦ some (record {
      client = drop_caches (bp_client_close_session env c).0;
      handles = close_handles h;
    })
  ]

  -- There is no result where the engine is called through a null pointer. The calls that close a pool
  -- are many, and with an open pool it is enough for that that any handle is missing.
  unfoldable pub bp_client_close : Session W → Option (Session W)
  bp_client_close s = elim (any_open max_slots 0 s.client && not (ready s.handles)) [
    | true ↦ none
    | false ↦ go_on (close_all s.handles) (close_pools max_slots 0 s.client)
  ]
