-- ===== src/Session/Start.antt =====
-- c/src/client.c: opening a client, and reconnecting it after a restart of the server. The calls of the
-- operating system are parameters; the sleep of 50 ms in a reconnect is left out.
use cmee1y1_clients.Base.{
  ℕ, zero, suc, ◌+◌, Bool, true, false, Option, some, set, if◌then◌else◌, Result, ok, err,
}
use cmee1y1_clients.State.{Client, Env}
use cmee1y1_clients.State.Code
use cmee1y1_clients.Call.{slot_count}
use cmee1y1_clients.Pool.{max_slots}
use cmee1y1_clients.Session.{
  Handles, nothing_open, close_fd, unmap, Session, drop_caches, go_on, close_pools, bp_client_close,
}

-- `shm_open`, `mmap` and `sem_open`: whether they succeed.
pub record Os (W : Type 0) : Type 0 where
  pub shm_open : W → W × Bool
  pub mmap : W → W × Bool
  pub sem_open : W → W × Bool

-- The handles afterwards, and whether all went well.
abbrev pub Opening : Type 0 → Type 0
Opening W = W × (Handles × Bool)

module _ {W : Type 0} (os : Os W) where
  -- The semaphores of slot `i` and of the slots after it, `n` being left.
  unfoldable pub open_sems : ℕ → ℕ → Handles → W → Opening W
  open_sems zero i h w = (w, (h, true))
  open_sems (suc n) i h w =
      let a = os.sem_open w in
      let req = record h { sem_req = set h.sem_req i true } in
      let b = os.sem_open a.0 in
      let both = record req { sem_resp = set h.sem_resp i true } in
      elim a.1 [
        | false ↦ (a.0, (h, false))
        | true ↦ elim b.1 [ false ↦ (b.0, (req, false)) | true ↦ open_sems n (i + 1) both b.0 ]
      ]

  -- The lock and the slots' semaphores, once the memory is mapped.
  unfoldable pub open_lock : Handles → W → Opening W
  open_lock h w =
      let a = os.sem_open w in
      elim a.1 [
        | false ↦ (a.0, (h, false))
        | true ↦ open_sems slot_count 0 (record h { sem_shmlock = true }) a.0
      ]

  -- The steps that an opening and a reconnect share. A mapping that fails closes the descriptor.
  unfoldable pub open_ipc : W → Opening W
  open_ipc w =
      let a = os.shm_open w in
      let b = os.mmap a.0 in
      elim a.1 [
        | false ↦ (a.0, (nothing_open, false))
        | true ↦ elim b.1 [
          | false ↦ (b.0, (close_fd (record nothing_open { shm_fd = true }), false))
          | true ↦ open_lock (record nothing_open { shm_fd = true; shm = true }) b.0
        ]
      ]

module _ {W : Type 0} (env : Env W) where
  -- What a new client is: `calloc` cleared it. Where the lock's semaphore could not be opened, what is
  -- mapped is unmapped, and its descriptor closed.
  unfoldable pub give_client : Client W → Opening W → Option (Session W × Result (Unit {0}))
  give_client c (w, (h, true)) =
      some (record { client = record c { world = w }; handles = h }, ok tt)
  give_client c (w, (h, false)) = elim h.sem_shmlock [
    | false ↦ some (
      record { client = record c { world = w }; handles = if h.shm then close_fd (unmap h) else h },
      err Code.client_open,
    )
    | true ↦
        go_on (λ s. some (s, err Code.client_open))
          (bp_client_close env (record { client = record c { world = w }; handles = h }))
  ]

abbrev pub renewed : {W : Type 0} → Client W → Opening W → Session W × Result (Unit {0})
renewed c (w, (h, good)) = (
  record { client = record c { world = w }; handles = h },
  if good then ok tt else err Code.client_open,
)

module _ {W : Type 0} (env : Env W) (os : Os W) where
  -- `c` is the cleared client, whose size is no matter here. A failure before the slots' semaphores
  -- undoes the steps before it, and one at them closes the client.
  unfoldable pub bp_client_open : Client W → Option (Session W × Result (Unit {0}))
  bp_client_open c =
      let a = env.alloc c.world 1 in
      elim a.1 [
        | false ↦ some (
          record { client = record c { world = a.0 }; handles = nothing_open },
          err Code.client_open,
        )
        | true ↦ give_client env c (open_ipc os a.0)
      ]

  -- The handles before are closed, whichever are open.
  unfoldable pub bp_client_reconnect : Session W → Option (Session W × Result (Unit {0}))
  bp_client_reconnect s =
      go_on (λ c. let d = drop_caches c in some (renewed d (open_ipc os d.world)))
        (close_pools env max_slots 0 s.client)
