-- ===== src/State.antt =====
-- The state of a client (c/src/proto.h: `bp_client` and the structs inside it), the parts of the
-- system that the client only calls, and the chaining of the client's fallible operations.
pub mod Code
pub mod Laws
use cmee1y1_clients.Base.{ℕ, Bool, Option, List, Result, ok, err, ℤ, negsuc}
use cmee1y1_clients.Memory.{Buffer}

-- One entry of the connection table (`bp_txrx_conn`).
pub record Conn : Type 0 where
  pub in_use : Bool
  pub app_handle : ℕ
  pub slot : ℕ
  pub conn_serial : ℕ
  pub vendor_id : ℕ
  pub orig_serial : ℕ
  pub ot_conn_id : ℕ
  pub to_conn_id : ℕ
  pub sequence : ℕ

-- A CIP-layer rejection (`bp_cip_status_t`), without its reserved bytes.
pub record CipStatus : Type 0 where
  pub service : ℕ
  pub status : ℕ
  pub ext_status : ℕ
  pub slot : ℕ

-- One symbol of a controller (`bp_symbol_info_t`); the name holds no NUL.
pub record SymbolInfo : Type 0 where
  pub name : List ℕ
  pub data_type : ℕ
  pub struct_type : ℕ
  pub elem_byte_size : ℕ
  pub dim0 : ℕ
  pub dim1 : ℕ
  pub dim2 : ℕ
  pub flags : ℕ

-- The symbol cache of one controller path (`bp_tag_cache`). `symbols` is the allocated array.
pub record TagCache : Type 0 where
  pub in_use : Bool
  pub path : List ℕ
  pub symbols : List SymbolInfo
  pub cap_count : ℕ
  pub known_count : ℕ
  pub total_count : ℕ

-- One connection of a pool (`bp_pool_entry`). Times are seconds.
pub record PoolEntry : Type 0 where
  pub in_use : Bool
  pub app_handle : ℕ
  pub last_used : ℕ
  pub dead : Bool
  pub last_reopen_attempt : ℕ
  pub reopen_backoff_ms : ℕ

-- The pool of one backplane slot (`bp_pool`), without its mutex, condition variable and thread.
pub record Pool : Type 0 where
  pub initialized : Bool
  pub slot : ℕ
  pub size : ℕ
  pub keepalive_ms : ℕ
  pub conn_params : ℕ
  pub entries : List PoolEntry
  pub ka_active : Bool
  pub ka_stop : Bool

-- The shared memory and the semaphores: slot `i` of /bpShmem, the posts pending on /bpReq and
-- /bpResp number `i`.
pub record Ipc : Type 0 where
  pub shm : ℕ → Buffer
  pub sem_req : ℕ → ℕ
  pub sem_resp : ℕ → ℕ

-- `cip_err` is `none` while `cip_err_present` is 0. `world` is what the client does not own.
pub record Client (W : Type 0) : Type 0 where
  pub world : W
  pub ipc : Ipc
  pub pid : ℕ
  pub tid : ℕ
  pub txrx_conns : List Conn
  pub cip_err : Option CipStatus
  pub pools : List Pool
  pub rr_seed : ℕ
  pub tag_caches : List TagCache

-- How a wait for the server ends: `sem_timedwait` returns 0, or it fails and the slot is polled,
-- at once and then as often as the deadline allows. Each value is what memory holds at that time.
pub data Answer : Type 0 where
  signalled : Ipc → Answer
  timed_out : Ipc → List Ipc → Answer

-- The operating system and bpServer, which the client only calls.
pub record Env (W : Type 0) : Type 0 where
  -- `sem_wait(sem_shmlock) == 0`
  pub lock : W → W × Bool
  -- `sem_post(sem_req[slot]) == 0`
  pub post : W → W × Bool
  -- the wait for the reply in a slot, for a time in milliseconds
  pub serve : W → ℕ → ℕ → Ipc → W × Answer
  pub time : W → W × ℕ
  pub rand : W → W × ℕ
  -- `calloc` or `malloc` of so many bytes returns memory
  pub alloc : W → ℕ → W × Bool
  -- `pthread_create(...) == 0`
  pub spawn : W → W × Bool

-- An operation on a client returns it with the state changes that it made, on failure too.
abbrev pub M {ℓ} : Type 0 → Type ℓ → Type ℓ
M W A = Client W → Client W × Result A

abbrev pub continue {ℓ κ} :
    {W : Type 0} {A : Type ℓ} {B : Type κ} → (A → M W B) → Client W × Result A → Client W × Result B
continue f r = elim r.1 [ ok a ↦ f a r.0 | err e ↦ (r.0, err e) ]

infixl 5 ◌>>=◌ ◌>>◌
abbrev pub ◌>>=◌ {ℓ κ} : {W : Type 0} {A : Type ℓ} {B : Type κ} → M W A → (A → M W B) → M W B
◌>>=◌ m f c = continue f (m c)

abbrev pub ◌>>◌ {ℓ} : {W : Type 0} {B : Type ℓ} → M W (Unit {0}) → M W B → M W B
m >> k = m >>= λ _. k

abbrev pub return {ℓ} : {W : Type 0} {A : Type ℓ} → A → M W A
return a c = (c, ok a)

abbrev pub fail {ℓ} : {W : Type 0} {A : Type ℓ} → ℤ → M W A
fail e c = (c, err e)
