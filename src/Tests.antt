-- ===== src/Tests.antt =====
-- A server that answers every request, a client of it, and runs of the theorems on them.
pub mod Calls
pub mod Conns
pub mod Routes
pub mod Pools
pub mod Tags
pub mod Walks
pub mod Batches
pub mod Services
use cmee1y1_clients.Base.{
  ℕ, ◌+◌, ◌≡◌, refl, Bool, true, false, Option, none, some, List, [], ◌∷◌, replicate, ◌==◌, ◌&&◌,
  if◌then◌else◌,
}
use cmee1y1_clients.Memory.{Buffer, bp_st_u16, bp_st_u32, memcpy, ld_u64, bp_ld_u32}
use cmee1y1_clients.State.{Ipc, Client, Env, Conn, Answer, signalled}
use cmee1y1_clients.Call.{CallSpec, set_slot, scan, slot_count}
use cmee1y1_clients.Call.Slots.{Locks}
use cmee1y1_clients.Message.{Message, Reply}

-- A successful Forward Open reply with the connection ids 0x11 and 0x22.
abbrev pub lfo_reply : List ℕ
lfo_reply = 0xDB ∷ 0 ∷ 0 ∷ 0 ∷ 0x11 ∷ 0 ∷ 0 ∷ 0 ∷ 0x22 ∷ 0 ∷ 0 ∷ 0 ∷ 1 ∷ 0 ∷ 1 ∷ 0 ∷ []

abbrev pub serving : Ipc → ℕ → Ipc
serving ipc i =
    set_slot ipc i (memcpy (bp_st_u16 (bp_st_u32 (ipc.shm i) 0x50 0) 0x3207a 16) 0x1907a lfo_reply)

abbrev pub server : Env (Unit {0})
server = record {
  lock = λ w. (w, true);
  post = λ w. (w, true);
  serve = λ w i timeout ipc. (w, signalled (serving ipc i));
  time = λ w. (w, 1000);
  rand = λ w. (w, 5);
  alloc = λ w n. (w, true);
  spawn = λ w. (w, true);
}

abbrev pub blank_conn : Conn
blank_conn = record {
  in_use = false;
  app_handle = 0;
  slot = 0;
  conn_serial = 0;
  vendor_id = 0;
  orig_serial = 0;
  ot_conn_id = 0;
  to_conn_id = 0;
  sequence = 0;
}

-- Slot 0 of the shared memory belongs to someone else.
abbrev pub memory : Ipc
memory = record {
  shm = λ i o. if i == 0 && o == 0x58 then 5 else 0;
  sem_req = λ i. 2;
  sem_resp = λ i. 1;
}

abbrev pub client : Client (Unit {0})
client = record {
  world = tt;
  ipc = memory;
  pid = 77;
  tid = 78;
  txrx_conns = replicate 2 blank_conn;
  cip_err = none;
  pools = [];
  rr_seed = 0;
  tag_caches = [];
}

-- All slots belong to someone else.
abbrev pub busy_client : Client (Unit {0})
busy_client = record client { ipc = record memory { shm = λ i o. 5 } }

abbrev pub message : Message
message = record {
  slot = 3;
  cip_request = some (0x0E ∷ 0x03 ∷ []);
  req_size = 2;
  timeout_ms = 5000;
  resp_data = true;
  resp_capacity = 64;
}

-- The name has 5 bytes.
abbrev pub spec : CallSpec ℕ
spec = record {
  fn_name = 72 ∷ 101 ∷ 108 ∷ 108 ∷ 111 ∷ [];
  payload_size = 16;
  fill_payload = λ p. p;
  read_reply = λ p. p 0x1907a;
  timeout_ms = 0;
}

pub server-Locks : Locks server
server-Locks w = refl

pub client_slot : scan slot_count 0 client.ipc ≡ some 1
unfolding scan ld_u64 bp_ld_u32
client_slot = refl
