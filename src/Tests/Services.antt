-- ===== src/Tests/Services.antt =====
-- Runs of the theorems on the engine's services, on structures and on a client's lifecycle.
use cmee1y1_clients.Base.{
  ℕ, ◌≤◌, ◌<◌, ◌+◌, ◌%◌, ◌^◌, ◌≡◌, ◌⊎◌, refl, true, some, List, [], ◌∷◌, arith, Result,
}
use cmee1y1_clients.Memory.{Buffer, slice, bp_ld_u16, memcpy, bp_st_u16, bp_st_u32}
use cmee1y1_clients.Services.Clock.{WcTime, wc_set_fill, wc_get_read}
use cmee1y1_clients.Services.Clock.Echo.{IsTime, wc_set_fill-read}
use cmee1y1_clients.State.{Client, Env, signalled}
use cmee1y1_clients.Message.{Reply, bp_client_message_send}
use cmee1y1_clients.Call
use cmee1y1_clients.Call.{set_slot}
use cmee1y1_clients.Memory
use cmee1y1_clients.Message
use cmee1y1_clients.Structs
use cmee1y1_clients.Structs.{read_request, struct_message, struct_capacity}
use cmee1y1_clients.Session.{Session, all_open}
use cmee1y1_clients.Session.Start.{Os, bp_client_open, open_ipc, bp_client_reconnect}
use cmee1y1_clients.Session.Handled.{Opened, client_open-Opened}
use cmee1y1_clients.Session.Renewal.{Renewed, reconnect-Renewed}
use cmee1y1_clients.Tests.{server, client}
use cmee1y1_clients.Tests.Pools.{unpooled-Distinct, pooled}

abbrev path : List ℕ
path = 80 ∷ 58 ∷ 49 ∷ []

abbrev noise : Buffer
noise i = 9

abbrev instant : WcTime
instant = record { sec = 1700000000; nsec = 5; aux0 = 0; aux1 = 0; aux2 = 0; aux3 = 2 ^ 63 }

instant-IsTime : IsTime instant
instant-IsTime = record {
  sec = omega arith;
  nsec = omega arith;
  aux0 = omega arith;
  aux1 = omega arith;
  aux2 = omega arith;
  aux3 = omega arith;
}

wc_set_fill-read_example :
    let q = wc_set_fill path 1 (some instant) noise in
    (wc_get_read q ≡ instant)
    × (slice q 0x78 3 ≡ path)
    × (q (0x78 + 3) ≡ 0)
    × (bp_ld_u16 q 0x178 ≡ 1 % 2 ^ 16)
    × (q 0x17A ≡ 1)
    × ((i : ℕ) → (i < 0x78) ⊎ (0x1B0 ≤ i) → q i ≡ noise i)
wc_set_fill-read_example = wc_set_fill-read path 1 instant noise (omega arith) instant-IsTime

abbrev struct_reply : List ℕ
struct_reply = 0xCC ∷ 0 ∷ 0 ∷ 0 ∷ 0xA0 ∷ 2 ∷ 0x34 ∷ 0x12 ∷ 1 ∷ 2 ∷ 3 ∷ []

-- A server whose replies are a read structure.
abbrev struct_server : Env (Unit {0})
struct_server = record server {
  serve = λ w i timeout ipc. (
    w,
    signalled (
        set_slot ipc i
          (memcpy (bp_st_u16 (bp_st_u32 (ipc.shm i) 0x50 0) 0x3207a 11) 0x1907a struct_reply)),
  );
}

abbrev struct_tag : List ℕ
struct_tag = 65 ∷ []

abbrev sent_struct : Client (Unit {0}) × Result Reply
sent_struct =
    bp_client_message_send struct_server
      (struct_message 3 (read_request struct_tag) (struct_capacity 16)) client

abbrev os : Os (Unit {0})
os = record { shm_open = λ w. (w, true); mmap = λ w. (w, true); sem_open = λ w. (w, true) }

client_open-Opened_example :
    Opened server client.ipc (open_ipc os tt) (bp_client_open server os client)
client_open-Opened_example = client_open-Opened server os client (λ s. refl)

abbrev session : Session (Unit {0})
session = record { client = pooled; handles = all_open }

reconnect-Renewed_example : Renewed pooled (bp_client_reconnect server os session)
reconnect-Renewed_example = reconnect-Renewed server os session unpooled-Distinct
