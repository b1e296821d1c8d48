-- ===== src/Conn.antt =====
-- c/src/conn.c: class-3 connections. The table of the client holds what Forward Open negotiated,
-- under the handle that the caller chose.
pub mod Wire
pub mod Table
pub mod Frame
pub mod Open
pub mod Use
pub mod Messages
use cmee1y1_clients.Base.{
  ℕ, suc, ◌+◌, ◌*◌, ◌%◌, ◌^◌, Bool, true, false, not, ◌||◌, Option, none, some, List, [], ◌∷◌,
  get_elem?, get_or, set, ltb, ◌==◌, if◌then◌else◌, ℤ, Result, ok, err, length, is_none,
}
use Prim.Native.Nat.{bit_xor}
use cmee1y1_clients.Memory.{of_bytes, bp_ld_u32}
use cmee1y1_clients.State.{Conn, CipStatus, Client, Env, M, ◌>>=◌, ◌>>◌, return, fail}
use cmee1y1_clients.State.Code
use cmee1y1_clients.Message.{Message, Reply, max_slot, bp_client_message_send}
use cmee1y1_clients.Cip.{bp_record_cip_error}
use Wire.{build_lfo, build_fc, ot_size_of, lfo_vendor_id, lfo_refused, fc_refused, refusal}
use Table.{find_conn, alloc_conn}

-- A `bp_conn_spec_t`. `encoded_path` is what the pointer points at.
pub record ConnSpec : Type 0 where
  pub app_handle : ℕ
  pub options : ℕ
  pub encoded_path : Option (List ℕ)
  pub path_size : ℕ
  pub conn_params : ℕ

-- What `bp_client_txrx_open` stores through its out pointers.
pub record ConnIds : Type 0 where
  pub conn_id : ℕ
  pub conn_serial : ℕ

-- The backplane-direct route `{0x01, slot}` is the only one.
unfoldable pub extract_slot : List ℕ → ℕ → Result ℕ
extract_slot path path_size =
    if not (path_size == 2) || not (get_or path 0 0 == 0x01)
    then err Code.param_range
    else if ltb max_slot (get_or path 1 0)
    then err Code.slot_too_large
    else ok (get_or path 1 0)

-- A message with a 5 s timeout and room for 64 bytes of reply.
abbrev pub short_message : ℕ → List ℕ → Message
short_message slot request = record {
  slot = slot;
  cip_request = some request;
  req_size = length request;
  timeout_ms = 5000;
  resp_data = true;
  resp_capacity = 64;
}

-- The entry at an index that `find_conn` gave.
abbrev pub entry : List Conn → ℕ → Conn
entry es i = get_or es i (record {
  in_use = false;
  app_handle = 0;
  slot = 0;
  conn_serial = 0;
  vendor_id = 0;
  orig_serial = 0;
  ot_conn_id = 0;
  to_conn_id = 0;
  sequence = 0;
})

abbrev pub freed : Conn → Conn
freed e = record e { in_use = false }

module _ {W : Type 0} (env : Env W) where
  abbrev pub lift {ℓ} : {A : Type ℓ} → Result A → M W A
  lift r c = (c, r)

  -- `rand()` is the environment's; its seeding is not modelled.
  unfoldable pub rand_conn_serial : M W ℕ
  rand_conn_serial c =
      let r = env.rand c.world in
      let v = r.1 % 2 ^ 16 in (record c { world = r.0 }, ok (if v == 0 then 0xBEEF else v))

  unfoldable pub rand_orig_serial : M W ℕ
  rand_orig_serial c =
      let t = env.time c.world in
      (record c { world = t.0 }, ok (bit_xor c.pid (t.1 * 2 ^ 16 % 2 ^ 32)))

  -- A best-effort Forward_Close of a connection that is not kept.
  unfoldable pub abandon : ℕ → ℕ → ℕ → Client W → Client W
  abandon slot conn_serial orig_serial c =
      (bp_client_message_send env
        (short_message slot (build_fc conn_serial lfo_vendor_id orig_serial)) c).0

  unfoldable pub new_conn : ℕ → ℕ → ℕ → ℕ → Reply → Conn
  new_conn h slot conn_serial orig_serial reply = record {
    in_use = true;
    app_handle = h;
    slot = slot;
    conn_serial = conn_serial;
    vendor_id = lfo_vendor_id;
    orig_serial = orig_serial;
    ot_conn_id = bp_ld_u32 (of_bytes reply.resp) 4;
    to_conn_id = bp_ld_u32 (of_bytes reply.resp) 8;
    sequence = 0;
  }

  -- The new connection goes to the free entry, unless its handle is taken or there is no entry.
  unfoldable pub insert_at : Conn → Option ℕ → Option ℕ → M W ConnIds
  insert_at e (some existing) free c =
      (abandon e.slot e.conn_serial e.orig_serial c, err Code.generic)
  insert_at e none none c = (abandon e.slot e.conn_serial e.orig_serial c, err Code.no_free_slot)
  insert_at e none (some i) c = (
    record c { txrx_conns = set c.txrx_conns i e },
    ok (record { conn_id = e.ot_conn_id % 2 ^ 16; conn_serial = e.conn_serial }),
  )

  unfoldable pub insert : Conn → M W ConnIds
  insert e c = insert_at e (find_conn e.app_handle c.txrx_conns) (alloc_conn c.txrx_conns) c

  -- A reply that is no success is recorded.
  unfoldable pub refuse {ℓ} : {A : Type ℓ} → ℕ → Reply → M W A
  refuse slot reply c = (bp_record_cip_error (refusal slot reply) c, err Code.cip_status)

  unfoldable pub finish_open : ConnSpec → ℕ → ℕ → ℕ → Reply → M W ConnIds
  finish_open spec slot conn_serial orig_serial reply =
      if lfo_refused reply
      then refuse slot reply
      else insert (new_conn spec.app_handle slot conn_serial orig_serial reply)

  unfoldable pub send_open : ConnSpec → ℕ → ℕ → ℕ → M W ConnIds
  send_open spec slot conn_serial orig_serial = do
    reply ←
        bp_client_message_send env
          (short_message slot (build_lfo conn_serial orig_serial (ot_size_of spec.conn_params)))
    finish_open spec slot conn_serial orig_serial reply

  unfoldable pub open_on : ConnSpec → ℕ → M W ConnIds
  open_on spec slot = do
    conn_serial ← rand_conn_serial
    orig_serial ← rand_orig_serial
    send_open spec slot conn_serial orig_serial

  unfoldable pub open_path : ConnSpec → Option (List ℕ) → M W ConnIds
  open_path spec none = fail Code.null_arg
  open_path spec (some path) = do slot ← lift (extract_slot path spec.path_size); open_on spec slot

  -- `none` is a NULL spec.
  unfoldable pub bp_client_txrx_open : Option ConnSpec → M W ConnIds
  bp_client_txrx_open none = fail Code.null_arg
  bp_client_txrx_open (some spec) = open_path spec spec.encoded_path

  unfoldable pub msg_on : Message → Option ℕ → M W Reply
  msg_on m none c = (c, err Code.not_open)
  msg_on m (some i) c =
      let e = entry c.txrx_conns i in
      let counted = record e { sequence = (e.sequence + 1) % 2 ^ 16 } in
      bp_client_message_send env (record m { slot = e.slot })
        (record c { txrx_conns = set c.txrx_conns i counted })

  -- The message's slot is filled in from the table. Its timeout is 5 s.
  unfoldable pub bp_client_txrx_msg : Option ConnSpec → Message → M W Reply
  bp_client_txrx_msg none m c = (c, err Code.null_arg)
  bp_client_txrx_msg (some spec) m c =
      if is_none m.cip_request || m.req_size == 0 || not m.resp_data || m.resp_capacity == 0
      then (c, err Code.null_arg)
      else msg_on (record m { timeout_ms = 5000 }) (find_conn spec.app_handle c.txrx_conns) c

  unfoldable pub force_close_at : Option ℕ → M W (Unit {0})
  force_close_at none c = (c, err Code.not_open)
  force_close_at (some i) c =
      (record c { txrx_conns = set c.txrx_conns i (freed (entry c.txrx_conns i)) }, ok tt)

  unfoldable pub bp_txrx_force_close_local : ℕ → M W (Unit {0})
  bp_txrx_force_close_local h c = force_close_at (find_conn h c.txrx_conns) c

  -- Forward_Close for an entry that has left the table.
  unfoldable pub finish_close : ℕ → Reply → M W (Unit {0})
  finish_close slot reply = if fc_refused reply then refuse slot reply else return tt

  unfoldable pub close_conn : Conn → M W (Unit {0})
  close_conn e = do
    reply ←
        bp_client_message_send env
          (short_message e.slot (build_fc e.conn_serial e.vendor_id e.orig_serial))
    finish_close e.slot reply

  unfoldable pub close_at : Option ℕ → M W (Unit {0})
  close_at none c = (c, err Code.not_open)
  close_at (some i) c =
      let e = entry c.txrx_conns i in
      close_conn e (record c { txrx_conns = set c.txrx_conns i (freed e) })

  unfoldable pub bp_client_txrx_close : Option ConnSpec → M W (Unit {0})
  bp_client_txrx_close none c = (c, err Code.null_arg)
  bp_client_txrx_close (some spec) c = close_at (find_conn spec.app_handle c.txrx_conns) c
