-- ===== src/Pool/Keepalive/Frame.antt =====
-- Opening a connection and sending on one (c/src/conn.c) leave the pools alone.
use cmee1y1_clients.Base.{
  ℕ, ◌≡◌, refl, ◌∙◌, Bool, true, false, Option, none, some, List, set, if◌then◌else◌, Bool-cases,
  inl, inr, Result, ok, err, is_none, not, ◌||◌, ◌==◌, ◌+◌, ◌%◌, ◌^◌,
}
use cmee1y1_clients.State.{Conn, Client, Env, M, ◌>>=◌, continue}
use cmee1y1_clients.Message.{Message, Reply, bp_client_message_send}
use cmee1y1_clients.Cip.{bp_record_cip_error}
use cmee1y1_clients.Conn.{
  ConnSpec, entry, refuse, abandon, insert_at, insert, finish_open, send_open, open_on, open_path,
  rand_conn_serial, rand_orig_serial, msg_on, bp_client_txrx_open, bp_client_txrx_msg,
  bp_txrx_force_close_local, force_close_at, short_message, lift, new_conn, extract_slot,
}
use cmee1y1_clients.Conn.Wire.{lfo_refused, build_lfo, ot_size_of}
use cmee1y1_clients.Conn.Table.{find_conn, alloc_conn}
use cmee1y1_clients.Conn.Frame.{message_send-Keeps}

abbrev pub KeepsPools {ℓ} : {W : Type 0} {A : Type ℓ} → M W A → Type 0
KeepsPools {W} m = (c : Client W) → (m c).0.pools ≡ c.pools

bind-KeepsPools {ℓ κ} :
    {W : Type 0} {A : Type ℓ} {B : Type κ} (m : M W A) (f : A → M W B)
    → KeepsPools m
    → ((a : A) → KeepsPools (f a))
    → KeepsPools (m >>= f)
bind-KeepsPools {W} {A} m f k l c = after (m c) (k c)
  where
    after : (r : Client W × Result A) → r.0.pools ≡ c.pools → (continue f r).0.pools ≡ c.pools
    after (d, ok a) e = l a d ∙ e
    after (d, err x) e = e

if-KeepsPools {ℓ} :
    {W : Type 0} {A : Type ℓ} (b : Bool) (m n : M W A)
    → KeepsPools m
    → KeepsPools n
    → KeepsPools (if b then m else n)
if-KeepsPools true m n k l = k
if-KeepsPools false m n k l = l

module _ {W : Type 0} (env : Env W) where
  abandon-pools : (slot a b : ℕ) (c : Client W) → (abandon env slot a b c).pools ≡ c.pools
  unfolding abandon
  abandon-pools slot a b c = (message_send-Keeps env _ c).pools

  insert_at-KeepsPools : (e : Conn) (o f : Option ℕ) → KeepsPools (insert_at env e o f)
  unfolding insert_at
  insert_at-KeepsPools e (some existing) f c = abandon-pools _ _ _ c
  insert_at-KeepsPools e none none c = abandon-pools _ _ _ c
  insert_at-KeepsPools e none (some i) c = refl

  finish_open-KeepsPools :
      (spec : ConnSpec) (slot a b : ℕ) (r : Reply) → KeepsPools (finish_open env spec slot a b r)
  unfolding finish_open refuse insert bp_record_cip_error new_conn
  finish_open-KeepsPools spec slot a b r =
      if-KeepsPools (lfo_refused r) (refuse env slot r)
        (insert env (new_conn env spec.app_handle slot a b r)) (λ c. refl)
        (λ c.
          insert_at-KeepsPools (new_conn env spec.app_handle slot a b r)
            (find_conn spec.app_handle c.txrx_conns) (alloc_conn c.txrx_conns) c)

  send_open-KeepsPools : (spec : ConnSpec) (slot a b : ℕ) → KeepsPools (send_open env spec slot a b)
  unfolding send_open
  send_open-KeepsPools spec slot a b =
      let m = short_message slot (build_lfo a b (ot_size_of spec.conn_params)) in
      bind-KeepsPools (bp_client_message_send env m) (finish_open env spec slot a b)
        (λ c. (message_send-Keeps env m c).pools) (finish_open-KeepsPools spec slot a b)

  open_on-KeepsPools : (spec : ConnSpec) (slot : ℕ) → KeepsPools (open_on env spec slot)
  unfolding open_on rand_conn_serial rand_orig_serial
  open_on-KeepsPools spec slot =
      bind-KeepsPools (rand_conn_serial env)
        (λ a. rand_orig_serial env >>= (λ b. send_open env spec slot a b)) (λ c. refl)
        (λ a.
          bind-KeepsPools (rand_orig_serial env) (send_open env spec slot a) (λ c. refl)
            (send_open-KeepsPools spec slot a))

  pub txrx_open-KeepsPools : (spec : ConnSpec) → KeepsPools (bp_client_txrx_open env (some spec))
  unfolding bp_client_txrx_open open_path
  txrx_open-KeepsPools spec = from_path spec.encoded_path
    where
      from_path : (o : Option (List ℕ)) → KeepsPools (open_path env spec o)
      from_path none = λ c. refl
      from_path (some path) =
          bind-KeepsPools (lift env (extract_slot path spec.path_size)) (open_on env spec)
            (λ c. refl) (open_on-KeepsPools spec)

  pub txrx_msg-KeepsPools :
      (spec : ConnSpec) (m : Message) → KeepsPools (bp_client_txrx_msg env (some spec) m)
  unfolding bp_client_txrx_msg msg_on
  txrx_msg-KeepsPools spec m c =
      let bad =
        is_none m.cip_request || m.req_size == 0 || not m.resp_data || m.resp_capacity == 0 in
      elim (Bool-cases bad) [
        | inl refused ↦ rw (refused, bp_client_txrx_msg) refl
        | inr fine ↦ rw (fine, bp_client_txrx_msg) (on (find_conn spec.app_handle c.txrx_conns))
      ]
    where
      on : (o : Option ℕ) → (msg_on env (record m { timeout_ms = 5000 }) o c).0.pools ≡ c.pools
      on none = refl
      on (some i) =
          let e = entry c.txrx_conns i in
          let counted = record e { sequence = (e.sequence + 1) % 2 ^ 16 } in
          (message_send-Keeps env (record m { timeout_ms = 5000; slot = e.slot })
            (record c { txrx_conns = set c.txrx_conns i counted })).pools

  pub force_close-pools :
      (h : ℕ) (c : Client W) → (bp_txrx_force_close_local env h c).0.pools ≡ c.pools
  unfolding bp_txrx_force_close_local force_close_at
  force_close-pools h c = at (find_conn h c.txrx_conns)
    where
      at : (o : Option ℕ) → (force_close_at env o c).0.pools ≡ c.pools
      at none = refl
      at (some i) = refl
