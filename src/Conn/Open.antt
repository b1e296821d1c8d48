-- ===== src/Conn/Open.antt =====
-- What opening a connection does to the table.
use cmee1y1_clients.Base.{
  ℕ, ◌%◌, ◌^◌, ◌≡◌, ◌≢◌, refl, Bool, true, false, Option, none, some, List, Result, ok, err, length,
  length-set, if◌then◌else◌, arith, subst,
}
use cmee1y1_clients.State.{Conn, Client, Env, M, continue, ◌>>=◌}
use cmee1y1_clients.Message.{bp_client_message_send, Reply}
use cmee1y1_clients.Cip.{bp_record_cip_error}
use cmee1y1_clients.Conn.Wire.{lfo_refused, build_lfo, ot_size_of}
use cmee1y1_clients.Conn.Table.{
  find_conn, alloc_conn, lookup, Distinct, find_conn-none, lookup-set_alloc, Distinct-set_alloc,
}
use cmee1y1_clients.Conn.Frame.{message_send-Keeps}
use cmee1y1_clients.Conn.{
  ConnSpec, ConnIds, extract_slot, short_message, rand_conn_serial, rand_orig_serial, new_conn,
  abandon, insert_at, insert, refuse, finish_open, send_open, open_on, open_path,
  bp_client_txrx_open, lift,
}

-- The table before and after an attempt to open a connection under handle `h`: on failure it is the
-- same. On success `h` was not in use, and now has an entry with what was reported; every other
-- handle has the entry that it had, and the table keeps its size and its distinctness.
abbrev pub Opened : ℕ → List Conn → List Conn → Result ConnIds → Type 0
Opened h before after (err e) = after ≡ before
Opened h before after (ok ids) =
    (lookup h before ≡ none)
    × ((e : Conn) × (lookup h after ≡ some e)
        × (e.conn_serial ≡ ids.conn_serial)
        × (e.ot_conn_id % 2 ^ 16 ≡ ids.conn_id))
    × ((k : ℕ) → k ≢ h → lookup k after ≡ lookup k before)
    × (length after ≡ length before)
    × (Distinct before → Distinct after)

module _ {W : Type 0} (h : ℕ) where
  abbrev Opens : M W ConnIds → Type 0
  Opens m = (c : Client W) → Opened h c.txrx_conns (m c).0.txrx_conns (m c).1

  continue-Opens {ℓ} :
      {A : Type ℓ} (f : A → M W ConnIds) (before : List Conn) (r : Client W × Result A)
      → ((a : A) → Opens (f a))
      → r.0.txrx_conns ≡ before
      → Opened h before (continue f r).0.txrx_conns (continue f r).1
  continue-Opens f before (d, ok a) o s =
      subst (λ t. Opened h t (f a d).0.txrx_conns (f a d).1) s (o a d)
  continue-Opens f before (d, err e) o s = s

  bind-Opens {ℓ} :
      {A : Type ℓ} (m : M W A) (f : A → M W ConnIds)
      → ((c : Client W) → (m c).0.txrx_conns ≡ c.txrx_conns)
      → ((a : A) → Opens (f a))
      → Opens (m >>= f)
  bind-Opens m f k o c = continue-Opens f c.txrx_conns (m c) o (k c)

  if-Opens : (b : Bool) (m n : M W ConnIds) → Opens m → Opens n → Opens (if b then m else n)
  if-Opens true m n k l = k
  if-Opens false m n k l = l

module _ {W : Type 0} (env : Env W) where
  insert_at-Opens :
      (e : Conn) (found free : Option ℕ) (c : Client W)
      → e.in_use ≡ true
      → find_conn e.app_handle c.txrx_conns ≡ found
      → alloc_conn c.txrx_conns ≡ free
      → let r = insert_at env e found free c in Opened e.app_handle c.txrx_conns r.0.txrx_conns r.1
  unfolding insert_at abandon
  insert_at-Opens e (some i) free c u f a = (message_send-Keeps env _ c).txrx_conns
  insert_at-Opens e none none c u f a = (message_send-Keeps env _ c).txrx_conns
  insert_at-Opens e none (some i) c u f a =
      let fresh = find_conn-none e.app_handle c.txrx_conns f in
      let added = λ (k : ℕ). lookup-set_alloc c.txrx_conns i e k a u fresh in
      (
        fresh,
        (e, ground (arith, added e.app_handle), refl, refl),
        λ k d. ground (arith, added k, d),
        length-set c.txrx_conns i e,
        Distinct-set_alloc c.txrx_conns i e a u fresh,
      )

  insert-Opens : (e : Conn) → e.in_use ≡ true → Opens {W = W} e.app_handle (insert env e)
  unfolding insert
  insert-Opens e u c = insert_at-Opens e _ _ c u refl refl

  refuse-Opens : (h slot : ℕ) (reply : Reply) → Opens {W = W} h (refuse env slot reply)
  unfolding refuse bp_record_cip_error
  refuse-Opens h slot reply c = refl

  finish_open-Opens :
      (spec : ConnSpec) (slot s o : ℕ) (reply : Reply)
      → Opens spec.app_handle (finish_open env spec slot s o reply)
  unfolding finish_open new_conn
  finish_open-Opens spec slot s o reply =
      if-Opens spec.app_handle (lfo_refused reply) (refuse env slot reply)
        (insert env (new_conn env spec.app_handle slot s o reply))
        (refuse-Opens spec.app_handle slot reply)
        (insert-Opens (new_conn env spec.app_handle slot s o reply) refl)

  send_open-Opens :
      (spec : ConnSpec) (slot s o : ℕ) → Opens spec.app_handle (send_open env spec slot s o)
  unfolding send_open
  send_open-Opens spec slot s o =
      let m = short_message slot (build_lfo s o (ot_size_of spec.conn_params)) in
      bind-Opens spec.app_handle (bp_client_message_send env m) (finish_open env spec slot s o)
        (λ c. (message_send-Keeps env m c).txrx_conns) (finish_open-Opens spec slot s o)

  open_on-Opens : (spec : ConnSpec) (slot : ℕ) → Opens spec.app_handle (open_on env spec slot)
  unfolding open_on rand_conn_serial rand_orig_serial
  open_on-Opens spec slot =
      bind-Opens spec.app_handle (rand_conn_serial env)
        (λ s. rand_orig_serial env >>= send_open env spec slot s) (λ c. refl)
        λ s.
          bind-Opens spec.app_handle (rand_orig_serial env) (send_open env spec slot s) (λ c. refl)
            (send_open-Opens spec slot s)

  open_path-Opens :
      (spec : ConnSpec) (path : Option (List ℕ)) → Opens spec.app_handle (open_path env spec path)
  unfolding open_path
  open_path-Opens spec none = λ c. refl
  open_path-Opens spec (some path) =
      bind-Opens spec.app_handle (lift env (extract_slot path spec.path_size)) (open_on env spec)
        (λ c. refl) (open_on-Opens spec)

  -- `bp_client_txrx_open` is a transaction on the connection table: a failure on any path (bad
  -- route, no reply, a refusal, a handle in use, a full table) leaves it as it was, and a success
  -- adds exactly the connection of the caller's handle, with the ids that are returned.
  pub txrx_open-Opened :
      (spec : ConnSpec) (c : Client W)
      → let r = bp_client_txrx_open env (some spec) c in
        Opened spec.app_handle c.txrx_conns r.0.txrx_conns r.1
  unfolding bp_client_txrx_open
  txrx_open-Opened spec c = open_path-Opens spec spec.encoded_path c
