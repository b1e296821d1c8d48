-- ===== src/Pool/Lifecycle/Transaction.antt =====
-- What opening a pool leaves (c/src/pool.c): the pool with its entries, and their connections.
use mathlib.Core.Path.{subst⁻¹}
use cmee1y1_clients.Base.{
  ℕ, ◌<◌, ◌≤◌, ◌≡◌, ◌≢◌, refl, ap, sym, ◌∙◌, ◌⊎◌, inl, inr, true, false, ◌||◌, none, some, List,
  length, get_or, set, drop, replicate, ltb, ◌==◌, ℤ, Result, ok, err, is_none, arith, Bool-cases,
  get_or-set_self, get_or-set_ne,
}
use cmee1y1_clients.State.{Pool, PoolEntry, Client, Env}
use cmee1y1_clients.Message.{max_slot}
use cmee1y1_clients.Conn.Table.{lookup, Distinct}
use cmee1y1_clients.Pool.{blank_entry, entry, pool_app_handle, max_size, max_slots, zeroed}
use cmee1y1_clients.Pool.Acquire.{pool_app_handle-injective}
use cmee1y1_clients.Pool.Closing.Closed.{close_entries-pools}
use cmee1y1_clients.Pool.Lifecycle.{
  PoolSpec, open_entries, settle, start_keepalive, filled_pool, pool_at, open_all,
  bp_client_pool_open,
}
use cmee1y1_clients.Pool.Lifecycle.Opening.{
  owns, Added, open_entries-Added, settle-PoolOpened, start_keepalive-conns,
}
use cmee1y1_clients.Pool.Lifecycle.Filled.{
  opened_entry, Numbered, Stored, owns-at, owns-none, get_or-append, open_entries-Numbered,
  open_entries-pools, start_keepalive-Stored,
}

module _ {W : Type 0} (env : Env W) where
  -- What opening a pool does. On failure every handle has the connection, or none, that it had, and the
  -- pools are as they were, or the slot's is cleared. On success the slot's pool is open, of the size
  -- that was asked for; each of its entries is free and alive and has its own handle, which had no
  -- connection and has one; and every other handle has what it had, and every other slot its pool.
  abbrev pub Pooled : PoolSpec → Client W → Client W × Result (Unit {0}) → Type 0
  Pooled spec c (d, err rc) =
      ((k : ℕ) → lookup k d.txrx_conns ≡ lookup k c.txrx_conns)
      × ((d.pools ≡ c.pools) ⊎ (d.pools ≡ set c.pools spec.slot zeroed))
  Pooled spec c (d, ok u) =
      let p = pool_at d spec.slot in
      ((p.initialized ≡ true) × (p.size ≡ spec.size))
      × ((i : ℕ)
          → i < spec.size
          → ((entry p i).app_handle ≡ pool_app_handle spec.slot i)
            × ((entry p i).in_use ≡ false)
            × ((entry p i).dead ≡ false)
            × (lookup (pool_app_handle spec.slot i) c.txrx_conns ≡ none)
            × (is_none (lookup (pool_app_handle spec.slot i) d.txrx_conns) ≡ false))
      × ((i j : ℕ)
          → i < spec.size
          → j < spec.size
          → pool_app_handle spec.slot i ≡ pool_app_handle spec.slot j
          → i ≡ j)
      × ((k : ℕ)
          → ((i : ℕ) → i < spec.size → pool_app_handle spec.slot i ≢ k)
          → lookup k d.txrx_conns ≡ lookup k c.txrx_conns)
      × ((k : ℕ) → spec.slot ≢ k → pool_at d k ≡ pool_at c k)

  -- The arguments of an opening that passed its guards.
  abbrev IsFitting : PoolSpec → Client W → Type 0
  IsFitting spec c = (spec.slot < max_slots) × (spec.size ≤ max_size) × (spec.slot < length c.pools)

  all_opened-Pooled :
      (spec : PoolSpec) (now : ℕ) (c b d : Client W) (es : List PoolEntry)
      → IsFitting spec c
      → b.pools ≡ c.pools
      → length es ≡ spec.size
      → Numbered spec now 0 es
      → Added env es c.txrx_conns d.txrx_conns
      → Stored env spec es b d
      → Pooled spec c (d, ok tt)
  all_opened-Pooled spec now c b d es (slot, size, low) kept long numbered added
        (q, stored, on, many, entries) =
      let pools : d.pools ≡ set c.pools spec.slot q =
        stored ∙ ap (λ (ps : List Pool). set ps spec.slot q) kept in
      let here : pool_at d spec.slot ≡ q =
        ap (λ (ps : List Pool). get_or ps spec.slot zeroed) pools
        ∙ get_or-set_self c.pools spec.slot q zeroed low in
      let each : (i : ℕ) → i < spec.size → entry (pool_at d spec.slot) i ≡ opened_entry spec now i =
        λ i h.
          ap (λ (p : Pool). entry p i) here
          ∙ ap (λ (xs : List PoolEntry). get_or xs i blank_entry) entries
          ∙ get_or-append es (drop (length es) (replicate max_size blank_entry)) i
              (omega (arith, h, long))
          ∙ numbered i (omega (arith, h, long))
          ∙ ap (opened_entry spec now) (omega arith) in
      let handle : (i : ℕ)
          → i < spec.size
          → (get_or es i blank_entry).app_handle ≡ pool_app_handle spec.slot i =
        λ i h.
          ap (λ (e : PoolEntry). e.app_handle)
            (numbered i (omega (arith, h, long)) ∙ ap (opened_entry spec now) (omega arith)) in
      let owned : (i : ℕ) → i < spec.size → owns es (pool_app_handle spec.slot i) ≡ true =
        λ i h. ap (owns es) (sym (handle i h)) ∙ owns-at es i (omega (arith, h, long)) in
      (
        (ap (λ (p : Pool). p.initialized) here ∙ on, ap (λ (p : Pool). p.size) here ∙ many),
        λ i h. (
          ap (λ (e : PoolEntry). e.app_handle) (each i h),
          ap (λ (e : PoolEntry). e.in_use) (each i h),
          ap (λ (e : PoolEntry). e.dead) (each i h),
          added.fresh (pool_app_handle spec.slot i) (owned i h),
          added.there (pool_app_handle spec.slot i) (owned i h),
        ),
        λ i j h k e.
            ((pool_app_handle-injective spec.slot spec.slot i j slot slot (omega (arith, h, size))
                (omega (arith, k, size))).1
              e).1,
        λ k other. added.others k (
            owns-none es k (λ j h e.
              other j (omega (arith, h, long)) (sym (handle j (omega (arith, h, long))) ∙ e))),
        λ k differs.
            ap (λ (ps : List Pool). get_or ps k zeroed) pools
            ∙ get_or-set_ne c.pools spec.slot k q zeroed differs,
      )

  settle-Pooled :
      (spec : PoolSpec) (now : ℕ) (c : Client W) (r : Client W × (List PoolEntry × ℤ))
      → IsFitting spec c
      → r.0.pools ≡ c.pools
      → Numbered spec now 0 r.1.0
      → Added env r.1.0 c.txrx_conns r.0.txrx_conns
      → Pooled spec c (settle env spec r)
  unfolding settle start_keepalive
  settle-Pooled spec now c (b, (es, rc)) fitting kept numbered added =
      let opened = settle-PoolOpened env spec c.txrx_conns (b, (es, rc)) added in
      elim (Bool-cases (length es == spec.size)) [
        | inr partial ↦
            rw (partial, settle)
              (
                (rw (partial, settle) at opened),
                inr (
                    ap (λ (ps : List Pool). set ps spec.slot zeroed)
                      (close_entries-pools env spec.slot spec.conn_params es b ∙ kept)),
              )
        | inl all ↦
            let k = start_keepalive env spec (filled_pool spec es) b in
            let (stored, done) = start_keepalive-Stored env spec es b in
            rw (all, settle)
              (subst⁻¹ (λ (x : Result (Unit {0})). Pooled spec c (k.0, x)) done
                (all_opened-Pooled spec now c b k.0 es fitting kept (ground (arith, all)) numbered
                  (subst⁻¹ (Added env es c.txrx_conns)
                    (start_keepalive-conns env spec (filled_pool spec es) b).0 added)
                  stored))
      ]

  open_all-Pooled :
      (spec : PoolSpec) (c : Client W)
      → IsFitting spec c
      → Distinct c.txrx_conns
      → Pooled spec c (open_all env spec c)
  unfolding open_all
  open_all-Pooled spec c fitting d =
      let t = env.time c.world in
      let b : Client W = record c { world = t.0 } in
      settle-Pooled spec t.1 c (open_entries env spec t.1 spec.size 0 b) fitting
        (open_entries-pools env spec t.1 spec.size 0 b)
        (open_entries-Numbered env spec t.1 spec.size 0 b)
        (open_entries-Added env spec t.1 spec.size 0 b d)

  -- Where no handle is in use twice, in a client with its pools: `bp_client_pool_open` is a transaction.
  -- Where it fails, on its arguments, on a pool that is open or on any of its Forward Opens, every
  -- handle has what it had before, and no pool has changed but that the slot's can be cleared. Where it
  -- succeeds, the slot's pool is open with the size that was asked for; each entry is free, alive and
  -- has a handle of its own, which had no connection and now has one; and no other handle's connection
  -- and no other slot's pool has changed.
  pub pool_open-Pooled :
      (spec : PoolSpec) (c : Client W)
      → Distinct c.txrx_conns
      → length c.pools ≡ max_slots
      → Pooled spec c (bp_client_pool_open env (some spec) c)
  unfolding bp_client_pool_open
  pool_open-Pooled spec c d long = elim (Bool-cases (ltb max_slot spec.slot)) [
    | inl large ↦ rw (large, bp_client_pool_open) (λ k. refl, inl refl)
    | inr slot ↦ elim (Bool-cases (ltb spec.size 1 || ltb max_size spec.size)) [
      | inl bad ↦ rw (slot, bad, bp_client_pool_open) (λ k. refl, inl refl)
      | inr size ↦ elim (Bool-cases (pool_at c spec.slot).initialized) [
        | inl open_ ↦ rw (slot, size, open_, bp_client_pool_open) (λ k. refl, inl refl)
        | inr closed ↦
            rw (slot, size, closed, bp_client_pool_open)
              (open_all-Pooled spec c
                (ground (arith, slot), ground (arith, size), ground (arith, slot, long)) d)
      ]
    ]
  ]
