-- ===== src/Pool/Lifecycle/Filled.antt =====
-- The entries that opening a pool collects and stores (c/src/pool.c).
use cmee1y1_clients.Base.{
  ℕ, zero, suc, ◌+◌, ◌<◌, ◌≡◌, ◌≢◌, refl, ap, ◌∙◌, inl, inr, true, false, some, List, [], ◌∷◌, ◌++◌,
  length, get_or, set, ltb, ℤ, Result, ok, err, arith, Bool-cases,
}
use cmee1y1_clients.State.{Pool, PoolEntry, Client, Env}
use cmee1y1_clients.Conn.{ConnIds, bp_client_txrx_open}
use cmee1y1_clients.Pool.{blank_entry, pool_app_handle}
use cmee1y1_clients.Pool.Keepalive.Frame.{txrx_open-KeepsPools}
use cmee1y1_clients.Pool.Lifecycle.{
  PoolSpec, conn_spec, open_entries, start_keepalive, filled_pool, join_opened,
}
use cmee1y1_clients.Pool.Lifecycle.Opening.{owns}

-- The entry `i` of a pool that is opened at a time.
abbrev pub opened_entry : PoolSpec → ℕ → ℕ → PoolEntry
opened_entry spec now i = record blank_entry {
  app_handle = pool_app_handle spec.slot i;
  last_used = now;
}

-- Entries from index `i` on.
abbrev pub Numbered : PoolSpec → ℕ → ℕ → List PoolEntry → Type 0
Numbered spec now i es =
    (j : ℕ) → j < length es → get_or es j blank_entry ≡ opened_entry spec now (i + j)

pub owns-at :
    (es : List PoolEntry) (j : ℕ)
    → j < length es
    → owns es (get_or es j blank_entry).app_handle ≡ true
owns-at [] j h = absurd (omega (arith, h))
owns-at (e ∷ es) zero h = ground arith
owns-at (e ∷ es) (suc j) h = let rest = owns-at es j (omega (arith, h)) in ground (arith, rest)

pub owns-none :
    (es : List PoolEntry) (k : ℕ)
    → ((j : ℕ) → j < length es → (get_or es j blank_entry).app_handle ≢ k)
    → owns es k ≡ false
owns-none [] k h = refl
owns-none (e ∷ es) k h =
    let rest = owns-none es k (λ j low. h (suc j) (omega (arith, low))) in
    let here = h zero (omega arith) in ground (arith, rest, here)

pub get_or-append :
    (es fs : List PoolEntry) (j : ℕ)
    → j < length es
    → get_or (es ++ fs) j blank_entry ≡ get_or es j blank_entry
get_or-append [] fs j h = absurd (omega (arith, h))
get_or-append (e ∷ es) fs zero h = refl
get_or-append (e ∷ es) fs (suc j) h = get_or-append es fs j (omega (arith, h))

module _ {W : Type 0} (env : Env W) where
  join_opened-Numbered :
      (spec : PoolSpec) (now i : ℕ) (r : Client W × Result ConnIds)
      (rest : Client W × (List PoolEntry × ℤ))
      → Numbered spec now (i + 1) rest.1.0
      → Numbered spec now i (join_opened (opened_entry spec now i) r rest).1.0
  unfolding join_opened
  join_opened-Numbered spec now i (c, err rc) rest n j h = absurd (omega (arith, h))
  join_opened-Numbered spec now i (c, ok ids) (d, (es, rc)) n zero h =
      ap (opened_entry spec now) (omega arith)
  join_opened-Numbered spec now i (c, ok ids) (d, (es, rc)) n (suc j) h =
      n j (omega (arith, h)) ∙ ap (opened_entry spec now) (omega arith)

  pub open_entries-Numbered :
      (spec : PoolSpec) (now n i : ℕ) (c : Client W)
      → Numbered spec now i (open_entries env spec now n i c).1.0
  unfolding open_entries
  open_entries-Numbered spec now zero i c j h = absurd (omega (arith, h))
  open_entries-Numbered spec now (suc n) i c j h =
      let t = conn_spec spec.slot spec.conn_params (pool_app_handle spec.slot i) in
      let r = bp_client_txrx_open env (some t) c in
      join_opened-Numbered spec now i r (open_entries env spec now n (i + 1) r.0)
        (open_entries-Numbered spec now n (i + 1) r.0) j h

  join_opened-pools :
      (e : PoolEntry) (c : Client W) (r : Client W × Result ConnIds)
      (rest : Client W × (List PoolEntry × ℤ))
      → r.0.pools ≡ c.pools
      → rest.0.pools ≡ r.0.pools
      → (join_opened e r rest).0.pools ≡ c.pools
  unfolding join_opened
  join_opened-pools e c (d, ok ids) (f, (es, rc)) kept later = later ∙ kept
  join_opened-pools e c (d, err rc) rest kept later = kept

  pub open_entries-pools :
      (spec : PoolSpec) (now n i : ℕ) (c : Client W)
      → (open_entries env spec now n i c).0.pools ≡ c.pools
  unfolding open_entries
  open_entries-pools spec now zero i c = refl
  open_entries-pools spec now (suc n) i c =
      let t = conn_spec spec.slot spec.conn_params (pool_app_handle spec.slot i) in
      let r = bp_client_txrx_open env (some t) c in
      join_opened-pools _ c r _ (txrx_open-KeepsPools env t c)
        (open_entries-pools spec now n (i + 1) r.0)

  -- The pool that is stored, with the keepalive or without it.
  abbrev pub Stored : PoolSpec → List PoolEntry → Client W → Client W → Type 0
  Stored spec es c d =
      (q : Pool) × (d.pools ≡ set c.pools spec.slot q)
      × (q.initialized ≡ true)
      × (q.size ≡ spec.size)
      × (q.entries ≡ (filled_pool spec es).entries)

  pub start_keepalive-Stored :
      (spec : PoolSpec) (es : List PoolEntry) (c : Client W)
      → Stored spec es c (start_keepalive env spec (filled_pool spec es) c).0
        × ((start_keepalive env spec (filled_pool spec es) c).1 ≡ ok tt)
  unfolding start_keepalive
  start_keepalive-Stored spec es c = elim (Bool-cases (ltb 0 spec.keepalive_ms)) [
    | inr off ↦ rw (off, start_keepalive) ((_, refl, refl, refl, refl), refl)
    | inl on ↦ elim (Bool-cases (env.spawn c.world).1) [
      | inl running ↦ rw (on, running, start_keepalive) ((_, refl, refl, refl, refl), refl)
      | inr failed ↦ rw (on, failed, start_keepalive) ((_, refl, refl, refl, refl), refl)
    ]
  ]
