-- ===== src/Pool/Keepalive/Turns.antt =====
-- A turn of the keepalive thread (c/src/pool.c) leaves a pool in order.
use mathlib.Core.Path.{subst⁻¹}
use cmee1y1_clients.Base.{
  ℕ, ◌<◌, ◌≡◌, refl, ap, sym, ◌∙◌, subst, inl, inr, Bool, true, false, set, length, length-set,
  get_or-set_self, get_or-set_ne, eq_or_ne, arith,
}
use cmee1y1_clients.State.{Pool, PoolEntry}
use cmee1y1_clients.Pool.{
  entry, put_entry, blank_entry, claim, finish_ping, give_back, claim_reopen, finish_reopen,
  next_backoff,
}
use cmee1y1_clients.Pool.Backoff.{IsBackedOff, AllBackedOff}

-- What a turn keeps of a pool: which entries are borrowed, the handles, and the bounds of the
-- back-offs.
pub record InOrder (p q : Pool) : Type 0 where
  pub size : q.size ≡ p.size
  pub count : length q.entries ≡ length p.entries
  pub in_use : (j : ℕ) → (entry q j).in_use ≡ (entry p j).in_use
  pub app_handle : (j : ℕ) → (entry q j).app_handle ≡ (entry p j).app_handle
  pub backed_off : AllBackedOff p → AllBackedOff q

pub InOrder-refl : (p : Pool) → InOrder p p
InOrder-refl p = record {
  size = refl;
  count = refl;
  in_use = λ j. refl;
  app_handle = λ j. refl;
  backed_off = λ b. b;
}

pub InOrder-trans : {p q r : Pool} → InOrder p q → InOrder q r → InOrder p r
InOrder-trans a b = record {
  size = b.size ∙ a.size;
  count = b.count ∙ a.count;
  in_use = λ j. b.in_use j ∙ a.in_use j;
  app_handle = λ j. b.app_handle j ∙ a.app_handle j;
  backed_off = λ h. b.backed_off (a.backed_off h);
}

module _ (p : Pool) (i : ℕ) (low : i < length p.entries) where
  entry-claimed : (e : PoolEntry) → entry (put_entry p i e) i ≡ e
  entry-claimed e = get_or-set_self p.entries i e blank_entry low

  -- An entry that was marked and is then written again.
  twice-entry :
      (e f : PoolEntry) (j : ℕ)
      → (P : PoolEntry → PoolEntry → Type 0) → ((x : PoolEntry) → P x x)
      → P (entry p i) f
      → P (entry p j) (entry (put_entry (put_entry p i e) i f) j)
  twice-entry e f j P same new = elim (eq_or_ne i j) [
    | inl here ↦
        subst (λ (k : ℕ). P (entry p k) (entry (put_entry (put_entry p i e) i f) k)) here
          (subst⁻¹ (P (entry p i))
            (get_or-set_self (set p.entries i e) i f blank_entry
              (subst⁻¹ (λ (n : ℕ). i < n) (length-set p.entries i e) low))
            new)
    | inr other ↦
        subst⁻¹ (P (entry p j))
          (get_or-set_ne (set p.entries i e) i j f blank_entry other
            ∙ get_or-set_ne p.entries i j e blank_entry other)
          (same (entry p j))
  ]

  twice-InOrder :
      (e f : PoolEntry)
      → f.in_use ≡ (entry p i).in_use
      → f.app_handle ≡ (entry p i).app_handle
      → (IsBackedOff (entry p i) → IsBackedOff f)
      → InOrder p (put_entry (put_entry p i e) i f)
  twice-InOrder e f used handle backed = record {
    size = refl;
    count = length-set (set p.entries i e) i f ∙ length-set p.entries i e;
    in_use = λ j. twice-entry e f j (λ x y. y.in_use ≡ x.in_use) (λ x. refl) used;
    app_handle = λ j. twice-entry e f j (λ x y. y.app_handle ≡ x.app_handle) (λ x. refl) handle;
    backed_off =
        λ all j. twice-entry e f j (λ x y. IsBackedOff x → IsBackedOff y) (λ x b. b) backed (all j);
  }

  pub ping-InOrder :
      (now later : ℕ) (answered : Bool)
      → (entry p i).in_use ≡ false
      → InOrder p (finish_ping (claim p i) i answered now later)
  unfolding claim finish_ping give_back
  ping-InOrder now later true free =
      let here = entry-claimed (record (entry p i) { in_use = true }) in
      twice-InOrder _ _ (sym free) (ap (λ (x : PoolEntry). x.app_handle) here) (λ b.
        subst⁻¹ (λ (x : PoolEntry). IsBackedOff (record x { in_use = false; last_used = now })) here
          b)
  ping-InOrder now later false free =
      let here = entry-claimed (record (entry p i) { in_use = true }) in
      twice-InOrder _ _ (sym free) (ap (λ (x : PoolEntry). x.app_handle) here)
        (λ b. ground (arith, b, ap (λ (x : PoolEntry). x.reopen_backoff_ms) here))

  pub returned-InOrder :
      (now : ℕ) → (entry p i).in_use ≡ false → InOrder p (give_back (claim p i) i now)
  unfolding finish_ping
  returned-InOrder now free = ping-InOrder now now true free

  pub reopen-InOrder :
      (now later : ℕ) (opened : Bool)
      → (entry p i).in_use ≡ false
      → (entry p i).dead ≡ true
      → InOrder p (finish_reopen (claim_reopen p i now) i opened later)
  unfolding claim_reopen finish_reopen next_backoff
  reopen-InOrder now later true free dead =
      let here = entry-claimed (record (entry p i) { in_use = true; last_reopen_attempt = now }) in
      twice-InOrder _ _ (sym free) (ap (λ (x : PoolEntry). x.app_handle) here)
        (λ b. (omega arith, inr (omega arith), λ e. omega arith))
  reopen-InOrder now later false free dead =
      let here = entry-claimed (record (entry p i) { in_use = true; last_reopen_attempt = now }) in
      twice-InOrder _ _ (sym free) (ap (λ (x : PoolEntry). x.app_handle) here)
        (λ b. ground (arith, b, dead, ap (λ (x : PoolEntry). x.reopen_backoff_ms) here))
