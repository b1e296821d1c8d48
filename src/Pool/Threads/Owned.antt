-- ===== src/Pool/Threads/Owned.antt =====
-- Every borrowed entry of a pool (c/src/pool.c) has a holder, whose request can end.
use cmee1y1_clients.Base.{
  ℕ, ◌<◌, ◌≡◌, ◌≢◌, refl, sym, ap, ◌∙◌, inl, inr, true, false, some, none, arith, length,
  get_or-set_self, subst, eq_or_ne,
}
use cmee1y1_clients.State.{Pool, PoolEntry}
use cmee1y1_clients.Pool.{
  entry, put_entry, blank_entry, claim, give_back, finish_ping, claim_reopen, finish_reopen,
  begin_close,
}
use cmee1y1_clients.Pool.Threads.{
  Task, idle, waiting, using, pinging, reopening, holds, Shared, with_task, Step, borrow, block,
  refused, returned, ping, pinged, reopen, reopened, closing, Inv,
}
use cmee1y1_clients.Pool.Threads.Exclusion.{Touches, put_entry-Touches, ready-holds}

-- Every entry that is marked is held by a thread.
abbrev pub Owned : Shared → Type 0
Owned s =
    (i : ℕ)
    → i < s.pool.size
    → (entry s.pool i).in_use ≡ true
    → (t : ℕ) × (holds (s.task t) ≡ some i)

true-false : true ≢ false
true-false e = cc

some-none : {i : ℕ} → some i ≢ none
some-none e = cc

some-inj : {i j : ℕ} → some i ≡ some j → i ≡ j
some-inj e = cc

with_task_self : (task : ℕ → Task) (t : ℕ) (k : Task) → with_task task t k t ≡ k
with_task_self task t k = ground arith

with_task_ne : (task : ℕ → Task) (t u : ℕ) (k : Task) → u ≢ t → with_task task t k u ≡ task u
with_task_ne task t u k h = ground (arith, h)

module _ (s : Shared) (o : Owned s) (t : ℕ) (k : Task) (q : Pool) (seed : ℕ) where
  abbrev after : Shared
  after = record { pool = q; rr_seed = seed; task = with_task s.task t k }

  -- Another thread's entry is still its own.
  kept :
      (j : ℕ)
      → holds (s.task t) ≢ some j
      → (u : ℕ) × (holds (s.task u) ≡ some j)
      → (u : ℕ) × (holds (with_task s.task t k u) ≡ some j)
  kept j other (u, e) = (
    u,
    ap holds (
          with_task_ne s.task t u k
            (λ same. other (ap (λ (x : ℕ). holds (s.task x)) (sym same) ∙ e)))
        ∙ e,
  )

  claimed-Owned :
      (i : ℕ) → holds (s.task t) ≡ none → holds k ≡ some i → Touches i s.pool q → Owned after
  claimed-Owned i nothing takes touch j low used = elim (eq_or_ne i j) [
    | inl same ↦ (t, ap holds (with_task_self s.task t k) ∙ takes ∙ ap some same)
    | inr other ↦
        let size = touch.size in
        kept j (λ e. some-none (sym e ∙ nothing))
          (o j (omega (arith, low, size))
            (ap (λ (x : PoolEntry). x.in_use) (sym (touch.others j other)) ∙ used))
  ]

  released-Owned :
      (i : ℕ)
      → holds (s.task t) ≡ some i
      → (entry q i).in_use ≡ false
      → Touches i s.pool q
      → Owned after
  released-Owned i held free touch j low used = elim (eq_or_ne i j) [
    | inl same ↦
        absurd (true-false (sym used ∙ ap (λ (x : ℕ). (entry q x).in_use) (sym same) ∙ free))
    | inr other ↦
        let size = touch.size in
        kept j (λ e. other (some-inj (sym held ∙ e)))
          (o j (omega (arith, low, size))
            (ap (λ (x : PoolEntry). x.in_use) (sym (touch.others j other)) ∙ used))
  ]

  quiet-Owned : holds (s.task t) ≡ none → q ≡ s.pool → Owned after
  quiet-Owned nothing same j low used =
      kept j (λ e. some-none (sym e ∙ nothing))
        (o j (subst (λ (p : Pool). j < p.size) same low)
          (subst (λ (p : Pool). (entry p j).in_use ≡ true) same used))

unused_entry :
    (p : Pool) (i : ℕ) (e : PoolEntry)
    → i < length p.entries
    → e.in_use ≡ false
    → (entry (put_entry p i e) i).in_use ≡ false
unused_entry p i e h u =
    ap (λ (x : PoolEntry). x.in_use) (get_or-set_self p.entries i e blank_entry h) ∙ u

module _ (s : Shared) (v : Inv s) (o : Owned s) where
  held_low : (t i : ℕ) → holds (s.task t) ≡ some i → i < length s.pool.entries
  held_low t i e = let low = v.in_range t i e in let sized = v.sized in omega (arith, low, sized)

  lets_go :
      (t i : ℕ) (e : PoolEntry)
      → holds (s.task t) ≡ some i
      → e.in_use ≡ false
      → Owned (after s o t idle (put_entry s.pool i e) s.rr_seed)
  unfolding holds
  lets_go t i e held free =
      released-Owned s o t idle (put_entry s.pool i e) s.rr_seed i held
        (unused_entry s.pool i e (held_low t i held) free) (put_entry-Touches s.pool i e)

  takes :
      (t i : ℕ) (k : Task) (e : PoolEntry)
      → holds (s.task t) ≡ none
      → holds k ≡ some i
      → Owned (after s o t k (put_entry s.pool i e) s.rr_seed)
  takes t i k e nothing held =
      claimed-Owned s o t k (put_entry s.pool i e) s.rr_seed i nothing held
        (put_entry-Touches s.pool i e)

  pub Step-Owned : {u : Shared} → Step s u → Owned u
  unfolding holds claim give_back finish_ping claim_reopen finish_reopen begin_close
  Step-Owned (borrow t i ready live got) = takes t i (using i) _ (ready-holds _ ready) refl
  Step-Owned (block t ready live got) =
      quiet-Owned s o t waiting s.pool s.rr_seed (ready-holds _ ready) refl
  Step-Owned (refused t ready shut) =
      quiet-Owned s o t idle s.pool s.rr_seed (ready-holds _ ready) refl
  Step-Owned (returned t i now e) = lets_go t i _ (ap holds e) refl
  Step-Owned (ping t i now e below running due) = takes t i (pinging i) _ (ap holds e) refl
  Step-Owned (pinged t i now later true e) = lets_go t i _ (ap holds e) refl
  Step-Owned (pinged t i now later false e) = lets_go t i _ (ap holds e) refl
  Step-Owned (reopen t i now e below running due) = takes t i (reopening i) _ (ap holds e) refl
  Step-Owned (reopened t i now true e) = lets_go t i _ (ap holds e) refl
  Step-Owned (reopened t i now false e) = lets_go t i _ (ap holds e) refl
  Step-Owned closing = o

  -- A step after which an entry is free, and no other has changed.
  pub record Freed (i : ℕ) : Type 0 where
    pub state : Shared
    pub step : Step s state
    pub touch : Touches i s.pool state.pool
    pub free : (entry state.pool i).in_use ≡ false

  pub free_held : (t i : ℕ) (k : Task) → s.task t ≡ k → holds k ≡ some i → Freed i
  unfolding holds give_back finish_ping finish_reopen
  free_held t i idle e h = absurd (some-none (sym h))
  free_held t i waiting e h = absurd (some-none (sym h))
  free_held t i (using j) e h =
      let e' : s.task t ≡ using i = e ∙ ap using (some-inj h) in
      record {
        state = _;
        step = returned t i 0 e';
        touch = put_entry-Touches s.pool i _;
        free = unused_entry s.pool i _ (held_low t i (ap holds e')) refl;
      }
  free_held t i (pinging j) e h =
      let e' : s.task t ≡ pinging i = e ∙ ap pinging (some-inj h) in
      record {
        state = _;
        step = pinged t i 0 0 true e';
        touch = put_entry-Touches s.pool i _;
        free = unused_entry s.pool i _ (held_low t i (ap holds e')) refl;
      }
  free_held t i (reopening j) e h =
      let e' : s.task t ≡ reopening i = e ∙ ap reopening (some-inj h) in
      record {
        state = _;
        step = reopened t i 0 true e';
        touch = put_entry-Touches s.pool i _;
        free = unused_entry s.pool i _ (held_low t i (ap holds e')) refl;
      }
