-- ===== src/Pool/Threads/Exclusion.antt =====
-- No two threads ever use one connection of a pool at the same time.
use cmee1y1_clients.Base.{
  ℕ, zero, suc, ◌<◌, ◌≡◌, ◌≢◌, refl, sym, ap, ◌∙◌, ◌⊎◌, inl, inr, true, false, some, none, ◌==◌,
  arith, length, length-set, get_or, get_or-set_self, get_or-set_ne, subst, eq_or_ne, Bool-cases,
  Option-cases,
}
use cmee1y1_clients.State.{Pool, PoolEntry}
use cmee1y1_clients.Pool.{
  entry, put_entry, blank_entry, claim, give_back, is_ping_due, finish_ping, is_reopen_due,
  claim_reopen, finish_reopen, begin_close, any_busy,
}
use cmee1y1_clients.Pool.Acquire.{pool_acquire_finds}
use cmee1y1_clients.Pool.Threads.{
  Task, idle, waiting, using, pinging, reopening, holds, Shared, with_task, IsReady, Step, borrow,
  block, refused, returned, ping, pinged, reopen, reopened, closing, Reach, here, next, Inv,
}

-- Only entry `i` of the pool differs.
pub record Touches (i : ℕ) (p q : Pool) : Type 0 where
  pub size : q.size ≡ p.size
  pub length : length q.entries ≡ length p.entries
  pub others : (j : ℕ) → i ≢ j → entry q j ≡ entry p j

pub put_entry-Touches : (p : Pool) (i : ℕ) (e : PoolEntry) → Touches i p (put_entry p i e)
put_entry-Touches p i e = record {
  size = refl;
  length = length-set p.entries i e;
  others = λ j d. get_or-set_ne p.entries i j e blank_entry d;
}

-- Who holds an entry once thread `t` has turned to task `k`.
holder :
    (task : ℕ → Task) (t : ℕ) (k : Task) (u j : ℕ)
    → holds (with_task task t k u) ≡ some j
    → ((u ≡ t) × (holds k ≡ some j)) ⊎ (holds (task u) ≡ some j)
holder task t k u j h = elim (Bool-cases (u == t)) [
  | inl same ↦ inl (ground arith, rw same at h)
  | inr other ↦ inr (rw other at h)
]

module _ (s : Shared) (v : Inv s) (t : ℕ) (k : Task) (q : Pool) (seed : ℕ) where
  abbrev after : Shared
  after = record { pool = q; rr_seed = seed; task = with_task s.task t k }

  -- A thread that holds nothing marks a free entry and holds it.
  claimed-Inv :
      (i : ℕ)
      → holds (s.task t) ≡ none
      → holds k ≡ some i
      → i < s.pool.size
      → (entry s.pool i).in_use ≡ false
      → Touches i s.pool q
      → (entry q i).in_use ≡ true
      → Inv after
  claimed-Inv i free hk below unused touch used = record {
    sized = omega (arith, v.sized, touch.size, touch.length);
    not_empty = omega (arith, v.not_empty, touch.size);
    in_range = λ u j h. elim (holder s.task t k u j h) [
      | inl (_, e) ↦ ground (arith, e, touch.size)
      | inr e ↦ omega (arith, v.in_range u j e, touch.size)
    ];
    marked = λ u j h. elim (holder s.task t k u j h) [
      | inl (_, e) ↦ ground (arith, e)
      | inr e ↦ elim (eq_or_ne i j) [
        | inl same ↦ subst (λ n. (entry q n).in_use ≡ true) same used
        | inr other ↦ ap (λ (x : PoolEntry). x.in_use) (touch.others j other) ∙ v.marked u j e
      ]
    ];
    exclusive = λ u w j g h. elim (holder s.task t k u j g) [
      | inl (eu, e) ↦ elim (holder s.task t k w j h) [
        | inl (ew, f) ↦ eu ∙ sym ew
        | inr f ↦ absurd (ground (arith, v.marked w j f))
      ]
      | inr e ↦ elim (holder s.task t k w j h) [
        | inl (ew, f) ↦ absurd (ground (arith, v.marked u j e))
        | inr f ↦ v.exclusive u w j e f
      ]
    ];
  }

  -- A thread lets go of the entry that it holds.
  released-Inv :
      (i : ℕ) → holds (s.task t) ≡ some i → holds k ≡ none → Touches i s.pool q → Inv after
  released-Inv i held hk touch = record {
    sized = omega (arith, v.sized, touch.size, touch.length);
    not_empty = omega (arith, v.not_empty, touch.size);
    in_range = λ u j h. elim (holder s.task t k u j h) [
      | inl (_, e) ↦ cc
      | inr e ↦ omega (arith, v.in_range u j e, touch.size)
    ];
    marked = λ u j h. elim (Bool-cases (u == t)) [
      | inl same ↦ absurd (ground (arith, same, h))
      | inr other ↦
          let e : holds (s.task u) ≡ some j = rw other at h in
          elim (eq_or_ne i j) [
            | inl clash ↦ absurd (ground (arith, v.exclusive u t i (e ∙ ap some (sym clash)) held))
            | inr apart ↦ ap (λ (x : PoolEntry). x.in_use) (touch.others j apart) ∙ v.marked u j e
          ]
    ];
    exclusive = λ u w j g h. elim (holder s.task t k u j g) [
      | inl (_, e) ↦ cc
      | inr e ↦ elim (holder s.task t k w j h) [ inl (_, f) ↦ cc | inr f ↦ v.exclusive u w j e f ]
    ];
  }

  -- A thread that holds nothing turns to something else and leaves the entries alone.
  quiet-Inv : holds k ≡ none → q.size ≡ s.pool.size → q.entries ≡ s.pool.entries → Inv after
  quiet-Inv hk size same = record {
    sized = omega (arith, v.sized, size, ap length same);
    not_empty = omega (arith, v.not_empty, size);
    in_range = λ u j h. elim (holder s.task t k u j h) [
      | inl (_, e) ↦ cc
      | inr e ↦ omega (arith, v.in_range u j e, size)
    ];
    marked = λ u j h. elim (holder s.task t k u j h) [
      | inl (_, e) ↦ cc
      | inr e ↦ ap (λ es. (get_or es j blank_entry).in_use) same ∙ v.marked u j e
    ];
    exclusive = λ u w j g h. elim (holder s.task t k u j g) [
      | inl (_, e) ↦ cc
      | inr e ↦ elim (holder s.task t k w j h) [ inl (_, f) ↦ cc | inr f ↦ v.exclusive u w j e f ]
    ];
  }

pub ready-holds : (k : Task) → IsReady k → holds k ≡ none
unfolding holds
ready-holds k (inl e) = rw e
ready-holds k (inr e) = rw e

used_entry :
    (p : Pool) (i : ℕ) (e : PoolEntry)
    → i < length p.entries
    → e.in_use ≡ true
    → (entry (put_entry p i e) i).in_use ≡ true
used_entry p i e h u =
    ap (λ (x : PoolEntry). x.in_use) (get_or-set_self p.entries i e blank_entry h) ∙ u

module _ (s : Shared) (v : Inv s) where
  pub Step-Inv : {u : Shared} → Step s u → Inv u
  unfolding holds claim give_back finish_ping claim_reopen finish_reopen begin_close
  Step-Inv (borrow t i ready live got) = elim (pool_acquire_finds s.pool s.rr_seed v.not_empty) [
    | inl (j, found, below, unused, _) ↦
        let same : j ≡ i = cc in
        claimed-Inv s v t (using i) _ _ i (ready-holds _ ready) refl
          (subst (λ n. n < s.pool.size) same below)
          (subst (λ n. (entry s.pool n).in_use ≡ false) same unused) (put_entry-Touches s.pool i _)
          (used_entry s.pool i _ (ground (arith, v.sized)) refl)
    | inr (none_found, _) ↦ cc
  ]
  Step-Inv (block t ready live got) = quiet-Inv s v t waiting s.pool _ refl refl refl
  Step-Inv (refused t ready shut) = quiet-Inv s v t idle s.pool _ refl refl refl
  Step-Inv (returned t i now e) =
      released-Inv s v t idle _ _ i (ap holds e) refl (put_entry-Touches s.pool i _)
  Step-Inv (ping t i now e below running due) =
      claimed-Inv s v t (pinging i) _ _ i (ap holds e) refl below
        (unfold is_ping_due in ground (arith, due)) (put_entry-Touches s.pool i _)
        (used_entry s.pool i _ (omega (arith, v.sized)) refl)
  Step-Inv (pinged t i now later true e) =
      released-Inv s v t idle _ _ i (ap holds e) refl (put_entry-Touches s.pool i _)
  Step-Inv (pinged t i now later false e) =
      released-Inv s v t idle _ _ i (ap holds e) refl (put_entry-Touches s.pool i _)
  Step-Inv (reopen t i now e below running due) =
      claimed-Inv s v t (reopening i) _ _ i (ap holds e) refl below
        (unfold is_reopen_due in ground (arith, due)) (put_entry-Touches s.pool i _)
        (used_entry s.pool i _ (omega (arith, v.sized)) refl)
  Step-Inv (reopened t i now true e) =
      released-Inv s v t idle _ _ i (ap holds e) refl (put_entry-Touches s.pool i _)
  Step-Inv (reopened t i now false e) =
      released-Inv s v t idle _ _ i (ap holds e) refl (put_entry-Touches s.pool i _)
  Step-Inv closing = record {
    sized = v.sized;
    not_empty = v.not_empty;
    in_range = v.in_range;
    marked = v.marked;
    exclusive = v.exclusive;
  }

pub Reach-Inv : {s u : Shared} → Inv s → Reach s u → Inv u
Reach-Inv v here = v
Reach-Inv v (next r st) = Step-Inv _ (Reach-Inv v r) st

-- In every state that a run of the threads reaches from one where the invariant holds, two threads
-- that hold the same entry are one thread, and the entry is one of the pool's and is marked.
pub Reach-exclusive :
    (s u : Shared)
    → Inv s
    → Reach s u
    → (t w i : ℕ) → holds (u.task t) ≡ some i
    → holds (u.task w) ≡ some i
    → (t ≡ w) × (i < u.pool.size) × ((entry u.pool i).in_use ≡ true)
Reach-exclusive s u v r t w i h g =
    let inv = Reach-Inv v r in (inv.exclusive t w i h g, inv.in_range t i h, inv.marked t i h)

any_busy-free :
    (n : ℕ) (p : Pool) → any_busy n p ≡ false → (i : ℕ) → i < n → (entry p i).in_use ≡ false
unfolding any_busy
any_busy-free zero p h i b = absurd (omega (arith, b))
any_busy-free (suc n) p h i b = elim (eq_or_ne i n) [
  | inl same ↦ ground (arith, h, same)
  | inr other ↦ any_busy-free n p (ground (arith, h)) i (omega (arith, b, other))
]

-- When the loop of `bp_client_pool_close` that waits for the borrowed entries ends, in any state
-- that the threads reach, no thread holds an entry.
pub Reach-drained :
    (s u : Shared)
    → Inv s
    → Reach s u
    → any_busy u.pool.size u.pool ≡ false
    → (t : ℕ) → holds (u.task t) ≡ none
Reach-drained s u v r quiet t =
    let inv = Reach-Inv v r in
    elim (Option-cases (holds (u.task t))) [
      | inl e ↦ e
      | inr (i, e) ↦
          absurd
            (ground (arith, inv.marked t i e, any_busy-free _ u.pool quiet i (inv.in_range t i e)))
    ]
