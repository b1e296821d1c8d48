-- ===== src/Pool/Batch/Ends.antt =====
-- A batch ends (c/src/pool.c): how many steps it takes, that it is never stuck, and what it leaves.
use cmee1y1_clients.Base.{
  ℕ, zero, suc, ◌+◌, ◌-◌, ◌*◌, ◌<◌, ◌≤◌, ◌≡◌, ◌≢◌, refl, ap, sym, ◌∙◌, ◌⊎◌, inl, inr, ltb,
  if◌then◌else◌, arith, Bool, false, subst, Bool-cases, eq_or_ne, lt_or_le,
}
use cmee1y1_clients.Pool.Batch.{
  Outcome, Worker, ready, ended, running, Batch, put_worker, Step, take, leave, complete, Run, here,
  next, started,
}
use cmee1y1_clients.Pool.Batch.Runs.{Inv, started-Inv, Run-Inv, ready-ended, ended-running}

-- How many steps a worker has left for certain: the end of its request, and its own.
abbrev pub weight : Worker → ℕ
weight ready = 1
weight ended = 0
weight (running i) = 2

abbrev weights : ℕ → (ℕ → Worker) → ℕ
weights zero ws = 0
weights (suc n) ws = weight (ws n) + weights n ws

weights_above :
    (n : ℕ) (ws : ℕ → Worker) (w : ℕ) (k : Worker)
    → n ≤ w
    → weights n (put_worker ws w k) ≡ weights n ws
weights_above zero ws w k h = refl
weights_above (suc n) ws w k h =
    let same : put_worker ws w k n ≡ ws n = ground (arith, h) in
    rw (ap weight same) (ap (λ (m : ℕ). weight (ws n) + m) (weights_above n ws w k (omega arith)))

weights_put :
    (n : ℕ) (ws : ℕ → Worker) (w : ℕ) (k : Worker)
    → w < n
    → weights n (put_worker ws w k) + weight (ws w) ≡ weights n ws + weight k
weights_put zero ws w k h = elim h [ ]
weights_put (suc n) ws w k h = elim (eq_or_ne n w) [
  | inl same ↦
      let new : put_worker ws w k n ≡ k = ground (arith, same) in
      let rest = weights_above n ws w k (omega (arith, same)) in
      let old : weight (ws n) ≡ weight (ws w) = ap (λ (m : ℕ). weight (ws m)) same in
      let here : weight (put_worker ws w k n) ≡ weight k = ap weight new in
      omega (arith, rest, old, here)
  | inr differs ↦
      let kept : put_worker ws w k n ≡ ws n = ground (arith, differs) in
      let here : weight (put_worker ws w k n) ≡ weight (ws n) = ap weight kept in
      let rest = weights_put n ws w k (omega (arith, differs, h)) in omega (arith, rest, here)
]

-- The steps that a batch has left at most.
abbrev pub steps_left : ℕ → Batch → ℕ
steps_left spawned b = 2 * (b.count - b.next_idx) + weights spawned b.worker

among_spawned :
    (spawned : ℕ) (answer : ℕ → Outcome) (b : Batch) (w : ℕ)
    → Inv spawned answer b
    → b.worker w ≢ ended
    → w < spawned
among_spawned spawned answer b w v h = elim (lt_or_le w spawned) [
  | inl below ↦ below
  | inr above ↦ absurd (h (v.spawned_only w above))
]

Step_left :
    {returns : ℕ → Bool} (spawned : ℕ) (answer : ℕ → Outcome) (b c : Batch)
    → Inv spawned answer b
    → Step returns answer b c
    → steps_left spawned c < steps_left spawned b
Step_left spawned answer b c v (take w r room) =
    let low = among_spawned spawned answer b w v (λ e. ready-ended (sym r ∙ e)) in
    let put = weights_put spawned b.worker w (running b.next_idx) low in
    let old : weight (b.worker w) ≡ 1 = ap weight r in omega (arith, put, old, room)
Step_left spawned answer b c v (leave w r over) =
    let low = among_spawned spawned answer b w v (λ e. ready-ended (sym r ∙ e)) in
    let put = weights_put spawned b.worker w ended low in
    let old : weight (b.worker w) ≡ 1 = ap weight r in omega (arith, put, old, over)
Step_left spawned answer b c v (complete w i r ret) =
    let low = among_spawned spawned answer b w v (λ e. ended-running (sym e ∙ r)) in
    let put = weights_put spawned b.worker w ready low in
    let old : weight (b.worker w) ≡ 2 = ap weight r in omega (arith, put, old)

Run_left :
    {returns : ℕ → Bool} (spawned : ℕ) (answer : ℕ → Outcome) (b : Batch) (n : ℕ) (c : Batch)
    → Inv spawned answer b
    → Run returns answer b n c
    → n + steps_left spawned c ≤ steps_left spawned b
Run_left spawned answer b n c v here = omega arith
Run_left spawned answer b n c v (next {n = m} {c = d} run step) =
    let before = Run_left spawned answer b m d v run in
    let last = Step_left spawned answer d c (Run-Inv spawned answer b m d v run) step in
    omega (arith, before, last)

weights_started : (n spawned : ℕ) → weights n (λ w. if ltb w spawned then ready else ended) ≤ n
weights_started zero spawned = omega arith
weights_started (suc n) spawned =
    let rest = weights_started n spawned in
    elim (Bool-cases (ltb n spawned)) [
      | inl low ↦ rw low (omega (arith, rest))
      | inr high ↦ rw high (omega (arith, rest))
    ]

-- A worker is done, or waits for a request that does not return.
abbrev pub Over : (ℕ → Bool) → Worker → Type 0
Over returns k = (k ≡ ended) ⊎ ((i : ℕ) × (k ≡ running i) × (returns i ≡ false))

-- All workers are over, or one of them can take a step.
stuck_or_step :
    (n : ℕ) (returns : ℕ → Bool) (answer : ℕ → Outcome) (b : Batch)
    → ((w : ℕ) → w < n → Over returns (b.worker w)) ⊎ ((d : Batch) × Step returns answer b d)
stuck_or_step zero returns answer b = inl (λ w h. absurd (omega (arith, h)))
stuck_or_step (suc n) returns answer b = at (b.worker n) refl (stuck_or_step n returns answer b)
  where
    here_too :
        Over returns (b.worker n)
        → ((w : ℕ) → w < n → Over returns (b.worker w))
        → (w : ℕ) → w < suc n
        → Over returns (b.worker w)
    here_too this rest w h = elim (eq_or_ne n w) [
      | inl same ↦ subst (λ (v : ℕ). Over returns (b.worker v)) same this
      | inr differs ↦ rest w (omega (arith, h, differs))
    ]

    at :
        (k : Worker)
        → b.worker n ≡ k
        → ((w : ℕ) → w < n → Over returns (b.worker w)) ⊎ ((d : Batch) × Step returns answer b d)
        → ((w : ℕ) → w < suc n → Over returns (b.worker w))
          ⊎ ((d : Batch) × Step returns answer b d)
    at k e (inr step) = inr step
    at ended e (inl rest) = inl (here_too (inl e) rest)
    at (running i) e (inl rest) = elim (Bool-cases (returns i)) [
      | inl back ↦ inr (_, complete n i e back)
      | inr lost ↦ inl (here_too (inr (i, e, lost)) rest)
    ]
    at ready e (inl rest) = elim (lt_or_le b.next_idx b.count) [
      | inl room ↦ inr (_, take n e room)
      | inr over ↦ inr (_, leave n e over)
    ]

-- However its workers interleave, a batch takes at most two steps for each item and one for each worker
-- that was started; and it stops only when each of these has ended or is in a request that does not
-- return, as one that waits for a connection for ever: else a worker can take a step.
pub batch_ends :
    (count spawned : ℕ) (items : ℕ → Outcome) (returns : ℕ → Bool) (answer : ℕ → Outcome) (n : ℕ)
    (c : Batch)
    → Run returns answer (started count spawned items) n c
    → (n ≤ 2 * count + spawned)
      × (((w : ℕ) → w < spawned → Over returns (c.worker w))
          ⊎ ((d : Batch) × Step returns answer c d))
batch_ends count spawned items returns answer n c run =
    let left =
      Run_left spawned answer (started count spawned items) n c
        (started-Inv count spawned items answer) run in
    let start = weights_started spawned spawned in
    (omega (arith, left, start), stuck_or_step spawned returns answer c)
