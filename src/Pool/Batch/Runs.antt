-- ===== src/Pool/Batch/Runs.antt =====
-- The runs of a batch (c/src/pool.c): they end, and every item has the result of its own request.
use cmee1y1_clients.Base.{
  ℕ, ◌+◌, ◌<◌, ◌≤◌, ◌≡◌, ◌≢◌, ap, sym, ◌∙◌, Bool, true, false, ◌⊎◌, inl, inr, ltb, if◌then◌else◌,
  arith, eq_or_ne,
}
use mathlib.Core.Path.{subst⁻¹}
use cmee1y1_clients.Pool.Batch.{
  Outcome, Worker, ready, ended, running, Batch, put_worker, put_item, Step, take, leave, complete,
  Run, here, next, started,
}

-- An item that was taken is on the wire, at one worker, or has its result; and a worker ends only when
-- no item is left.
pub record Inv (spawned : ℕ) (answer : ℕ → Outcome) (b : Batch) : Type 0 where
  pub taken :
      (i : ℕ)
      → i < b.next_idx
      → i < b.count
      → ((w : ℕ) × (b.worker w ≡ running i)) ⊎ (b.items i ≡ answer i)
  pub running_taken : (w i : ℕ) → b.worker w ≡ running i → (i < b.next_idx) × (i < b.count)
  pub exhausted : (w : ℕ) → w < spawned → b.worker w ≡ ended → b.count < b.next_idx
  pub spawned_only : (w : ℕ) → spawned ≤ w → b.worker w ≡ ended

pub put_worker_self : (ws : ℕ → Worker) (w : ℕ) (k : Worker) → put_worker ws w k w ≡ k
put_worker_self ws w k = ground arith

put_worker_ne :
    (ws : ℕ → Worker) (w v : ℕ) (k j : Worker) → v ≢ w → ws v ≡ j → put_worker ws w k v ≡ j
put_worker_ne ws w v k j h e = ground (arith, h, e)

put_worker_cases :
    (ws : ℕ → Worker) (w v : ℕ) (k j : Worker)
    → put_worker ws w k v ≡ j
    → ((v ≡ w) × (k ≡ j)) ⊎ ((v ≢ w) × (ws v ≡ j))
put_worker_cases ws w v k j e = elim (eq_or_ne v w) [
  | inl same ↦ inl (same, ground (arith, e, same))
  | inr differs ↦ inr (differs, ground (arith, e, differs))
]

pub put_item_self : (items : ℕ → Outcome) (i : ℕ) (o : Outcome) → put_item items i o i ≡ o
put_item_self items i o = ground arith

put_item_ne :
    (items : ℕ → Outcome) (i j : ℕ) (o p : Outcome) → j ≢ i → items j ≡ p → put_item items i o j ≡ p
put_item_ne items i j o p h e = ground (arith, h, e)

pub ready-running : {i : ℕ} → ready ≢ running i
ready-running e = cc

pub ready-ended : ready ≢ ended
ready-ended e = cc

pub ended-running : {i : ℕ} → ended ≢ running i
ended-running e = cc

running-inj : {i j : ℕ} → running i ≡ running j → i ≡ j
running-inj e = cc

-- A worker that does not run an item is not the one that runs it.
other_worker :
    (b : Batch) (w u i : ℕ) (k : Worker)
    → b.worker w ≡ k
    → k ≢ running i
    → b.worker u ≡ running i
    → u ≢ w
other_worker b w u i k e h r same = h (sym e ∙ ap b.worker (sym same) ∙ r)

pub started-Inv :
    (count spawned : ℕ) (items answer : ℕ → Outcome)
    → Inv spawned answer (started count spawned items)
started-Inv count spawned items answer = record {
  taken = λ i h g. absurd (omega (arith, h));
  running_taken = λ w i e. at (ltb w spawned) e;
  exhausted = λ w h e. absurd (before w h e);
  spawned_only = λ w h. ground (arith, h);
}
  where
    at :
        {i : ℕ} {n : ℕ} (s : Bool)
        → (if s then ready else ended) ≡ running i
        → (i < n) × (i < count)
    at true e = absurd (ready-running e)
    at false e = absurd (ended-running e)

    before : (w : ℕ) → w < spawned → (if ltb w spawned then ready else ended) ≡ ended → ⊥
    before w h e = let low : ltb w spawned ≡ true = ground (arith, h) in ready-ended (rw low at e)

module _ (spawned : ℕ) (answer : ℕ → Outcome) (b : Batch) (v : Inv spawned answer b) where
  take-Inv :
      (w : ℕ)
      → b.worker w ≡ ready
      → b.next_idx < b.count
      → Inv spawned answer (record b {
        next_idx = b.next_idx + 1;
        items = put_item b.items b.next_idx (record (b.items b.next_idx) { resp_len = 0 });
        worker = put_worker b.worker w (running b.next_idx);
      })
  take-Inv w r room = record {
    taken = λ i h g. elim (eq_or_ne i b.next_idx) [
      | inl same ↦ inl (w, put_worker_self b.worker w (running b.next_idx) ∙ ap running (sym same))
      | inr differs ↦ elim (v.taken i (omega (arith, h, differs)) g) [
        | inl (u, e) ↦ inl (
          u,
          put_worker_ne b.worker w u _ (running i) (other_worker b w u i ready r ready-running e) e,
        )
        | inr e ↦ inr (put_item_ne b.items b.next_idx i _ (answer i) differs e)
      ]
    ];
    running_taken = λ u i e.
        elim (put_worker_cases b.worker w u (running b.next_idx) (running i) e) [
          | inl (same, k) ↦
              let here = running-inj k in (omega (arith, here), omega (arith, here, room))
          | inr (differs, k) ↦ let (h, g) = v.running_taken u i k in (omega (arith, h), g)
        ];
    exhausted = λ u h e. elim (put_worker_cases b.worker w u (running b.next_idx) ended e) [
      | inl (same, k) ↦ absurd (ended-running (sym k))
      | inr (differs, k) ↦ omega (arith, v.exhausted u h k)
    ];
    spawned_only = λ u h.
        put_worker_ne b.worker w u _ ended
          (λ same. ready-ended (sym r ∙ ap b.worker (sym same) ∙ v.spawned_only u h))
          (v.spawned_only u h);
  }

  leave-Inv :
      (w : ℕ)
      → b.worker w ≡ ready
      → b.count ≤ b.next_idx
      → Inv spawned answer
          (record b { next_idx = b.next_idx + 1; worker = put_worker b.worker w ended })
  leave-Inv w r over = record {
    taken = λ i h g. elim (v.taken i (omega (arith, g, over)) g) [
      | inl (u, e) ↦ inl (
        u,
        put_worker_ne b.worker w u _ (running i) (other_worker b w u i ready r ready-running e) e,
      )
      | inr e ↦ inr e
    ];
    running_taken = λ u i e. elim (put_worker_cases b.worker w u ended (running i) e) [
      | inl (same, k) ↦ absurd (ended-running k)
      | inr (differs, k) ↦ let (h, g) = v.running_taken u i k in (omega (arith, h), g)
    ];
    exhausted = λ u h e. omega (arith, over);
    spawned_only = λ u h.
        put_worker_ne b.worker w u _ ended
          (λ same. ready-ended (sym r ∙ ap b.worker (sym same) ∙ v.spawned_only u h))
          (v.spawned_only u h);
  }

  complete-Inv :
      (w i : ℕ)
      → b.worker w ≡ running i
      → Inv spawned answer
          (record b { items = put_item b.items i (answer i); worker = put_worker b.worker w ready })
  complete-Inv w i r = record {
    taken = λ j h g. elim (eq_or_ne j i) [
      | inl same ↦ inr (
          subst⁻¹ (λ (k : ℕ). put_item b.items i (answer i) k ≡ answer k) same
            (put_item_self b.items i (answer i)))
      | inr differs ↦ elim (v.taken j h g) [
        | inl (u, e) ↦ inl (
          u,
          put_worker_ne b.worker w u _ (running j)
              (other_worker b w u j (running i) r (λ k. differs (sym (running-inj k))) e) e,
        )
        | inr e ↦ inr (put_item_ne b.items i j _ (answer j) differs e)
      ]
    ];
    running_taken = λ u j e. elim (put_worker_cases b.worker w u ready (running j) e) [
      | inl (same, k) ↦ absurd (ready-running k)
      | inr (differs, k) ↦ v.running_taken u j k
    ];
    exhausted = λ u h e. elim (put_worker_cases b.worker w u ready ended e) [
      | inl (same, k) ↦ absurd (ready-ended k)
      | inr (differs, k) ↦ v.exhausted u h k
    ];
    spawned_only = λ u h.
        put_worker_ne b.worker w u _ ended
          (λ same. ended-running (sym (v.spawned_only u h) ∙ ap b.worker same ∙ r))
          (v.spawned_only u h);
  }

pub Step-Inv :
    {returns : ℕ → Bool} (spawned : ℕ) (answer : ℕ → Outcome) (b c : Batch)
    → Inv spawned answer b
    → Step returns answer b c
    → Inv spawned answer c
Step-Inv spawned answer b c v (take w r room) = take-Inv spawned answer b v w r room
Step-Inv spawned answer b c v (leave w r over) = leave-Inv spawned answer b v w r over
Step-Inv spawned answer b c v (complete w i r ret) = complete-Inv spawned answer b v w i r

pub Run-Inv :
    {returns : ℕ → Bool} (spawned : ℕ) (answer : ℕ → Outcome) (b : Batch) (n : ℕ) (c : Batch)
    → Inv spawned answer b
    → Run returns answer b n c
    → Inv spawned answer c
Run-Inv spawned answer b n c v here = v
Run-Inv spawned answer b n c v (next {n = m} {c = d} run step) =
    Step-Inv spawned answer d c (Run-Inv spawned answer b m d v run) step
