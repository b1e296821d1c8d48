-- ===== src/Pool/Batch/Results.antt =====
-- What a batch of c/src/pool.c leaves in its items, and its code.
use cmee1y1_clients.Base.{
  ℕ, zero, suc, ◌<◌, ◌≡◌, ◌≢◌, refl, ap, sym, ◌∙◌, Bool, true, false, ◌↔◌, inl, inr, ltb, arith,
  Bool-cases, eq_or_ne, lt_or_le, ℤ, pos, negsuc,
}
use cmee1y1_clients.State.Code
use cmee1y1_clients.Pool.Batch.{
  Outcome, ended, running, Batch, Step, take, leave, complete, Run, here, next, started, consumed,
  mark_rest, is_ok, overall,
}
use cmee1y1_clients.Pool.Batch.Runs.{Inv, started-Inv, Run-Inv, ended-running}

Step-count :
    {returns : ℕ → Bool} (answer : ℕ → Outcome) (x y : Batch)
    → Step returns answer x y
    → y.count ≡ x.count
Step-count answer x y (take w r room) = refl
Step-count answer x y (leave w r over) = refl
Step-count answer x y (complete w i r ret) = refl

Run-count :
    {returns : ℕ → Bool} (answer : ℕ → Outcome) (b : Batch) (n : ℕ) (c : Batch)
    → Run returns answer b n c
    → c.count ≡ b.count
Run-count answer b n c here = refl
Run-count answer b n c (next {n = m} {c = d} run step) =
    Step-count answer d c step ∙ Run-count answer b m d run

is_ok-true : (e : ℤ) → is_ok e ≡ true → e ≡ Code.bp_ok
is_ok-true (pos n) h = ap pos (ground (arith, h))
is_ok-true (negsuc n) h = cc

-- The code of a batch is `BP_OK` exactly if all items' are.
overall_lem :
    (n : ℕ) (items : ℕ → Outcome)
    → (overall n items ≡ Code.bp_ok) ↔ ((i : ℕ) → i < n → (items i).rc ≡ Code.bp_ok)
unfolding overall
overall_lem zero items = (λ e i h. absurd (omega (arith, h)), λ h. refl)
overall_lem (suc n) items =
    let (rest, back) = overall_lem n items in
    elim (Bool-cases (is_ok (items n).rc)) [
      | inl fine ↦ rw fine (
        λ e i h. elim (eq_or_ne i n) [
          | inl same ↦ ap (λ (j : ℕ). (items j).rc) same ∙ is_ok-true (items n).rc fine
          | inr differs ↦ rest e i (omega (arith, h, differs))
        ],
        λ h. back (λ i g. h i (omega (arith, g))),
      )
      | inr failed ↦ rw failed (
        λ e. absurd (generic-ok e),
        λ h. absurd (not_ok (sym failed ∙ ap is_ok (h n (omega arith)))),
      )
    ]
  where
    generic-ok : Code.generic ≢ Code.bp_ok
    generic-ok e = cc

    not_ok : false ≢ true
    not_ok e = cc

-- If a worker was started and all that were have ended, then every item was taken, and holds what its
-- own request came to, at its own index; and the batch's code is `BP_OK` exactly if every item's is.
pub batch_result :
    {returns : ℕ → Bool} (count spawned : ℕ) (items answer : ℕ → Outcome) (n : ℕ) (c : Batch)
    → Run returns answer (started count spawned items) n c
    → 0 < spawned
    → ((w : ℕ) → w < spawned → c.worker w ≡ ended)
    → ((i : ℕ) → i < count → mark_rest c i ≡ answer i)
      × ((overall count (mark_rest c) ≡ Code.bp_ok)
          ↔ ((i : ℕ) → i < count → (answer i).rc ≡ Code.bp_ok))
unfolding mark_rest consumed
batch_result count spawned items answer n c run some_worker all_ended =
    let (only_if, all_fine) = overall_lem count (mark_rest c) in
    (
      each,
      (
        λ e i h. ap (λ (o : Outcome). o.rc) (sym (each i h)) ∙ only_if e i h,
        λ k. all_fine (λ i h. ap (λ (o : Outcome). o.rc) (each i h) ∙ k i h),
      ),
    )
  where
    same_count : c.count ≡ count
    same_count = Run-count answer (started count spawned items) n c run

    v : Inv spawned answer c
    v =
        Run-Inv spawned answer (started count spawned items) n c
          (started-Inv count spawned items answer) run

    over : c.count < c.next_idx
    over = v.exhausted 0 some_worker (all_ended 0 some_worker)

    idle : (w i : ℕ) → c.worker w ≢ running i
    idle w i e = elim (lt_or_le w spawned) [
      | inl low ↦ ended-running (sym (all_ended w low) ∙ e)
      | inr high ↦ ended-running (sym (v.spawned_only w high) ∙ e)
    ]

    each : (i : ℕ) → i < count → mark_rest c i ≡ answer i
    each i h =
        let all : ltb c.count c.next_idx ≡ true = ground (arith, over) in
        let low : ltb i c.count ≡ true = ground (arith, h, same_count) in
        rw (all, low, mark_rest, consumed)
          (elim (v.taken i (omega (arith, h, same_count, over)) (omega (arith, h, same_count))) [
            | inl (w, e) ↦ absurd (idle w i e)
            | inr e ↦ e
          ])
