-- ===== src/Session/Complete.antt =====
-- The steps of c/src/client.c that open the memory and the semaphores: all, or a failure.
use mathlib.Core.Path.{subst⁻¹}
use cmee1y1_clients.Base.{
  ℕ, zero, suc, ◌+◌, ◌≡◌, refl, ap, sym, ◌∙◌, Bool, true, false, List, [], ◌∷◌, ◌++◌, replicate,
  set, arith, length, length-set, ◌⊎◌, inl, inr,
}
use cmee1y1_clients.Call.{slot_count}
use cmee1y1_clients.Session.{Handles, nothing_open, all_open, close_fd}
use cmee1y1_clients.Session.Start.{Os, Opening, open_sems, open_lock, open_ipc}

set_front :
    (i : ℕ) (ys : List Bool)
    → set (replicate i true ++ false ∷ ys) i true ≡ replicate (suc i) true ++ ys
set_front zero ys = refl
set_front (suc i) ys = ap (◌∷◌ true) (set_front i ys)

-- The semaphores of the slots before `i` are open, the `n` others are not.
abbrev front : ℕ → ℕ → List Bool
front i n = replicate i true ++ replicate n false

replicate_all : (i n : ℕ) → i + 0 ≡ n → front i 0 ≡ replicate n true
replicate_all i n e =
    append_nil (replicate i true) ∙ ap (λ (k : ℕ). replicate k true) (omega (arith, e))
  where
    append_nil : (xs : List Bool) → xs ++ [] ≡ xs
    append_nil [] = refl
    append_nil (x ∷ xs) = ap (◌∷◌ x) (append_nil xs)

length-front : (i n : ℕ) → length (front i n) ≡ i + n
length-front zero zero = refl
length-front zero (suc n) = ap suc (length-front zero n) ∙ omega arith
length-front (suc i) n = ap suc (length-front i n) ∙ omega arith

-- The memory is mapped, and its descriptor open.
abbrev pub mapped : Handles
mapped = record nothing_open { shm_fd = true; shm = true }

-- The lock's semaphore is open too, and each slot has its places.
abbrev pub IsLocked : Handles → Type 0
IsLocked h =
    (h.sem_shmlock ≡ true)
    × (h.shm ≡ true)
    × (length h.sem_req ≡ slot_count)
    × (length h.sem_resp ≡ slot_count)

-- An opening that succeeded has opened all, and one that failed stopped at one of its steps.
abbrev pub Complete : {W : Type 0} → Opening W → Type 0
Complete (w, (h, true)) = h ≡ all_open
Complete (w, (h, false)) = (h ≡ nothing_open) ⊎ (h ≡ mapped) ⊎ IsLocked h

module _ {W : Type 0} (os : Os W) where
  abbrev sems : ℕ → ℕ → Handles
  sems i n = record all_open { sem_req = front i n; sem_resp = front i n }

  open_sems-Complete :
      (n i : ℕ) (w : W) → i + n ≡ slot_count → Complete (open_sems os n i (sems i n) w)
  unfolding open_sems
  open_sems-Complete zero i w e =
      ap (λ (xs : List Bool). record all_open { sem_req = xs; sem_resp = xs })
        (replicate_all i slot_count e)
  open_sems-Complete (suc n) i w e =
      at (os.sem_open w) (λ v. open_sems-Complete n (i + 1) v (omega (arith, e)))
    where
      next : i + 1 ≡ suc i
      next = omega arith

      whole : length (front i (suc n)) ≡ slot_count
      whole = length-front i (suc n) ∙ e

      later :
          (b : W × Bool)
          → ((v : W) → Complete (open_sems os n (i + 1) (sems (i + 1) n) v))
          → Complete (elim b.1 [
            | false ↦
                (b.0, (record (sems i (suc n)) { sem_req = set (front i (suc n)) i true }, false))
            | true ↦
                open_sems os n
                  (i + 1)
                  (record (sems i (suc n)) {
                    sem_req = set (front i (suc n)) i true;
                    sem_resp = set (front i (suc n)) i true;
                  })
                  b.0
          ])
      later (v, false) rest =
          inr (inr (refl, refl, length-set (front i (suc n)) i true ∙ whole, whole))
      later (v, true) rest =
          let same : set (front i (suc n)) i true ≡ front (i + 1) n =
            set_front i (replicate n false) ∙ ap (λ (k : ℕ). front k n) (sym next) in
          subst⁻¹
            (λ (xs : List Bool).
              Complete (open_sems os n (i + 1) (record all_open { sem_req = xs; sem_resp = xs }) v))
            same (rest v)

      at :
          (a : W × Bool)
          → ((v : W) → Complete (open_sems os n (i + 1) (sems (i + 1) n) v))
          → Complete (elim a.1 [
            | false ↦ (a.0, (sems i (suc n), false))
            | true ↦ elim (os.sem_open a.0).1 [
              | false ↦ (
                (os.sem_open a.0).0,
                (record (sems i (suc n)) { sem_req = set (front i (suc n)) i true }, false),
              )
              | true ↦
                  open_sems os n
                    (i + 1)
                    (record (sems i (suc n)) {
                      sem_req = set (front i (suc n)) i true;
                      sem_resp = set (front i (suc n)) i true;
                    })
                    (os.sem_open a.0).0
            ]
          ])
      at (v, false) rest = inr (inr (refl, refl, whole, whole))
      at (v, true) rest = later (os.sem_open v) rest

  open_lock-Complete : (w : W) → Complete (open_lock os mapped w)
  unfolding open_lock
  open_lock-Complete w = at (os.sem_open w)
    where
      at :
          (a : W × Bool)
          → Complete (elim a.1 [
            | false ↦ (a.0, (mapped, false))
            | true ↦ open_sems os slot_count 0 (sems 0 slot_count) a.0
          ])
      at (v, false) = inr (inl refl)
      at (v, true) = open_sems-Complete slot_count 0 v refl

  -- The memory, the lock and all 32 semaphores are open after an opening that succeeded.
  pub open_ipc-Complete : (w : W) → Complete (open_ipc os w)
  unfolding open_ipc
  open_ipc-Complete w = at (os.shm_open w)
    where
      later :
          (b : W × Bool)
          → Complete (elim b.1 [
            | false ↦ (b.0, (close_fd (record nothing_open { shm_fd = true }), false))
            | true ↦ open_lock os mapped b.0
          ])
      later (v, false) = inl refl
      later (v, true) = open_lock-Complete v

      at :
          (a : W × Bool)
          → Complete (elim a.1 [
            | false ↦ (a.0, (nothing_open, false))
            | true ↦ elim (os.mmap a.0).1 [
              | false ↦ ((os.mmap a.0).0, (close_fd (record nothing_open { shm_fd = true }), false))
              | true ↦ open_lock os mapped (os.mmap a.0).0
            ]
          ])
      at (v, false) = inl refl
      at (v, true) = later (os.mmap v)
