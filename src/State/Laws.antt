-- ===== src/State/Laws.antt =====
-- How a chain of fallible operations goes on: at a success with the rest, at a failure not at all.
use cmee1y1_clients.Base.{◌≡◌, ap, ℤ, ok, err}
use cmee1y1_clients.State.{Client, M, continue, ◌>>=◌}

module _ {ℓ κ} {W : Type 0} {A : Type ℓ} {B : Type κ} (m : M W A) (f : A → M W B)
    (c : Client W) where
  pub bind_ok : {c' : Client W} {a : A} → m c ≡ (c', ok a) → (m >>= f) c ≡ f a c'
  bind_ok h = ap (continue f) h

  pub bind_err : {c' : Client W} {e : ℤ} → m c ≡ (c', err e) → (m >>= f) c ≡ (c', err e)
  bind_err h = ap (continue f) h
