-- ===== src/Services/Paths/Fills.antt =====
-- What the engine finds of a path (c/src/path.c, identity.c and wctime.c).
use cmee1y1_clients.Base.{
  ℕ, ◌+◌, ◌≤◌, ◌<◌, ◌≡◌, ap, ◌∙◌, ◌⊎◌, inl, inr, List, [], ◌∷◌, length, take, arith, suc, zero,
  refl,
}
use cmee1y1_clients.Memory.{Buffer, st_u8, memcpy, slice}
use cmee1y1_clients.Memory.Laws.{st_u8-out, memcpy-out, slice-agree, slice-memcpy}
use cmee1y1_clients.Services.{path_fill}

pub take_short : (n : ℕ) (xs : List ℕ) → length xs ≤ n → take n xs ≡ xs
take_short n [] h = at n
  where
    at : (n : ℕ) → take {A = ℕ} n [] ≡ []
    at zero = refl
    at (suc n) = refl
take_short zero (x ∷ xs) h = elim h [ ]
take_short (suc n) (x ∷ xs) h = ap (◌∷◌ x) (take_short n xs (omega (arith, h)))

pub st_u8_self : (m : Buffer) (o v : ℕ) → v < 256 → st_u8 m o v o ≡ v
unfolding st_u8
st_u8_self m o v h = ground (arith, h)

-- A path of 254 bytes at most stands whole at the start of the payload, before a NUL.
pub path_fill-path :
    (path : List ℕ) (p : Buffer)
    → length path ≤ 254
    → (slice (path_fill path p) 0x78 (length path) ≡ path)
      × (path_fill path p (0x78 + length path) ≡ 0)
unfolding path_fill
path_fill-path path p short =
    let whole = take_short 254 path short in
    rw whole (
      slice-agree _ (memcpy p 0x78 path) 0x78 (length path) (λ i a b.
            st_u8-out (memcpy p 0x78 path) (0x78 + length path) 0 i (λ e. omega (arith, e, b)))
          ∙ slice-memcpy p 0x78 path,
      st_u8_self (memcpy p 0x78 path) (0x78 + length path) 0 (omega arith),
    )

pub path_fill-out :
    (path : List ℕ) (p : Buffer) (i : ℕ)
    → length path ≤ 254
    → (i < 0x78) ⊎ (0x178 ≤ i)
    → path_fill path p i ≡ p i
unfolding path_fill
path_fill-out path p i short out =
    let whole = take_short 254 path short in
    rw whole (
      st_u8-out (memcpy p 0x78 path) (0x78 + length path) 0 i
        (λ e. elim out [ inl x ↦ omega (arith, e, x, short) | inr x ↦ omega (arith, e, x, short) ])
      ∙ memcpy-out p 0x78 path i
          (elim out [ inl x ↦ inl x | inr x ↦ inr (omega (arith, short, x)) ]))
