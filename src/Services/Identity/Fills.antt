-- ===== src/Services/Identity/Fills.antt =====
-- What the engine finds of a path and an instance (c/src/identity.c).
use cmee1y1_clients.Base.{
  ℕ, ◌+◌, ◌%◌, ◌^◌, ◌≤◌, ◌<◌, ◌≡◌, ◌∙◌, refl, ◌⊎◌, inl, inr, List, length, arith,
}
use cmee1y1_clients.Memory.{Buffer, bp_st_u16, bp_ld_u16, slice}
use cmee1y1_clients.Memory.Laws.{st_u16-out, ld_u16-st, ld_u16-Apart, slice-agree}
use cmee1y1_clients.Services.{path_fill}
use cmee1y1_clients.Services.Paths.Fills.{path_fill-path, path_fill-out}
use cmee1y1_clients.Services.Identity.{gid_dev_fill, gids_fill, exd_fill, icp_fill}

-- A request for an instance of a device: the path with its NUL, the instance at `o`, and nothing else
-- outside of the first `size` bytes of the slot.
pub record Asks (path : List ℕ) (instance_id o size : ℕ) (p q : Buffer) : Type 0 where
  pub path_there : slice q 0x78 (length path) ≡ path
  pub ended : q (0x78 + length path) ≡ 0
  pub at : bp_ld_u16 q o ≡ instance_id % 2 ^ 16
  pub others : (i : ℕ) → (i < 0x78) ⊎ (size ≤ i) → q i ≡ p i

instance-Asks :
    (path : List ℕ) (instance_id o size : ℕ) (p r : Buffer)
    → length path ≤ 254
    → 0x178 ≤ o
    → o + 2 ≤ size
    → ((i : ℕ) → (i < 0x178) ⊎ (size ≤ i) → r i ≡ path_fill path p i)
    → Asks path instance_id o size p (bp_st_u16 r o instance_id)
instance-Asks path instance_id o size p r short behind fits same =
    let written = path_fill-path path p short in
    record {
      path_there =
          slice-agree _ (path_fill path p) 0x78 (length path) (λ i a b.
            st_u16-out r o instance_id i (inl (omega (arith, b, short, behind)))
            ∙ same i (inl (omega (arith, b, short))))
          ∙ written.0;
      ended =
          st_u16-out r o instance_id (0x78 + length path) (inl (omega (arith, short, behind)))
          ∙ same (0x78 + length path) (inl (omega (arith, short)))
          ∙ written.1;
      at = ld_u16-st r o instance_id;
      others = λ i out. elim out [
        | inl low ↦
            st_u16-out r o instance_id i (inl (omega (arith, low, behind)))
            ∙ same i (inl (omega (arith, low)))
            ∙ path_fill-out path p i short (inl low)
        | inr high ↦
            st_u16-out r o instance_id i (inr (omega (arith, high, fits)))
            ∙ same i (inr high)
            ∙ path_fill-out path p i short (inr (omega (arith, high, behind, fits)))
      ];
    }

-- For a path of 254 bytes at most, the four requests for an instance of a device hold the path and,
-- each at the place that its service reads, the instance, and write nothing outside their payloads;
-- and the status of an Identity is read from a word that the request cleared.
pub identity-Asks :
    (path : List ℕ) (instance_id : ℕ) (p : Buffer)
    → length path ≤ 254
    → Asks path instance_id 0x178 0x1B0 p (gid_dev_fill path instance_id p)
      × Asks path instance_id 0x17A 0x180 p (gids_fill path instance_id p)
      × Asks path instance_id 0x25A 0x260 p (exd_fill path instance_id p)
      × Asks path instance_id 0x18C 0x190 p (icp_fill path instance_id p)
      × (bp_ld_u16 (gids_fill path instance_id p) 0x178 ≡ 0)
unfolding gid_dev_fill gids_fill exd_fill icp_fill
identity-Asks path instance_id p short =
    let plain = path_fill path p in
    let cleared = bp_st_u16 plain 0x178 0 in
    (
      instance-Asks path instance_id 0x178 0x1B0 p plain short (omega arith) (omega arith)
          (λ i h. refl),
      instance-Asks path instance_id 0x17A 0x180 p cleared short (omega arith) (omega arith) (λ i h.
          st_u16-out plain 0x178 0 i (elim h [ inl x ↦ inl x | inr x ↦ inr (omega (arith, x)) ])),
      instance-Asks path instance_id 0x25A 0x260 p plain short (omega arith) (omega arith)
          (λ i h. refl),
      instance-Asks path instance_id 0x18C 0x190 p plain short (omega arith) (omega arith)
          (λ i h. refl),
      ld_u16-Apart cleared 0x178 0x17A instance_id (inl (omega arith)) ∙ ld_u16-st plain 0x178 0,
    )
