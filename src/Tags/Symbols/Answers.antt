-- ===== src/Tags/Symbols/Answers.antt =====
-- What the answers about symbols hold, and what a test of a version answers (c/src/tagdb.c).
use cmee1y1_clients.Base.{
  ℕ, zero, suc, ◌+◌, ◌<◌, ◌≤◌, ◌≡◌, ◌≢◌, refl, ap, ◌⊎◌, inl, inr, Bool, true, false, ◌||◌, some,
  length, ◌==◌, codes, pos, negsuc, Result, ok, err, arith, All, Bool-cases,
}
use cmee1y1_clients.Memory.{Buffer, c_string}
use cmee1y1_clients.State.{Client, Env}
use cmee1y1_clients.Call.{bp_client_call}
use cmee1y1_clients.Call.Slots.{Locks}
use cmee1y1_clients.Call.Outcome.{IsTold, bp_client_call-IsTold}
use cmee1y1_clients.Tags.{TagDb}
use cmee1y1_clients.Tags.Symbols.{
  parse_symbol, si_read, smi_read, handle_spec, version_changed, bp_tagdb_test_version,
}

pub c_string-bounds :
    (p : Buffer) (o n : ℕ) → (length (c_string p o n) ≤ n) × All (λ b. b ≢ 0) (c_string p o n)
unfolding c_string
c_string-bounds p o zero = (omega arith, tt)
c_string-bounds p o (suc n) = elim (Bool-cases (p o == 0)) [
  | inl nul ↦ rw nul (omega arith, tt)
  | inr char ↦
      let r = c_string-bounds p (o + 1) n in
      rw char (omega (arith, r.0), (ground (arith, char), r.1))
]

-- Whatever the server wrote, the names of a symbol, a structure and a member fit the client's arrays
-- of 100, 40 and 44 bytes with their NUL, and no byte before it is one.
pub names-bounds :
    (p : Buffer)
    → ((length (parse_symbol p).name < 100) × All (λ b. b ≢ 0) (parse_symbol p).name)
      × ((length (si_read p).name < 40) × All (λ b. b ≢ 0) (si_read p).name)
      × ((length (smi_read p).name < 44) × All (λ b. b ≢ 0) (smi_read p).name)
unfolding parse_symbol si_read smi_read
names-bounds p =
    let a = c_string-bounds p 0x80 99 in
    let b = c_string-bounds p 0x80 39 in
    let c = c_string-bounds p 0x80 43 in
    ((omega (arith, a.0), a.1), (omega (arith, b.0), b.1), (omega (arith, c.0), c.1))

-- What a test of the version answers for the outcome of its call.
abbrev pub Tested : Result (Unit {0}) → Result Bool → Type 0
Tested (ok u) r = r ≡ ok false
Tested (err e) r =
    (((e ≡ pos 0x14) ⊎ (e ≡ pos 0x15)) × (r ≡ ok true))
    ⊎ ((e ≢ pos 0x14) × (e ≢ pos 0x15) × (r ≡ err e))

version_changed-Tested : (r : Result (Unit {0})) → IsTold r → Tested r (version_changed r)
unfolding version_changed
version_changed-Tested (ok u) t = refl
version_changed-Tested (err (pos n)) t = elim (Bool-cases (n == 0)) [
  | inl nothing ↦ absurd (t (ap pos (ground (arith, nothing))))
  | inr some_code ↦ elim (Bool-cases (n == 0x14 || n == 0x15)) [
    | inl stale ↦ rw (some_code, stale) (inl (ground (arith, stale), refl))
    | inr other ↦
        rw (some_code, other)
          (inr (λ e. ground (arith, other, e), λ e. ground (arith, other, e), refl))
  ]
]
version_changed-Tested (err (negsuc n)) t = inr (λ e. cc, λ e. cc, refl)

-- Where the lock can be taken: the cache of tags is current exactly if the call succeeds; the
-- errorcodes 0x14 and 0x15 say that it is not; and any other failure is the caller's.
pub test_version-Tested :
    {W : Type 0} (env : Env W) (db : TagDb) (c : Client W)
    → Locks env
    → Tested
        (bp_client_call env (handle_spec (codes "OCXcip_TestTagDbVer") db.handle) c).1
        (bp_tagdb_test_version env (some db) c).1
unfolding bp_tagdb_test_version
test_version-Tested env db c locks =
    version_changed-Tested _
      (bp_client_call-IsTold env (handle_spec (codes "OCXcip_TestTagDbVer") db.handle) c locks)
