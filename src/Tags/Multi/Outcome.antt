-- ===== src/Tags/Multi/Outcome.antt =====
-- What reading several tags returns (c/src/multitag.c).
use mathlib.Core.Path.{subst⁻¹}
use cmee1y1_clients.Base.{
  ℕ, ◌*◌, ◌≡◌, ◌≢◌, refl, ap, sym, ◌∙◌, false, some, List, [], ◌∷◌, length, map, ◌==◌, inl, inr,
  Bool-cases, Result, ok, err, arith, All, length-map, ℤ, pos,
}
use cmee1y1_clients.Memory.{Buffer}
use cmee1y1_clients.State.{Client, Env}
use cmee1y1_clients.State.Code
use cmee1y1_clients.Call.Slots.{Locks}
use cmee1y1_clients.Call.Outcome.{IsTold}
use cmee1y1_clients.Tags.{TagDb, TagRequest, bp_tagdb_access, action_read}
use cmee1y1_clients.Tags.Scalars.{
  Kind, no_kind, boolean, sint, usint, int_, uint, dint, udint, real, lint, ulint, lreal,
  decode_scalar,
}
use cmee1y1_clients.Tags.Multi.{
  TagValue, Prepared, cleared, prepare_all, resolve_read, read_out, any_failed, settle_batch,
  send_prepared, alloc_each, bp_tagdb_read_tags,
}
use cmee1y1_clients.Tags.Multi.Requests.{resolve_read-Prepares}
use cmee1y1_clients.Tags.Multi.Batches.{
  EachPrepared, AllPrepared, prepare_all-AllPrepared, requests,
}
use cmee1y1_clients.Tags.Multi.Told.{
  Accessed, access-Accessed, resolve_read-Tells, prepare_all-LoopTold,
}

-- A tag that was read: no status, and a value of some type.
abbrev pub IsTyped : TagValue → Type 0
IsTyped t = (t.cip_status ≡ 0) × (t.value.kind ≢ no_kind)

decode_scalar-kind : (k : Kind) (p : Buffer) → (decode_scalar k p).kind ≡ k
unfolding decode_scalar
decode_scalar-kind no_kind p = refl
decode_scalar-kind boolean p = refl
decode_scalar-kind sint p = refl
decode_scalar-kind usint p = refl
decode_scalar-kind int_ p = refl
decode_scalar-kind uint p = refl
decode_scalar-kind dint p = refl
decode_scalar-kind udint p = refl
decode_scalar-kind real p = refl
decode_scalar-kind lint p = refl
decode_scalar-kind ulint p = refl
decode_scalar-kind lreal p = refl

module _ {W : Type 0} (env : Env W) (db : TagDb) where
  read_out-IsTyped :
      (ts : List TagValue) (ps : List Prepared) (rs : List TagRequest)
      → EachPrepared env db action_read ts ps
      → length rs ≡ length ps
      → any_failed rs ≡ false
      → All IsTyped (read_out ps rs ts)
        × (map (λ (t : TagValue). t.name) (read_out ps rs ts) ≡ map (λ (t : TagValue). t.name) ts)
  unfolding read_out any_failed
  read_out-IsTyped [] [] rs e l f = (tt, refl)
  read_out-IsTyped [] (p ∷ ps) rs e l f = elim e [ ]
  read_out-IsTyped (t ∷ ts) [] rs e l f = elim e [ ]
  read_out-IsTyped (t ∷ ts) (p ∷ ps) [] e l f = absurd (omega (arith, l))
  read_out-IsTyped (t ∷ ts) (p ∷ ps) (r ∷ rs) (h, e) l f = elim (Bool-cases (r.result == 0)) [
    | inr failed ↦ ground (arith, f, failed)
    | inl fine ↦
        let fails : any_failed rs ≡ false = ground (arith, f, fine) in
        let (reads, names) = read_out-IsTyped ts ps rs e (omega (arith, l)) fails in
        rw fine (
          (
            (ground (arith, fine), λ k. h.prepared.typed (sym (decode_scalar-kind p.kind _) ∙ k)),
            reads,
          ),
          ap (◌∷◌ t.name) names,
        )
  ]

map-name-cleared :
    (ts : List TagValue)
    → map (λ (t : TagValue). t.name) (map cleared ts) ≡ map (λ (t : TagValue). t.name) ts
map-name-cleared [] = refl
map-name-cleared (t ∷ ts) = ap (◌∷◌ t.name) (map-name-cleared ts)

abbrev pub names : List TagValue → List (List ℕ)
names ts = map (λ (t : TagValue). t.name) ts

-- What a read returns: if it is `BP_OK`, all tags were read.
abbrev AllRead {ℓ} : {C : Type ℓ} → List TagValue → C × (List TagValue × ℤ) → Type 0
AllRead ts (d, (out, rc)) = rc ≡ pos 0 → All IsTyped out × (names out ≡ names ts)

module _ {W : Type 0} (env : Env W) (db : TagDb) (locks : Locks env) where
  settle_batch-AllRead :
      (ts : List TagValue) (ps : List Prepared) (r : Client W × Result (List TagRequest))
      → EachPrepared env db action_read (map cleared ts) ps
      → Accessed env db (requests ps) r.1
      → AllRead ts (settle_batch (read_out ps) (map cleared ts) r)
  unfolding settle_batch
  settle_batch-AllRead ts ps (d, err e) each a rc = absurd (a rc)
  settle_batch-AllRead ts ps (d, ok rs) each a rc = elim (Bool-cases (any_failed rs)) [
    | inl failed ↦ absurd (generic-ok (rw failed at rc))
    | inr fine ↦
        let (reads, same) =
          read_out-IsTyped env db (map cleared ts) ps rs each
            (a ∙ length-map (λ (p : Prepared). p.request) ps) fine in
        (reads, same ∙ map-name-cleared ts)
  ]
    where
      generic-ok : Code.generic ≢ pos 0
      generic-ok e = cc

  send_prepared-AllRead :
      (ts : List TagValue) (r : Client W × (List TagValue × Result (List Prepared)))
      → AllPrepared env db action_read cleared ts r
      → IsTold r.1.1
      → AllRead ts (send_prepared env db read_out r)
  unfolding send_prepared
  send_prepared-AllRead ts (d, (out, err e)) a told rc = absurd (told rc)
  send_prepared-AllRead ts (d, (out, ok ps)) (same, each) told rc =
      subst⁻¹
        (λ o.
          AllRead ts (settle_batch (read_out ps) o (bp_tagdb_access env (some db) (requests ps) d)))
        same (settle_batch-AllRead ts ps _ each (access-Accessed env db (requests ps) d locks)) rc

  read_tags_lem :
      (ts : List TagValue) (c : Client W) → AllRead ts (bp_tagdb_read_tags env (some db) ts c)
  unfolding bp_tagdb_read_tags
  read_tags_lem [] c rc = (tt, refl)
  read_tags_lem (t ∷ ts) c rc =
      let n = length (t ∷ ts) in
      let some_tags : (n == 0) ≡ false = ground arith in
      elim (Bool-cases (alloc_each env (n * 32 ∷ n * 4 ∷ n * 8 ∷ []) c).1) [
        | inr lost ↦ absurd (client_open-ok (rw (some_tags, lost, bp_tagdb_read_tags) at rc))
        | inl got ↦
            let a = (alloc_each env (n * 32 ∷ n * 4 ∷ n * 8 ∷ []) c).0 in
            rw (some_tags, got, bp_tagdb_read_tags)
              (send_prepared-AllRead (t ∷ ts) (prepare_all cleared (resolve_read env db) (t ∷ ts) a)
                (prepare_all-AllPrepared env db action_read cleared (resolve_read env db)
                  (resolve_read-Prepares env db) (t ∷ ts) a)
                (prepare_all-LoopTold env db (resolve_read env db) (t ∷ ts) a
                  (resolve_read-Tells env db locks))
                (rw (some_tags, got, bp_tagdb_read_tags) at rc))
      ]
    where
      client_open-ok : Code.client_open ≢ pos 0
      client_open-ok e = cc

  -- Where the lock can be taken: if a read of several tags returns `BP_OK`, then every tag has the
  -- status 0 and a value of a type, in the order of the names that were given.
  pub read_tags-IsTyped :
      (ts : List TagValue) (c : Client W)
      → (bp_tagdb_read_tags env (some db) ts c).1.1 ≡ pos 0
      → All IsTyped (bp_tagdb_read_tags env (some db) ts c).1.0
        × (names (bp_tagdb_read_tags env (some db) ts c).1.0 ≡ names ts)
  read_tags-IsTyped ts c fine = at (bp_tagdb_read_tags env (some db) ts c) (read_tags_lem ts c) fine
    where
      at :
          (r : Client W × (List TagValue × ℤ))
          → AllRead ts r
          → r.1.1 ≡ pos 0
          → All IsTyped r.1.0 × (names r.1.0 ≡ names ts)
      at (d, (out, rc)) all rc_fine = all rc_fine
