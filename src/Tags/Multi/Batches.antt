-- ===== src/Tags/Multi/Batches.antt =====
-- The batches that c/src/multitag.c prepares: as long as the names, of scalars, and within a slot.
use mathlib.Core.Path.{subst⁻¹}
use cmee1y1_clients.Base.{
  ◌⊎◌, length-map, ℕ, suc, ◌-◌, ◌*◌, ◌≤◌, ◌≡◌, ◌≢◌, refl, ap, sym, ◌∙◌, subst, List, [], ◌∷◌,
  length, map, inl, inr, Result, ok, err, arith,
}
use cmee1y1_clients.State.{Client, Env, M}
use cmee1y1_clients.Call.{slot_stride}
use cmee1y1_clients.Tags.{
  TagDb, TagRequest, data_area_start, payload_size, action_read, action_write,
}
use cmee1y1_clients.Tags.Batch.{sum_bytes, total_data_bytes-sum}
use cmee1y1_clients.Tags.Access.{IsBatch}
use cmee1y1_clients.Tags.Multi.Requests.{
  IsResolved, width-bounds, Prepares, resolve_read-Prepares, resolve_write-Prepares,
}
use cmee1y1_clients.Tags.Multi.{
  TagValue, Prepared, cleared, prepare_all, join_prepared, resolve_read, resolve_write,
}

module _ {W : Type 0} (env : Env W) (db : TagDb) where
  -- The requests stand in the order of the tags, one for each.
  abbrev pub EachPrepared : ℕ → List TagValue → List Prepared → Type 0
  EachPrepared action [] [] = Unit
  EachPrepared action [] (p ∷ ps) = ⊥
  EachPrepared action (t ∷ ts) [] = ⊥
  EachPrepared action (t ∷ ts) (p ∷ ps) = IsResolved env action db t p × EachPrepared action ts ps

  -- How the loop over the tags ends.
  abbrev pub AllPrepared {ℓ} :
      {C : Type ℓ}
      → ℕ
      → (TagValue → TagValue)
      → List TagValue
      → C × (List TagValue × Result (List Prepared))
      → Type 0
  AllPrepared action reset ts (d, (out, ok ps)) =
      (out ≡ map reset ts) × EachPrepared action (map reset ts) ps
  AllPrepared action reset ts (d, (out, err e)) = length out ≡ length ts

  module _ (action : ℕ) (reset : TagValue → TagValue) (prepare : TagValue → M W Prepared)
      (prepares : (t : TagValue) (c : Client W) → Prepares env action db t (prepare t c).1) where
    join-AllPrepared :
        (t : TagValue) (ts : List TagValue) (p : Prepared)
        (r : Client W × (List TagValue × Result (List Prepared)))
        → IsResolved env action db (reset t) p
        → AllPrepared action reset ts r
        → AllPrepared action reset (t ∷ ts) (join_prepared (reset t) p r)
    join-AllPrepared t ts p (d, (out, ok ps)) h (same, each) = (ap (◌∷◌ (reset t)) same, (h, each))
    join-AllPrepared t ts p (d, (out, err e)) h long = ap suc long

    pub prepare_all-AllPrepared :
        (ts : List TagValue) (c : Client W)
        → AllPrepared action reset ts (prepare_all reset prepare ts c)
    unfolding prepare_all
    prepare_all-AllPrepared [] c = (refl, tt)
    prepare_all-AllPrepared (t ∷ ts) c =
        at (prepare (reset t) c) (prepares (reset t) c) (prepare_all-AllPrepared ts)
      where
        at :
            (r : Client W × Result Prepared)
            → Prepares env action db (reset t) r.1
            → ((d : Client W) → AllPrepared action reset ts (prepare_all reset prepare ts d))
            → AllPrepared {C = Client W} action reset (t ∷ ts) (elim r.1 [
              | ok p ↦ join_prepared (reset t) p (prepare_all reset prepare ts r.0)
              | err e ↦ (r.0, (reset t ∷ ts, err e))
            ])
        at (d, ok p) h rest = join-AllPrepared t ts p (prepare_all reset prepare ts d) h (rest d)
        at (d, err e) h rest = refl

abbrev pub requests : List Prepared → List TagRequest
requests ps = map (λ (p : Prepared). p.request) ps

module _ {W : Type 0} (env : Env W) (db : TagDb) where
  EachPrepared-sum :
      (action : ℕ) (ts : List TagValue) (ps : List Prepared)
      → EachPrepared env db action ts ps
      → (length (requests ps) ≡ length ts) × (sum_bytes (requests ps) ≤ 8 * length ts)
  EachPrepared-sum action [] [] e = (refl, omega arith)
  EachPrepared-sum action [] (p ∷ ps) e = elim e [ ]
  EachPrepared-sum action (t ∷ ts) [] e = elim e [ ]
  EachPrepared-sum action (t ∷ ts) (p ∷ ps) (h, e) =
      let (long, small) = EachPrepared-sum action ts ps e in
      let (low, high) = width-bounds p.kind h.prepared.typed in
      let size = h.prepared.size in (ap suc long, omega (arith, small, high, size))

  -- A batch that was prepared for 1 to 16 tags is one that the access can send: its requests are 1 to
  -- 16, the sum of their sizes does not wrap, and the payload fits a slot.
  pub EachPrepared-IsBatch :
      (action : ℕ) (ts : List TagValue) (ps : List Prepared)
      → EachPrepared env db action ts ps
      → length ts ≢ 0
      → length ts ≤ 16
      → IsBatch (requests ps)
        × (payload_size (data_area_start (length (requests ps))) (requests ps) ≤ slot_stride - 0x80)
  unfolding payload_size
  EachPrepared-IsBatch action ts ps e some_tags few =
      let (long, small) = EachPrepared-sum action ts ps e in
      let sum = total_data_bytes-sum (requests ps) in
      (
        record {
          not_empty = λ z. some_tags (sym long ∙ z);
          at_most = omega (arith, long, few);
          no_wrap = omega (arith, long, few, small);
        },
        omega (arith, long, few, small, sum),
      )

  sends :
      (action : ℕ) (reset : TagValue → TagValue) (ts out : List TagValue) (ps : List Prepared)
      → out ≡ map reset ts
      → EachPrepared env db action (map reset ts) ps
      → length ts ≢ 0
      → length ts ≤ 16
      → EachPrepared env db action out ps
        × IsBatch (requests ps)
        × (payload_size (data_area_start (length (requests ps))) (requests ps) ≤ slot_stride - 0x80)
  sends action reset ts out ps same each some_tags few =
      let long = length-map reset ts in
      let (batch, fits) =
        EachPrepared-IsBatch action (map reset ts) ps each (λ z. some_tags (sym long ∙ z))
          (omega (arith, long, few)) in
      (subst⁻¹ (λ o. EachPrepared env db action o ps) same each, batch, fits)

  -- The tags could all be prepared to be read, or to be written.
  abbrev pub IsReady :
      ℕ → List TagValue → List TagValue → List Prepared → Client W → Client W → Type 0
  IsReady action ts out ps c d =
      ((action ≡ action_read)
        × (prepare_all cleared (resolve_read env db) ts c ≡ (d, (out, ok ps))))
      ⊎ ((action ≡ action_write)
          × (prepare_all (λ (t : TagValue). record t { cip_status = 0 }) (resolve_write env db) ts c
              ≡ (d, (out, ok ps))))

  -- For 1 to 16 tags: if all of them could be prepared, to be read or to be written, then the batch
  -- that is sent has one request for each, in their order, to read or to write as was asked, under the
  -- tag's name and for one scalar of the type, size and kind of the symbol that a lookup of that name
  -- found; and it passes the guards on the number of requests and on the payload's size.
  pub multi-IsBatch :
      (action : ℕ) (ts out : List TagValue) (ps : List Prepared) (c d : Client W)
      → length ts ≢ 0
      → length ts ≤ 16
      → IsReady action ts out ps c d
      → EachPrepared env db action out ps
        × IsBatch (requests ps)
        × (payload_size (data_area_start (length (requests ps))) (requests ps) ≤ slot_stride - 0x80)
  multi-IsBatch action ts out ps c d some_tags few (inl (same_action, reads)) =
      let (same, each) = subst (AllPrepared env db action_read cleared ts) reads (
        prepare_all-AllPrepared env db action_read cleared (resolve_read env db)
          (resolve_read-Prepares env db) ts c) in
      sends action cleared ts out ps same
        (subst⁻¹ (λ a. EachPrepared env db a (map cleared ts) ps) same_action each) some_tags few
  multi-IsBatch action ts out ps c d some_tags few (inr (same_action, writes)) =
      let reset : TagValue → TagValue = λ (t : TagValue). record t { cip_status = 0 } in
      let (same, each) = subst (AllPrepared env db action_write reset ts) writes (
        prepare_all-AllPrepared env db action_write reset (resolve_write env db)
          (resolve_write-Prepares env db) ts c) in
      sends action reset ts out ps same
        (subst⁻¹ (λ a. EachPrepared env db a (map reset ts) ps) same_action each) some_tags few
