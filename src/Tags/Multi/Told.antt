-- ===== src/Tags/Multi/Told.antt =====
-- Preparing tags to be read, and a batch, fail with a code (c/src/multitag.c).
use cmee1y1_clients.Base.{
  ℕ, suc, ◌+◌, ◌-◌, ◌%◌, ◌^◌, ◌≡◌, ◌≢◌, refl, ap, ◌∙◌, some, List, [], ◌∷◌, length, ltb, ◌==◌, inl,
  inr, Bool-cases, Result, ok, err, pos,
}
use cmee1y1_clients.Memory.{Buffer}
use cmee1y1_clients.State.{SymbolInfo, Client, Env, M}
use cmee1y1_clients.Call.{bp_client_call, slot_stride}
use cmee1y1_clients.Call.Slots.{Locks}
use cmee1y1_clients.Call.Outcome.{IsTold, bp_client_call-IsTold}
use cmee1y1_clients.Call.Reply.{IsReply, bp_client_call-IsReply}
use cmee1y1_clients.Tags.{
  TagDb, TagRequest, read_each, nbytes, access_read, access_spec, access_checked, bp_tagdb_access,
  data_area_start, payload_size,
}
use cmee1y1_clients.Tags.Values.{with_memory}
use cmee1y1_clients.Tags.Scalars.{no_kind, kind_for_atomic}
use cmee1y1_clients.Tags.Walk.{bp_tagdb_lookup_symbol}
use cmee1y1_clients.Tags.Walk.Told.{Tells, bind-Tells, lookup_symbol-Tells}
use cmee1y1_clients.Tags.Multi.{
  TagValue, Prepared, cleared, is_scalar, same_kind, prepare_read, prepare_all, resolve_read,
  join_prepared,
}

read_each-length :
    (at : ℕ → ℕ) (i off : ℕ) (rs : List TagRequest) (p : Buffer)
    → length (read_each at i off rs p) ≡ length rs
unfolding read_each
read_each-length at i off [] p = refl
read_each-length at i off (r ∷ rs) p =
    ap suc (read_each-length at (i + 1) ((off + nbytes r) % 2 ^ 32) rs p)

module _ {W : Type 0} (env : Env W) (db : TagDb) where
  -- How a batch ends: with as many requests, or with a code.
  abbrev pub Accessed : List TagRequest → Result (List TagRequest) → Type 0
  Accessed rs (ok out) = length out ≡ length rs
  Accessed rs (err e) = e ≢ pos 0

  pub access-Accessed :
      (rs : List TagRequest) (c : Client W)
      → Locks env
      → Accessed rs (bp_tagdb_access env (some db) rs c).1
  unfolding bp_tagdb_access access_checked access_read
  access-Accessed rs c locks = elim (Bool-cases (length rs == 0)) [
    | inl empty ↦ rw (empty, access_checked) (λ e. cc)
    | inr some_requests ↦ elim (Bool-cases (ltb 16 (length rs))) [
      | inl many ↦ rw (some_requests, many, access_checked) (λ e. cc)
      | inr few ↦
          elim (Bool-cases
            (ltb (slot_stride - 0x80) (payload_size (data_area_start (length rs)) rs))) [
              | inl large ↦ rw (some_requests, few, large, access_checked) (λ e. cc)
              | inr fits ↦
                  rw (some_requests, few, fits, access_checked)
                    (at (bp_client_call env (access_spec db rs) c).1
                      (bp_client_call-IsReply env (access_spec db rs) c)
                      (bp_client_call-IsTold env (access_spec db rs) c locks))
            ]
    ]
  ]
    where
      at : (r : Result (List TagRequest)) → IsReply (access_spec db rs) r → IsTold r → Accessed rs r
      at (ok out) (p, e) t = ap length e ∙ read_each-length _ _ _ rs p
      at (err e) u t = t

  prepare_read-Tells : (name : List ℕ) (s : SymbolInfo) → Tells (prepare_read env name s)
  unfolding prepare_read with_memory
  prepare_read-Tells name s c = elim (Bool-cases (is_scalar s)) [
    | inr other ↦ rw (other, prepare_read) (λ e. cc)
    | inl scalar ↦
        elim (Bool-cases (same_kind (kind_for_atomic s.data_type s.elem_byte_size) no_kind)) [
          | inl unknown ↦ rw (scalar, unknown, prepare_read) (λ e. cc)
          | inr known ↦ elim (Bool-cases (env.alloc c.world s.elem_byte_size).1) [
            | inr lost ↦ rw (scalar, known, lost, prepare_read, with_memory) (λ e. cc)
            | inl got ↦ rw (scalar, known, got, prepare_read, with_memory) tt
          ]
        ]
  ]

  pub resolve_read-Tells : Locks env → (t : TagValue) → Tells (resolve_read env db t)
  resolve_read-Tells locks t =
      bind-Tells (bp_tagdb_lookup_symbol env (some db) t.name) (prepare_read env t.name)
        (lookup_symbol-Tells env locks db t.name) (prepare_read-Tells t.name)

  abbrev pub LoopTold : Client W × (List TagValue × Result (List Prepared)) → Type 0
  LoopTold (d, (out, r)) = IsTold r

  join-LoopTold :
      (t : TagValue) (p : Prepared) (r : Client W × (List TagValue × Result (List Prepared)))
      → LoopTold r
      → LoopTold (join_prepared t p r)
  join-LoopTold t p (d, (out, ok ps)) h = tt
  join-LoopTold t p (d, (out, err e)) h = h

  pub prepare_all-LoopTold :
      (prepare : TagValue → M W Prepared) (ts : List TagValue) (c : Client W)
      → ((t : TagValue) → Tells (prepare t))
      → LoopTold (prepare_all cleared prepare ts c)
  unfolding prepare_all
  prepare_all-LoopTold prepare [] c h = tt
  prepare_all-LoopTold prepare (t ∷ ts) c h =
      at (prepare (cleared t) c) (h (cleared t) c) (λ d. prepare_all-LoopTold prepare ts d h)
    where
      at :
          (r : Client W × Result Prepared)
          → IsTold r.1
          → ((d : Client W) → LoopTold (prepare_all cleared prepare ts d))
          → LoopTold (elim r.1 [
            | ok p ↦ join_prepared (cleared t) p (prepare_all cleared prepare ts r.0)
            | err e ↦ (r.0, (cleared t ∷ ts, err e))
          ])
      at (d, ok p) told rest =
          join-LoopTold (cleared t) p (prepare_all cleared prepare ts d) (rest d)
      at (d, err e) told rest = told
