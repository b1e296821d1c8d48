-- ===== src/Tags/Multi.antt =====
-- c/src/multitag.c: reading and writing several scalar tags, whose names are looked up, in one batch.
-- What is printed on stderr is left out.
pub mod Requests
pub mod Batches
pub mod Told
pub mod Outcome
pub mod Writes
use cmee1y1_clients.Base.{
  ℕ, ◌-◌, ◌*◌, ◌%◌, ◌^◌, Bool, true, false, not, ◌&&◌, ◌||◌, Option, none, some, List, [], ◌∷◌,
  ◌++◌, length, map, replicate, ◌==◌, if◌then◌else◌, ℤ, Result, ok, err,
}
use cmee1y1_clients.Memory.{of_bytes}
use cmee1y1_clients.State.{SymbolInfo, Client, Env, M, ◌>>=◌, fail, return}
use cmee1y1_clients.State.Code
use cmee1y1_clients.Tags.{TagDb, TagRequest, action_read, action_write, bp_tagdb_access}
use cmee1y1_clients.Tags.Values.{bytes_behind, zeros, map_ok, with_memory}
use cmee1y1_clients.Tags.Scalars.{
  Kind, no_kind, boolean, sint, usint, int_, uint, dint, udint, real, lint, ulint, lreal, Value,
  kind_for_atomic, decode_scalar, encode_scalar,
}
use cmee1y1_clients.Tags.Walk.{bp_tagdb_lookup_symbol}

-- A name, and the `bp_value_t` at the same index. A string's kind is no scalar's, so that it is the
-- same as no kind here.
pub record TagValue : Type 0 where
  pub name : List ℕ
  pub value : Value
  pub cip_status : ℕ

-- A request of the batch, and the kind of its value.
pub record Prepared : Type 0 where
  pub kind : Kind
  pub request : TagRequest

-- The kinds' numbers.
abbrev pub kind_number : Kind → ℕ
kind_number no_kind = 0
kind_number boolean = 1
kind_number sint = 2
kind_number int_ = 3
kind_number dint = 4
kind_number lint = 5
kind_number usint = 6
kind_number uint = 7
kind_number udint = 8
kind_number ulint = 9
kind_number real = 10
kind_number lreal = 11

abbrev pub same_kind : Kind → Kind → Bool
same_kind k l = kind_number k == kind_number l

-- `memset(&out_values[i], 0, sizeof(out_values[i]))`
abbrev pub cleared : TagValue → TagValue
cleared t = record t { value = record { kind = no_kind; bits = 0 }; cip_status = 0 }

-- An array or a structure is no scalar.
abbrev pub is_scalar : SymbolInfo → Bool
is_scalar s = s.dim0 == 0 && s.struct_type == 0

abbrev pub scalar_request : ℕ → List ℕ → SymbolInfo → List ℕ → TagRequest
scalar_request action name s buf = record {
  tag_name = name;
  data_type = s.data_type;
  elem_byte_size = s.elem_byte_size % 2 ^ 16;
  action = action;
  elem_count = 1;
  bytes = some buf;
  result = 0;
}

-- The value's bytes at the start of an array of 8.
abbrev pub padded : List ℕ → List ℕ
padded bs = bs ++ replicate (8 - length bs) 0

unfoldable pub prepare_encoded :
    {W : Type 0} → List ℕ → SymbolInfo → Kind → Option (List ℕ) → M W Prepared
prepare_encoded name s k none = fail Code.param_range
prepare_encoded name s k (some bs) =
    return (record { kind = k; request = scalar_request action_write name s (padded bs) })

unfoldable pub prepare_write : {W : Type 0} → List ℕ → Value → SymbolInfo → M W Prepared
prepare_write name v s =
    let expected = kind_for_atomic s.data_type s.elem_byte_size in
    if not (is_scalar s)
    then fail Code.param_range
    else if same_kind expected no_kind
    then fail Code.param_range
    else if not (same_kind v.kind expected)
    then fail Code.param_range
    else prepare_encoded name s expected (encode_scalar v.kind v.bits s.elem_byte_size)

-- The results and the decoded values; the value of a tag that failed stays as it was cleared.
unfoldable pub read_out : List Prepared → List TagRequest → List TagValue → List TagValue
read_out (p ∷ ps) (r ∷ rs) (t ∷ ts) =
    record t {
      cip_status = r.result;
      value =
          if r.result == 0 then decode_scalar p.kind (of_bytes (bytes_behind r.bytes)) else t.value;
    }
    ∷ read_out ps rs ts
read_out _ _ ts = ts

unfoldable pub write_out : List Prepared → List TagRequest → List TagValue → List TagValue
write_out (p ∷ ps) (r ∷ rs) (t ∷ ts) = record t { cip_status = r.result } ∷ write_out ps rs ts
write_out _ _ ts = ts

unfoldable pub any_failed : List TagRequest → Bool
any_failed [] = false
any_failed (r ∷ rs) = not (r.result == 0) || any_failed rs

-- A prepared tag in front of what the loop does with those after it.
abbrev pub join_prepared :
    {W : Type 0}
    → TagValue
    → Prepared
    → Client W × (List TagValue × Result (List Prepared))
    → Client W × (List TagValue × Result (List Prepared))
join_prepared t p (c, (ts, r)) = (c, (t ∷ ts, map_ok (λ ps. p ∷ ps) r))

module _ {W : Type 0} where
  -- The loop over the names: each value is reset, then its request prepared; a failure ends the loop
  -- and leaves the values after it alone.
  unfoldable pub prepare_all :
      (TagValue → TagValue)
      → (TagValue → M W Prepared)
      → List TagValue
      → Client W
      → Client W × (List TagValue × Result (List Prepared))
  prepare_all reset prepare [] c = (c, ([], ok []))
  prepare_all reset prepare (t ∷ ts) c =
      let r = prepare (reset t) c in
      elim r.1 [
        | ok p ↦ join_prepared (reset t) p (prepare_all reset prepare ts r.0)
        | err e ↦ (r.0, (reset t ∷ ts, err e))
      ]

  -- After the batch: `out` stores the results.
  unfoldable pub settle_batch :
      (List TagRequest → List TagValue → List TagValue)
      → List TagValue
      → Client W × Result (List TagRequest)
      → Client W × (List TagValue × ℤ)
  settle_batch out ts (c, ok rs) =
      (c, (out rs ts, if any_failed rs then Code.generic else Code.bp_ok))
  settle_batch out ts (c, err e) = (c, (ts, e))

module _ {W : Type 0} (env : Env W) where
  -- `calloc(1, elem_byte_size)` gives the buffer of a value.
  unfoldable pub prepare_read : List ℕ → SymbolInfo → M W Prepared
  prepare_read name s =
      let kind = kind_for_atomic s.data_type s.elem_byte_size in
      if not (is_scalar s)
      then fail Code.param_range
      else if same_kind kind no_kind
      then fail Code.param_range
      else with_memory env s.elem_byte_size (
          return (record {
            kind = kind;
            request = scalar_request action_read name s (zeros s.elem_byte_size);
          }))

  abbrev pub resolve_read : TagDb → TagValue → M W Prepared
  resolve_read db t = do s ← bp_tagdb_lookup_symbol env (some db) t.name; prepare_read t.name s

  abbrev pub resolve_write : TagDb → TagValue → M W Prepared
  resolve_write db t = do
    s ← bp_tagdb_lookup_symbol env (some db) t.name
    prepare_write t.name t.value s

  -- All arrays are asked for, whatever comes of the first.
  unfoldable pub alloc_each : List ℕ → Client W → Client W × Bool
  alloc_each [] c = (c, true)
  alloc_each (n ∷ ns) c =
      let r = env.alloc c.world n in
      let rest = alloc_each ns (record c { world = r.0 }) in (rest.0, r.1 && rest.1)

  unfoldable pub send_prepared :
      TagDb
      → (List Prepared → List TagRequest → List TagValue → List TagValue)
      → Client W × (List TagValue × Result (List Prepared))
      → Client W × (List TagValue × ℤ)
  send_prepared db out (c, (ts, ok ps)) =
      settle_batch (out ps) ts
        (bp_tagdb_access env (some db) (map (λ (p : Prepared). p.request) ps) c)
  send_prepared db out (c, (ts, err e)) = (c, (ts, e))

  -- A request has 32 bytes, a kind 4 and a pointer 8. The values with the returned code.
  unfoldable pub bp_tagdb_read_tags :
      Option TagDb → List TagValue → Client W → Client W × (List TagValue × ℤ)
  bp_tagdb_read_tags none ts c = (c, (ts, Code.null_arg))
  bp_tagdb_read_tags (some db) ts c =
      let n = length ts in
      let a = alloc_each (n * 32 ∷ n * 4 ∷ n * 8 ∷ []) c in
      if n == 0
      then (c, (ts, Code.bp_ok))
      else if not a.1
      then (a.0, (ts, Code.client_open))
      else send_prepared db read_out (prepare_all cleared (resolve_read db) ts a.0)

  unfoldable pub bp_tagdb_write_tags :
      Option TagDb → List TagValue → Client W → Client W × (List TagValue × ℤ)
  bp_tagdb_write_tags none ts c = (c, (ts, Code.null_arg))
  bp_tagdb_write_tags (some db) ts c =
      let n = length ts in
      let a = alloc_each (n * 32 ∷ n * 8 ∷ []) c in
      if n == 0
      then (c, (ts, Code.bp_ok))
      else if not a.1
      then (a.0, (ts, Code.client_open))
      else send_prepared db write_out
          (prepare_all (λ t. record t { cip_status = 0 }) (resolve_write db) ts a.0)
