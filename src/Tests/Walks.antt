-- ===== src/Tests/Walks.antt =====
-- Runs of the theorems on the symbol caches and on batches of several tags.
use cmee1y1_clients.Base.{
  ℕ, zero, suc, ◌-◌, ◌≤◌, ◌≡◌, refl, true, some, List, [], ◌∷◌, inl, arith, All, ok, pos, eq_bytes,
}
use cmee1y1_clients.State.{SymbolInfo, TagCache, Client}
use cmee1y1_clients.Tags.Cache.{blank_symbol}
use cmee1y1_clients.Tags.Walk.{walk, lookup_in, scan_names, bp_tagdb_lookup_symbol}
use cmee1y1_clients.Tags.Walk.Runs.{IsWhole, IsWalkable, Walks, walk-Walks}
use cmee1y1_clients.Tags.Cache.{
  bp_tag_cache_find_or_alloc, find_or_alloc_at, find_locked, bp_tag_cache_invalidate,
  bp_tag_cache_free_all,
}
use cmee1y1_clients.Tags.{
  action_read, payload_size, data_area_start, bp_tagdb_access, access_checked, access_fill,
  access_read, describe, fill_each, get_data, nbytes, put_data, read_each, total_data_bytes,
}
use cmee1y1_clients.Tags.Access.{IsBatch}
use cmee1y1_clients.Tags.Scalars.{Value, no_kind, dint, kind_for_atomic, kind_of_code, sized_kind}
use cmee1y1_clients.Tags.Values.{with_memory}
use cmee1y1_clients.Memory
use cmee1y1_clients.Call
use cmee1y1_clients.Tags.Walk.{bp_tagdb_preload_symbols}
use cmee1y1_clients.Tags.Walk.Whole.{AllWhole, zeroed-IsWhole}
use cmee1y1_clients.Tags.Walk.Kept.{caches-AllWhole}
use cmee1y1_clients.Tags.Walk.Again.{lookup_symbol_again}
use cmee1y1_clients.Tags.Multi.{
  TagValue, Prepared, cleared, scalar_request, prepare_all, prepare_read, resolve_read,
  prepare_write, bp_tagdb_read_tags, alloc_each, send_prepared, settle_batch, any_failed, read_out,
}
use cmee1y1_clients.Tags.Symbols.{bp_tag_cache_reset_after_build}
use cmee1y1_clients.Tags.Multi.Batches.{requests, EachPrepared, multi-IsBatch}
use cmee1y1_clients.Tags.Multi.Outcome.{IsTyped, names, read_tags-IsTyped}
use cmee1y1_clients.Tags.Multi.Writes.{Writes, prepare_write-Writes}
use cmee1y1_clients.Call.{slot_stride}
use cmee1y1_clients.Tests.{server, client, server-Locks}
use cmee1y1_clients.Tests.Tags.{db}

abbrev tag_name : List ℕ
tag_name = 65 ∷ []

-- A DINT.
abbrev pub symbol : SymbolInfo
symbol = record blank_symbol { name = tag_name; data_type = 0xC4; elem_byte_size = 4 }

-- A cache of two symbols, the first of which is known.
abbrev pub half_known : TagCache
half_known = record {
  in_use = true;
  path = db.path;
  symbols = symbol ∷ blank_symbol ∷ [];
  cap_count = 2;
  known_count = 1;
  total_count = 2;
}

half_known-IsWhole : IsWhole half_known
half_known-IsWhole = record {
  array = refl;
  known = omega arith;
  total = λ h. refl;
  word = omega arith;
}

half_known-IsWalkable : IsWalkable half_known
half_known-IsWalkable = record { whole = half_known-IsWhole; memory = λ e. omega (arith, e) }

abbrev pub cached : Client (Unit {0})
cached = record client { tag_caches = half_known ∷ [] }

walk-Walks_example : Walks server db 0 (66 ∷ []) cached (walk server 2 db 0 (66 ∷ []) cached)
walk-Walks_example = walk-Walks server db 0 (66 ∷ []) 2 cached half_known-IsWalkable (omega arith)

-- A cache that knows the whole table of one symbol.
abbrev full : TagCache
full = record half_known { symbols = symbol ∷ []; cap_count = 1; total_count = 1 }

abbrev filled : Client (Unit {0})
filled = record client { tag_caches = full ∷ [] }

cached-AllWhole : AllWhole cached.tag_caches
cached-AllWhole zero = half_known-IsWhole
cached-AllWhole (suc j) = zeroed-IsWhole

caches-AllWhole_example :
    AllWhole (bp_tag_cache_reset_after_build server db.path 7 cached).tag_caches
    × AllWhole (bp_tagdb_lookup_symbol server (some db) tag_name cached).0.tag_caches
    × AllWhole (bp_tagdb_preload_symbols server (some db) cached).0.tag_caches
    × AllWhole (bp_tag_cache_invalidate db.path cached.tag_caches)
    × AllWhole (bp_tag_cache_free_all cached.tag_caches)
caches-AllWhole_example = caches-AllWhole server db cached tag_name 7 (omega arith) cached-AllWhole

found : bp_tagdb_lookup_symbol server (some db) tag_name cached ≡ (cached, ok symbol)
unfolding bp_tagdb_lookup_symbol lookup_in scan_names eq_bytes bp_tag_cache_find_or_alloc
    find_or_alloc_at find_locked
found = refl

lookup_symbol_again_example :
    bp_tagdb_lookup_symbol server (some db) tag_name cached ≡ (cached, ok symbol)
lookup_symbol_again_example =
    lookup_symbol_again server db tag_name cached cached symbol cached-AllWhole found

abbrev one_tag : List TagValue
one_tag =
    record { name = tag_name; value = record { kind = no_kind; bits = 0 }; cip_status = 0 } ∷ []

abbrev prepared : Prepared
prepared = record {
  kind = dint;
  request = scalar_request action_read tag_name symbol (0 ∷ 0 ∷ 0 ∷ 0 ∷ []);
}

one_prepared :
    prepare_all cleared (resolve_read server db) one_tag cached
    ≡ (cached, (one_tag, ok (prepared ∷ [])))
unfolding prepare_all prepare_read bp_tagdb_lookup_symbol lookup_in scan_names eq_bytes
    bp_tag_cache_find_or_alloc find_or_alloc_at find_locked kind_for_atomic kind_of_code sized_kind
    with_memory
one_prepared = refl

multi-IsBatch_example :
    EachPrepared server db action_read one_tag (prepared ∷ [])
    × IsBatch (requests (prepared ∷ []))
    × (payload_size (data_area_start 1) (requests (prepared ∷ [])) ≤ slot_stride - 0x80)
multi-IsBatch_example =
    multi-IsBatch server db action_read one_tag one_tag (prepared ∷ []) cached cached
      (λ e. omega (arith, e)) (omega arith) (inl (refl, one_prepared))

read_one : (bp_tagdb_read_tags server (some db) one_tag cached).1.1 ≡ pos 0
unfolding bp_tagdb_read_tags bp_tagdb_access alloc_each send_prepared prepare_all
    bp_tagdb_lookup_symbol bp_tag_cache_find_or_alloc find_or_alloc_at find_locked eq_bytes
    lookup_in scan_names prepare_read kind_for_atomic kind_of_code sized_kind with_memory
    settle_batch any_failed read_out access_checked Call.await Call.bp_client_call Call.call_in
    Call.claim Call.conclude Call.drain Call.exchange Call.mark_slot Call.poll Call.release
    Call.release_slot Call.request Call.reserve_slot Call.scan Call.sem_drain Call.set_slot
    Call.with_lock Call.write_header Call.write_name Memory.bp_ld_u16 Memory.bp_ld_u32
    Memory.bp_st_u16 Memory.bp_st_u32 Memory.bp_st_u64 Memory.c_string Memory.ld_u64 Memory.memcpy
    Memory.memset Memory.of_bytes Memory.slice Memory.st_u8 access_fill access_read describe
    fill_each get_data nbytes payload_size put_data read_each total_data_bytes
read_one = refl

read_tags-IsTyped_example :
    let r = bp_tagdb_read_tags server (some db) one_tag cached in
    All IsTyped r.1.0 × (names r.1.0 ≡ names one_tag)
read_tags-IsTyped_example = read_tags-IsTyped server db server-Locks one_tag cached read_one

abbrev number : Value
number = record { kind = dint; bits = 300 }

prepare_write-Writes_example : Writes number symbol (prepare_write tag_name number symbol cached).1
prepare_write-Writes_example = prepare_write-Writes tag_name number symbol cached
