-- ===== src/Tags/Multi/Requests.antt =====
-- The request that c/src/multitag.c prepares for a tag.
use cmee1y1_clients.Base.{
  ℕ, ◌≤◌, ◌<◌, ◌≡◌, ◌≢◌, refl, ap, true, false, Option, none, some, List, inl, inr, Bool-cases,
  Result, ok, err, arith,
}
use cmee1y1_clients.State.{SymbolInfo, Client, Env, M, continue}
use cmee1y1_clients.Tags.{TagDb, nbytes, action_read, action_write}
use cmee1y1_clients.Tags.Values.{with_memory, zeros}
use cmee1y1_clients.Tags.Scalars.{
  Kind, no_kind, boolean, sint, usint, int_, uint, dint, udint, real, lint, ulint, lreal, width,
  kind_for_atomic, kind_for_atomic-width, encode_scalar,
}
use cmee1y1_clients.Tags.Walk.{bp_tagdb_lookup_symbol}
use cmee1y1_clients.Tags.Multi.{
  TagValue, Prepared, kind_number, same_kind, is_scalar, scalar_request, padded, prepare_encoded,
  prepare_write, prepare_read, resolve_read, resolve_write,
}

-- What a prepared tag is for a symbol: a request for one scalar of the symbol's kind, under the tag's
-- name, of the symbol's type and size, which is the kind's width.
pub record IsPrepared (action : ℕ) (t : TagValue) (s : SymbolInfo) (p : Prepared) : Type 0 where
  pub scalar : is_scalar s ≡ true
  pub kind : p.kind ≡ kind_for_atomic s.data_type s.elem_byte_size
  pub data_type : p.request.data_type ≡ s.data_type
  pub elem_byte_size : p.request.elem_byte_size ≡ s.elem_byte_size
  pub elem_count : p.request.elem_count ≡ 1
  pub typed : p.kind ≢ no_kind
  pub named : p.request.tag_name ≡ t.name
  pub does : p.request.action ≡ action
  pub size : nbytes p.request ≡ width p.kind

pub width-bounds : (k : Kind) → k ≢ no_kind → (0 < width k) × (width k ≤ 8)
width-bounds no_kind h = absurd (h refl)
width-bounds boolean h = omega arith
width-bounds sint h = omega arith
width-bounds usint h = omega arith
width-bounds int_ h = omega arith
width-bounds uint h = omega arith
width-bounds dint h = omega arith
width-bounds udint h = omega arith
width-bounds real h = omega arith
width-bounds lint h = omega arith
width-bounds ulint h = omega arith
width-bounds lreal h = omega arith

pub scalar_request-IsPrepared :
    (action : ℕ) (t : TagValue) (s : SymbolInfo) (buf : List ℕ)
    → is_scalar s ≡ true
    → same_kind (kind_for_atomic s.data_type s.elem_byte_size) no_kind ≡ false
    → IsPrepared action t s (record {
      kind = kind_for_atomic s.data_type s.elem_byte_size;
      request = scalar_request action t.name s buf;
    })
unfolding nbytes
scalar_request-IsPrepared action t s buf scalar known =
    let k = kind_for_atomic s.data_type s.elem_byte_size in
    let typed : k ≢ no_kind = λ e. ground (arith, ap kind_number e, known) in
    let size : s.elem_byte_size ≡ width k =
      kind_for_atomic-width s.data_type s.elem_byte_size k refl typed in
    let (low, high) = width-bounds k typed in
    record {
      scalar = scalar;
      kind = refl;
      data_type = refl;
      elem_byte_size = omega (arith, size, high);
      elem_count = refl;
      typed = typed;
      named = refl;
      does = refl;
      size = omega (arith, size, low, high);
    }

-- Either no tag was prepared, or one as asked, for a symbol.
abbrev pub PreparesFor : ℕ → TagValue → SymbolInfo → Result Prepared → Type 0
PreparesFor action t s (ok p) = IsPrepared action t s p
PreparesFor action t s (err e) = Unit

module _ {W : Type 0} where
  prepare_write-Prepares :
      (t : TagValue) (s : SymbolInfo) (c : Client W)
      → PreparesFor action_write t s (prepare_write t.name t.value s c).1
  unfolding prepare_write prepare_encoded
  prepare_write-Prepares t s c =
      let k = kind_for_atomic s.data_type s.elem_byte_size in
      elim (Bool-cases (is_scalar s)) [
        | inr other ↦ rw (other, prepare_write) tt
        | inl scalar ↦ elim (Bool-cases (same_kind k no_kind)) [
          | inl unknown ↦ rw (scalar, unknown, prepare_write) tt
          | inr known ↦ elim (Bool-cases (same_kind t.value.kind k)) [
            | inr differs ↦ rw (scalar, known, differs, prepare_write) tt
            | inl same ↦
                rw (scalar, known, same, prepare_write)
                  (at scalar known (encode_scalar t.value.kind t.value.bits s.elem_byte_size))
          ]
        ]
      ]
    where
      at :
          is_scalar s ≡ true
          → same_kind (kind_for_atomic s.data_type s.elem_byte_size) no_kind ≡ false
          → (o : Option (List ℕ))
          → PreparesFor action_write t s
              (prepare_encoded t.name s (kind_for_atomic s.data_type s.elem_byte_size) o c).1
      at scalar known none = tt
      at scalar known (some bs) =
          scalar_request-IsPrepared action_write t s (padded bs) scalar known

module _ {W : Type 0} (env : Env W) where
  prepare_read-Prepares :
      (t : TagValue) (s : SymbolInfo) (c : Client W)
      → PreparesFor action_read t s (prepare_read env t.name s c).1
  unfolding prepare_read with_memory
  prepare_read-Prepares t s c =
      let k = kind_for_atomic s.data_type s.elem_byte_size in
      elim (Bool-cases (is_scalar s)) [
        | inr other ↦ rw (other, prepare_read) tt
        | inl scalar ↦ elim (Bool-cases (same_kind k no_kind)) [
          | inl unknown ↦ rw (scalar, unknown, prepare_read) tt
          | inr known ↦ elim (Bool-cases (env.alloc c.world s.elem_byte_size).1) [
            | inr lost ↦ rw (scalar, known, lost, prepare_read, with_memory) tt
            | inl got ↦
                rw (scalar, known, got, prepare_read, with_memory)
                  (scalar_request-IsPrepared action_read t s (zeros s.elem_byte_size) scalar known)
          ]
        ]
      ]

  -- A tag was prepared for the symbol that the lookup of its name found.
  pub record IsResolved (action : ℕ) (db : TagDb) (t : TagValue) (p : Prepared) : Type 0 where
    pub symbol : SymbolInfo
    pub before : Client W
    pub after : Client W
    pub found : bp_tagdb_lookup_symbol env (some db) t.name before ≡ (after, ok symbol)
    pub prepared : IsPrepared action t symbol p

  abbrev pub Prepares : ℕ → TagDb → TagValue → Result Prepared → Type 0
  Prepares action db t (ok p) = IsResolved action db t p
  Prepares action db t (err e) = Unit

  continue-Prepares :
      (action : ℕ) (db : TagDb) (t : TagValue) (f : SymbolInfo → M W Prepared) (c : Client W)
      (r : Client W × Result SymbolInfo)
      → bp_tagdb_lookup_symbol env (some db) t.name c ≡ r
      → ((s : SymbolInfo) (d : Client W) → PreparesFor action t s (f s d).1)
      → Prepares action db t (continue f r).1
  continue-Prepares action db t f c (d, err e) found h = tt
  continue-Prepares action db t f c (d, ok s) found h = at (f s d) (h s d)
    where
      at : (r : Client W × Result Prepared) → PreparesFor action t s r.1 → Prepares action db t r.1
      at (b, err e) k = tt
      at (b, ok p) k = record { symbol = s; before = c; after = d; found = found; prepared = k }

  pub resolve_read-Prepares :
      (db : TagDb) (t : TagValue) (c : Client W)
      → Prepares action_read db t (resolve_read env db t c).1
  resolve_read-Prepares db t c =
      continue-Prepares action_read db t (prepare_read env t.name) c _ refl
        (λ s d. prepare_read-Prepares t s d)

  pub resolve_write-Prepares :
      (db : TagDb) (t : TagValue) (c : Client W)
      → Prepares action_write db t (resolve_write env db t c).1
  resolve_write-Prepares db t c =
      continue-Prepares action_write db t (prepare_write t.name t.value) c _ refl
        (λ s d. prepare_write-Prepares t s d)
