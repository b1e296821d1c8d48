-- ===== src/Tags/Values.antt =====
-- c/src/access.c: single values, arrays, BOOL arrays and strings, each by a batch of one request. A
-- value is the pattern of its bits; C stores it in the host's order, which is little-endian here.
pub mod Bits
use cmee1y1_clients.Base.{
  ℕ, zero, suc, ◌+◌, ◌-◌, ◌*◌, ◌/◌, ◌%◌, ◌^◌, ◌<◌, ◌≤◌, ◌≡◌, Bool, true, false, not, ◌&&◌, ◌||◌,
  Option, none, some, List, [], ◌∷◌, ◌++◌, length, take, drop, min, replicate, get_or, set, ltb,
  ◌==◌, if◌then◌else◌, codes, ℤ, pos, Result, ok, err, is_none,
}
use cmee1y1_clients.Memory.{le32}
use cmee1y1_clients.State.{Client, Env, M, ◌>>=◌, ◌>>◌, fail, return, continue}
use cmee1y1_clients.State.Code
use cmee1y1_clients.Tags.{TagDb, TagRequest, action_read, action_write, bp_tagdb_access}
use Bits.{dwords_for_bits, pack_bits, unpack_bits}

-- A value of `n` bytes, and the value of bytes.
abbrev pub le_bytes : ℕ → ℕ → List ℕ
le_bytes zero v = []
le_bytes (suc n) v = (v % 256) ∷ le_bytes n (v / 256)

abbrev pub of_le : List ℕ → ℕ
of_le [] = 0
of_le (b ∷ bs) = b + of_le bs * 256

-- A CIP type with the size of its elements.
pub record Atomic : Type 0 where
  pub type_code : ℕ
  pub width : ℕ

abbrev pub sint : Atomic
sint = record { type_code = 0xC2; width = 1 }

abbrev pub usint : Atomic
usint = record { type_code = 0xC6; width = 1 }

abbrev pub int : Atomic
int = record { type_code = 0xC3; width = 2 }

abbrev pub uint : Atomic
uint = record { type_code = 0xC7; width = 2 }

abbrev pub dint : Atomic
dint = record { type_code = 0xC4; width = 4 }

abbrev pub udint : Atomic
udint = record { type_code = 0xC8; width = 4 }

abbrev pub lint : Atomic
lint = record { type_code = 0xC5; width = 8 }

abbrev pub ulint : Atomic
ulint = record { type_code = 0xC9; width = 8 }

abbrev pub real : Atomic
real = record { type_code = 0xCA; width = 4 }

abbrev pub lreal : Atomic
lreal = record { type_code = 0xCB; width = 8 }

abbrev pub bool : Atomic
bool = record { type_code = 0xC1; width = 1 }

abbrev pub bit_array : Atomic
bit_array = record { type_code = 0xD3; width = 4 }

-- The `n` words in bytes, and back.
abbrev pub words_of : ℕ → List ℕ → List ℕ
words_of zero bs = []
words_of (suc n) bs = of_le (take 4 bs) ∷ words_of n (drop 4 bs)

abbrev pub bytes_of_words : List ℕ → List ℕ
bytes_of_words [] = []
bytes_of_words (w ∷ ws) = le_bytes 4 w ++ bytes_of_words ws

abbrev pub request_of : Atomic → ℕ → List ℕ → ℕ → List ℕ → TagRequest
request_of t action tag count bytes = record {
  tag_name = tag;
  data_type = t.type_code;
  elem_byte_size = t.width;
  action = action;
  elem_count = count;
  bytes = some bytes;
  result = 0;
}

-- The bytes behind a pointer, none behind NULL.
abbrev pub bytes_behind : Option (List ℕ) → List ℕ
bytes_behind none = []
bytes_behind (some bs) = bs

-- The bytes of the one request that came back, unless the engine refused it.
unfoldable pub bytes_of : List TagRequest → Result (List ℕ)
bytes_of [] = err Code.generic
bytes_of (r ∷ rs) = if not (r.result == 0) then err Code.generic else ok (bytes_behind r.bytes)

abbrev pub zeros : ℕ → List ℕ
zeros n = replicate n 0

abbrev pub map_ok {ℓ κ} : {A : Type ℓ} {B : Type κ} → (A → B) → Result A → Result B
map_ok f (ok a) = ok (f a)
map_ok f (err e) = err e

module _ {W : Type 0} (env : Env W) where
  -- A batch of one request; the caller gets its bytes.
  unfoldable pub access_one : Option TagDb → TagRequest → M W (List ℕ)
  access_one db r = do rs ← bp_tagdb_access env db (r ∷ []); λ c. (c, bytes_of rs)

  -- `bp_tagdb_read_sint` … `bp_tagdb_read_lreal`. The caller's pointer is there.
  unfoldable pub read_value : Atomic → Option TagDb → List ℕ → M W ℕ
  read_value t db tag = do
    bs ← access_one db (request_of t action_read tag 1 (zeros t.width))
    return (of_le bs)

  unfoldable pub write_value : Atomic → Option TagDb → List ℕ → ℕ → M W (Unit {0})
  write_value t db tag v = do
    bs ← access_one db (request_of t action_write tag 1 (le_bytes t.width v))
    return tt

  unfoldable pub bp_tagdb_read_bool : Option TagDb → List ℕ → M W Bool
  bp_tagdb_read_bool db tag = do v ← read_value bool db tag; return (not (v == 0))

  unfoldable pub bp_tagdb_write_bool : Option TagDb → List ℕ → ℕ → M W (Unit {0})
  bp_tagdb_write_bool db tag v = write_value bool db tag (if v == 0 then 0 else 1)

  -- The arrays, as the bytes of `count` elements. A write takes `width * count` bytes.
  unfoldable pub read_array : Atomic → Option TagDb → List ℕ → ℕ → M W (List ℕ)
  read_array t db tag count =
      if count == 0
      then fail Code.null_arg
      else access_one db (request_of t action_read tag count (zeros (t.width * count)))

  unfoldable pub write_array : Atomic → Option TagDb → List ℕ → List ℕ → ℕ → M W (List ℕ)
  write_array t db tag bytes count =
      if count == 0
      then fail Code.null_arg
      else access_one db (request_of t action_write tag count bytes)

  -- The scratch array of words is allocated first.
  unfoldable pub with_memory {ℓ} : {A : Type ℓ} → ℕ → M W A → M W A
  with_memory n m c =
      let r = env.alloc c.world n in
      let c' : Client W = record c { world = r.0 } in
      if r.1 then m c' else (c', err Code.client_open)

  unfoldable pub bp_tagdb_read_bool_array : Option TagDb → List ℕ → ℕ → M W (List ℕ)
  bp_tagdb_read_bool_array db tag count =
      if count == 0
      then fail Code.null_arg
      else with_memory (dwords_for_bits count * 4) (do
        bs ← access_one db (
            request_of bit_array action_read tag (dwords_for_bits count)
              (zeros (4 * dwords_for_bits count)))
        return (unpack_bits count 0 (words_of (dwords_for_bits count) bs)))

  unfoldable pub bp_tagdb_write_bool_array : Option TagDb → List ℕ → List ℕ → M W (Unit {0})
  bp_tagdb_write_bool_array db tag flags =
      if length flags == 0
      then fail Code.null_arg
      else with_memory (dwords_for_bits (length flags) * 4) (do
        bs ← access_one db (
            request_of bit_array action_write tag (dwords_for_bits (length flags))
              (bytes_of_words (pack_bits 0 flags (zeros (dwords_for_bits (length flags))))))
        return tt)

  -- At most `out_size - 1` and 65535 bytes are asked for; none is read for none.
  unfoldable pub read_chars : Option TagDb → List ℕ → ℕ → ℕ → M W (ℕ × List ℕ)
  read_chars db tag len to_read =
      if to_read == 0
      then return (len, [])
      else with_memory to_read
          (do bs ← read_array sint db (tag ++ codes ".DATA") to_read; return (len, bs))

  -- A length with the sign bit is refused.
  unfoldable pub read_chars_of : Option TagDb → List ℕ → ℕ → ℕ → M W (ℕ × List ℕ)
  read_chars_of db tag out_size len =
      if ltb len (2 ^ 31)
      then read_chars db tag len (min (min len (out_size - 1)) 65535)
      else fail Code.generic

  -- The length that the controller holds, and the characters that fit the buffer, before the NUL.
  unfoldable pub bp_tagdb_read_string : Option TagDb → List ℕ → ℕ → M W (ℕ × List ℕ)
  bp_tagdb_read_string db tag out_size =
      if out_size == 0
      then fail Code.null_arg
      else if ltb 250 (length tag)
      then fail Code.param_range
      else (do len ← read_value dint db (tag ++ codes ".LEN"); read_chars_of db tag out_size len)

  unfoldable pub write_chars : Option TagDb → List ℕ → List ℕ → M W (List ℕ)
  write_chars db tag chars =
      if ltb 0 (length chars)
      then write_array sint db (tag ++ codes ".DATA") chars (length chars)
      else return []

  -- The characters go first, then the length.
  unfoldable pub bp_tagdb_write_string : Option TagDb → List ℕ → List ℕ → M W (Unit {0})
  bp_tagdb_write_string db tag chars =
      if ltb 65535 (length chars)
      then fail Code.param_range
      else if ltb 250 (length tag)
      then fail Code.param_range
      else (do
        bs ← write_chars db tag chars
        write_value dint db (tag ++ codes ".LEN") (length chars))
