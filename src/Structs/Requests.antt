-- ===== src/Structs/Requests.antt =====
-- The requests for structures (c/src/struct.c).
use cmee1y1_clients.Base.{
  ℕ, ◌+◌, ◌*◌, ◌%◌, ◌^◌, ◌≤◌, ◌≡◌, ◌≢◌, refl, ap, inl, inr, List, [], ◌∷◌, ◌++◌, length, get_or,
  take, drop, ◌==◌, Bool-cases, arith, length-append,
}
use cmee1y1_clients.Memory.{le16}
use cmee1y1_clients.Structs.{symbolic_ioi_path, ioi_words, read_request, write_request}

-- A path of a symbol: an even number of bytes, the length of the name and the name, and at most a
-- byte of padding.
pub record IsPath (tag path : List ℕ) : Type 0 where
  pub even : length path % 2 ≡ 0
  pub most : length path ≤ length tag + 3
  pub least : length tag + 2 ≤ length path
  pub size : get_or path 1 0 ≡ length tag
  pub name : take (length tag) (drop 2 path) ≡ tag

take_append : (xs ys : List ℕ) → take (length xs) (xs ++ ys) ≡ xs
take_append [] ys = refl
take_append (x ∷ xs) ys = ap (◌∷◌ x) (take_append xs ys)

take_whole : (xs : List ℕ) → take (length xs) xs ≡ xs
take_whole [] = refl
take_whole (x ∷ xs) = ap (◌∷◌ x) (take_whole xs)

symbolic_ioi_path-IsPath : (tag : List ℕ) → length tag ≤ 250 → IsPath tag (symbolic_ioi_path tag)
unfolding symbolic_ioi_path
symbolic_ioi_path-IsPath tag short =
    let long = length-append tag (0x00 ∷ []) in
    elim (Bool-cases (length (0x91 ∷ (length tag % 2 ^ 8) ∷ tag) % 2 == 0)) [
      | inl even ↦ rw even (record {
        even = ground (arith, even);
        most = omega arith;
        least = omega arith;
        size = omega (arith, short);
        name = take_whole tag;
      })
      | inr odd ↦ rw odd (record {
        even = ground (arith, odd, long);
        most = omega (arith, long);
        least = omega (arith, long);
        size = omega (arith, short);
        name = take_append tag (0x00 ∷ []);
      })
    ]

-- For a tag of 1 to 250 bytes: the path in both requests has an even number of bytes, holds the name
-- behind its length, and its size in words is the byte in front of it; a request to read has at most
-- 256 bytes, which fit its array of 257 and a message; and a request to write has 8 bytes more than
-- the path and the data.
pub requests-IsPath :
    (tag : List ℕ) (handle : ℕ) (bytes : List ℕ)
    → length tag ≢ 0
    → length tag ≤ 250
    → IsPath tag (symbolic_ioi_path tag)
      × (ioi_words tag * 2 ≡ length (symbolic_ioi_path tag))
      × (length (read_request tag) ≤ 256)
      × (length (write_request tag handle bytes)
          ≡ 8 + length (symbolic_ioi_path tag) + length bytes)
unfolding ioi_words read_request write_request le16
requests-IsPath tag handle bytes some_name short =
    let p = symbolic_ioi_path-IsPath tag short in
    let even = p.even in
    let most = p.most in
    let read = length-append (symbolic_ioi_path tag) (le16 1) in
    let write =
      length-append (symbolic_ioi_path tag) (0xA0 ∷ 0x02 ∷ (le16 handle ++ le16 1 ++ bytes)) in
    (
      p,
      omega (arith, even, most, short),
      omega (arith, even, most, short, read),
      omega (arith, write),
    )
