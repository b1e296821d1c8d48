-- ===== src/Structs/Written.antt =====
-- Reading back a structure that was written (c/src/struct.c).
use cmee1y1_clients.Base.{ℕ, ◌+◌, List, ◌∷◌, ◌++◌, length, take, drop}
use cmee1y1_clients.State.Code
use cmee1y1_clients.Message.{Reply}
use cmee1y1_clients.Structs.{symbolic_ioi_path}

-- What a request to write a structure holds behind its path: the type, the handle, the count of
-- elements and the bytes.
abbrev pub behind_path : List ℕ → List ℕ → List ℕ
behind_path tag request = drop (2 + length (symbolic_ioi_path tag)) request

-- What a controller that stored a write request answers to a read: no status, and the type, the handle
-- and the bytes of the request.
abbrev pub read_answer : List ℕ → List ℕ → List ℕ
read_answer tag request =
    0xCC
    ∷ 0x00
    ∷ 0x00
    ∷ 0x00
    ∷ (take 4 (behind_path tag request) ++ drop 6 (behind_path tag request))

-- A reply as it arrives in a buffer: what does not fit is cut off.
abbrev pub delivered : ℕ → List ℕ → Reply
delivered cap answer = record {
  resp_len = length (take cap answer);
  status = 0;
  resp = take cap answer;
}
