-- ===== src/Route.antt =====
-- c/src/route.c: the Unconnected_Send wrapper for devices beyond the backplane, and port segments.
pub mod Wrap
use cmee1y1_clients.Base.{
  ℕ, ◌+◌, ◌-◌, ◌*◌, ◌/◌, ◌%◌, ◌^◌, Bool, true, false, not, ◌||◌, Option, none, some, List, [], ◌∷◌,
  ◌++◌, length, set, ltb, ◌==◌, if◌then◌else◌, ℤ, pos, negsuc, Result, ok, err,
}
use cmee1y1_clients.Memory.{Buffer, st_u8}
use cmee1y1_clients.State.Code

-- `-EINVAL` and `-ENOSPC`.
abbrev pub einval : ℤ
einval = negsuc 21

abbrev pub enospc : ℤ
enospc = negsuc 27

-- A timeout in units of 32 ms, rounded up and clamped to 1 .. 255.
unfoldable pub ticks_of : ℕ → ℕ
ticks_of timeout_ms =
    let t = (timeout_ms + 32 - 1) / 32 in
    let t' = if ltb t 1 then 1 else t in if ltb 255 t' then 255 else t'

abbrev pub pad_of : ℕ → List ℕ
pad_of n = if n % 2 == 0 then [] else 0x00 ∷ []

unfoldable pub assemble : List ℕ → List ℕ → ℕ → List ℕ
assemble embedded route ticks =
    let n = length embedded in
    (0x52
      ∷ 0x02
      ∷ 0x20
      ∷ 0x06
      ∷ 0x24
      ∷ 0x01
      ∷ 0x05
      ∷ ticks
      ∷ (n % 2 ^ 8)
      ∷ (n / 2 ^ 8 % 2 ^ 8)
      ∷ [])
    ++ (embedded ++ (pad_of n ++ ((length route / 2 % 2 ^ 8) ∷ 0x00 ∷ route)))

unfoldable pub total_of : ℕ → ℕ → ℕ
total_of embedded_len route_len = 10 + embedded_len + embedded_len % 2 + 2 + route_len

unfoldable pub build_checked : ℕ → List ℕ → List ℕ → ℕ → Result (List ℕ)
build_checked out_cap embedded route timeout_ms =
    if not (length route % 2 == 0)
    then err einval
    else if length embedded == 0 || ltb 0xFFFF (length embedded)
    then err einval
    else if length route == 0 || ltb 0x1FE (length route)
    then err einval
    else if ltb out_cap (total_of (length embedded) (length route))
    then err enospc
    else ok (assemble embedded route (ticks_of timeout_ms))

-- A failure carries the returned number, 0 for a NULL argument; a success the bytes written, whose
-- count is what C returns. `out` tells whether the buffer is there.
unfoldable pub bp_build_unconnected_send :
    Bool → ℕ → Option (List ℕ) → Option (List ℕ) → ℕ → Result (List ℕ)
bp_build_unconnected_send true out_cap (some embedded) (some route) timeout_ms =
    build_checked out_cap embedded route timeout_ms
bp_build_unconnected_send _ out_cap _ _ timeout_ms = err (pos 0)

-- A port segment at the offset, in a buffer of `cap` bytes, and the next offset. The test adds in a
-- 64-bit `size_t`.
unfoldable pub bp_route_append_port : Option Buffer → ℕ → Option ℕ → ℕ → ℕ → Result (Buffer × ℕ)
bp_route_append_port (some route) cap (some off) port link =
    if ltb cap ((off + 2) % 2 ^ 64)
    then err Code.param_range
    else ok (st_u8 (st_u8 route off port) (off + 1) link, (off + 2) % 2 ^ 64)
bp_route_append_port _ cap _ port link = err Code.null_arg
