-- ===== src/Route/Wrap.antt =====
-- What a gateway reads out of an Unconnected_Send, and the segments of a route.
use cmee1y1_clients.Base.{
  ℕ, ◌+◌, ◌*◌, ◌/◌, ◌%◌, ◌^◌, ◌≤◌, ◌<◌, ◌≡◌, ◌≢◌, ◌⊎◌, inl, inr, true, Option, none, some, List,
  ◌∷◌, ◌++◌, length, take, drop, length-append, take-append, drop-append, ltb, ◌==◌, if◌then◌else◌,
  ok, err, ℤ, arith, Bool-cases, subst,
}
use mathlib.Core.List.{append_assoc}
use cmee1y1_clients.State.Code
use cmee1y1_clients.Memory.{Buffer, st_u8}
use cmee1y1_clients.Route.{
  einval, enospc, ticks_of, pad_of, assemble, total_of, build_checked, bp_build_unconnected_send,
  bp_route_append_port,
}

-- The fields of an Unconnected_Send as a gateway finds them: the embedded message, the route and
-- the timeout's ticks, each located by the lengths that stand before it.
pub record Forwarded : Type 0 where
  pub embedded : List ℕ
  pub route : List ℕ
  pub ticks : ℕ

abbrev read_route : List ℕ → ℕ → List ℕ → Option Forwarded
read_route embedded ticks (words ∷ reserved ∷ route) =
    if length route == words * 2
    then some (record { embedded = embedded; route = route; ticks = ticks })
    else none
read_route embedded ticks _ = none

abbrev pub gateway : List ℕ → Option Forwarded
gateway (svc ∷ size ∷ c0 ∷ c1 ∷ i0 ∷ i1 ∷ tick ∷ ticks ∷ lo ∷ hi ∷ rest) =
    let n = lo + hi * 2 ^ 8 in
    if svc == 0x52 then read_route (take n rest) ticks (drop (n + n % 2) rest) else none
gateway _ = none

-- The clamped timeout: between 1 and 255 ticks; up to 255 ticks it covers the asked time, by less
-- than a tick too much.
pub ticks_of_bounds :
    (t : ℕ)
    → (1 ≤ ticks_of t)
      × (ticks_of t ≤ 255)
      × (t ≤ 8160 → t ≤ ticks_of t * 32)
      × (ticks_of t * 32 < t + 32 ⊎ (t ≡ 0))
unfolding ticks_of
ticks_of_bounds t = (ground arith, ground arith, λ h. ground arith, ground arith)

length-pad_of : (n : ℕ) → length (pad_of n) ≡ n % 2
length-pad_of n = ground arith

pub length-assemble :
    (embedded route : List ℕ) (k : ℕ)
    → length (assemble embedded route k) ≡ total_of (length embedded) (length route)
unfolding assemble total_of
length-assemble embedded route k = omega (
  arith,
  length-append embedded (pad_of (length embedded) ++ (_ ∷ 0x00 ∷ route)),
  length-append (pad_of (length embedded)) ((length route / 2 % 2 ^ 8) ∷ 0x00 ∷ route),
  length-pad_of (length embedded),
)

read_route-some :
    (embedded route : List ℕ) (k : ℕ)
    → length route % 2 ≡ 0
    → length route ≤ 0x1FE
    → read_route embedded k ((length route / 2 % 2 ^ 8) ∷ 0x00 ∷ route)
      ≡ some (record { embedded = embedded; route = route; ticks = k })
read_route-some embedded route k even short = ground arith

-- Past the embedded message and its pad byte stands the route.
drop_padded :
    (embedded rest : List ℕ)
    → drop (length embedded + length embedded % 2) (embedded ++ (pad_of (length embedded) ++ rest))
      ≡ rest
drop_padded embedded rest =
    let pad = pad_of (length embedded) in
    rw (← append_assoc embedded pad rest) (
      subst (λ n. drop n ((embedded ++ pad) ++ rest) ≡ rest)
        (omega (arith, length-append embedded pad, length-pad_of (length embedded)))
        (drop-append (embedded ++ pad) rest))

gateway-assemble :
    (embedded route : List ℕ) (k : ℕ)
    → length embedded ≤ 0xFFFF
    → length route % 2 ≡ 0
    → length route ≤ 0x1FE
    → gateway (assemble embedded route k)
      ≡ some (record { embedded = embedded; route = route; ticks = k })
unfolding assemble
gateway-assemble embedded route k fits even short =
    let tail = pad_of (length embedded) ++ ((length route / 2 % 2 ^ 8) ∷ 0x00 ∷ route) in
    let n = length embedded in
    let count : n ≡ n % 2 ^ 8 + n / 2 ^ 8 % 2 ^ 8 * 2 ^ 8 = omega arith in
    subst
      (λ n.
        read_route (take n (embedded ++ tail)) k (drop (n + n % 2) (embedded ++ tail))
        ≡ some (record { embedded = embedded; route = route; ticks = k }))
      count
      (rw (take-append embedded tail, drop_padded embedded (_ ∷ 0x00 ∷ route))
        (read_route-some embedded route k even short))

-- The arguments for which a body is built: a message of 1 to 65535 bytes, a route of 2 to 510 bytes
-- in whole words, and room for the result.
pub record IsRoutable (out_cap : ℕ) (embedded route : List ℕ) : Type 0 where
  pub some_message : length embedded ≢ 0
  pub message_fits : length embedded ≤ 0xFFFF
  pub some_route : length route ≢ 0
  pub whole_words : length route % 2 ≡ 0
  pub route_fits : length route ≤ 0x1FE
  pub room : total_of (length embedded) (length route) ≤ out_cap

build_checked_ok :
    (out_cap : ℕ) (embedded route : List ℕ) (t : ℕ)
    → IsRoutable out_cap embedded route
    → build_checked out_cap embedded route t ≡ ok (assemble embedded route (ticks_of t))
unfolding build_checked
build_checked_ok out_cap embedded route t v = ground arith

-- For a message of 1 to 65535 bytes, a route of 2 to 510 bytes in whole words and a buffer with
-- room: what is built is what a gateway unwraps. The message, the route and the ticks come back out,
-- the body is of even length, and it fits the buffer.
pub gateway-build_unconnected_send :
    (out_cap : ℕ) (embedded route : List ℕ) (t : ℕ)
    → IsRoutable out_cap embedded route
    → (body : List ℕ) × (bp_build_unconnected_send true out_cap (some embedded) (some route) t
        ≡ ok body)
      × (gateway body ≡ some (record { embedded = embedded; route = route; ticks = ticks_of t }))
      × (length body ≤ out_cap)
      × (length body % 2 ≡ 0)
unfolding bp_build_unconnected_send
gateway-build_unconnected_send out_cap embedded route t v = (
  assemble embedded route (ticks_of t),
  build_checked_ok out_cap embedded route t v,
  gateway-assemble embedded route (ticks_of t) v.message_fits v.whole_words v.route_fits,
  omega (arith, length-assemble embedded route (ticks_of t), v.room),
  unfold total_of in omega (arith, length-assemble embedded route (ticks_of t), v.whole_words),
)

-- Nothing is built otherwise, and the code tells a fault of the arguments, which is reported first,
-- from a buffer that is too small.
pub build_unconnected_send_err :
    (out_cap : ℕ) (embedded route : List ℕ) (t : ℕ) (e : ℤ)
    → bp_build_unconnected_send true out_cap (some embedded) (some route) t ≡ err e
    → ((e ≡ einval)
        × ((length route % 2 ≢ 0)
            ⊎ (length embedded ≡ 0)
            ⊎ (0xFFFF < length embedded)
            ⊎ (length route ≡ 0)
            ⊎ (0x1FE < length route)))
      ⊎ ((e ≡ enospc) × (out_cap < total_of (length embedded) (length route)))
unfolding bp_build_unconnected_send build_checked
build_unconnected_send_err out_cap embedded route t e h = ground arith

-- For an offset whose two bytes do not wrap a `size_t`: a port segment goes to the two bytes at the
-- offset, which moves past them, and no other byte of the route changes; where two bytes do not fit,
-- nothing is written.
pub route_append_port_lem :
    (route : Buffer) (cap off port link : ℕ)
    → off + 2 < 2 ^ 64
    → ((cap < off + 2)
        × (bp_route_append_port (some route) cap (some off) port link ≡ err Code.param_range))
      ⊎ ((off + 2 ≤ cap)
          × ((next : Buffer) × (bp_route_append_port (some route) cap (some off) port link
                ≡ ok (next, off + 2))
              × (next off ≡ port % 2 ^ 8)
              × (next (off + 1) ≡ link % 2 ^ 8)
              × ((i : ℕ) → i ≢ off → i ≢ off + 1 → next i ≡ route i)))
unfolding bp_route_append_port st_u8
route_append_port_lem route cap off port link h = elim (Bool-cases (ltb cap (off + 2))) [
  | inl over ↦ inl (ground arith, ground arith)
  | inr fits ↦ inr (
    ground arith,
    (
      st_u8 (st_u8 route off port) (off + 1) link,
      ground arith,
      ground arith,
      ground arith,
      λ i a b. ground arith,
    ),
  )
]
