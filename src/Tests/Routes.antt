-- ===== src/Tests/Routes.antt =====
-- Runs of the route's theorems.
use cmee1y1_clients.Base.{
  ℕ, ◌+◌, ◌*◌, ◌%◌, ◌≤◌, ◌<◌, ◌≡◌, refl, true, some, List, [], ◌∷◌, ok, err, ◌⊎◌, length, arith,
}
use cmee1y1_clients.Memory.{Buffer}
use cmee1y1_clients.Route.{enospc, ticks_of, total_of, bp_build_unconnected_send, build_checked}
use cmee1y1_clients.Route.Wrap.{
  gateway, ticks_of_bounds, IsRoutable, gateway-build_unconnected_send,
}

abbrev embedded : List ℕ
embedded = 0x0E ∷ 0x03 ∷ 0x20 ∷ []

abbrev route : List ℕ
route = 0x01 ∷ 0x02 ∷ []

example-IsRoutable : IsRoutable 20 embedded route
unfolding total_of
example-IsRoutable = record {
  some_message = omega arith;
  message_fits = omega arith;
  some_route = omega arith;
  whole_words = refl;
  route_fits = omega arith;
  room = omega arith;
}

gateway-build_unconnected_send_example :
    (body : List ℕ) × (bp_build_unconnected_send true 20 (some embedded) (some route) 5000
      ≡ ok body)
    × (gateway body ≡ some (record { embedded = embedded; route = route; ticks = ticks_of 5000 }))
    × (length body ≤ 20)
    × (length body % 2 ≡ 0)
gateway-build_unconnected_send_example =
    gateway-build_unconnected_send 20 embedded route 5000 example-IsRoutable

no_room : bp_build_unconnected_send true 10 (some embedded) (some route) 5000 ≡ err enospc
unfolding bp_build_unconnected_send build_checked total_of
no_room = refl

ticks_of_bounds_example :
    (1 ≤ ticks_of 100)
    × (ticks_of 100 ≤ 255)
    × (100 ≤ 8160 → 100 ≤ ticks_of 100 * 32)
    × (ticks_of 100 * 32 < 100 + 32 ⊎ (◌≡◌ {A = ℕ} 100 0))
ticks_of_bounds_example = ticks_of_bounds 100

abbrev blank : Buffer
blank o = 0
