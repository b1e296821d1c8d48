-- ===== src/Services/Texts/Bounds.antt =====
-- The texts and paths that the services read fit the caller's arrays (c/src/errors.c, wctime.c and
-- path.c).
use cmee1y1_clients.Base.{ℕ, ◌-◌, ◌≤◌, ◌<◌, ◌≡◌, ◌≢◌, length, min, arith, All}
use cmee1y1_clients.Memory.{Buffer}
use cmee1y1_clients.Memory.Laws.{length-slice}
use cmee1y1_clients.Tags.Symbols.Answers.{c_string-bounds}
use cmee1y1_clients.Services.Clock.{WcTime, bp_wctime_tz_name}
use cmee1y1_clients.Services.Paths.{pp_read}
use cmee1y1_clients.Services.Texts.{es_read}

-- Whatever the engine wrote: its text of a code fits an array of 79 bytes with its NUL, an encoded
-- path one of 256 and is as long as the size says, and the name of a time zone fits the caller's array
-- of at least one byte with its NUL; the two texts hold no NUL.
pub texts-bounds :
    (p : Buffer) (t : WcTime) (out_size : ℕ)
    → 0 < out_size
    → (length (es_read p) < 79)
      × All (λ b. b ≢ 0) (es_read p)
      × ((pp_read p).encoded_size ≤ 256)
      × (length (pp_read p).encoded ≡ (pp_read p).encoded_size)
      × (length (bp_wctime_tz_name t out_size) < out_size)
      × (length (bp_wctime_tz_name t out_size) ≤ 32)
      × All (λ b. b ≢ 0) (bp_wctime_tz_name t out_size)
unfolding es_read pp_read bp_wctime_tz_name
texts-bounds p t out_size some_room =
    let (text, text_ends) = c_string-bounds p 0x7C 78 in
    let (zone, zone_ends) = c_string-bounds _ 0 (min (out_size - 1) 32) in
    (
      omega (arith, text),
      text_ends,
      ground arith,
      length-slice p 0x180 _,
      omega (arith, zone, some_room),
      omega (arith, zone),
      zone_ends,
    )
