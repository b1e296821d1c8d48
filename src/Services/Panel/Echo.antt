-- ===== src/Services/Panel/Echo.antt =====
-- What is set on the module's panel, read as it is asked for (c/src/module.c).
use cmee1y1_clients.Base.{ℕ, ◌%◌, ◌^◌, ◌≡◌, ◌∙◌, inl, [], ◌∷◌, arith}
use cmee1y1_clients.Memory.{Buffer, bp_st_u32, bp_ld_u32, memcpy}
use cmee1y1_clients.Memory.Laws.{ld_u32-st, ld_u32-Apart, slice-agree, slice-memcpy, st_u8-out}
use cmee1y1_clients.Services.Panel.{
  led_get_fill, led_get_read, led_set_fill, disp_get_read, disp_set_fill,
}

-- A request that sets an LED names the LED as a request for it does, and an answer that gave its bytes
-- back would give the state that was set; what is set on the display, four characters, would come back
-- whole.
pub panel_echo :
    (led_id state : ℕ) (a b c d : ℕ) (p : Buffer)
    → (led_get_read (led_set_fill led_id state p) ≡ state % 2 ^ 32)
      × (bp_ld_u32 (led_set_fill led_id state p) 0x78 ≡ bp_ld_u32 (led_get_fill led_id p) 0x78)
      × (disp_get_read (disp_set_fill (a ∷ b ∷ c ∷ d ∷ []) p) ≡ a ∷ b ∷ c ∷ d ∷ [])
unfolding led_get_read led_set_fill led_get_fill disp_get_read disp_set_fill
panel_echo led_id state a b c d p =
    let four = a ∷ b ∷ c ∷ d ∷ [] in
    (
      ld_u32-st (bp_st_u32 p 0x78 led_id) 0x7C state,
      ld_u32-Apart (bp_st_u32 p 0x78 led_id) 0x78 0x7C state (inl (omega arith)),
      slice-agree _ (memcpy p 0x78 four) 0x78 4
            (λ i x y. st_u8-out (memcpy p 0x78 four) 0x7C 0 i (λ e. omega (arith, e, y)))
          ∙ slice-memcpy p 0x78 four,
    )
