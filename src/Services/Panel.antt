-- ===== src/Services/Panel.antt =====
-- c/src/module.c: the switch, the LEDs and the display of the module.
pub mod Echo
use cmee1y1_clients.Base.{ℕ, ◌+◌, List, take, codes, Option, none, some}
use cmee1y1_clients.Memory.{Buffer, st_u8, bp_st_u32, bp_ld_u32, memcpy, slice}
use cmee1y1_clients.State.{Env, M, fail}
use cmee1y1_clients.State.Code
use cmee1y1_clients.Call.{CallSpec, bp_client_call}
use cmee1y1_clients.Services.{no_fill}

abbrev pub panel_spec {ℓ} : {A : Type ℓ} → List ℕ → (Buffer → Buffer) → (Buffer → A) → CallSpec A
panel_spec fn fill read = record {
  fn_name = fn;
  payload_size = 0x80;
  fill_payload = fill;
  read_reply = read;
  timeout_ms = 5000;
}

unfoldable pub led_get_fill : ℕ → Buffer → Buffer
led_get_fill led_id p = bp_st_u32 p 0x78 led_id

unfoldable pub led_get_read : Buffer → ℕ
led_get_read p = bp_ld_u32 p 0x7C

unfoldable pub led_set_fill : ℕ → ℕ → Buffer → Buffer
led_set_fill led_id state p = bp_st_u32 (bp_st_u32 p 0x78 led_id) 0x7C state

-- Four characters, before the NUL that the client adds.
unfoldable pub disp_get_read : Buffer → List ℕ
disp_get_read p = slice p 0x78 4

-- The caller's text has four bytes.
unfoldable pub disp_set_fill : List ℕ → Buffer → Buffer
disp_set_fill four p = st_u8 (memcpy p 0x78 (take 4 four)) 0x7C 0

module _ {W : Type 0} (env : Env W) where
  unfoldable pub bp_client_get_switch_position : M W ℕ
  bp_client_get_switch_position =
      bp_client_call env
        (panel_spec (codes "OCXcip_GetSwitchPosition") no_fill (λ p. bp_ld_u32 p 0x78))

  unfoldable pub bp_client_get_led : ℕ → M W ℕ
  bp_client_get_led led_id =
      bp_client_call env (panel_spec (codes "OCXcip_GetLED") (led_get_fill led_id) led_get_read)

  unfoldable pub bp_client_set_led : ℕ → ℕ → M W (Unit {0})
  bp_client_set_led led_id state =
      bp_client_call env (panel_spec (codes "OCXcip_SetLED") (led_set_fill led_id state) (λ p. tt))

  unfoldable pub bp_client_get_display : M W (List ℕ)
  bp_client_get_display =
      bp_client_call env (panel_spec (codes "OCXcip_GetDisplay") no_fill disp_get_read)

  unfoldable pub bp_client_set_display : Option (List ℕ) → M W (Unit {0})
  bp_client_set_display none = fail Code.null_arg
  bp_client_set_display (some four) =
      bp_client_call env (panel_spec (codes "OCXcip_SetDisplay") (disp_set_fill four) (λ p. tt))
