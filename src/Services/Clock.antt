-- ===== src/Services/Clock.antt =====
-- c/src/wctime.c: the wall-clock object of a device, and the decoders of what it holds.
pub mod Echo
use cmee1y1_clients.Base.{
  ℕ, ◌+◌, ◌-◌, ◌*◌, ◌/◌, ◌%◌, ◌^◌, Option, none, some, List, [], ◌∷◌, ◌++◌, min, ltb, leb, ◌==◌,
  if◌then◌else◌, codes, ℤ, pos, negsuc,
}
use cmee1y1_clients.Memory.{Buffer, st_u8, bp_st_u16, bp_st_u32, ld_u64, c_string, of_bytes}
use cmee1y1_clients.State.{Env, M}
use cmee1y1_clients.Call.{CallSpec, bp_client_call}
use cmee1y1_clients.Services.{path_fill, with_path}
use cmee1y1_clients.Tags.Values.{le_bytes}

-- A `bp_wctime_t`.
pub record WcTime : Type 0 where
  pub sec : ℕ
  pub nsec : ℕ
  pub aux0 : ℕ
  pub aux1 : ℕ
  pub aux2 : ℕ
  pub aux3 : ℕ

unfoldable pub wc_st_u64 : Buffer → ℕ → ℕ → Buffer
wc_st_u64 p o v = bp_st_u32 (bp_st_u32 p o v) (o + 4) (v / 2 ^ 32)

-- A buffer for the answer is there.
unfoldable pub wc_get_fill : List ℕ → ℕ → Buffer → Buffer
wc_get_fill path instance_id p = st_u8 (bp_st_u16 (path_fill path p) 0x178 instance_id) 0x17A 1

unfoldable pub wc_get_read : Buffer → WcTime
wc_get_read p = record {
  sec = ld_u64 p 0x180;
  nsec = ld_u64 p 0x188;
  aux0 = ld_u64 p 0x190;
  aux1 = ld_u64 p 0x198;
  aux2 = ld_u64 p 0x1A0;
  aux3 = ld_u64 p 0x1A8;
}

-- The six fields of a time.
unfoldable pub put_time : Option WcTime → Buffer → Buffer
put_time none p = p
put_time (some t) p =
    let p1 = wc_st_u64 (wc_st_u64 p 0x180 t.sec) 0x188 t.nsec in
    let p2 = wc_st_u64 (wc_st_u64 p1 0x190 t.aux0) 0x198 t.aux1 in
    wc_st_u64 (wc_st_u64 p2 0x1A0 t.aux2) 0x1A8 t.aux3

abbrev pub given : Option WcTime → ℕ
given none = 0
given (some t) = 1

unfoldable pub wc_set_fill : List ℕ → ℕ → Option WcTime → Buffer → Buffer
wc_set_fill path instance_id t p =
    put_time t (st_u8 (bp_st_u16 (path_fill path p) 0x178 instance_id) 0x17A (given t))

abbrev pub get_spec : List ℕ → List ℕ → ℕ → CallSpec WcTime
get_spec fn path instance_id = record {
  fn_name = fn;
  payload_size = 0x1B0;
  fill_payload = wc_get_fill path instance_id;
  read_reply = wc_get_read;
  timeout_ms = 5000;
}

abbrev pub set_spec : List ℕ → List ℕ → ℕ → Option WcTime → CallSpec (Unit {0})
set_spec fn path instance_id t = record {
  fn_name = fn;
  payload_size = 0x1B0;
  fill_payload = wc_set_fill path instance_id t;
  read_reply = λ p. tt;
  timeout_ms = 5000;
}

module _ {W : Type 0} (env : Env W) where
  unfoldable pub wc_get_dispatch : List ℕ → Option (List ℕ) → ℕ → M W WcTime
  wc_get_dispatch fn path instance_id =
      with_path (λ name. bp_client_call env (get_spec fn name instance_id)) path

  unfoldable pub bp_client_get_wctime : Option (List ℕ) → ℕ → M W WcTime
  bp_client_get_wctime path instance_id =
      wc_get_dispatch (codes "OCXcip_GetWCTime") path instance_id

  unfoldable pub bp_client_get_wctime_utc : Option (List ℕ) → ℕ → M W WcTime
  bp_client_get_wctime_utc path instance_id =
      wc_get_dispatch (codes "OCXcip_GetWCTimeUTC") path instance_id

  unfoldable pub wc_set_dispatch : List ℕ → Option (List ℕ) → ℕ → Option WcTime → M W (Unit {0})
  wc_set_dispatch fn path instance_id t =
      with_path (λ name. bp_client_call env (set_spec fn name instance_id t)) path

  unfoldable pub bp_client_set_wctime : Option (List ℕ) → ℕ → Option WcTime → M W (Unit {0})
  bp_client_set_wctime path instance_id t =
      wc_set_dispatch (codes "OCXcip_SetWCTime") path instance_id t

  unfoldable pub bp_client_set_wctime_utc : Option (List ℕ) → ℕ → Option WcTime → M W (Unit {0})
  bp_client_set_wctime_utc path instance_id t =
      wc_set_dispatch (codes "OCXcip_SetWCTimeUTC") path instance_id t

-- A `bp_wctime_epoch_t`.
pub data Epoch : Type 0 where
  unix since_1972 since_1998 since_2000 : Epoch

unfoldable pub epoch_unix_seconds : Epoch → ℕ
epoch_unix_seconds unix = 0
epoch_unix_seconds since_1972 = 63072000
epoch_unix_seconds since_1998 = 883612800
epoch_unix_seconds since_2000 = 946684800

-- `sec` as an `int64_t`, shifted by the epoch. C leaves a sum of 2^63 or more undefined.
unfoldable pub bp_wctime_to_unix_us : WcTime → Epoch → ℤ
bp_wctime_to_unix_us t e =
    let shifted = t.sec + epoch_unix_seconds e * 1000000 in
    if ltb t.sec (2 ^ 63)
    then pos shifted
    else if leb (2 ^ 64) shifted
    then pos (shifted - 2 ^ 64)
    else negsuc (2 ^ 64 - shifted - 1)

-- A `bp_wctime_local_t`.
pub record LocalTime : Type 0 where
  pub day : ℕ
  pub hour : ℕ
  pub minute : ℕ
  pub second : ℕ

unfoldable pub bp_wctime_decode_local : WcTime → LocalTime
bp_wctime_decode_local t = record {
  day = t.aux2 % 2 ^ 16;
  hour = t.aux2 / 2 ^ 16 % 2 ^ 16;
  minute = t.aux2 / 2 ^ 32 % 2 ^ 16;
  second = t.aux2 / 2 ^ 48 % 2 ^ 16;
}

-- The bytes before the NUL that is written; none for a buffer of no bytes.
unfoldable pub bp_wctime_tz_name : WcTime → ℕ → List ℕ
bp_wctime_tz_name t out_size =
    let bytes = le_bytes 8 t.aux0 ++ le_bytes 8 t.aux1 ++ le_bytes 8 t.aux2 ++ le_bytes 8 t.aux3 in
    c_string (of_bytes bytes) 0 (min (out_size - 1) 32)
