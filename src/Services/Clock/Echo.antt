-- ===== src/Services/Clock/Echo.antt =====
-- What a request to set a clock holds (c/src/wctime.c), read as an answer is read.
use cmee1y1_clients.Base.{
  ℕ, ◌+◌, ◌/◌, ◌%◌, ◌^◌, ◌≤◌, ◌<◌, ◌≡◌, refl, ◌∙◌, ◌⊎◌, inl, inr, Option, none, some, List, length,
  arith,
}
use cmee1y1_clients.Memory.{Buffer, st_u8, bp_st_u16, bp_st_u32, bp_ld_u16, ld_u64, slice}
use cmee1y1_clients.Memory.Laws.{
  Apart, ld_u32-st, ld_u32-agree, ld_u16-agree, st_u32-out, st_u16-out, st_u8-out, ld_u16-st,
  slice-agree,
}
use cmee1y1_clients.Services.{path_fill}
use cmee1y1_clients.Services.Paths.Fills.{path_fill-path, path_fill-out, st_u8_self}
use cmee1y1_clients.Services.Clock.{WcTime, wc_st_u64, wc_get_read, put_time, wc_set_fill}

-- A time whose fields are 64-bit integers.
pub record IsTime (t : WcTime) : Type 0 where
  pub sec : t.sec < 2 ^ 64
  pub nsec : t.nsec < 2 ^ 64
  pub aux0 : t.aux0 < 2 ^ 64
  pub aux1 : t.aux1 < 2 ^ 64
  pub aux2 : t.aux2 < 2 ^ 64
  pub aux3 : t.aux3 < 2 ^ 64

wc_st_u64-out : (m : Buffer) (o v i : ℕ) → (i < o) ⊎ (o + 8 ≤ i) → wc_st_u64 m o v i ≡ m i
unfolding wc_st_u64
wc_st_u64-out m o v i h =
    ground (arith, st_u32-out (bp_st_u32 m o v) (o + 4) (v / 2 ^ 32) i, st_u32-out m o v i)

ld_u64-Apart : (m : Buffer) (o o' v : ℕ) → Apart o 8 o' 8 → ld_u64 (wc_st_u64 m o' v) o ≡ ld_u64 m o
unfolding ld_u64
ld_u64-Apart m o o' v h = omega (
  arith,
  ld_u32-agree (wc_st_u64 m o' v) m o (λ i a b.
      wc_st_u64-out m o' v i (elim h [ inl x ↦ inl (omega arith) | inr x ↦ inr (omega arith) ])),
  ld_u32-agree (wc_st_u64 m o' v) m (o + 4) (λ i a b.
      wc_st_u64-out m o' v i (elim h [ inl x ↦ inl (omega arith) | inr x ↦ inr (omega arith) ])),
)

ld_u64-wc_st_u64 : (m : Buffer) (o v : ℕ) → v < 2 ^ 64 → ld_u64 (wc_st_u64 m o v) o ≡ v
unfolding ld_u64 wc_st_u64
ld_u64-wc_st_u64 m o v h = omega (
  arith,
  ld_u32-agree (bp_st_u32 (bp_st_u32 m o v) (o + 4) (v / 2 ^ 32)) (bp_st_u32 m o v) o
      (λ i a b. st_u32-out (bp_st_u32 m o v) (o + 4) (v / 2 ^ 32) i (inl (omega arith))),
  ld_u32-st m o v,
  ld_u32-st (bp_st_u32 m o v) (o + 4) (v / 2 ^ 32),
)

put_time-read : (t : WcTime) (p : Buffer) → IsTime t → wc_get_read (put_time (some t) p) ≡ t
unfolding wc_get_read put_time
put_time-read t p h =
    let p1 = wc_st_u64 p 0x180 t.sec in
    let p2 = wc_st_u64 p1 0x188 t.nsec in
    let p3 = wc_st_u64 p2 0x190 t.aux0 in
    let p4 = wc_st_u64 p3 0x198 t.aux1 in
    let p5 = wc_st_u64 p4 0x1A0 t.aux2 in
    let aux3 = ld_u64-wc_st_u64 p5 0x1A8 t.aux3 h.aux3 in
    let past5 : (o : ℕ) → o + 8 ≤ 0x1A8 → ld_u64 (wc_st_u64 p5 0x1A8 t.aux3) o ≡ ld_u64 p5 o =
      λ o b. ld_u64-Apart p5 o 0x1A8 t.aux3 (inl b) in
    let past4 : (o : ℕ) → o + 8 ≤ 0x1A0 → ld_u64 (wc_st_u64 p5 0x1A8 t.aux3) o ≡ ld_u64 p4 o =
      λ o b. past5 o (omega arith) ∙ ld_u64-Apart p4 o 0x1A0 t.aux2 (inl b) in
    let past3 : (o : ℕ) → o + 8 ≤ 0x198 → ld_u64 (wc_st_u64 p5 0x1A8 t.aux3) o ≡ ld_u64 p3 o =
      λ o b. past4 o (omega arith) ∙ ld_u64-Apart p3 o 0x198 t.aux1 (inl b) in
    let past2 : (o : ℕ) → o + 8 ≤ 0x190 → ld_u64 (wc_st_u64 p5 0x1A8 t.aux3) o ≡ ld_u64 p2 o =
      λ o b. past3 o (omega arith) ∙ ld_u64-Apart p2 o 0x190 t.aux0 (inl b) in
    let past1 : (o : ℕ) → o + 8 ≤ 0x188 → ld_u64 (wc_st_u64 p5 0x1A8 t.aux3) o ≡ ld_u64 p1 o =
      λ o b. past2 o (omega arith) ∙ ld_u64-Apart p1 o 0x188 t.nsec (inl b) in
    let sec = past1 0x180 (omega arith) ∙ ld_u64-wc_st_u64 p 0x180 t.sec h.sec in
    let nsec = past2 0x188 (omega arith) ∙ ld_u64-wc_st_u64 p1 0x188 t.nsec h.nsec in
    let aux0 = past3 0x190 (omega arith) ∙ ld_u64-wc_st_u64 p2 0x190 t.aux0 h.aux0 in
    let aux1 = past4 0x198 (omega arith) ∙ ld_u64-wc_st_u64 p3 0x198 t.aux1 h.aux1 in
    let aux2 = past5 0x1A0 (omega arith) ∙ ld_u64-wc_st_u64 p4 0x1A0 t.aux2 h.aux2 in
    rw (sec, nsec, aux0, aux1, aux2, aux3) refl

put_time-out :
    (t : Option WcTime) (p : Buffer) (i : ℕ) → (i < 0x180) ⊎ (0x1B0 ≤ i) → put_time t p i ≡ p i
unfolding put_time
put_time-out none p i h = refl
put_time-out (some t) p i h =
    wc_st_u64-out _ 0x1A8 t.aux3 i (elim h [ inl x ↦ inl (omega arith) | inr x ↦ inr x ])
    ∙ wc_st_u64-out _ 0x1A0 t.aux2 i
        (elim h [ inl x ↦ inl (omega arith) | inr x ↦ inr (omega arith) ])
    ∙ wc_st_u64-out _ 0x198 t.aux1 i
        (elim h [ inl x ↦ inl (omega arith) | inr x ↦ inr (omega arith) ])
    ∙ wc_st_u64-out _ 0x190 t.aux0 i
        (elim h [ inl x ↦ inl (omega arith) | inr x ↦ inr (omega arith) ])
    ∙ wc_st_u64-out _ 0x188 t.nsec i
        (elim h [ inl x ↦ inl (omega arith) | inr x ↦ inr (omega arith) ])
    ∙ wc_st_u64-out p 0x180 t.sec i
        (elim h [ inl x ↦ inl (omega arith) | inr x ↦ inr (omega arith) ])

-- A request to set a clock to a time of 64-bit fields, for a path of 254 bytes at most: an engine that
-- stored the six fields and gave them back would answer this time; the path with its NUL, the instance
-- and the flag of a given time stand in front of it; and nothing is written outside the payload of
-- 0x1B0 bytes.
pub wc_set_fill-read :
    (path : List ℕ) (instance_id : ℕ) (t : WcTime) (p : Buffer)
    → length path ≤ 254
    → IsTime t
    → let q = wc_set_fill path instance_id (some t) p in
      (wc_get_read q ≡ t)
      × (slice q 0x78 (length path) ≡ path)
      × (q (0x78 + length path) ≡ 0)
      × (bp_ld_u16 q 0x178 ≡ instance_id % 2 ^ 16)
      × (q 0x17A ≡ 1)
      × ((i : ℕ) → (i < 0x78) ⊎ (0x1B0 ≤ i) → q i ≡ p i)
unfolding wc_set_fill
wc_set_fill-read path instance_id t p short h =
    let written = path_fill-path path p short in
    let s = bp_st_u16 (path_fill path p) 0x178 instance_id in
    let front : (i : ℕ) → i < 0x178 → put_time (some t) (st_u8 s 0x17A 1) i ≡ path_fill path p i =
      λ i b.
        put_time-out (some t) (st_u8 s 0x17A 1) i (inl (omega arith))
        ∙ st_u8-out s 0x17A 1 i (λ e. omega (arith, e, b))
        ∙ st_u16-out (path_fill path p) 0x178 instance_id i (inl b) in
    (
      put_time-read t (st_u8 s 0x17A 1) h,
      slice-agree _ (path_fill path p) 0x78 (length path)
            (λ i a b. front i (omega (arith, b, short)))
          ∙ written.0,
      front (0x78 + length path) (omega (arith, short)) ∙ written.1,
      ld_u16-agree _ s 0x178 (λ i a b.
            put_time-out (some t) (st_u8 s 0x17A 1) i (inl (omega arith))
            ∙ st_u8-out s 0x17A 1 i (λ e. omega (arith, e, b)))
          ∙ ld_u16-st (path_fill path p) 0x178 instance_id,
      put_time-out (some t) (st_u8 s 0x17A 1) 0x17A (inl (omega arith))
          ∙ st_u8_self s 0x17A 1 (omega arith),
      λ i out. elim out [
        | inl low ↦ front i (omega arith) ∙ path_fill-out path p i short (inl low)
        | inr high ↦
            put_time-out (some t) (st_u8 s 0x17A 1) i (inr high)
            ∙ st_u8-out s 0x17A 1 i (λ e. omega (arith, e, high))
            ∙ st_u16-out (path_fill path p) 0x178 instance_id i (inr (omega arith))
            ∙ path_fill-out path p i short (inr (omega arith))
      ],
    )
