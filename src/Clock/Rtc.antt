-- ===== src/Clock/Rtc.antt =====
-- What is written to the real-time clock and read back: `rtc_write` and `rtc_read`.
use esp32_deepgram_voice_age.Common.{
  ℕ, ◌+◌, ◌*◌, ◌%◌, ◌≤◌, ◌<◌, ◌≡◌, refl, ap, ◌∙◌, true, false, ◌||◌, none, some, arith, ltb, leb,
  if◌then◌else◌,
}
use esp32_deepgram_voice_age.Clock.{
  checked_instant, valid_epoch, from_bcd, to_bcd, Date, rtc_registers, rtc_read,
}
use esp32_deepgram_voice_age.Clock.Civil.{counted_days, days_from_civil-counted_days}

-- The fields of a date of the years 2000 to 2099.
pub record IsDate (g : Date) : Type 0 where
  pub year_fits : g.year < 100
  pub month_pos : 1 ≤ g.month
  pub month_fits : g.month ≤ 12
  pub day_pos : 1 ≤ g.day
  pub day_fits : g.day ≤ 31
  pub hour_fits : g.hour ≤ 23
  pub minute_fits : g.minute ≤ 59
  pub second_fits : g.second ≤ 59

-- The seconds since 1970 at a date, by the count of the days.
abbrev pub instant : Date → ℕ
instant g = counted_days g.year g.month g.day * 86400 + g.hour * 3600 + g.minute * 60 + g.second

-- Two decimal digits pass through the chip, also under its masks.
bcd : (v : ℕ) → v < 100 → from_bcd (to_bcd v) ≡ v
bcd v h = omega arith

bcd_128 : (v : ℕ) → v < 80 → from_bcd (to_bcd v % 128) ≡ v
bcd_128 v h = omega arith

bcd_64 : (v : ℕ) → v < 40 → from_bcd (to_bcd v % 64) ≡ v
bcd_64 v h = omega arith

bcd_32 : (v : ℕ) → v < 20 → from_bcd (to_bcd v % 32) ≡ v
bcd_32 v h = omega arith

running : (v : ℕ) → v < 80 → leb 128 (to_bcd v) ≡ false
running v h = ground (arith, h)

checked_instant-date :
    (g : Date)
    → IsDate g
    → valid_epoch ≤ instant g
    → checked_instant g.second g.minute g.hour g.day g.month (2000 + g.year) ≡ some (instant g)
unfolding checked_instant
checked_instant-date g v h =
    let valid : ((ltb g.month 1 || ltb 12 g.month)
          || ((ltb g.day 1 || ltb 31 g.day)
              || (ltb 23 g.hour || (ltb 59 g.minute || ltb 59 g.second))))
        ≡ false =
      ground (
        arith, v.month_pos, v.month_fits, v.day_pos, v.day_fits, v.hour_fits, v.minute_fits,
        v.second_fits,
      ) in
    let c =
      days_from_civil-counted_days g.year g.month g.day v.year_fits v.month_pos v.month_fits
        v.day_pos in
    let late : leb valid_epoch (instant g) ≡ true = ground (arith, h) in rw (c, valid, late) refl

-- A date of the years 2000 to 2099, from 2025 on, that is written to the chip is read back as its
-- instant, the days counted by the Gregorian rule.
pub rtc_read-rtc_registers :
    (g : Date) → IsDate g → valid_epoch ≤ instant g → rtc_read (rtc_registers g) ≡ some (instant g)
unfolding rtc_read rtc_registers
rtc_read-rtc_registers g v h =
    let y = bcd g.year v.year_fits in
    let o = bcd_32 g.month (omega (arith, v.month_fits)) in
    let d = bcd_64 g.day (omega (arith, v.day_fits)) in
    let t = bcd_64 g.hour (omega (arith, v.hour_fits)) in
    let m = bcd_128 g.minute (omega (arith, v.minute_fits)) in
    let s = bcd_128 g.second (omega (arith, v.second_fits)) in
    let r = running g.second (omega (arith, v.second_fits)) in
    ap
      (λ b.
        if b
        then none
        else checked_instant (from_bcd (to_bcd g.second % 128)) (from_bcd (to_bcd g.minute % 128))
            (from_bcd (to_bcd g.hour % 64)) (from_bcd (to_bcd g.day % 64))
            (from_bcd (to_bcd g.month % 32)) (2000 + from_bcd (to_bcd g.year)))
      r
    ∙ (λ i. checked_instant (s i) (m i) (t i) (d i) (o i) (2000 + y i))
    ∙ checked_instant-date g v h
