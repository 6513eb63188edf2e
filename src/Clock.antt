-- ===== src/Clock.antt =====
-- The real-time clock chip of main/clock.c: the registers that are written for an instant and the
-- instant that is read from them. Years are 2000 to 2099, so no number here is negative. `v & mask`
-- for a mask of low bits is a remainder.
pub mod Civil
pub mod Rtc
pub mod Zone
mod Tests
use esp32_deepgram_voice_age.Common.{
  ℕ, ◌+◌, ◌-◌, ◌*◌, ◌/◌, ◌%◌, ◌||◌, Option, none, some, List, [], ◌∷◌, ltb, leb, if◌then◌else◌,
  get_or, u8,
}

abbrev pub valid_epoch : ℕ
valid_epoch = 1735689600

abbrev pub from_bcd : ℕ → ℕ
from_bcd v = u8 (v / 16 * 10 + v % 16)

abbrev pub to_bcd : ℕ → ℕ
to_bcd v = u8 (v / 10 * 16 + v % 10)

-- `days_from_civil`, for a year of 1 at least.
unfoldable pub days_from_civil : ℕ → ℕ → ℕ → ℕ
days_from_civil year m d =
    let y = if leb m 2 then year - 1 else year in
    let era = y / 400 in
    let yoe = y - era * 400 in
    let doy = (153 * (if ltb 2 m then m - 3 else m + 9) + 2) / 5 + d - 1 in
    let doe = yoe * 365 + yoe / 4 - yoe / 100 + doy in era * 146097 + doe - 719468

-- A UTC date and time, as gmtime_r breaks an instant down; `year` counts from 2000 and `month` from
-- 1.
pub record Date : Type 0 where
  pub year : ℕ
  pub month : ℕ
  pub day : ℕ
  pub wday : ℕ
  pub hour : ℕ
  pub minute : ℕ
  pub second : ℕ

-- `rtc_write`: the seven registers from RTC_REG_TIME on.
unfoldable pub rtc_registers : Date → List ℕ
rtc_registers g =
    to_bcd g.second
    ∷ to_bcd g.minute
    ∷ to_bcd g.hour
    ∷ to_bcd g.day
    ∷ u8 g.wday
    ∷ to_bcd g.month
    ∷ to_bcd g.year
    ∷ []

-- The checks of `rtc_read` on the decoded fields, and its instant.
unfoldable pub checked_instant : ℕ → ℕ → ℕ → ℕ → ℕ → ℕ → Option ℕ
checked_instant sec minute hour day month year =
    let epoch = days_from_civil year month day * 86400 + hour * 3600 + minute * 60 + sec in
    if (ltb month 1 || ltb 12 month)
      || ((ltb day 1 || ltb 31 day) || (ltb 23 hour || (ltb 59 minute || ltb 59 sec)))
    then none
    else if leb valid_epoch epoch
    then some epoch
    else none

-- `rtc_read`, from what the seven registers answer.
unfoldable pub rtc_read : List ℕ → Option ℕ
rtc_read r =
    if leb 128 (get_or r 0 0)
    then none
    else checked_instant (from_bcd (get_or r 0 0 % 128)) (from_bcd (get_or r 1 0 % 128))
        (from_bcd (get_or r 2 0 % 64)) (from_bcd (get_or r 3 0 % 64)) (from_bcd (get_or r 5 0 % 32))
        (2000 + from_bcd (get_or r 6 0))
