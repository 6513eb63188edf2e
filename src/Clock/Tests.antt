-- ===== src/Clock/Tests.antt =====
-- A date through the real-time clock.
use esp32_deepgram_voice_age.Common.{◌≡◌, refl, none, some, [], ◌∷◌, arith}
use esp32_deepgram_voice_age.Clock.{Date, rtc_registers, rtc_read}
use esp32_deepgram_voice_age.Clock.Civil.{counted_days, days_of_years}
use esp32_deepgram_voice_age.Clock.Rtc.{IsDate, instant, rtc_read-rtc_registers}

-- 29 February 2028, 23:59:58.
abbrev leap_night : Date
leap_night = record {
  year = 28;
  month = 2;
  day = 29;
  wday = 2;
  hour = 23;
  minute = 59;
  second = 58;
}

leap_night-IsDate : IsDate leap_night
leap_night-IsDate = ground arith

leap_night-instant : instant leap_night ≡ 1835481598
unfolding counted_days days_of_years
leap_night-instant = refl

rtc_read-rtc_registers_example : rtc_read (rtc_registers leap_night) ≡ some (instant leap_night)
rtc_read-rtc_registers_example =
    rtc_read-rtc_registers leap_night leap_night-IsDate (omega (arith, leap_night-instant))

-- A chip whose oscillator stopped gives no instant.
stopped : rtc_read (0x80 ∷ 0 ∷ 0 ∷ 1 ∷ 0 ∷ 1 ∷ 0x30 ∷ []) ≡ none
unfolding rtc_read
stopped = refl
