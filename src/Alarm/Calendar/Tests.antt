-- ===== src/Alarm/Calendar/Tests.antt =====
-- `alarm_next_local` in a concrete zone, and its theorem there.
use esp32_deepgram_voice_age.Common.{
  ℕ, ◌+◌, ◌-◌, ◌*◌, ◌/◌, ◌%◌, ◌≡◌, refl, ◌&&◌, Option, none, some, ◌==◌, if◌then◌else◌,
}
use esp32_deepgram_voice_age.Common.Int.{ℤ, pos, negsuc}
use mathlib.Core.Option
use esp32_deepgram_voice_age.Alarm.Calendar.{Tm, Zone, next_local}

-- A zone with summer time all the year, of one endless month of 2026, whose day 4 is a Sunday.
abbrev plain_fields : ℕ → Tm
plain_fields t = record {
  year = 126;
  mon = 0;
  mday = t / 86400 + 1;
  hour = t % 86400 / 3600;
  min = t % 3600 / 60;
  wday = (t / 86400 + 4) % 7;
  isdst = some 1;
}

abbrev plain_localtime : ℤ → Option Tm
plain_localtime (negsuc n) = none
plain_localtime (pos t) = some (plain_fields t)

abbrev plain_seconds : Tm → ℕ
plain_seconds tm = (tm.mday - 1) * 86400 + tm.hour * 3600 + tm.min * 60

abbrev plain_mktime : Tm → Option (ℤ × Tm)
plain_mktime tm =
    if tm.year == 126 && tm.mon == 0
    then Option.map (λ back. (pos (plain_seconds tm), back))
        (plain_localtime (pos (plain_seconds tm)))
    else none

abbrev plain : Zone
plain = record { localtime = plain_localtime; mktime = plain_mktime }

abbrev thursday : Tm
thursday = record { year = 126; mon = 0; mday = 1; hour = 10; min = 0; wday = 4; isdst = some 1 }

-- At 10:00 on a Thursday, 7:30 is tomorrow's, and 7:30 on Sundays is in three days.
answers :
    (next_local plain (pos 36000) 7 30 0x7F ≡ pos (86400 + 27000))
    × (next_local plain (pos 36000) 7 30 1 ≡ pos (3 * 86400 + 27000))
unfolding next_local
answers = (refl, refl)
