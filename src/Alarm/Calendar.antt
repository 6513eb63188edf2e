-- ===== src/Alarm/Calendar.antt =====
-- `alarm_next_local` of main/alarm_sched.c, over the process's time zone.
pub mod Minutes
pub mod Soundness
mod Tests
use esp32_deepgram_voice_age.Common.{
  ℕ, zero, suc, ◌+◌, ◌*◌, ◌/◌, ◌%◌, ◌^◌, min, Bool, false, not, ◌&&◌, ◌||◌, Option, none, some, ltb,
  ◌==◌, if◌then◌else◌, has_bits,
}
use esp32_deepgram_voice_age.Common.Int.{ℤ, pos, negsuc, ltb_ℤ, leb_ℤ}
use esp32_deepgram_voice_age.Alarm.{alarm_days_all}

-- `struct tm`. A wall time of this program lies after 1970, so no field is negative; `isdst` is
-- `none` for -1, which leaves the question to the library.
pub record Tm : Type 0 where
  pub year : ℕ
  pub mon : ℕ
  pub mday : ℕ
  pub hour : ℕ
  pub min : ℕ
  pub wday : ℕ
  pub isdst : Option ℕ

-- The C library's time functions under the zone in force. `mktime` gives the time and the
-- normalised fields, and `none` for (time_t)-1; `localtime` is `localtime_r`, `none` for NULL.
pub record Zone : Type 0 where
  pub localtime : ℤ → Option Tm
  pub mktime : Tm → Option (ℤ × Tm)

abbrev pub wall : ℕ → ℕ → ℕ → ℕ → ℕ → Option ℕ → Tm
wall y mon mday hh mm dst = record {
  year = y;
  mon = mon;
  mday = mday;
  hour = hh;
  min = mm;
  wday = 0;
  isdst = dst;
}

abbrev same_dst : Option ℕ → ℕ → Bool
same_dst none dst = false
same_dst (some d) dst = d == dst

-- The fields that `resolve_exact` compares.
pub reads : Tm → ℕ → ℕ → ℕ → ℕ → ℕ → ℕ → Bool
reads back y mon mday hh mm dst =
    back.year == y
    && (back.mon == mon
        && (back.mday == mday && (back.hour == hh && (back.min == mm && same_dst back.isdst dst))))

module _ (z : Zone) where
  open z use {localtime, mktime}

  -- One round of the loop of `resolve_exact`: the best instant so far, with -1 for none.
  try_dst : ℕ → ℕ → ℕ → ℕ → ℕ → ℕ → ℤ → ℤ
  unfolding reads
  try_dst y mon mday hh mm dst best = elim (mktime (wall y mon mday hh mm (some dst))) [
    | none ↦ best
    | some (t, _) ↦ elim (localtime t) [
      | none ↦ best
      | some back ↦
          if reads back y mon mday hh mm dst
          then (if ltb_ℤ best (pos 0) || ltb_ℤ t best then t else best)
          else best
    ]
  ]

  pub resolve_exact : ℕ → ℕ → ℕ → ℕ → ℕ → ℤ
  unfolding try_dst
  resolve_exact y mon mday hh mm =
      try_dst y mon mday hh mm 1 (try_dst y mon mday hh mm 0 (negsuc 0))

  -- The loop of `resolve_wall` from minute `m` of the day, with the rounds that are left.
  pub resolve_from : ℕ → ℕ → ℕ → ℕ → ℕ → ℤ
  resolve_from y mon mday zero m = negsuc 0
  resolve_from y mon mday (suc left) m =
      let t = resolve_exact y mon mday (m / 60) (m % 60) in
      let later = resolve_from y mon mday left (m + 1) in
      if not (ltb m 1440) then negsuc 0 else if leb_ℤ (pos 0) t then t else later

  -- 181 rounds, the first minute and 180 after it.
  pub resolve_wall : ℕ → ℕ → ℕ → ℕ → ℕ → ℤ
  resolve_wall y mon mday hh mm = resolve_from y mon mday 181 (hh * 60 + mm)

  -- A round of the loop of `alarm_next_local`, at a day as `mktime` normalises its noon: the
  -- answer, or `none` to go on to the next day.
  pub day_answer : Option (ℤ × Tm) → ℤ → ℕ → ℕ → ℕ → Option ℤ
  day_answer none now hh mm mask = none
  day_answer (some (_, day)) now hh mm mask =
      let t = resolve_wall day.year day.mon day.mday hh mm in
      if not (has_bits mask (2 ^ day.wday)) then none else if ltb_ℤ now t then some t else none

  abbrev pub noon : Tm → ℕ → Option (ℤ × Tm)
  noon today d = mktime (wall today.year today.mon (today.mday + d) 12 0 none)

  -- That loop from day `d` after today, with the rounds that are left.
  next_from : ℕ → ℕ → ℤ → Tm → ℕ → ℕ → ℕ → ℤ
  unfolding day_answer
  next_from zero d now today hh mm mask = negsuc 0
  next_from (suc left) d now today hh mm mask = elim (day_answer (noon today d) now hh mm mask) [
    | none ↦ next_from left (d + 1) now today hh mm mask
    | some t ↦ t
  ]

  -- `alarm_next_local`. Its callers pass no negative hour or minute.
  unfoldable pub next_local : ℤ → ℕ → ℕ → ℕ → ℤ
  unfolding next_from resolve_wall resolve_from resolve_exact
  next_local now hh mm mask =
      if not (has_bits mask alarm_days_all) || (ltb 23 hh || ltb 59 mm)
      then negsuc 0
      else elim (localtime now) [
        | none ↦ negsuc 0
        | some today ↦ next_from 8 0 now today hh mm mask
      ]
