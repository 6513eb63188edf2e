-- ===== src/Alarm/Text/RoundTrip.antt =====
-- What is printed is read back.
use esp32_deepgram_voice_age.Common.{
  ℕ, zero, suc, ◌%◌, ◌<◌, ◌≡◌, refl, Bool, true, false, ◌&&◌, Option, none, some, arith, ◌==◌,
  ==_iff,
}
use esp32_deepgram_voice_age.Alarm.Text.{parse_hhmm, fmt_time, parse_days, days_phrase}

-- A table of the tests at 0, ..., count - 1 that has no `false`.
passes : (ℕ → Bool) → ℕ → Bool
passes test zero = true
passes test (suc count) = passes test count && test count

passes-at : (test : ℕ → Bool) (count k : ℕ) → k < count → passes test count ≡ true → test k ≡ true
unfolding passes
passes-at test zero k inside e = absurd (omega arith)
passes-at test (suc count) k inside e = ground (arith, passes-at test count k)

is_time : Option (ℕ × ℕ) → ℕ → ℕ → Bool
is_time none hh mm = false
is_time (some (h, m)) hh mm = h == hh && m == mm

is_time-eq : (o : Option (ℕ × ℕ)) (hh mm : ℕ) → is_time o hh mm ≡ true → o ≡ some (hh, mm)
unfolding is_time
is_time-eq none hh mm e = cc
is_time-eq (some (h, m)) hh mm e = ground arith

reads_back : ℕ → ℕ → Bool
unfolding parse_hhmm fmt_time is_time
reads_back hh mm = is_time (parse_hhmm (some (fmt_time hh mm false 12))) hh mm

reads_back_table : passes (λ hh. passes (reads_back hh) 60) 24 ≡ true
unfolding passes reads_back
reads_back_table = refl

days_back : ℕ → Bool
unfolding parse_days days_phrase
days_back mask = parse_days (some (days_phrase mask 24)) == mask % 128

days_back_table : passes days_back 256 ≡ true
unfolding passes days_back
days_back_table = refl

-- The 24-hour time of every minute of the day, printed into twelve bytes, is read back as it was.
pub parse_hhmm-fmt_time :
    (hh mm : ℕ) → hh < 24 → mm < 60 → parse_hhmm (some (fmt_time hh mm false 12)) ≡ some (hh, mm)
unfolding reads_back
parse_hhmm-fmt_time hh mm h m =
    let hour = passes-at (λ k. passes (reads_back k) 60) 24 hh h reads_back_table in
    is_time-eq _ hh mm (passes-at (reads_back hh) 60 mm m hour)

-- The phrase of every mask of days, printed into the 24 bytes that the tools give it, is read back
-- as the days of the mask.
pub parse_days-days_phrase :
    (mask : ℕ) → mask < 256 → parse_days (some (days_phrase mask 24)) ≡ mask % 128
unfolding days_back
parse_days-days_phrase mask h = (==_iff _ _).0 (passes-at days_back 256 mask h days_back_table)
