-- ===== src/Battery/Tests.antt =====
-- Runs of the battery indicator.
use esp32_deepgram_voice_age.Common.{ℕ, ◌≡◌, refl, true, false, some, List, [], ◌∷◌, arith}
use esp32_deepgram_voice_age.Battery.{
  Reading, Battery, shift_in, sort_onto, median_of, settle, report, gauged, sample,
}
use esp32_deepgram_voice_age.Battery.Median.{IsMedian, median_of-IsMedian}
use esp32_deepgram_voice_age.Battery.Settling.{samples}

median_of-IsMedian_example : IsMedian (60 ∷ 59 ∷ 80 ∷ 59 ∷ []) (median_of (60 ∷ 59 ∷ 80 ∷ 59 ∷ []))
median_of-IsMedian_example = median_of-IsMedian (60 ∷ 59 ∷ 80 ∷ 59 ∷ []) (omega arith)

median_of_four : median_of (60 ∷ 59 ∷ 80 ∷ 59 ∷ []) ≡ 60
unfolding median_of sort_onto shift_in
median_of_four = refl

abbrev reading : ℕ → Reading
reading g = record { status1 = 0x20; status2 = 0x22; vbat_h = 0x0F; vbat_l = 0x10; gauge = g }

-- The indicator at 59, after one reading.
abbrev at_59 : Battery
at_59 = record {
  history = 59 ∷ 0 ∷ 0 ∷ 0 ∷ 0 ∷ [];
  filled = 1;
  reported = some 59;
  prev_pct = some 59;
  settled = 1;
  valid = true;
  percent = 59;
  millivolts = 3800;
  charging = false;
  full = false;
  chg_state = some 5;
  low = false;
  vbus = false;
  direction = 0;
}

abbrev five_at_60 : List Reading
five_at_60 = reading 60 ∷ reading 60 ∷ reading 60 ∷ reading 60 ∷ reading 60 ∷ []

-- Without the count of settled passes, the deadband holds the indicator at 59.
one_at_60 : (samples 15 (reading 60 ∷ []) at_59).percent ≡ 59
unfolding samples sample gauged settle report median_of sort_onto shift_in
one_at_60 = refl
