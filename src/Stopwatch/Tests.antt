-- ===== src/Stopwatch/Tests.antt =====
-- Runs of the stopwatch, and its theorems at concrete runs.
use esp32_deepgram_voice_age.Common.{◌≡◌, refl, List, [], ◌∷◌}
use esp32_deepgram_voice_age.Common.Bytes.{codes, decimal, decimal_two}
use esp32_deepgram_voice_age.Stopwatch.{zeroed, toggle, lap, fmt}
use esp32_deepgram_voice_age.Stopwatch.Time.{
  Act, press_toggle, press_lap, wait, run, Agrees, at_zero, run-Agrees, ideal_act, device_act,
}

abbrev acts : List Act
acts = press_toggle ∷ wait 500 ∷ press_lap ∷ wait 700 ∷ press_toggle ∷ wait 900 ∷ []

run-Agrees_example :
    Agrees (run acts (at_zero 4294967000) zeroed).0 (run acts (at_zero 4294967000) zeroed).1
run-Agrees_example = run-Agrees acts 4294967000

runs_over : (run acts (at_zero 4294967000) zeroed).1.banked_ms ≡ 1200
unfolding run device_act ideal_act toggle lap
runs_over = refl

shown :
    (fmt 754560 12 12 ≡ (codes "12:34", codes ".56")) × (fmt 3723000 12 12 ≡ (codes "1:02:03", []))
unfolding fmt decimal decimal_two
shown = (refl, refl)
