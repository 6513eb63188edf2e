-- ===== src/Button/Tests.antt =====
-- Runs of the BOOT button's callbacks.
use esp32_deepgram_voice_age.Common.{◌≡◌, refl, true, false, List, [], ◌∷◌, arith, All}
use esp32_deepgram_voice_age.Button.{
  Button, session_toggle, Event, press_down, hold, double_click, click, run, on_event, on_click,
  on_press_down, pressed,
}
use esp32_deepgram_voice_age.Button.Swallow.{IsDismissal, Impatient, run-Swallowed}

-- A click with no alarm starts or stops a session.
plain_click : (run (press_down false 50 ∷ click ∷ []) pressed).1 ≡ session_toggle ∷ []
unfolding run on_event on_press_down on_click
plain_click = refl

-- The button after a press that stopped an alarm.
abbrev stopped : Button
stopped = record pressed { swallow = true; dismiss_ms = 1000 }

-- A sleepy hand: the hold of that press, a second press, and what it completes.
abbrev sleepy : List Event
sleepy =
    hold true ∷ press_down false 2400 ∷ double_click true false ∷ press_down true 4000 ∷ click ∷ []

sleepy-Impatient : Impatient 1000 sleepy
unfolding Impatient
sleepy-Impatient = ground arith

run-Swallowed_example : All IsDismissal (run sleepy stopped).1
run-Swallowed_example = run-Swallowed sleepy stopped refl sleepy-Impatient
