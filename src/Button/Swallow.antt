-- ===== src/Button/Swallow.antt =====
-- What becomes of a press that stopped an alarm.
use esp32_deepgram_voice_age.Common.{
  ℕ, ◌+◌, ◌≤◌, ◌<◌, ◌≡◌, refl, Bool, true, false, List, [], ◌∷◌, ◌++◌, arith, if◌then◌else◌, All,
  sub32,
}
use esp32_deepgram_voice_age.Button.{
  swallow_ms, Button, Call, alarm_dismiss, wifi_erase, Event, press_down, hold, double_click, click,
  on_event, run, on_press_down, on_forget_wifi, on_toggle_ns, on_click,
}

abbrev pub IsDismissal : Call → Type 0
IsDismissal alarm_dismiss = Unit
IsDismissal _ = ⊥

-- Every press in the list comes during a ring, or less than 1500 ms after the last press that did,
-- which was at `dismiss_ms`.
unfoldable pub Impatient : ℕ → List Event → Type 0
Impatient dismiss_ms [] = Unit
Impatient dismiss_ms (press_down true now_ms ∷ es) = Impatient now_ms es
Impatient dismiss_ms (press_down false now_ms ∷ es) =
    (sub32 now_ms dismiss_ms < swallow_ms) × Impatient dismiss_ms es
Impatient dismiss_ms (_ ∷ es) = Impatient dismiss_ms es

hurried :
    (b : Button) (now_ms : ℕ)
    → b.swallow ≡ true
    → sub32 now_ms b.dismiss_ms < swallow_ms
    → on_event (press_down false now_ms) b ≡ (b, [])
unfolding on_event on_press_down
hurried b now_ms s h = ground arith

held : (timer_ok : Bool) (b : Button) → b.swallow ≡ true → on_event (hold timer_ok) b ≡ (b, [])
unfolding on_event on_forget_wifi
held timer_ok b s = ground arith

doubled :
    (available enabled : Bool) (b : Button)
    → b.swallow ≡ true
    → on_event (double_click available enabled) b ≡ (b, [])
unfolding on_event on_toggle_ns
doubled available enabled b s = ground arith

clicked : (b : Button) → b.swallow ≡ true → on_event click b ≡ (b, [])
unfolding on_event on_click
clicked b s = ground arith

swallowed :
    (e : Event) (es : List Event) (b : Button)
    → on_event e b ≡ (b, [])
    → All IsDismissal (run es b).1
    → All IsDismissal (run (e ∷ es) b).1
unfolding run
swallowed e es b h v = rw h v

-- After a press during a ring, as long as every further press comes during a ring or less than
-- 1500 ms after the last one that did, nothing that the button does has any effect but to dismiss
-- the alarm: no session is toggled, no network forgotten, no denoiser switched.
pub run-Swallowed :
    (es : List Event) (b : Button)
    → b.swallow ≡ true
    → Impatient b.dismiss_ms es
    → All IsDismissal (run es b).1
unfolding run Impatient
run-Swallowed [] b s h = tt
run-Swallowed (press_down true now_ms ∷ es) b s h =
    (tt, run-Swallowed es (record b { swallow = true; dismiss_ms = now_ms }) refl h)
run-Swallowed (press_down false now_ms ∷ es) b s (h, hs) =
    swallowed (press_down false now_ms) es b (hurried b now_ms s h) (run-Swallowed es b s hs)
run-Swallowed (hold timer_ok ∷ es) b s h =
    swallowed (hold timer_ok) es b (held timer_ok b s) (run-Swallowed es b s h)
run-Swallowed (double_click available enabled ∷ es) b s h =
    swallowed (double_click available enabled) es b (doubled available enabled b s)
      (run-Swallowed es b s h)
run-Swallowed (click ∷ es) b s h = swallowed click es b (clicked b s) (run-Swallowed es b s h)

-- The erasures still to come.
abbrev pub left : Bool → ℕ
left forgetting = if forgetting then 0 else 1

-- How often the saved network is erased.
abbrev is_erasure : Call → ℕ
is_erasure wifi_erase = 1
is_erasure _ = 0

abbrev pub erasures : List Call → ℕ
erasures [] = 0
erasures (c ∷ cs) = is_erasure c + erasures cs

erasures-append : (xs ys : List Call) → erasures (xs ++ ys) ≡ erasures xs + erasures ys
erasures-append [] ys = omega arith
erasures-append (c ∷ xs) ys = omega (arith, erasures-append xs ys)

step_erasures :
    (e : Event) (b : Button)
    → erasures (on_event e b).1 + left (on_event e b).0.forgetting ≤ left b.forgetting
unfolding on_event on_press_down on_forget_wifi on_toggle_ns on_click
step_erasures (press_down ringing now_ms) b = ground arith
step_erasures (hold timer_ok) b = ground arith
step_erasures (double_click available enabled) b = ground arith
step_erasures click b = ground arith

-- Whatever happens at the button, the saved network is erased at most once before the restart, and
-- not at all once a forget is under way.
pub run_erases_once : (es : List Event) (b : Button) → erasures (run es b).1 ≤ left b.forgetting
unfolding run
run_erases_once [] b = omega arith
run_erases_once (e ∷ es) b =
    let (b1, calls) = on_event e b in
    omega (
      arith,
      erasures-append (on_event e b).1 (run es (on_event e b).0).1,
      step_erasures e b,
      run_erases_once es (on_event e b).0,
    )
