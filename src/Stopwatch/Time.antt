-- ===== src/Stopwatch/Time.antt =====
-- The stopwatch against a stopwatch that counts without bounds.
use esp32_deepgram_voice_age.Common.{
  ℕ, ◌+◌, ◌^◌, ◌≤◌, ◌<◌, min, ◌≡◌, Bool, true, false, not, ◌||◌, List, [], ◌∷◌, arith,
  if◌then◌else◌, u32,
}
use esp32_deepgram_voice_age.Stopwatch.{
  State, ready, running, paused, Stopwatch, zeroed, toggle, elapsed, lap, reset,
}

-- What the user does; `wait` lets milliseconds pass.
pub data Act : Type 0 where
  press_toggle press_lap press_reset : Act
  wait : ℕ → Act

-- An ideal stopwatch: the time on it, whether it counts, whether it was ever started since its
-- reset, and its laps. The clock is the time since boot, in ms without bound.
pub record Ideal : Type 0 where
  pub clock : ℕ
  pub counting : Bool
  pub started : Bool
  pub total : ℕ
  pub laps : ℕ
  pub lap_total : ℕ

unfoldable pub ideal_act : Act → Ideal → Ideal
ideal_act press_toggle w = record w { counting = not w.counting; started = true }
ideal_act press_lap w =
    if w.counting then record w { laps = min 65535 (w.laps + 1); lap_total = w.total } else w
ideal_act press_reset w =
    if w.counting || not w.started
    then w
    else record w { started = false; total = 0; laps = 0; lap_total = 0 }
ideal_act (wait d) w = record w {
  clock = w.clock + d;
  total = if w.counting then w.total + d else w.total;
}

-- The device does the same with a clock that wraps.
unfoldable pub device_act : Act → ℕ → Stopwatch → Stopwatch
device_act press_toggle clock sw = toggle sw (u32 clock)
device_act press_lap clock sw = (lap sw (u32 clock)).0
device_act press_reset clock sw = (reset sw).0
device_act (wait d) clock sw = sw

unfoldable pub run : List Act → Ideal → Stopwatch → Ideal × Stopwatch
run [] w sw = (w, sw)
run (a ∷ as_) w sw = run as_ (ideal_act a w) (device_act a w.clock sw)

abbrev pub state_of : Bool → Bool → State
state_of true started = running
state_of false true = paused
state_of false false = ready

-- The device shows what the ideal stopwatch shows, in 32 bits.
pub record Agrees (w : Ideal) (sw : Stopwatch) : Type 0 where
  pub same_state : sw.state ≡ state_of w.counting w.started
  pub same_time : elapsed sw (u32 w.clock) ≡ u32 w.total
  pub same_laps : sw.laps ≡ w.laps
  pub same_split : sw.lap_ms ≡ u32 w.lap_total
  pub counting_started : w.counting ≡ true → w.started ≡ true
  pub laps_capped : w.laps ≤ 65535
  pub stamps_in : (sw.since_ms < 2 ^ 32) × (sw.banked_ms < 2 ^ 32)
  pub fresh : w.started ≡ false → (w.total ≡ 0) × (sw.banked_ms ≡ 0)

act-Agrees :
    (a : Act) (w : Ideal) (sw : Stopwatch)
    → Agrees w sw
    → Agrees (ideal_act a w) (device_act a w.clock sw)
unfolding ideal_act device_act elapsed toggle lap reset
act-Agrees press_toggle w sw v = ground arith
act-Agrees press_lap w sw v = ground arith
act-Agrees press_reset w sw v = ground arith
act-Agrees (wait d) w sw v = ground arith

run-Agrees_from :
    (as_ : List Act) (w : Ideal) (sw : Stopwatch)
    → Agrees w sw
    → Agrees (run as_ w sw).0 (run as_ w sw).1
unfolding run
run-Agrees_from [] w sw v = v
run-Agrees_from (a ∷ as_) w sw v =
    run-Agrees_from as_ (ideal_act a w) (device_act a w.clock sw) (act-Agrees a w sw v)

abbrev pub at_zero : ℕ → Ideal
at_zero clock = record {
  clock = clock;
  counting = false;
  started = false;
  total = 0;
  laps = 0;
  lap_total = 0;
}

-- Started from zero at any moment since boot, and through any presses and waits, across any number
-- of wraps of the 32-bit clock, the stopwatch shows the state, the time modulo 2 ^ 32 ms, the lap
-- count (which stops at 65535) and the last split of a stopwatch that counts without bounds.
pub run-Agrees :
    (as_ : List Act) (clock : ℕ)
    → Agrees (run as_ (at_zero clock) zeroed).0 (run as_ (at_zero clock) zeroed).1
run-Agrees as_ clock = run-Agrees_from as_ (at_zero clock) zeroed (unfold elapsed in ground arith)
