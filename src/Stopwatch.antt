-- ===== src/Stopwatch.antt =====
-- main/stopwatch.c and main/stopwatch.h: the stopwatch.
pub mod Time
pub mod Readout
mod Tests
use esp32_deepgram_voice_age.Common.{
  ℕ, ◌+◌, ◌/◌, ◌%◌, Bool, true, false, List, [], ◌++◌, ltb, leb, if◌then◌else◌, u32, sub32,
}
use esp32_deepgram_voice_age.Common.Bytes.{codes, decimal, decimal_two, snprintf}

pub data State : Type 0 where
  ready running paused : State

-- `sw_t`.
pub record Stopwatch : Type 0 where
  pub state : State
  pub banked_ms : ℕ
  pub since_ms : ℕ
  pub laps : ℕ
  pub lap_ms : ℕ

abbrev pub zeroed : Stopwatch
zeroed = record { state = ready; banked_ms = 0; since_ms = 0; laps = 0; lap_ms = 0 }

abbrev is_running : State → Bool
is_running running = true
is_running _ = false

abbrev is_paused : State → Bool
is_paused paused = true
is_paused _ = false

-- `sw_toggle`.
unfoldable pub toggle : Stopwatch → ℕ → Stopwatch
toggle sw now_ms =
    if is_running sw.state
    then record sw { banked_ms = u32 (sw.banked_ms + sub32 now_ms sw.since_ms); state = paused }
    else record sw { since_ms = now_ms; state = running }

-- `sw_elapsed`.
unfoldable pub elapsed : Stopwatch → ℕ → ℕ
elapsed sw now_ms =
    if is_running sw.state then u32 (sw.banked_ms + sub32 now_ms sw.since_ms) else sw.banked_ms

-- `sw_lap`.
unfoldable pub lap : Stopwatch → ℕ → Stopwatch × Bool
unfolding elapsed
lap sw now_ms =
    let n = if ltb sw.laps 65535 then sw.laps + 1 else sw.laps in
    if is_running sw.state
    then (record sw { lap_ms = elapsed sw now_ms; laps = n }, true)
    else (sw, false)

-- `sw_reset`.
unfoldable pub reset : Stopwatch → Stopwatch × Bool
reset sw = if is_paused sw.state then (zeroed, true) else (sw, false)

-- `sw_fmt`: what the two buffers of `main_cap` and `frac_cap` bytes hold.
unfoldable pub fmt : ℕ → ℕ → ℕ → List ℕ × List ℕ
fmt ms main_cap frac_cap =
    let s = ms / 1000 in
    if leb 3600 s
    then (
      snprintf main_cap (
          decimal (s / 3600)
          ++ (codes ":" ++ (decimal_two (s / 60 % 60) ++ (codes ":" ++ decimal_two (s % 60))))),
      [],
    )
    else (
      snprintf main_cap (decimal_two (s / 60) ++ (codes ":" ++ decimal_two (s % 60))),
      snprintf frac_cap (codes "." ++ decimal_two (ms / 10 % 100)),
    )
