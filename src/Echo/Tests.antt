-- ===== src/Echo/Tests.antt =====
-- Runs of an Echo game, and theorems at a concrete game.
use esp32_deepgram_voice_age.Common.{
  ◌≡◌, refl, true, false, none, [], ◌∷◌, arith, get_or, replicate, add32, List, map, ◌++◌,
}
use esp32_deepgram_voice_age.Common.Int.{pos}
use esp32_deepgram_voice_age.Echo.{
  ready, input, round, Echo, echo_max, xorshift, echo_start, echo_press, echo_tick, echo_resume,
}
use esp32_deepgram_voice_age.Echo.Invariant.{Inv, echo_start-Inv, echo_tick-Inv, echo_press-Inv}
use esp32_deepgram_voice_age.Echo.Runs.{Move, starts, ticks, presses, resumes}
use esp32_deepgram_voice_age.Echo.Show.{run_ticks, step_times, steps, heard, show_plays-All}

abbrev blank : Echo
blank = record {
  state = ready;
  seq = replicate echo_max 0;
  len = 0;
  position = 0;
  best = 4;
  since_ms = 0;
  rng = 0;
  spoke = false;
  won = false;
  press_k = none;
  press_ms = 0;
}

abbrev begun : Echo
begun = echo_start blank 7 4294967000

begun-Inv : Inv begun
begun-Inv = echo_start-Inv blank 7 4294967000

-- The clock wraps while the first round plays.
abbrev turn : Echo
turn = (echo_tick begun 2000 false).game

turn-Inv : Inv turn
turn-Inv = echo_tick-Inv begun 2000 false begun-Inv

runs : Unit {0}
unfolding echo_start echo_tick echo_press echo_resume xorshift
runs = tt

turn_is_input : turn.state ≡ input
unfolding runs
turn_is_input = refl

first_step : get_or turn.seq 0 0 ≡ 0
unfolding runs
first_step = refl

abbrev second : Echo
second = (echo_press turn (pos 0) 2100).0

second-Inv : Inv second
second-Inv = echo_press-Inv turn (pos 0) 2100 turn-Inv

round_done : (echo_press turn (pos 0) 2100).1 ≡ round
unfolding runs
round_done = refl

show_plays-All_example :
    let ticks =
      map (add32 begun.since_ms) (20 ∷ 580 ∷ [])
      ++ step_times begun.since_ms 0 ((100, 130 ∷ 599 ∷ []) ∷ []) in
    let r = run_ticks begun ticks in
    let last = echo_tick r.0 (add32 begun.since_ms 1250) false in
    (heard r.1 ≡ steps begun.seq 0 begun.len)
    × (last.tone ≡ none)
    × (last.game.state ≡ input)
    × (last.game.position ≡ 0)
unfolding echo_start
show_plays-All_example =
    show_plays-All begun (20 ∷ 580 ∷ []) ((100, 130 ∷ 599 ∷ []) ∷ []) 1250 begun-Inv refl refl refl
      (omega arith) (omega arith, (omega arith, tt))
      ((omega arith, (omega arith, (omega arith, tt))), tt) (omega arith) (omega arith)

abbrev moves : List Move
moves =
    ticks 900 false ∷ presses (pos 2) 2300 ∷ resumes 2400 ∷ starts 77 2500 ∷ ticks 2600 true ∷ []
