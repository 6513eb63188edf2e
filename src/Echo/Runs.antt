-- ===== src/Echo/Runs.antt =====
-- Any play of the game: starts, ticks, presses and returns in any order.
use esp32_deepgram_voice_age.Common.{ℕ, Bool, List, [], ◌∷◌}
use esp32_deepgram_voice_age.Common.Int.{ℤ}
use esp32_deepgram_voice_age.Echo.{Echo, echo_start, echo_tick, echo_resume, echo_press}
use esp32_deepgram_voice_age.Echo.Invariant.{
  Inv, echo_start-Inv, echo_tick-Inv, echo_resume-Inv, echo_press-Inv,
}

pub data Move : Type 0 where
  starts : ℕ → ℕ → Move
  ticks : ℕ → Bool → Move
  presses : ℤ → ℕ → Move
  resumes : ℕ → Move

abbrev pub moved : Move → Echo → Echo
moved (starts seed now_ms) g = echo_start g seed now_ms
moved (ticks now_ms busy) g = (echo_tick g now_ms busy).game
moved (presses k now_ms) g = (echo_press g k now_ms).0
moved (resumes now_ms) g = echo_resume g now_ms

unfoldable pub played : List Move → Echo → Echo
played [] g = g
played (m ∷ ms) g = played ms (moved m g)

moved-Inv : (m : Move) (g : Echo) → Inv g → Inv (moved m g)
moved-Inv (starts seed now_ms) g v = echo_start-Inv g seed now_ms
moved-Inv (ticks now_ms busy) g v = echo_tick-Inv g now_ms busy v
moved-Inv (presses k now_ms) g v = echo_press-Inv g k now_ms v
moved-Inv (resumes now_ms) g v = echo_resume-Inv g now_ms v

played_from-Inv : (ms : List Move) (g : Echo) → Inv g → Inv (played ms g)
unfolding played
played_from-Inv [] g v = v
played_from-Inv (m ∷ ms) g v = played_from-Inv ms (moved m g) (moved-Inv m g v)

-- From a new game, whatever the game before it was, and through any ticks, presses of any quarter,
-- returns and new starts: the sequence has its 99 places, all quarters; the level is at most 99,
-- and at least 1 once a game began; the place in the sequence stays within the level; what is lit
-- is a quarter; a win is a game that is over at level 99; the callout counts as heard only in the
-- state that waits for it; and the best level is at least that of a game that is over.
played-Inv :
    (g : Echo) (seed now_ms : ℕ) (ms : List Move) → Inv (played ms (echo_start g seed now_ms))
played-Inv g seed now_ms ms =
    played_from-Inv ms (echo_start g seed now_ms) (echo_start-Inv g seed now_ms)
