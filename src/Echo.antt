-- ===== src/Echo.antt =====
-- main/echo.c and main/echo.h: the Echo memory game.
pub mod Invariant
pub mod Play
pub mod Show
pub mod Runs
mod Tests
use esp32_deepgram_voice_age.Common.{
  ℕ, ◌+◌, ◌-◌, ◌*◌, ◌/◌, ◌%◌, ◌^◌, bit_xor, Bool, true, false, not, ◌&&◌, ◌||◌, Option, none, some,
  List, ltb, leb, ◌==◌, if◌then◌else◌, get_or, set, replicate, u8, u32, sub32,
}
use esp32_deepgram_voice_age.Common.Int.{ℤ, pos, pos_part, ltb_ℤ}

abbrev pub echo_max : ℕ
echo_max = 99

abbrev pub echo_step_ms : ℕ
echo_step_ms = 420

abbrev pub echo_gap_ms : ℕ
echo_gap_ms = 180

abbrev pub echo_lead_ms : ℕ
echo_lead_ms = 600

abbrev pub echo_press_ms : ℕ
echo_press_ms = 250

abbrev pub echo_speak_wait_ms : ℕ
echo_speak_wait_ms = 5000

pub data State : Type 0 where
  ready speak show input over : State

pub data Press : Type 0 where
  ignored right round wrong won_game : Press

-- `echo_t`. `press_k` is `none` where the source has -1.
pub record Echo : Type 0 where
  pub state : State
  pub seq : List ℕ
  pub len : ℕ
  pub position : ℕ
  pub best : ℕ
  pub since_ms : ℕ
  pub rng : ℕ
  pub spoke : Bool
  pub won : Bool
  pub press_k : Option ℕ
  pub press_ms : ℕ

-- The xorshift32 state after one step; each assignment is to a `uint32_t`.
pub xorshift : ℕ → ℕ
xorshift x0 =
    let x1 = u32 (bit_xor x0 (u32 (x0 * 2 ^ 13))) in
    let x2 = u32 (bit_xor x1 (x1 / 2 ^ 17)) in u32 (bit_xor x2 (u32 (x2 * 2 ^ 5)))

-- `next_step`: the generator moves on, and its two high bits are the quarter.
pub next_step : Echo → Echo × ℕ
next_step g = let x = xorshift g.rng in (record g { rng = x }, x / 2 ^ 30)

pub enter : Echo → State → ℕ → Echo
enter g s now_ms = record g { state = s; since_ms = now_ms; position = 0; spoke = false }

pub game_over : Echo → ℕ → Echo
unfolding enter
game_over g now_ms =
    let g' = if ltb g.best g.len then record g { best = g.len } else g in enter g' over now_ms

abbrev pub default_seed : ℕ
default_seed = 0x9E3779B9

unfoldable pub echo_start : Echo → ℕ → ℕ → Echo
unfolding next_step enter
echo_start g seed now_ms =
    let cleared : Echo = record {
      state = ready;
      seq = replicate echo_max 0;
      len = 0;
      position = 0;
      best = g.best;
      since_ms = 0;
      rng = if seed == 0 then default_seed else seed;
      spoke = false;
      won = false;
      press_k = none;
      press_ms = 0;
    } in
    let (g1, k) = next_step cleared in
    enter (record g1 { seq = set g1.seq 0 k; len = 1 }) show now_ms

-- What a tick returns: the new game, the quarter lit, and the quarter to sound.
pub record Tick : Type 0 where
  pub game : Echo
  pub lit : Option ℕ
  pub tone : Option ℕ

-- The tail of `echo_tick`: a press stays lit for a while.
pub press_lit : Echo → ℕ → Option ℕ
press_lit g now_ms = elim g.press_k [
  | none ↦ none
  | some k ↦ if ltb (sub32 now_ms g.press_ms) echo_press_ms then some k else none
]

-- The case ECHO_SPEAK.
pub tick_speak : Echo → ℕ → Bool → Tick
unfolding enter press_lit
tick_speak g now_ms speaking =
    let g' =
      if speaking
      then record g { spoke = true }
      else if g.spoke || leb echo_speak_wait_ms (sub32 now_ms g.since_ms)
      then enter g show now_ms
      else g in
    record { game = g'; lit = press_lit g' now_ms; tone = none }

-- The case ECHO_SHOW once its lead is over, `t` ms into the sequence.
pub tick_steps : Echo → ℕ → ℕ → Tick
unfolding enter press_lit
tick_steps g now_ms t =
    let i = t / (echo_step_ms + echo_gap_ms) in
    let on = ltb (t % (echo_step_ms + echo_gap_ms)) echo_step_ms in
    let turn = record (enter g input now_ms) { press_k = none } in
    let step = get_or g.seq i 0 in
    if leb g.len i
    then record { game = turn; lit = press_lit turn now_ms; tone = none }
    else record {
      game = if leb g.position i then record g { position = u8 (i + 1) } else g;
      lit = if on then some step else none;
      tone = if leb g.position i && on then some step else none;
    }

-- The case ECHO_SHOW.
pub tick_show : Echo → ℕ → Bool → Tick
unfolding tick_steps press_lit
tick_show g now_ms speaking =
    let held = record g { since_ms = now_ms; position = 0 } in
    let elapsed = sub32 now_ms g.since_ms in
    if speaking
    then record { game = held; lit = press_lit held now_ms; tone = none }
    else if ltb elapsed echo_lead_ms
    then record { game = g; lit = press_lit g now_ms; tone = none }
    else tick_steps g now_ms (elapsed - echo_lead_ms)

tick_in : State → Echo → ℕ → Bool → Tick
unfolding tick_speak tick_show press_lit
tick_in speak g now_ms speaking = tick_speak g now_ms speaking
tick_in show g now_ms speaking = tick_show g now_ms speaking
tick_in _ g now_ms speaking = record { game = g; lit = press_lit g now_ms; tone = none }

unfoldable pub echo_tick : Echo → ℕ → Bool → Tick
unfolding tick_in
echo_tick g now_ms speaking = tick_in g.state g now_ms speaking

resume_in : State → Echo → ℕ → Echo
unfolding enter
resume_in show g now_ms = enter g show now_ms
resume_in speak g now_ms = record g { since_ms = now_ms }
resume_in _ g now_ms = g

unfoldable pub echo_resume : Echo → ℕ → Echo
unfolding resume_in
echo_resume g now_ms = record (resume_in g.state g now_ms) { press_k = none }

abbrev is_input : State → Bool
is_input input = true
is_input _ = false

-- The press of a quarter 0..3 in the player's turn, `g` with the press already noted.
press_quarter : Echo → ℕ → ℕ → Echo × Press
unfolding game_over next_step enter
press_quarter g k now_ms =
    let advanced = record g { position = u8 (g.position + 1) } in
    let (drawn, step) = next_step advanced in
    let longer = record drawn { seq = set drawn.seq drawn.len step; len = u8 (drawn.len + 1) } in
    if not (get_or g.seq g.position 0 == k)
    then (game_over g now_ms, wrong)
    else if ltb advanced.position advanced.len
    then (advanced, right)
    else if leb echo_max advanced.len
    then (record (game_over advanced now_ms) { won = true }, won_game)
    else (enter longer speak now_ms, round)

unfoldable pub echo_press : Echo → ℤ → ℕ → Echo × Press
unfolding press_quarter
echo_press g k now_ms =
    let q = pos_part k in
    if not (is_input g.state) || ltb_ℤ k (pos 0) || ltb_ℤ (pos 3) k
    then (g, ignored)
    else press_quarter (record g { press_k = some q; press_ms = now_ms }) q now_ms

-- `echo_level`.
pub echo_level : Echo → ℕ
echo_level g = g.len
