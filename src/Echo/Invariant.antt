-- ===== src/Echo/Invariant.antt =====
-- What holds of an Echo game between two calls.
use esp32_deepgram_voice_age.Common.{
  ℕ, ◌/◌, ◌^◌, ◌≤◌, ◌<◌, ◌≡◌, refl, ◌≢◌, Bool, true, Option, none, some, List, arith, ◌==◌,
  if◌then◌else◌, length, get_or, set, replicate, All, length-set, All-set, All-replicate,
  All-get_or,
}
use esp32_deepgram_voice_age.Common.Int.{ℤ}
use esp32_deepgram_voice_age.Echo.{
  State, ready, speak, show, input, over, Echo, echo_max, default_seed, xorshift, next_step,
  echo_start, echo_tick, echo_resume, echo_press,
}

abbrev pub IsPlaying : State → Type 0
IsPlaying ready = ⊥
IsPlaying _ = Unit {0}

-- Every step of the sequence is one of the four quarters.
pub Quarters : List ℕ → Type 0
Quarters xs = All (λ k. k < 4) xs

abbrev pub IsLit : Option ℕ → Type 0
IsLit none = Unit {0}
IsLit (some k) = k < 4

pub record Inv (g : Echo) : Type 0 where
  pub seq_size : length g.seq ≡ echo_max
  pub quarters : Quarters g.seq
  pub len_capped : g.len ≤ echo_max
  pub len_pos : g.state ≢ ready → 1 ≤ g.len
  pub turn_in : g.state ≡ input → g.position < g.len
  pub show_in : g.state ≡ show → g.position ≤ g.len
  pub press_in : IsLit g.press_k
  pub won_over : g.won ≡ true → (g.state ≡ over) × (g.len ≡ echo_max)
  pub spoke_speak : g.spoke ≡ true → g.state ≡ speak
  pub over_best : g.state ≡ over → g.len ≤ g.best

pub xorshift-lt : (x : ℕ) → xorshift x < 2 ^ 32
unfolding xorshift
xorshift-lt x = omega arith

pub next_step-lt : (g : Echo) → (next_step g).1 < 4
unfolding next_step
next_step-lt g = omega (arith, xorshift-lt g.rng)

Quarters-replicate : (n : ℕ) → Quarters (replicate n 0)
unfolding Quarters
Quarters-replicate n = All-replicate (λ k. k < 4) n 0 (omega arith)

pub Quarters-set : (xs : List ℕ) (i v : ℕ) → Quarters xs → v < 4 → Quarters (set xs i v)
unfolding Quarters
Quarters-set xs i v h p = All-set (λ k. k < 4) xs i v h p

pub Quarters-get_or : (xs : List ℕ) (i : ℕ) → Quarters xs → get_or xs i 0 < 4
unfolding Quarters
Quarters-get_or xs i h = All-get_or (λ k. k < 4) xs i 0 h (omega arith)

-- A new game satisfies the invariant, whatever the game before it was.
pub echo_start-Inv : (g : Echo) (seed now_ms : ℕ) → Inv (echo_start g seed now_ms)
unfolding echo_start
echo_start-Inv g seed now_ms = record {
  seq_size = refl;
  quarters =
      Quarters-set (replicate echo_max 0) 0 _ (Quarters-replicate echo_max)
        (omega (arith, xorshift-lt (if seed == 0 then default_seed else seed)));
  len_capped = omega arith;
  len_pos = λ _. omega arith;
  turn_in = λ e. cc;
  show_in = λ _. omega arith;
  press_in = tt;
  won_over = λ e. cc;
  spoke_speak = λ e. cc;
  over_best = λ e. cc;
}

-- A tick keeps the invariant.
pub echo_tick-Inv :
    (g : Echo) (now_ms : ℕ) (speaking : Bool) → Inv g → Inv (echo_tick g now_ms speaking).game
unfolding echo_tick
echo_tick-Inv g now_ms speaking v = ground arith

-- Coming back to a game that was not ticked keeps the invariant.
pub echo_resume-Inv : (g : Echo) (now_ms : ℕ) → Inv g → Inv (echo_resume g now_ms)
unfolding echo_resume
echo_resume-Inv g now_ms v = ground arith

-- A press of any quarter, in any state, keeps the invariant.
pub echo_press-Inv : (g : Echo) (k : ℤ) (now_ms : ℕ) → Inv g → Inv (echo_press g k now_ms).0
unfolding echo_press
echo_press-Inv g k now_ms v = ground (
  arith,
  length-set g.seq g.len (xorshift g.rng / 2 ^ 30),
  Quarters-set g.seq g.len (xorshift g.rng / 2 ^ 30),
  xorshift-lt g.rng,
)
