-- ===== src/Echo/Play.antt =====
-- The player's turn of Echo: what a run of presses leads to.
use esp32_deepgram_voice_age.Common.{
  ℕ, ◌+◌, ◌/◌, ◌^◌, ◌<◌, max, ◌≡◌, ap, subst, ◌≢◌, false, some, List, [], ◌∷◌, ◌++◌, arith, leb,
  if◌then◌else◌, length, get_or, set, replicate, get_or-set_ne,
}
use esp32_deepgram_voice_age.Common.Int.{ℤ, pos}
use esp32_deepgram_voice_age.Echo.{
  speak, input, over, Press, right, round, wrong, won_game, Echo, echo_max, xorshift, echo_press,
}
use esp32_deepgram_voice_age.Echo.Invariant.{Inv, Quarters-get_or, echo_press-Inv}

-- A player who presses the expected quarter at each of the given times.
pub perfect : Echo → List ℕ → Echo × List Press
perfect g [] = (g, [])
perfect g (t ∷ ts) =
    let (g', r) = echo_press g (pos (get_or g.seq g.position 0)) t in
    let (g'', rs) = perfect g' ts in (g'', r ∷ rs)

-- How a level ends for that player.
abbrev pub level_done : ℕ → Press
level_done len = if leb echo_max len then won_game else round

-- The game after a right press that is not the last.
abbrev advanced : Echo → ℕ → Echo
advanced g t = record g {
  press_k = some (get_or g.seq g.position 0);
  press_ms = t;
  position = g.position + 1;
}

press_right :
    (g : Echo) (t : ℕ)
    → Inv g
    → g.state ≡ input
    → g.position + 1 < g.len
    → echo_press g (pos (get_or g.seq g.position 0)) t ≡ (advanced g t, right)
unfolding echo_press
press_right g t v e h = ground (arith, Quarters-get_or g.seq g.position v.quarters)

press_last :
    (g : Echo) (t : ℕ)
    → Inv g
    → g.state ≡ input
    → g.position + 1 ≡ g.len
    → (echo_press g (pos (get_or g.seq g.position 0)) t).1 ≡ level_done g.len
unfolding echo_press
press_last g t v e h = ground (arith, Quarters-get_or g.seq g.position v.quarters)

-- In the player's turn, pressing the rest of the sequence is answered RIGHT up to the last press,
-- which wins the game at level 99 and ends the round before that, whenever the presses come.
pub perfect_lem :
    (g : Echo) (ts : List ℕ) (t : ℕ)
    → Inv g
    → g.state ≡ input
    → g.position + length ts + 1 ≡ g.len
    → (perfect g (ts ++ t ∷ [])).1 ≡ replicate (length ts) right ++ level_done g.len ∷ []
unfolding perfect
perfect_lem g [] t v e h = ap (λ r. r ∷ []) (press_last g t v e (omega arith))
perfect_lem g (u ∷ ts) t v e h =
    let q = press_right g u v e (omega arith) in
    let v' = subst (λ (p : Echo × Press). Inv p.0) q (echo_press-Inv g _ u v) in
    rw q (ap (λ rs. right ∷ rs) (perfect_lem (advanced g u) ts t v' e (omega arith)))

-- After a wrong quarter the game is over, not won, at the level it reached; the sequence stays,
-- and the best level is the greater of the old best and this level.
pub record Lost (g g' : Echo) : Type 0 where
  pub ended : g'.state ≡ over
  pub same_len : g'.len ≡ g.len
  pub same_seq : g'.seq ≡ g.seq
  pub not_won : g'.won ≡ false
  pub best_kept : g'.best ≡ max g.best g.len

-- In the player's turn a press of one of the four quarters is answered WRONG exactly when it is
-- not the expected one, and then the game is lost.
pub echo_press-wrong :
    (g : Echo) (k t : ℕ)
    → Inv g
    → g.state ≡ input
    → k < 4
    → ((echo_press g (pos k) t).1 ≡ wrong → k ≢ get_or g.seq g.position 0)
      × (k ≢ get_or g.seq g.position 0
          → ((echo_press g (pos k) t).1 ≡ wrong) × Lost g (echo_press g (pos k) t).0)
unfolding echo_press
echo_press-wrong g k t v e h = ground arith

-- The first `n` steps of two sequences agree.
abbrev pub SameSteps : ℕ → List ℕ → List ℕ → Type 0
SameSteps n xs ys = (i : ℕ) → i < n → get_or xs i 0 ≡ get_or ys i 0

longer_seq :
    (g : Echo) (k : ℤ) (t : ℕ)
    → (echo_press g k t).1 ≡ round
    → (echo_press g k t).0.seq ≡ set g.seq g.len (xorshift g.rng / 2 ^ 30)
unfolding echo_press
longer_seq g k t r = ground arith

round_facts :
    (g : Echo) (k : ℤ) (t : ℕ)
    → Inv g
    → (echo_press g k t).1 ≡ round
    → ((echo_press g k t).0.state ≡ speak) × ((echo_press g k t).0.len ≡ g.len + 1)
unfolding echo_press
round_facts g k t v r = ground arith

-- A completed round waits for the callout with a sequence one step longer, whose earlier steps are
-- the ones just repeated and whose new step is a quarter.
pub echo_press-round :
    (g : Echo) (k : ℤ) (t : ℕ)
    → Inv g
    → (echo_press g k t).1 ≡ round
    → ((echo_press g k t).0.state ≡ speak)
      × ((echo_press g k t).0.len ≡ g.len + 1)
      × SameSteps g.len (echo_press g k t).0.seq g.seq
      × (get_or (echo_press g k t).0.seq g.len 0 < 4)
echo_press-round g k t v r = (
  (round_facts g k t v r).0,
  (round_facts g k t v r).1,
  λ i h. rw (longer_seq g k t r) (get_or-set_ne g.seq g.len i _ 0 (omega arith)),
  Quarters-get_or _ g.len (echo_press-Inv g k t v).quarters,
)
