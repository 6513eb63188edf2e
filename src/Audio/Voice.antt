-- ===== src/Audio/Voice.antt =====
-- The voice gate and the holds on the uplink (main/audio_io.c).
use esp32_deepgram_voice_age.Common.{
  ℕ, zero, suc, ◌+◌, ◌-◌, ◌≡◌, refl, sym, ap, ◌∙◌, inl, inr, Bool, true, false, ◌||◌, not, List, [],
  ◌∷◌, arith, ltb, ◌==◌, if◌then◌else◌, Bool-cases, add32,
}
use esp32_deepgram_voice_age.Audio.Uplink.{uplink_hold, vad}

-- The voice gate block after block while the agent speaks, by whether each is loud.
unfoldable pub vad_run : ℕ → List Bool → ℕ × ℕ → List Bool
vad_run hangover [] s = []
vad_run hangover (loud ∷ blocks) s =
    let (ok, s') = vad hangover true loud s in ok ∷ vad_run hangover blocks s'

-- One of the first so many is loud.
abbrev pub within : ℕ → List Bool → Bool
within zero past = false
within (suc n) [] = false
within (suc n) (loud ∷ past) = loud || within n past

-- The blocks that have a loud one among them and the `n` before them; `past` is newest first.
abbrev pub recent : ℕ → List Bool → List Bool → List Bool
recent n past [] = []
recent n past (loud ∷ blocks) = within (suc n) (loud ∷ past) ∷ recent n (loud ∷ past) blocks

-- What is left of the hangover.
left : ℕ → List Bool → ℕ
left n [] = 0
left n (true ∷ past) = n
left n (false ∷ past) = left n past - 1

left-within : (n k : ℕ) (past : List Bool) → ltb k (left n past) ≡ within (n - k) past
unfolding left
left-within n k [] = at_end (n - k) k
  where
    at_end : (m k : ℕ) → ltb k 0 ≡ within m []
    at_end zero k = ground arith
    at_end (suc m) k = ground arith
left-within n k (true ∷ past) = by_room (n - k) refl
  where
    by_room : (m : ℕ) → n - k ≡ m → ltb k n ≡ within m (true ∷ past)
    by_room zero e = ground (arith, e)
    by_room (suc m) e = ground (arith, e)
left-within n k (false ∷ past) =
    let shift : ltb k (left n past - 1) ≡ ltb (k + 1) (left n past) = ground arith in
    shift ∙ left-within n (k + 1) past ∙ by_room (n - k) refl
  where
    by_room : (m : ℕ) → n - k ≡ m → within (n - (k + 1)) past ≡ within m (false ∷ past)
    by_room zero e = let z : n - (k + 1) ≡ 0 = omega (arith, e) in rw z refl
    by_room (suc m) e = let s : n - (k + 1) ≡ m = omega (arith, e) in rw s refl

vad_from-recent :
    (n : ℕ) (past blocks : List Bool) (suppressed : ℕ)
    → vad_run n blocks (left n past, suppressed) ≡ recent n past blocks
unfolding vad_run vad left
vad_from-recent n past [] suppressed = refl
vad_from-recent n past (true ∷ blocks) suppressed =
    ap (λ l. true ∷ l) (vad_from-recent n (true ∷ past) blocks suppressed)
vad_from-recent n past (false ∷ blocks) suppressed =
    let open_is : ltb 0 (left n past) ≡ within n past =
      left-within n 0 past ∙ ap (λ k. within k past) (omega arith) in
    elim (Bool-cases (ltb 0 (left n past))) [
      | inl e ↦
          let w : within n past ≡ true = sym open_is ∙ e in
          rw (e, w) (ap (λ l. true ∷ l) (vad_from-recent n (false ∷ past) blocks suppressed))
      | inr e ↦
          let w : within n past ≡ false = sym open_is ∙ e in
          let gone : left n past ≡ left n past - 1 = ground (arith, e) in
          rw (e, w)
            (ap (λ k. false ∷ vad_run n blocks (k, add32 suppressed 1)) gone
              ∙ ap (λ l. false ∷ l) (vad_from-recent n (false ∷ past) blocks (add32 suppressed 1)))
    ]

-- While the agent speaks, from a shut voice gate: it lets a block through exactly where that block
-- or one of as many before it as the hangover counts is loud.
vad_run-recent :
    (hangover : ℕ) (blocks : List Bool) (suppressed : ℕ)
    → vad_run hangover blocks (0, suppressed) ≡ recent hangover [] blocks
unfolding left
vad_run-recent hangover blocks suppressed = vad_from-recent hangover [] blocks suppressed

-- Any number of holds put on and taken off, by the alarm (1) and the game (2).
abbrev pub holds : List (Bool × Bool) → ℕ → ℕ
holds [] w = w
holds ((alarm, hold) ∷ rs) w = holds rs (uplink_hold (if alarm then 1 else 2) hold w)

-- Whether each of them has it on.
abbrev pub holders : List (Bool × Bool) → Bool × Bool → Bool × Bool
holders [] s = s
holders ((true, hold) ∷ rs) (a, b) = holders rs (hold, b)
holders ((false, hold) ∷ rs) (a, b) = holders rs (a, hold)

abbrev word : Bool × Bool → ℕ
word (a, b) = (if a then 1 else 0) + (if b then 2 else 0)

alarm-word : (hold a b : Bool) → uplink_hold 1 hold (word (a, b)) ≡ word (hold, b)
unfolding uplink_hold
alarm-word true true true = refl
alarm-word true true false = refl
alarm-word true false true = refl
alarm-word true false false = refl
alarm-word false true true = refl
alarm-word false true false = refl
alarm-word false false true = refl
alarm-word false false false = refl

game-word : (hold a b : Bool) → uplink_hold 2 hold (word (a, b)) ≡ word (a, hold)
unfolding uplink_hold
game-word true true true = refl
game-word true true false = refl
game-word true false true = refl
game-word true false false = refl
game-word false true true = refl
game-word false true false = refl
game-word false false true = refl
game-word false false false = refl

holds-word :
    (rs : List (Bool × Bool)) (a b : Bool) → holds rs (word (a, b)) ≡ word (holders rs (a, b))
holds-word [] a b = refl
holds-word ((true, hold) ∷ rs) a b = ap (holds rs) (alarm-word hold a b) ∙ holds-word rs hold b
holds-word ((false, hold) ∷ rs) a b = ap (holds rs) (game-word hold a b) ∙ holds-word rs a hold

-- From no hold at all, through any holds that the alarm and the game put on and take off: the
-- uplink is held exactly while one of the two has its own on.
pub holds-holders :
    (rs : List (Bool × Bool))
    → let (alarm, game) = holders rs (false, false) in (holds rs 0 == 0) ≡ not (alarm || game)
holds-holders rs =
    ap (λ w. w == 0) (holds-word rs false false) ∙ word_zero (holders rs (false, false))
  where
    word_zero : (s : Bool × Bool) → (word s == 0) ≡ not (s.0 || s.1)
    word_zero (true, true) = refl
    word_zero (true, false) = refl
    word_zero (false, true) = refl
    word_zero (false, false) = refl
