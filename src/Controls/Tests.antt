-- ===== src/Controls/Tests.antt =====
-- Runs of the panel's steps and of the deck, and the theorems at concrete ones.
use esp32_deepgram_voice_age.Common.{
  ℕ, ◌+◌, ◌*◌, ◌≡◌, refl, true, false, none, List, [], ◌∷◌, arith, length, add32,
}
use mathlib.Core.List.{Perm}
use esp32_deepgram_voice_age.Audio.Levels.{Saved, levels_init}
use esp32_deepgram_voice_age.Controls.{Deck, callout_shapes_n, places, commit, callout}
use esp32_deepgram_voice_age.Controls.Dealing.{deals, deals-perm}
use esp32_deepgram_voice_age.Controls.Dial.{Act, act, act_all, boot, commit-levels_init}

abbrev spent : Deck
spent = record { deck = []; left = 0 }

abbrev randoms : ℕ → ℕ → ℕ
randoms n i = 7 * i + n

-- The longest callout, and its deck.
longest : length (callout 9 (randoms 9) (record { deck = 4 ∷ []; left = 1 })).0 ≡ 105
unfolding callout
longest = refl

-- A change that is stamped after the frame began is not ancient.
ahead : (commit 1000 3000 (record { unsaved = true; changed_ms = 1016 })).1 ≡ false
unfolding commit
ahead = refl

deals-perm_example :
    let (shapes, d') = deals randoms callout_shapes_n spent in
    Perm shapes (places 0 callout_shapes_n) × (d'.left ≡ 0)
deals-perm_example = deals-perm randoms spent refl

abbrev nothing_saved : Saved
nothing_saved = record { out_volume = none; mic_gain = none }

abbrev touches : List Act
touches =
    Act.volume true true 500
    ∷ Act.frame 600 3000
    ∷ Act.worker
    ∷ Act.gain false 700
    ∷ Act.volume false true 800
    ∷ []

commit-levels_init_example :
    let w = act_all touches (boot 65 24 nothing_saved) in
    let w' = act Act.worker (act (Act.frame (add32 w.panel.changed_ms 3000) 3000) w) in
    (levels_init 65 24 w'.saved ≡ w'.levels)
    × ((w'.levels.volume ≡ w.levels.volume) × (w'.levels.gain_want ≡ w.levels.gain_want))
commit-levels_init_example =
    commit-levels_init 65 24 nothing_saved touches 3000 3000 (omega arith) (omega arith)
      (omega arith) (omega arith)
