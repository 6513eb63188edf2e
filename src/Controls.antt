-- ===== src/Controls.antt =====
-- main/controls.c: the touch panel's volume and gain steps, which are saved once the finger has
-- been away for a while, and the shapes of the Echo game's callouts, dealt from a shuffled deck.
-- The functions that only pass a call on are left out.
mod Dial
mod Marks
mod Dealing
mod Tests
use esp32_deepgram_voice_age.Common.{
  ℕ, zero, suc, ◌+◌, ◌-◌, ◌*◌, ◌/◌, ◌%◌, ◌^◌, Bool, true, false, ◌&&◌, List, [], ◌∷◌, ◌++◌, ltb,
  ◌==◌, if◌then◌else◌, get_or, set, u32, sub32,
}
use esp32_deepgram_voice_age.Common.Int.{ℤ, pos, negsuc, sub_ℕ, ◌+ℤ◌, leb_ℤ}
use esp32_deepgram_voice_age.Common.Bytes.{codes, decimal, snprintf}
use esp32_deepgram_voice_age.Audio.Levels.{Levels, set_mic_gain_live, set_volume_live}

abbrev pub volume_step_size : ℕ
volume_step_size = 10

abbrev pub mic_gain_step_db : ℕ
mic_gain_step_db = 3

-- s_unsaved and s_changed_ms.
pub record Panel : Type 0 where
  pub unsaved : Bool
  pub changed_ms : ℕ

-- `(int32_t)w`.
abbrev pub signed : ℕ → ℤ
signed w = if ltb w (2 ^ 31) then pos w else negsuc (2 ^ 32 - 1 - w)

-- The level asked for: the next mark of the grid, up or down.
unfoldable pub next_mark : Bool → ℕ → ℤ
next_mark up now =
    if up
    then pos ((now / volume_step_size + 1) * volume_step_size)
    else sub_ℕ ((now + volume_step_size - 1) / volume_step_size * volume_step_size) volume_step_size

-- `time` is the milliseconds since boot, and `codec_ok` the codec's answer.
unfoldable pub volume_step : Bool → Bool → ℕ → Levels × Panel → ℕ × (Levels × Panel)
unfolding next_mark
volume_step codec_ok up time (s, p) =
    let (level, s') = set_volume_live codec_ok (next_mark up s.volume) s in
    if level == s.volume
    then (level, (s', p))
    else (level, (s', record { unsaved = true; changed_ms = u32 time }))

unfoldable pub mic_gain_step : Bool → ℕ → Levels × Panel → ℕ × (Levels × Panel)
mic_gain_step up time (s, p) =
    let step = if up then pos mic_gain_step_db else sub_ℕ 0 mic_gain_step_db in
    let (g, s') = set_mic_gain_live (pos s.gain_want +ℤ step) s in
    if g == s.gain_want
    then (g, (s', p))
    else (g, (s', record { unsaved = true; changed_ms = u32 time }))

-- With whether session_ctl_request_settings_save is called.
unfoldable pub commit : ℕ → ℕ → Panel → Panel × Bool
commit now_ms quiet_ms p =
    if p.unsaved && leb_ℤ (signed quiet_ms) (signed (sub32 now_ms p.changed_ms))
    then (record p { unsaved = false }, true)
    else (p, false)

-- The deck of `deal_shape`: the places of CALLOUT_SHAPES, of which `left` are still to be dealt.
pub record Deck : Type 0 where
  pub deck : List ℕ
  pub left : ℕ

unfoldable pub callout_shapes : List (List ℕ)
callout_shapes =
    codes "that builds up and lands on the number last"
    ∷ codes "that opens with a sound like whoa or ooh"
    ∷ codes "as a mock news headline"
    ∷ codes "like a sports commentator"
    ∷ codes "as dry understatement, the number at the end"
    ∷ codes "that opens with a silly title for them"
    ∷ codes "with a pun on the number"
    ∷ codes "like a weather report"
    ∷ codes "that dares them to beat the next round"
    ∷ codes "like a game-show host"
    ∷ []

abbrev pub callout_shapes_n : ℕ
callout_shapes_n = 10

-- The numbers from `first` on.
abbrev pub places : ℕ → ℕ → List ℕ
places first zero = []
places first (suc n) = first ∷ places (first + 1) n

unfoldable pub swap : List ℕ → ℕ → ℕ → List ℕ
swap d i j = set (set d i (get_or d j 0)) j (get_or d i 0)

-- The places from i down to 1; `random i` is what esp_random answers there.
unfoldable pub shuffle : (ℕ → ℕ) → ℕ → List ℕ → List ℕ
unfolding swap
shuffle random zero d = d
shuffle random (suc i) d = shuffle random i (swap d (suc i) (random (suc i) % (suc i + 1)))

-- The place of the shape that `deal_shape` returns.
unfoldable pub deal_shape : (ℕ → ℕ) → Deck → ℕ × Deck
unfolding shuffle
deal_shape random d =
    let d' =
      if d.left == 0
      then record {
        deck = shuffle random (callout_shapes_n - 1) (places 0 callout_shapes_n);
        left = callout_shapes_n;
      }
      else d in
    let left = d'.left - 1 in (get_or d'.deck left 0, record d' { left = left })

-- What controls_echo_callout has the agent asked.
unfoldable pub callout : ℕ → (ℕ → ℕ) → Deck → List ℕ × Deck
unfolding deal_shape callout_shapes decimal
callout level random d =
    let tone : List ℕ =
      if ltb level 10
      then codes "encouraging"
      else if ltb level 15
      then codes "teasing"
      else codes "snarky" in
    let (shape, d') = deal_shape random d in
    let say =
      codes "[Echo] Reached "
      ++ (decimal level
          ++ (codes ". One short, "
              ++ (tone
                  ++ (codes " line "
                      ++ (get_or callout_shapes shape [] ++ codes ". No questions."))))) in
    (snprintf 128 say, d')
