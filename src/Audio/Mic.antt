-- ===== src/Audio/Mic.antt =====
-- The parts of a pass of the capture task before its block (main/audio_io.c).
use esp32_deepgram_voice_age.Common.{
  ℕ, ◌+◌, ◌≡◌, refl, ap, ◌∙◌, inl, inr, Bool, not, ◌&&◌, ◌||◌, List, [], ◌∷◌, ◌++◌, arith, ltb,
  ◌==◌, Bool-cases,
}
use esp32_deepgram_voice_age.Audio.Uplink.{
  Gate, hangover_blocks, Heard, Uplink, mic_close, mic_open, set_in_gain, tapped, sent, Capture,
  aec_warmup_blocks, vad, is_loud, aec_warmup_ref_peak, attend_mic, apply_gain, warm_up, is_gated,
}

-- The blocks among the calls.
abbrev pub sent_of : List Uplink → List (List ℕ)
sent_of [] = []
sent_of (sent b ∷ us) = b ∷ sent_of us
sent_of (mic_close ∷ us) = sent_of us
sent_of (mic_open ∷ us) = sent_of us
sent_of (set_in_gain g ∷ us) = sent_of us
sent_of (tapped b ∷ us) = sent_of us

pub sent_of-append : (us vs : List Uplink) → sent_of (us ++ vs) ≡ sent_of us ++ sent_of vs
sent_of-append [] vs = refl
sent_of-append (sent b ∷ us) vs = ap (λ l. b ∷ l) (sent_of-append us vs)
sent_of-append (mic_close ∷ us) vs = sent_of-append us vs
sent_of-append (mic_open ∷ us) vs = sent_of-append us vs
sent_of-append (set_in_gain g ∷ us) vs = sent_of-append us vs
sent_of-append (tapped b ∷ us) vs = sent_of-append us vs

pub attend_mic-silent :
    {Memory : Type 0} (h : Heard) (c : Capture Memory) → sent_of (attend_mic h c).1.1 ≡ []
unfolding attend_mic
attend_mic-silent h c = elim (Bool-cases (not h.capture_enabled && not h.monitor)) [
  | inl e ↦ rw e (elim (Bool-cases c.is_open) [ inl e' ↦ rw e' refl | inr e' ↦ rw e' refl ])
  | inr e ↦ rw e (elim (Bool-cases c.is_open) [
    | inl e' ↦ rw e' refl
    | inr e' ↦ rw e' (elim (Bool-cases h.open_ok) [ inl e'' ↦ rw e'' refl | inr e'' ↦ rw e'' refl ])
  ])
]

-- The pass goes on.
pub attend_mic-open :
    {Memory : Type 0} (h : Heard) (c : Capture Memory)
    → (attend_mic h c).0 ≡ ((h.capture_enabled || h.monitor) && (c.is_open || h.open_ok))
unfolding attend_mic
attend_mic-open h c = ground arith

pub apply_gain-silent :
    {Memory : Type 0} (h : Heard) (c : Capture Memory) → sent_of (apply_gain h c).1 ≡ []
unfolding apply_gain
apply_gain-silent h c = elim (Bool-cases (h.gain_want == c.gain)) [
  | inl e ↦ rw e refl
  | inr e ↦ rw e refl
]

module _ {Memory : Type 0} where
  -- What a pass goes by of the state before it.
  abbrev pub SameGates : Capture Memory → Capture Memory → Type 0
  SameGates c d =
      (c.aec_warm ≡ d.aec_warm)
      × ((c.vad_hold ≡ d.vad_hold)
          × ((c.vad_suppressed ≡ d.vad_suppressed) × (c.staging ≡ d.staging)))

  pub attend_mic-kept : (h : Heard) (c : Capture Memory) → SameGates (attend_mic h c).1.0 c
  unfolding attend_mic
  attend_mic-kept h c = elim (Bool-cases (not h.capture_enabled && not h.monitor)) [
    | inl e ↦ rw e (elim (Bool-cases c.is_open) [
      | inl e' ↦ rw e' (refl, (refl, (refl, refl)))
      | inr e' ↦ rw e' (refl, (refl, (refl, refl)))
    ])
    | inr e ↦ rw e (elim (Bool-cases c.is_open) [
      | inl e' ↦ rw e' (refl, (refl, (refl, refl)))
      | inr e' ↦ rw e' (elim (Bool-cases h.open_ok) [
        | inl e'' ↦ rw e'' (refl, (refl, (refl, refl)))
        | inr e'' ↦ rw e'' (refl, (refl, (refl, refl)))
      ])
    ])
  ]

  pub apply_gain-kept : (h : Heard) (c : Capture Memory) → SameGates (apply_gain h c).0 c
  unfolding apply_gain
  apply_gain-kept h c = elim (Bool-cases (h.gain_want == c.gain)) [
    | inl e ↦ rw e (refl, (refl, (refl, refl)))
    | inr e ↦ rw e (refl, (refl, (refl, refl)))
  ]

  pub warm_up-kept :
      (h : Heard) (c d : Capture Memory)
      → SameGates c d
      → SameGates (warm_up h c) (record d { aec_warm = (warm_up h d).aec_warm })
  unfolding warm_up
  warm_up-kept h c d (a, (b, (k, s))) =
      let test =
        λ (n : ℕ). h.aec_on && (ltb n aec_warmup_blocks && ltb aec_warmup_ref_peak h.ref_peak) in
      elim (Bool-cases (test d.aec_warm)) [
        | inl e ↦ rw (ap test a ∙ e, e) (ap (λ n. n + 1) a, (b, (k, s)))
        | inr e ↦ rw (ap test a ∙ e, e) (a, (b, (k, s)))
      ]

-- The conditions on the block, of a pass that gets one.
abbrev pub goes_up : {Memory : Type 0} → Gate → Heard → Capture Memory → Bool
goes_up g h c =
    let (voice, s) =
      vad (hangover_blocks g) h.playback_active (is_loud h) (c.vad_hold, c.vad_suppressed) in
    not (is_gated g h (warm_up h c)) && (voice && h.held == 0)
