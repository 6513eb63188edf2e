-- ===== src/Audio/Sending.antt =====
-- The conditions under which a block of the microphone goes up (main/audio_io.c).
use esp32_deepgram_voice_age.Common.{
  ℕ, ◌≡◌, refl, ap, ◌∙◌, arith, inl, inr, Bool, true, false, not, ◌&&◌, ◌||◌, List, [], ◌∷◌, ◌++◌,
  ltb, leb, ◌==◌, if◌then◌else◌, Bool-cases,
}
use esp32_deepgram_voice_age.Audio.Denoise.{Engine, denoise_block}
use esp32_deepgram_voice_age.Audio.Uplink.{
  Gate, hangover_blocks, Heard, Uplink, Capture, aec_warmup_blocks, vad, is_loud, attend_mic,
  apply_gain, warm_up, is_gated, is_too_loud, pass_block, capture_pass,
}
use esp32_deepgram_voice_age.Audio.Mic.{
  sent_of, sent_of-append, attend_mic-silent, attend_mic-open, apply_gain-silent, SameGates,
  attend_mic-kept, apply_gain-kept, warm_up-kept, goes_up,
}

-- What the block becomes.
abbrev pub cleaned : (N : Engine) → ℕ → Heard → Capture N.Memory → List ℕ
cleaned N cap h c = (denoise_block N cap h.ns_on h.ns_run h.block c.staging).0

-- Which of the three lists of calls it is.
chosen :
    (go read gated v m o up : Bool) (mono : List ℕ) {t0 t1 t3 : List (List ℕ)}
    → t0 ≡ []
    → t1 ≡ []
    → t3 ≡ (if v && up then mono ∷ [] else [])
    → go ≡ ((v || m) && o)
    → (if not go then t0 else if not read then t1 else if gated then t1 else t3)
      ≡ (if v && (o && (read && (not gated && up))) then mono ∷ [] else [])
chosen true true true false m o up mono a b k g = b
chosen true true false false m o up mono a b k g = k
chosen true false gated false m o up mono a b k g = b
chosen false read gated false m o up mono a b k g = a
chosen true true true true m true up mono a b k g = b
chosen true true false true m true up mono a b k g = k
chosen true false gated true m true up mono a b k g = b
chosen true read gated true m false up mono a b k g = cc g
chosen false read gated true m false up mono a b k g = a
chosen false read gated true m true up mono a b k g = cc g

picked :
    {C : Type 0} (go read gated : Bool) (r0 r1 r2 r3 : C × List Uplink)
    → sent_of
        (if◌then◌else◌ {A = C × List Uplink}
          (not go)
          r0
          (if not read then r1 else if gated then r2 else r3)).1
      ≡ (if not go
          then sent_of r0.1
          else if not read
          then sent_of r1.1
          else if gated
          then sent_of r2.1
          else sent_of r3.1)
picked true true true r0 r1 r2 r3 = refl
picked true true false r0 r1 r2 r3 = refl
picked true false gated r0 r1 r2 r3 = refl
picked false read gated r0 r1 r2 r3 = refl

gated_same :
    {Memory : Type 0} (g : Gate) (h : Heard) (c d : Capture Memory)
    → c.aec_warm ≡ d.aec_warm
    → is_gated g h c ≡ is_gated g h d
unfolding is_gated
gated_same g h c d e =
    ap (λ n. (h.playback_active && (h.aec_on && ltb n aec_warmup_blocks)) || is_too_loud g h) e

gates_kept :
    {Memory : Type 0} (h : Heard) (c : Capture Memory)
    → SameGates
        (warm_up h (apply_gain h (attend_mic h c).1.0).0)
        (record c { aec_warm = (warm_up h c).aec_warm })
gates_kept h c =
    let c1 = (attend_mic h c).1.0 in
    let (a, (b, (k, s))) = apply_gain-kept h c1 in
    let (a', (b', (k', s'))) = attend_mic-kept h c in
    warm_up-kept h (apply_gain h c1).0 c (a ∙ a', (b ∙ b', (k ∙ k', s ∙ s')))

module _ (N : Engine) where
  pass_block-sent :
      (g : Gate) (cap : ℕ) (h : Heard) (c : Capture N.Memory)
      → let (voice, s) =
          vad (hangover_blocks g) h.playback_active (is_loud h) (c.vad_hold, c.vad_suppressed) in
        sent_of (pass_block N g cap h c).1
        ≡ (if h.capture_enabled && (voice && h.held == 0) then cleaned N cap h c ∷ [] else [])
  unfolding pass_block
  pass_block-sent g cap h c =
      let (voice, s) =
        vad (hangover_blocks g) h.playback_active (is_loud h) (c.vad_hold, c.vad_suppressed) in
      elim (Bool-cases h.capture_enabled) [
        | inl e ↦
            rw e (elim (Bool-cases (voice && h.held == 0)) [
              | inl e' ↦ rw e' refl
              | inr e' ↦ rw e' refl
            ])
        | inr e ↦ rw e (elim (Bool-cases h.monitor) [ inl e' ↦ rw e' refl | inr e' ↦ rw e' refl ])
      ]

  -- What is sent, by the tests of the code.
  sent_by_tests :
      (g : Gate) (cap : ℕ) (h : Heard) (c : Capture N.Memory)
      → sent_of (capture_pass N g cap h c).1 ≡ (
          if h.capture_enabled && ((c.is_open || h.open_ok) && (h.read_ok && goes_up g h c))
          then cleaned N cap h c ∷ []
          else [])
  unfolding capture_pass
  sent_by_tests g cap h c =
      let (goes_on, (c1, calls)) = attend_mic h c in
      let (c2, calls') = apply_gain h c1 in
      let c3 = warm_up h c2 in
      let r = pass_block N g cap h c3 in
      let one = attend_mic-silent h c in
      let two = sent_of-append calls calls' ∙ (λ i. one i ++ apply_gain-silent h c1 i) in
      let three =
        sent_of-append calls (calls' ++ r.1)
        ∙ (λ i. one i ++ sent_of-append calls' r.1 i)
        ∙ ap (λ l. l ++ sent_of r.1) (apply_gain-silent h c1)
        ∙ pass_block-sent g cap h c3 in
      let (w, (v, (k, s))) = gates_kept h c in
      let vad_by = λ (d : Capture N.Memory).
        (vad (hangover_blocks g) h.playback_active (is_loud h) (d.vad_hold, d.vad_suppressed)).0 in
      let voice : vad_by c3 ≡ vad_by c =
        λ i. (vad (hangover_blocks g) h.playback_active (is_loud h) (v i, k i)).0 in
      let mono : cleaned N cap h c3 ≡ cleaned N cap h c =
        λ i. (denoise_block N cap h.ns_on h.ns_run h.block (s i)).0 in
      let gated : is_gated g h c3 ≡ is_gated g h (warm_up h c) =
        gated_same g h c3 (warm_up h c) w in
      let four : sent_of (calls ++ (calls' ++ r.1)) ≡ (
          if h.capture_enabled && (vad_by c && h.held == 0) then cleaned N cap h c ∷ [] else []) =
        three ∙ (λ i. if h.capture_enabled && (voice i && h.held == 0) then mono i ∷ [] else []) in
      picked goes_on h.read_ok (is_gated g h c3) (c1, calls) (c2, calls ++ calls')
        (c3, calls ++ calls') (r.0, calls ++ (calls' ++ r.1))
      ∙ ap
          (λ b.
            if not goes_on
            then sent_of calls
            else if not h.read_ok
            then sent_of (calls ++ calls')
            else if b
            then sent_of (calls ++ calls')
            else sent_of (calls ++ (calls' ++ r.1)))
          gated
      ∙ chosen goes_on h.read_ok (is_gated g h (warm_up h c)) h.capture_enabled h.monitor
          (c.is_open || h.open_ok) (vad_by c && h.held == 0) (cleaned N cap h c) one two four
          (attend_mic-open h c)

  -- The canceller is not in use, has adapted, or has with this block.
  abbrev pub warm : Heard → Capture N.Memory → Bool
  warm h c = not h.aec_on || (leb 16 c.aec_warm || (c.aec_warm == 15 && ltb 500 h.ref_peak))

  -- The block is loud, no louder than what the microphone heard, or the gate still stands open.
  abbrev pub voiced : Heard → Capture N.Memory → Bool
  voiced h c = (leb h.vad_peak h.block_peak && leb h.block_peak h.raw_peak) || ltb 0 c.vad_hold

  -- Nobody holds the uplink, and the agent is silent or the block is the user's.
  abbrev pub wanted_now : Gate → Heard → Capture N.Memory → Bool
  wanted_now g h c =
      h.held == 0
      && (not h.playback_active || (warm h c && (leb h.volume g.max_volume && voiced h c)))

  goes_up-wanted : (g : Gate) (h : Heard) (c : Capture N.Memory) → goes_up g h c ≡ wanted_now g h c
  unfolding is_gated warm_up vad
  goes_up-wanted g h c = ground arith

  -- A pass of the capture task sends up the block, denoised, exactly when capture is enabled, the
  -- microphone is open or opens and can be read, nobody holds the uplink, and either the agent is
  -- silent, or all of this: the canceller is not in use, has heard 16 loud blocks of the reference,
  -- or hears the sixteenth, a peak above 500, now; the volume is within what it can cancel; and the
  -- block's peak reaches the threshold and no more than the raw microphone's, or the voice gate is
  -- still held open. Otherwise it sends up nothing.
  pub capture_pass-sent :
      (g : Gate) (cap : ℕ) (h : Heard) (c : Capture N.Memory)
      → sent_of (capture_pass N g cap h c).1 ≡ (
          if h.capture_enabled && ((c.is_open || h.open_ok) && (h.read_ok && wanted_now g h c))
          then cleaned N cap h c ∷ []
          else [])
  capture_pass-sent g cap h c =
      sent_by_tests g cap h c
      ∙ ap
          (λ b.
            if h.capture_enabled && ((c.is_open || h.open_ok) && (h.read_ok && b))
            then cleaned N cap h c ∷ []
            else [])
          (goes_up-wanted g h c)
