-- ===== src/Audio/Whole.antt =====
-- One pass of the playback task on whole samples (main/audio_io.c).
use esp32_deepgram_voice_age.Common.{
  ℕ, zero, suc, ◌-◌, ◌%◌, ◌≤◌, min, ◌≡◌, refl, ap, ◌∙◌, inl, inr, Bool, true, false, not, ◌&&◌,
  List, [], ◌∷◌, arith, ltb, ◌==◌, if◌then◌else◌, Bool-cases, length,
}
use esp32_deepgram_voice_age.Common.Cuts.{length-take, length-drop}
use esp32_deepgram_voice_age.Audio.Buffer.{StreamBuffer}
use esp32_deepgram_voice_age.Audio.Speaker.{Build, pa_idle}
use esp32_deepgram_voice_age.Audio.Tune.{Waves}
use esp32_deepgram_voice_age.Audio.Drain.{
  Drain, Outside, tune_pass, speech_pass, empty_buffer, Work, sounds, empties, speaks, do_work,
  work_of, before_work, joined, chunk_mono, pass,
}

tune_pass-carry_valid :
    (g : Build) (w : Waves) (o : Outside) (chime : Bool) (d : Drain)
    → (tune_pass g w o chime d).0.carry_valid ≡ d.carry_valid
unfolding tune_pass
tune_pass-carry_valid g w o true d = refl
tune_pass-carry_valid g w o false d = refl

before_work-carry_valid :
    (g : Build) (o : Outside) (is_empty : Bool) (got : List ℕ) (d : Drain)
    → (before_work g o is_empty got d).0.1.carry_valid ≡ d.carry_valid
unfolding before_work
before_work-carry_valid g o is_empty got d = refl

speech_pass-carry_valid :
    (g : Build) (o : Outside) (bytes : List ℕ) (d : Drain)
    → length bytes % 2 ≡ 0
    → (speech_pass g o bytes d).0.carry_valid ≡ false
unfolding speech_pass
speech_pass-carry_valid g o bytes d h =
    let odd : length bytes % 2 == 1 ≡ false = ground (arith, h) in
    elim (Bool-cases (ltb (length bytes) 2)) [ inl e ↦ rw (e, odd) refl | inr e ↦ rw (e, odd) refl ]

module _ (B : StreamBuffer) where
  empty_at_zero : (xs : List ℕ) → length xs ≡ 0 → xs ≡ []
  empty_at_zero [] h = refl
  empty_at_zero (x ∷ xs) h = absurd (omega arith)

  -- The flush leaves nothing behind.
  pub contents-empty_buffer :
      (fuel : ℕ) (b : B.Buffer)
      → length (B.contents b) ≤ fuel
      → B.contents (empty_buffer B fuel b) ≡ []
  unfolding empty_buffer
  contents-empty_buffer zero b h = empty_at_zero (B.contents b) (omega arith)
  contents-empty_buffer (suc fuel) b h =
      let got = (B.receive b 128).0 in
      let b' = (B.receive b 128).1 in
      let read : length got ≡ min 128 (length (B.contents b)) =
        ap length (B.read-receive b 128) ∙ length-take 128 (B.contents b) in
      let left : length (B.contents b') ≡ length (B.contents b) - 128 =
        ap length (B.contents-receive b 128) ∙ length-drop 128 (B.contents b) in
      elim (Bool-cases (0 == length got)) [
        | inl e ↦ rw e (empty_at_zero (B.contents b') (ground (arith, e, read, left)))
        | inr e ↦ rw e (contents-empty_buffer fuel b' (ground (arith, e, read, left, h)))
      ]

  do_work-whole :
      (g : Build) (w : Waves) (o : Outside) (chime idle : Bool) (bytes : List ℕ) (b : B.Buffer)
      (d : Drain) (k : Work)
      → length bytes % 2 ≡ 0
      → length (B.contents b) % 2 ≡ 0
      → d.carry_valid ≡ false
      → let ((b', d'), calls) = do_work B g w o chime idle bytes b d k in
        (length (B.contents b') % 2 ≡ 0) × (d'.carry_valid ≡ false)
  unfolding do_work
  do_work-whole g w o chime idle bytes b d sounds h e c =
      (e, tune_pass-carry_valid g w o chime d ∙ c)
  do_work-whole g w o chime idle bytes b d empties h e c =
      (ap (λ l. length l % 2) (contents-empty_buffer (length (B.contents b)) b (omega arith)), refl)
  do_work-whole g w o chime idle bytes b d speaks h e c = (
    e,
    speech_pass-carry_valid g o bytes
        (record d {
          speaker = (if idle then pa_idle g o.after_ms d.speaker else (d.speaker, [])).0;
        })
        h,
  )

  -- A pass, from a buffer of whole samples and with none held over.
  pub pass-whole :
      (g : Build) (w : Waves) (o : Outside) (b : B.Buffer) (d : Drain)
      → length (B.contents b) % 2 ≡ 0
      → d.carry_valid ≡ false
      → let ((b', d'), calls) = pass B g w o b d in
        (length (B.contents b') % 2 ≡ 0) × (d'.carry_valid ≡ false)
  unfolding pass
  pass-whole g w o b d h c =
      let n = chunk_mono - (if d.carry_valid then 1 else 0) in
      let whole : n ≡ 1024 = ap (λ v. chunk_mono - (if v then 1 else 0)) c in
      let got = (B.receive b n).0 in
      let b' = (B.receive b n).1 in
      let read : length got ≡ min n (length (B.contents b)) =
        ap length (B.read-receive b n) ∙ length-take n (B.contents b) in
      let left : length (B.contents b') ≡ length (B.contents b) - n =
        ap length (B.contents-receive b n) ∙ length-drop n (B.contents b) in
      let top = before_work g o (0 == length (B.contents b)) got d in
      do_work-whole g w o o.chime_on (not top.0.0 && 0 == length got) (joined d got) b' top.0.1
        (work_of top.0.0 o.flush_pending got)
        (ap (λ v. length (if v then d.carry ∷ got else got) % 2) c
          ∙ (omega (arith, read, whole, h)))
        (omega (arith, left, whole, h))
        (before_work-carry_valid g o (0 == length (B.contents b)) got d ∙ c)
