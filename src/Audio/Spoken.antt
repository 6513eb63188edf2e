-- ===== src/Audio/Spoken.antt =====
-- The agent's speech from its chunks to the speaker (main/audio_io.c).
use esp32_deepgram_voice_age.Common.{
  ℕ, ◌-◌, ◌/◌, ◌%◌, ◌<◌, ◌≡◌, refl, ap, ◌∙◌, ◌⊎◌, inl, inr, Bool, true, false, not, ◌&&◌, ◌||◌,
  List, [], ◌∷◌, ◌++◌, arith, ltb, ◌==◌, if◌then◌else◌, Bool-cases, length, take, drop,
}
use mathlib.Core.List.{append-nil}
use esp32_deepgram_voice_age.Audio.Buffer.{StreamBuffer}
use esp32_deepgram_voice_age.Audio.Speaker.{Build, speech, tune, pa_idle}
use esp32_deepgram_voice_age.Audio.Tune.{Waves, take_request, chime_fill, tone_fill}
use esp32_deepgram_voice_age.Audio.Drain.{
  Drain, Outside, samples_of, stereo, tune_pass, speech_pass, Work, sounds, empties, speaks,
  do_work, work_of, before_work, joined, chunk_mono, pass,
}
use esp32_deepgram_voice_age.Audio.Calls.{
  spoken, spoken-append, pa_idle-quiet, attend-quiet, sound-spoken,
}

tune_pass-quiet :
    (g : Build) (w : Waves) (o : Outside) (chime : Bool) (d : Drain)
    → o.open_ok ≡ true
    → d.speaker.reopen_failed_ms ≡ 0
    → let (d', calls) = tune_pass g w o chime d in
      (d'.speaker.reopen_failed_ms ≡ 0) × (spoken calls ≡ [])
unfolding tune_pass
tune_pass-quiet g w o true d k z =
    let n = chunk_mono / 2 / 2 in
    let (f, (h, q)) = sound-spoken g o tune (chime_fill w g.rate n d.chime_pos).0 d.speaker k z in
    rw h (f, q)
tune_pass-quiet g w o false d k z =
    let n = chunk_mono / 2 / 2 in
    let (f, (h, q)) = sound-spoken g o tune (tone_fill w n d.current).0 d.speaker k z in rw h (f, q)

no_sample : (bytes : List ℕ) → length bytes < 2 → samples_of bytes ≡ []
no_sample [] h = refl
no_sample (x ∷ []) h = refl
no_sample (x ∷ y ∷ bytes) h = absurd (omega arith)

stereo-nothing : (g : Build) → [] ≡ stereo g []
unfolding stereo
stereo-nothing g = refl

speech_pass-spoken :
    (g : Build) (o : Outside) (bytes : List ℕ) (d : Drain)
    → o.open_ok ≡ true
    → d.speaker.reopen_failed_ms ≡ 0
    → let (d', calls) = speech_pass g o bytes d in
      (d'.speaker.reopen_failed_ms ≡ 0) × (spoken calls ≡ stereo g (samples_of bytes))
unfolding speech_pass
speech_pass-spoken g o bytes d k z =
    let (f, (h, q)) = sound-spoken g o speech (samples_of bytes) d.speaker k z in
    elim (Bool-cases (ltb (length bytes) 2)) [
      | inl e ↦
          let none : samples_of bytes ≡ [] = no_sample bytes (ground (arith, e)) in
          elim (Bool-cases (length bytes % 2 == 1)) [
            | inl e' ↦ rw (e, e', none) (z, stereo-nothing g)
            | inr e' ↦ rw (e, e', none) (z, stereo-nothing g)
          ]
      | inr e ↦ elim (Bool-cases (length bytes % 2 == 1)) [
        | inl e' ↦ rw (e, e', h) (f, q ∙ append-nil (stereo g (samples_of bytes)))
        | inr e' ↦ rw (e, e', h) (f, q ∙ append-nil (stereo g (samples_of bytes)))
      ]
    ]

module _ (B : StreamBuffer) where
  do_work-spoken :
      (g : Build) (w : Waves) (o : Outside) (chime idle : Bool) (bytes : List ℕ) (b : B.Buffer)
      (d : Drain) (k : Work)
      → o.open_ok ≡ true
      → d.speaker.reopen_failed_ms ≡ 0
      → (k ≡ speaks) ⊎ ((k ≡ sounds) × (bytes ≡ []))
      → let ((b', d'), calls) = do_work B g w o chime idle bytes b d k in
        (b' ≡ b)
        × ((d'.speaker.reopen_failed_ms ≡ 0) × (spoken calls ≡ stereo g (samples_of bytes)))
  unfolding do_work
  do_work-spoken g w o chime idle bytes b d sounds ok z (inl h) = cc h
  do_work-spoken g w o chime idle bytes b d sounds ok z (inr (h, is)) =
      let (f, q) = tune_pass-quiet g w o chime d ok z in rw is (refl, (f, q ∙ stereo-nothing g))
  do_work-spoken g w o chime idle bytes b d empties ok z (inl h) = cc h
  do_work-spoken g w o chime idle bytes b d empties ok z (inr (h, is)) = cc h
  do_work-spoken g w o chime true bytes b d speaks ok z h =
      let (f, q) = pa_idle-quiet g o.after_ms d.speaker in
      let r = pa_idle g o.after_ms d.speaker in
      let d' : Drain = record d { speaker = r.0 } in
      let (f', q') = speech_pass-spoken g o bytes d' ok (f ∙ z) in
      let calls = (speech_pass g o bytes d').1 in
      (refl, (f', spoken-append r.1 calls ∙ ap (λ l. l ++ spoken calls) q ∙ q'))
  do_work-spoken g w o chime false bytes b d speaks ok z h =
      (refl, speech_pass-spoken g o bytes d ok z)

  empty_at_zero : (xs : List ℕ) → length xs ≡ 0 → xs ≡ []
  empty_at_zero [] h = refl
  empty_at_zero (x ∷ xs) h = absurd (omega arith)

  work_of-speaks :
      (sounding flush : Bool) (got : List ℕ)
      → flush ≡ false
      → let k = work_of sounding flush got in (k ≡ speaks) ⊎ ((k ≡ sounds) × (length got ≡ 0))
  unfolding work_of
  work_of-speaks sounding true got f = cc f
  work_of-speaks true false got f = elim (Bool-cases (0 == length got)) [
    | inl e ↦ rw e (inr (refl, ground (arith, e)))
    | inr e ↦ rw e (inl refl)
  ]
  work_of-speaks false false got f = inl refl

  before_work-quiet :
      (g : Build) (o : Outside) (is_empty : Bool) (got : List ℕ) (d : Drain)
      → o.open_ok ≡ true
      → d.speaker.reopen_failed_ms ≡ 0
      → let ((sounding, d'), calls) = before_work g o is_empty got d in
        (d'.speaker.reopen_failed_ms ≡ 0) × (spoken calls ≡ [])
  unfolding before_work
  before_work-quiet g o is_empty got d k z =
      let now = take_request g.rate o.tone_req d.current in
      attend-quiet g (o.chime_on || (not o.chime_on && ltb now.pos now.len)) is_empty o d.speaker k
        z

  -- A pass without a flush writes the samples of the chunk that it takes.
  pub pass-spoken :
      (g : Build) (w : Waves) (o : Outside) (b : B.Buffer) (d : Drain)
      → d.carry_valid ≡ false
      → o.open_ok ≡ true
      → o.flush_pending ≡ false
      → d.speaker.reopen_failed_ms ≡ 0
      → let ((b', d'), calls) = pass B g w o b d in
        (B.contents b' ≡ drop chunk_mono (B.contents b))
        × ((d'.speaker.reopen_failed_ms ≡ 0)
            × (spoken calls ≡ stereo g (samples_of (take chunk_mono (B.contents b)))))
  unfolding pass
  pass-spoken g w o b d c ok nf z =
      let n = chunk_mono - (if d.carry_valid then 1 else 0) in
      let whole : n ≡ chunk_mono = ap (λ v. chunk_mono - (if v then 1 else 0)) c in
      let got = (B.receive b n).0 in
      let b' = (B.receive b n).1 in
      let read : got ≡ take chunk_mono (B.contents b) =
        B.read-receive b n ∙ ap (λ k. take k (B.contents b)) whole in
      let left : B.contents b' ≡ drop chunk_mono (B.contents b) =
        B.contents-receive b n ∙ ap (λ k. drop k (B.contents b)) whole in
      let plain : joined d got ≡ got = ap (λ v. if v then d.carry ∷ got else got) c in
      let top = before_work g o (0 == length (B.contents b)) got d in
      let (f, q) = before_work-quiet g o (0 == length (B.contents b)) got d ok z in
      let k = work_of top.0.0 o.flush_pending got in
      let work : (k ≡ speaks) ⊎ ((k ≡ sounds) × (joined d got ≡ [])) =
        elim (work_of-speaks top.0.0 o.flush_pending got nf) [
          | inl e ↦ inl e
          | inr (e, l) ↦ inr (e, plain ∙ empty_at_zero got l)
        ] in
      let idle = not top.0.0 && 0 == length got in
      let (same, (f', q')) =
        do_work-spoken g w o o.chime_on idle (joined d got) b' top.0.1 k ok f work in
      let r = do_work B g w o o.chime_on idle (joined d got) b' top.0.1 k in
      (
        ap B.contents same ∙ left,
        (
          f',
          spoken-append top.1 r.1
              ∙ ap (λ l. l ++ spoken r.1) q
              ∙ q'
              ∙ ap (λ l. stereo g (samples_of l)) (plain ∙ read),
        ),
      )
