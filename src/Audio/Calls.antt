-- ===== src/Audio/Calls.antt =====
-- What the speaker's calls in main/audio_io.c write of the agent's speech, while it can be opened.
use esp32_deepgram_voice_age.Common.{
  ℕ, ◌+◌, ◌*◌, ◌%◌, ◌≡◌, refl, sym, ap, ◌∙◌, inl, inr, Bool, true, false, not, ◌&&◌, List, [], ◌∷◌,
  ◌++◌, arith, ltb, leb, ◌==◌, if◌then◌else◌, Bool-cases, length, u32, sub32,
}
use mathlib.Core.List.{append_assoc}
use esp32_deepgram_voice_age.Audio.Speaker.{
  Build, Sound, speech, tune, Call, codec_open, codec_close, settle, backoff, set_out_vol,
  amplifier, tap, write, Speaker, spk_close_if_idle, spk_reopen, pa_on, pa_idle,
}
use esp32_deepgram_voice_age.Audio.Drain.{Outside, samples_of, stereo, attend, sound}

-- The agent's samples among the calls, as the codec gets them.
abbrev pub spoken : List Call → List ℕ
spoken [] = []
spoken (write speech xs ∷ cs) = xs ++ spoken cs
spoken (write tune xs ∷ cs) = spoken cs
spoken (codec_open ∷ cs) = spoken cs
spoken (codec_close ∷ cs) = spoken cs
spoken (settle ∷ cs) = spoken cs
spoken (backoff ∷ cs) = spoken cs
spoken (set_out_vol n ∷ cs) = spoken cs
spoken (amplifier b ∷ cs) = spoken cs
spoken (tap k xs ∷ cs) = spoken cs

pub spoken-append : (cs ds : List Call) → spoken (cs ++ ds) ≡ spoken cs ++ spoken ds
spoken-append [] ds = refl
spoken-append (write speech xs ∷ cs) ds =
    ap (λ l. xs ++ l) (spoken-append cs ds) ∙ sym (append_assoc xs (spoken cs) (spoken ds))
spoken-append (write tune xs ∷ cs) ds = spoken-append cs ds
spoken-append (codec_open ∷ cs) ds = spoken-append cs ds
spoken-append (codec_close ∷ cs) ds = spoken-append cs ds
spoken-append (settle ∷ cs) ds = spoken-append cs ds
spoken-append (backoff ∷ cs) ds = spoken-append cs ds
spoken-append (set_out_vol n ∷ cs) ds = spoken-append cs ds
spoken-append (amplifier b ∷ cs) ds = spoken-append cs ds
spoken-append (tap k xs ∷ cs) ds = spoken-append cs ds

-- The speaker has not failed to open, and will open.
pub reopened :
    (g : Build) (now_ms : ℕ) (ok : Bool) (volume : ℕ) (s : Speaker)
    → ok ≡ true
    → s.reopen_failed_ms ≡ 0
    → let (opened, (s', calls)) = spk_reopen g now_ms ok volume s in
      (opened ≡ true) × ((s'.reopen_failed_ms ≡ 0) × (spoken calls ≡ []))
unfolding spk_reopen
reopened g now_ms ok volume s k z = elim (Bool-cases s.closed) [
  | inl e ↦
      let never : s.reopen_failed_ms == 0 ≡ true = ground (arith, z) in
      rw (e, never, k) (refl, (refl, refl))
  | inr e ↦ rw e (refl, (z, refl))
]

pa_on-quiet :
    (g : Build) (s : Speaker)
    → let (s', calls) = pa_on g s in
      (s'.reopen_failed_ms ≡ s.reopen_failed_ms) × (spoken calls ≡ [])
unfolding pa_on
pa_on-quiet g s = elim (Bool-cases (ltb 0 g.idle_off_ms && not s.pa_is_on)) [
  | inl e ↦ rw e (refl, refl)
  | inr e ↦ rw e (refl, refl)
]

pub pa_idle-quiet :
    (g : Build) (now_ms : ℕ) (s : Speaker)
    → let (s', calls) = pa_idle g now_ms s in
      (s'.reopen_failed_ms ≡ s.reopen_failed_ms) × (spoken calls ≡ [])
unfolding pa_idle
pa_idle-quiet g now_ms s =
    elim (Bool-cases (
      ltb 0 g.idle_off_ms
      && (s.pa_is_on
          && (leb g.idle_off_ms (sub32 now_ms s.play_write_ms)
              && leb g.idle_off_ms (sub32 now_ms s.tone_write_ms))))) [
                | inl e ↦ rw e (refl, refl)
                | inr e ↦ rw e (refl, refl)
              ]

close-quiet :
    (g : Build) (mic : Bool) (s : Speaker)
    → let (s', calls) = spk_close_if_idle g mic s in
      (s'.reopen_failed_ms ≡ s.reopen_failed_ms) × (spoken calls ≡ [])
unfolding spk_close_if_idle
close-quiet g true s = elim (Bool-cases s.closed) [
  | inl e ↦ rw e (refl, refl)
  | inr e ↦ rw e (refl, refl)
]
close-quiet g false s = elim (Bool-cases s.closed) [
  | inl e ↦ rw e (refl, refl)
  | inr e ↦ rw e (refl, refl)
]

pub samples_of-append :
    (xs ys : List ℕ) → length xs % 2 ≡ 0 → samples_of (xs ++ ys) ≡ samples_of xs ++ samples_of ys
samples_of-append [] ys h = refl
samples_of-append (x ∷ []) ys h = cc h
samples_of-append (x ∷ y ∷ xs) ys h =
    ap (λ l. (x + 256 * y) ∷ l) (samples_of-append xs ys (omega (arith, h)))

pub stereo-append : (g : Build) (xs ys : List ℕ) → stereo g (xs ++ ys) ≡ stereo g xs ++ stereo g ys
unfolding stereo
stereo-append g [] ys = refl
stereo-append g (x ∷ xs) ys =
    let v = if g.aec then u32 (x * 65536) else x in ap (λ l. v ∷ v ∷ l) (stereo-append g xs ys)

pub attend-quiet :
    (g : Build) (sounding is_empty : Bool) (o : Outside) (s : Speaker)
    → o.open_ok ≡ true
    → s.reopen_failed_ms ≡ 0
    → let (s', calls) = attend g sounding is_empty o s in
      (s'.reopen_failed_ms ≡ 0) × (spoken calls ≡ [])
unfolding attend
attend-quiet g sounding is_empty o s k z =
    elim (Bool-cases (o.deep_idle_want && (not sounding && (not o.flush_pending && is_empty)))) [
      | inl e ↦ let (f, q) = close-quiet g o.mic_is_open s in rw e (f ∙ z, q)
      | inr e ↦ rw e (elim (Bool-cases (not o.deep_idle_want)) [
        | inl e' ↦ let (h, (f, q)) = reopened g o.before_ms o.open_ok o.volume s k z in rw e' (f, q)
        | inr e' ↦ rw e' (z, refl)
      ])
    ]

pub sound-spoken :
    (g : Build) (o : Outside) (kind : Sound) (vs : List ℕ) (s : Speaker)
    → o.open_ok ≡ true
    → s.reopen_failed_ms ≡ 0
    → let (went, (s', calls)) = sound g o kind vs s in
      (s'.reopen_failed_ms ≡ 0)
      × ((went ≡ true) × (spoken calls ≡ spoken (write kind (stereo g vs) ∷ [])))
unfolding sound
sound-spoken g o kind vs s k z =
    let r = spk_reopen g o.after_ms o.open_ok o.volume s in
    let (h, (f, q)) = reopened g o.after_ms o.open_ok o.volume s k z in
    let (f', q') = pa_on-quiet g r.1.0 in
    let last : List Call = tap kind vs ∷ write kind (stereo g vs) ∷ [] in
    let calls = (pa_on g r.1.0).1 in
    rw h (
      f' ∙ f,
      (
        refl,
        spoken-append r.1.1 (calls ++ last)
            ∙ ap (λ l. l ++ spoken (calls ++ last)) q
            ∙ spoken-append calls last
            ∙ ap (λ l. l ++ spoken last) q',
      ),
    )
