-- ===== src/Audio/Heard.antt =====
-- What is heard of a stretch of the agent's speech, from its chunks to the codec (main/audio_io.c).
use esp32_deepgram_voice_age.Common.{
  ℕ, ◌%◌, ◌≤◌, min, ◌≡◌, refl, sym, ap, ◌∙◌, inl, inr, Bool, true, false, some, List, [], ◌∷◌, ◌++◌,
  arith, ltb, if◌then◌else◌, Bool-cases, length, take, drop,
}
use mathlib.Core.List.{append_assoc, append-nil}
use esp32_deepgram_voice_age.Common.Cuts.{length-take, take-append-drop}
use esp32_deepgram_voice_age.Audio.Buffer.{StreamBuffer}
use esp32_deepgram_voice_age.Audio.Play.{
  Err, esp_ok, esp_no_mem, Player, even_part, after_gap, play,
}
use esp32_deepgram_voice_age.Audio.Carry.{pending}
use esp32_deepgram_voice_age.Audio.Stream.{play-IsAccepted}
use esp32_deepgram_voice_age.Audio.Speaker.{Build}
use esp32_deepgram_voice_age.Audio.Tune.{Waves}
use esp32_deepgram_voice_age.Audio.Drain.{Drain, Outside, samples_of, stereo, chunk_mono}
use esp32_deepgram_voice_age.Audio.Runs.{
  Event, chunk, gap, flushed, mute, drained, Stage, step, run, IsWhole, step-IsWhole, or_else,
}
use esp32_deepgram_voice_age.Audio.Calls.{spoken, samples_of-append, stereo-append}
use esp32_deepgram_voice_age.Audio.Spoken.{pass-spoken}

-- The bytes that came in.
abbrev pub fed : List Event → List ℕ
fed [] = []
fed (chunk now_ms pcm ∷ es) = pcm ++ fed es
fed (gap ∷ es) = fed es
fed (flushed ∷ es) = fed es
fed (mute m ∷ es) = fed es
fed (drained o ∷ es) = fed es

pending_sample : (p : Player) → samples_of (pending p ++ []) ≡ []
pending_sample p = held p.in_carry_valid
  where
    held : (v : Bool) → samples_of ((if v then p.in_carry ∷ [] else []) ++ []) ≡ []
    held true = refl
    held false = refl

after_gap-none : (p : Player) → p.gap ≡ false → after_gap p ≡ p
unfolding after_gap
after_gap-none p h = ap (λ v. if v then record p { gap = false; in_carry_valid = false } else p) h

all_queued :
    (n whole : ℕ) (e : Err)
    → n ≤ whole
    → e ≡ (if ltb n whole then esp_no_mem else esp_ok)
    → e ≡ esp_ok
    → n ≡ whole
all_queued n whole e l a ok = elim (Bool-cases (ltb n whole)) [
  | inl t ↦
      let lost : e ≡ esp_no_mem = a ∙ ap (λ b. if b then esp_no_mem else esp_ok) t in cc (lost, ok)
  | inr t ↦ ground (arith, t, l)
]

-- Playback is neither muted nor at a gap, no flush is pending, and the speaker has not failed to
-- open.
pub record IsClear (p : Player) (d : Drain) : Type 0 where
  pub no_gap : p.gap ≡ false
  pub no_mute : p.muted ≡ false
  pub no_flush : p.flush_pending ≡ false
  pub no_failure : d.speaker.reopen_failed_ms ≡ 0

module _ (B : StreamBuffer) (g : Build) (w : Waves) where
  -- What the codec gets of the agent's speech.
  unfoldable pub heard : List Event → Stage B.Buffer → List ℕ
  heard [] s = []
  heard (e ∷ es) s = let (a, (s', calls)) = step B g w e s in spoken calls ++ heard es s'

  -- Every chunk finds room, the speaker opens, and nothing cuts the stretch.
  abbrev pub IsSmooth : List Event → Stage B.Buffer → Type 0
  IsSmooth [] s = Unit
  IsSmooth (chunk now_ms pcm ∷ es) s =
      let (a, (s', calls)) = step B g w (chunk now_ms pcm) s in (a ≡ esp_ok) × IsSmooth es s'
  IsSmooth (drained o ∷ es) s =
      let (a, (s', calls)) = step B g w (drained o) s in (o.open_ok ≡ true) × IsSmooth es s'
  IsSmooth (gap ∷ es) s = true ≡ false
  IsSmooth (flushed ∷ es) s = true ≡ false
  IsSmooth (mute m ∷ es) s = true ≡ false

  -- A chunk that finds room.
  chunk-heard :
      (now_ms : ℕ) (pcm : List ℕ) (s : Stage B.Buffer)
      → IsWhole B g w s
      → IsClear s.player s.drain
      → (step B g w (chunk now_ms pcm) s).0 ≡ esp_ok
      → let s' = (step B g w (chunk now_ms pcm) s).1.0 in
        (B.contents s'.queue ++ pending s'.player ≡ B.contents s.queue ++ (pending s.player ++ pcm))
        × IsClear s'.player s'.drain
  unfolding step
  chunk-heard now_ms pcm s v k ok =
      let p = s.player in
      let r = play B now_ms pcm (some s.queue) p in
      let (b', (is, a)) = play-IsAccepted B now_ms pcm s.queue p v.words k.no_mute in
      let same = after_gap-none p k.no_gap in
      let xs : List ℕ = (if p.gap then [] else pending p) ++ pcm in
      let all : xs ≡ pending p ++ pcm = ap (λ f. (if f then [] else pending p) ++ pcm) k.no_gap in
      let whole = even_part (length xs) in
      let n = min (even_part (B.spaces s.queue)) whole in
      let full : n ≡ whole = all_queued n whole r.0 (omega arith) a.1.answer ok in
      (
        ap (λ o. B.contents (or_else o s.queue) ++ pending r.1.1) is
            ∙ ap (λ l. l ++ pending r.1.1) (a.0 ∙ ap (λ k. B.contents s.queue ++ take k xs) full)
            ∙ ap (λ l. (B.contents s.queue ++ take whole xs) ++ l) a.1.waiting
            ∙ append_assoc (B.contents s.queue) (take whole xs) (drop whole xs)
            ∙ ap (λ l. B.contents s.queue ++ l) (take-append-drop whole xs ∙ all),
        record {
          no_gap = a.1.same_gap ∙ ap (λ q. q.gap) same ∙ k.no_gap;
          no_mute = a.1.same_mute ∙ ap (λ q. q.muted) same ∙ k.no_mute;
          no_flush = a.1.same_flush ∙ ap (λ q. q.flush_pending) same ∙ k.no_flush;
          no_failure = k.no_failure;
        },
      )

  -- A pass.
  drained-heard :
      (o : Outside) (s : Stage B.Buffer)
      → IsWhole B g w s
      → IsClear s.player s.drain
      → o.open_ok ≡ true
      → let (a, (s', calls)) = step B g w (drained o) s in
        (B.contents s'.queue ≡ drop chunk_mono (B.contents s.queue))
        × ((pending s'.player ≡ pending s.player)
            × (IsClear s'.player s'.drain
                × (spoken calls ≡ stereo g (samples_of (take chunk_mono (B.contents s.queue))))))
  unfolding step
  drained-heard o s v k ok =
      let o' : Outside = record o { flush_pending = s.player.flush_pending } in
      let (c, (f, q)) = pass-spoken B g w o' s.queue s.drain v.no_half ok k.no_flush k.no_failure in
      (
        c,
        (
          refl,
          (record { no_gap = k.no_gap; no_mute = k.no_mute; no_flush = refl; no_failure = f }, q),
        ),
      )

  chunk_silent :
      (now_ms : ℕ) (pcm : List ℕ) (s : Stage B.Buffer)
      → spoken (step B g w (chunk now_ms pcm) s).1.1 ≡ []
  unfolding step
  chunk_silent now_ms pcm s = refl

  -- A stretch of the agent's speech, from a buffer of whole samples and none held over by the task:
  -- if every chunk finds room and the speaker opens whenever it is asked to, with no gap, mute or
  -- flush, then however it is cut into chunks, and whatever chimes and tones are played between
  -- them, the samples written to the codec and then those still queued are those of the bytes that
  -- were queued, the odd one that waited, and those that came in, in order and each once.
  pub heard_lem :
      (es : List Event) (s : Stage B.Buffer)
      → IsWhole B g w s
      → IsClear s.player s.drain
      → IsSmooth es s
      → heard es s ++ stereo g (samples_of (B.contents (run B g w es s).queue))
        ≡ stereo g (samples_of (B.contents s.queue ++ (pending s.player ++ fed es)))
  unfolding heard run
  heard_lem [] s v k h =
      let c = B.contents s.queue in
      ap (stereo g) (
        sym (append-nil (samples_of c))
        ∙ ap (λ l. samples_of c ++ l) (sym (pending_sample s.player))
        ∙ sym (samples_of-append c (pending s.player ++ []) v.even))
  heard_lem (chunk now_ms pcm ∷ es) s v k (ok, h) =
      let s' = (step B g w (chunk now_ms pcm) s).1.0 in
      let (c, k') = chunk-heard now_ms pcm s v k ok in
      let rest = heard_lem es s' (step-IsWhole B g w (chunk now_ms pcm) s v) k' h in
      ap (λ l. (l ++ heard es s') ++ stereo g (samples_of (B.contents (run B g w es s').queue)))
        (chunk_silent now_ms pcm s)
      ∙ rest
      ∙ ap (λ l. stereo g (samples_of l))
          (sym (append_assoc (B.contents s'.queue) (pending s'.player) (fed es))
            ∙ ap (λ l. l ++ fed es) c
            ∙ append_assoc (B.contents s.queue) (pending s.player ++ pcm) (fed es)
            ∙ ap (λ l. B.contents s.queue ++ l) (append_assoc (pending s.player) pcm (fed es)))
  heard_lem (drained o ∷ es) s v k (ok, h) =
      let s' = (step B g w (drained o) s).1.0 in
      let calls = (step B g w (drained o) s).1.1 in
      let (c, (p, (k', q))) = drained-heard o s v k ok in
      let rest = heard_lem es s' (step-IsWhole B g w (drained o) s v) k' h in
      let more = pending s.player ++ fed es in
      let now = take chunk_mono (B.contents s.queue) in
      let later = drop chunk_mono (B.contents s.queue) in
      let len : length now % 2 ≡ 0 =
        omega (arith, length-take chunk_mono (B.contents s.queue), v.even) in
      append_assoc (spoken calls) (heard es s')
        (stereo g (samples_of (B.contents (run B g w es s').queue)))
      ∙ ap (λ l. spoken calls ++ l) rest
      ∙ ap (λ l. l ++ stereo g (samples_of (B.contents s'.queue ++ (pending s'.player ++ fed es))))
          q
      ∙ (λ i. stereo g (samples_of now) ++ stereo g (samples_of (c i ++ (p i ++ fed es))))
      ∙ sym (stereo-append g (samples_of now) (samples_of (later ++ more)))
      ∙ ap (stereo g) (sym (samples_of-append now (later ++ more) len))
      ∙ ap (λ l. stereo g (samples_of l))
          (sym (append_assoc now later more)
            ∙ ap (λ l. l ++ more) (take-append-drop chunk_mono (B.contents s.queue)))
  heard_lem (gap ∷ es) s v k h = cc h
  heard_lem (flushed ∷ es) s v k h = cc h
  heard_lem (mute m ∷ es) s v k h = cc h
