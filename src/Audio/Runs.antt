-- ===== src/Audio/Runs.antt =====
-- Chunks, gaps, mutes and flushes of the agent's speech, and the passes of the playback task
-- between them (main/audio_io.c).
use esp32_deepgram_voice_age.Common.{
  ℕ, ◌+◌, ◌%◌, min, ◌≡◌, refl, sym, ap, ◌∙◌, subst, inl, inr, Bool, true, false, Option, none, some,
  List, [], ◌∷◌, ◌++◌, arith, if◌then◌else◌, Bool-cases, length, take, length-append,
}
use esp32_deepgram_voice_age.Common.Cuts.{length-take}
use esp32_deepgram_voice_age.Audio.Buffer.{StreamBuffer}
use esp32_deepgram_voice_age.Audio.Play.{
  Err, esp_ok, Player, even_part, after_gap, play_unmuted, play, flush, note_stream_gap,
  mute_playback,
}
use esp32_deepgram_voice_age.Audio.Carry.{pending, HasWords}
use esp32_deepgram_voice_age.Audio.Stream.{IsAccepted, play-IsAccepted}
use esp32_deepgram_voice_age.Audio.Speaker.{Build, Call}
use esp32_deepgram_voice_age.Audio.Tune.{Waves}
use esp32_deepgram_voice_age.Audio.Drain.{Drain, Outside, pass}
use esp32_deepgram_voice_age.Audio.Whole.{pass-whole}

pub data Event : Type 0 where
  chunk : ℕ → List ℕ → Event
  gap flushed : Event
  mute : Bool → Event
  drained : Outside → Event

pub record Stage (Buffer : Type 0) : Type 0 where
  pub queue : Buffer
  pub player : Player
  pub drain : Drain

abbrev pub or_else {ℓ} : {A : Type ℓ} → Option A → A → A
or_else none a = a
or_else (some a) _ = a

after_gap-kept :
    (p : Player)
    → ((after_gap p).muted ≡ p.muted)
      × (((after_gap p).played ≡ p.played) × ((after_gap p).dropped ≡ p.dropped))
unfolding after_gap
after_gap-kept p = elim (Bool-cases p.gap) [
  | inl e ↦ rw e (refl, (refl, refl))
  | inr e ↦ rw e (refl, (refl, refl))
]

after_gap-words : (p : Player) → HasWords p → HasWords (after_gap p)
after_gap-words p v =
    let (m, (a, b)) = after_gap-kept p in
    record {
      played_word = omega (arith, a, v.played_word);
      dropped_word = omega (arith, b, v.dropped_word);
    }

-- A muted chunk is answered as if it had been played.
play-muted :
    (B : StreamBuffer) (now_ms : ℕ) (pcm : List ℕ) (b : B.Buffer) (p : Player)
    → p.muted ≡ true
    → play B now_ms pcm (some b) p ≡ (esp_ok, (some b, after_gap p))
unfolding play
play-muted B now_ms pcm b p m =
    let r : Err × (B.Buffer × Player) = play_unmuted B now_ms pcm b (after_gap p) in
    let t : Bool → Err × (Option B.Buffer × Player) =
      λ k. if k then (esp_ok, (some b, after_gap p)) else (r.0, (some r.1.0, r.1.1)) in
    ap t ((after_gap-kept p).0 ∙ m)

flags-words : (p q : Player) → HasWords p → q.played ≡ p.played → q.dropped ≡ p.dropped → HasWords q
flags-words p q v a b = record {
  played_word = omega (arith, a, v.played_word);
  dropped_word = omega (arith, b, v.dropped_word);
}

mute_playback-kept :
    (m : Bool) (p : Player)
    → ((mute_playback m p).played ≡ p.played) × ((mute_playback m p).dropped ≡ p.dropped)
unfolding mute_playback
mute_playback-kept true p = (refl, refl)
mute_playback-kept false p = (refl, refl)

module _ (B : StreamBuffer) (g : Build) (w : Waves) where
  -- The answer to a chunk, and the calls of a pass.
  unfoldable pub step : Event → Stage B.Buffer → Err × (Stage B.Buffer × List Call)
  step (chunk now_ms pcm) s =
      let (e, (o, p)) = play B now_ms pcm (some s.queue) s.player in
      (e, (record s { queue = or_else o s.queue; player = p }, []))
  step gap s = (esp_ok, (record s { player = note_stream_gap s.player }, []))
  step flushed s = (esp_ok, (record s { player = flush B (some s.queue) s.player }, []))
  step (mute m) s = (esp_ok, (record s { player = mute_playback m s.player }, []))
  step (drained o) s =
      let ((b, d), calls) =
        pass B g w (record o { flush_pending = s.player.flush_pending }) s.queue s.drain in
      (
        esp_ok,
        (
          record s { queue = b; player = record s.player { flush_pending = false }; drain = d },
          calls,
        ),
      )

  unfoldable pub run : List Event → Stage B.Buffer → Stage B.Buffer
  run [] s = s
  run (e ∷ es) s = run es (step e s).1.0

  -- The buffer holds whole samples, and the task holds no half of one over.
  pub record IsWhole (s : Stage B.Buffer) : Type 0 where
    pub even : length (B.contents s.queue) % 2 ≡ 0
    pub no_half : s.drain.carry_valid ≡ false
    pub words : HasWords s.player

  accepted-IsWhole :
      (xs : List ℕ) (b b' : B.Buffer) (p q : Player) (e : Err) (d : Drain)
      → length (B.contents b) % 2 ≡ 0
      → d.carry_valid ≡ false
      → IsAccepted B xs b p (e, (b', q))
      → IsWhole (record { queue = b'; player = q; drain = d })
  accepted-IsWhole xs b b' p q e d h c (m, s) =
      let n = min (even_part (B.spaces b)) (even_part (length xs)) in
      let len : length (B.contents b') ≡ length (B.contents b) + length (take n xs) =
        ap length m ∙ length-append (B.contents b) (take n xs) in
      let cut = length-take n xs in
      record {
        even = omega (arith, h, len, cut);
        no_half = c;
        words = record {
          played_word = omega (arith, s.played_is);
          dropped_word = omega (arith, s.dropped_is);
        };
      }

  chunk-IsWhole :
      (now_ms : ℕ) (pcm : List ℕ) (s : Stage B.Buffer)
      → IsWhole s
      → let (e, (o, q)) = play B now_ms pcm (some s.queue) s.player in
        IsWhole (record { queue = or_else o s.queue; player = q; drain = s.drain })
  chunk-IsWhole now_ms pcm s v = elim (Bool-cases s.player.muted) [
    | inl m ↦
        subst
          (λ r. IsWhole (record { queue = or_else r.1.0 s.queue; player = r.1.1; drain = s.drain }))
          (sym (play-muted B now_ms pcm s.queue s.player m))
          (record { even = v.even; no_half = v.no_half; words = after_gap-words s.player v.words })
    | inr m ↦
        let r = play B now_ms pcm (some s.queue) s.player in
        let (b', (is, a)) = play-IsAccepted B now_ms pcm s.queue s.player v.words m in
        subst (λ o. IsWhole (record { queue = or_else o s.queue; player = r.1.1; drain = s.drain }))
          (sym is)
          (accepted-IsWhole ((if s.player.gap then [] else pending s.player) ++ pcm) s.queue b'
            (after_gap s.player) r.1.1 r.0 s.drain v.even v.no_half a)
  ]

  pub step-IsWhole : (e : Event) (s : Stage B.Buffer) → IsWhole s → IsWhole (step e s).1.0
  unfolding step note_stream_gap flush
  step-IsWhole (chunk now_ms pcm) s v = chunk-IsWhole now_ms pcm s v
  step-IsWhole gap s v = record {
    even = v.even;
    no_half = v.no_half;
    words = flags-words s.player (note_stream_gap s.player) v.words refl refl;
  }
  step-IsWhole flushed s v = record {
    even = v.even;
    no_half = v.no_half;
    words = flags-words s.player (flush B (some s.queue) s.player) v.words refl refl;
  }
  step-IsWhole (mute m) s v =
      let (a, b) = mute_playback-kept m s.player in
      record {
        even = v.even;
        no_half = v.no_half;
        words = flags-words s.player (mute_playback m s.player) v.words a b;
      }
  step-IsWhole (drained o) s v =
      let o' : Outside = record o { flush_pending = s.player.flush_pending } in
      let (e, c) = pass-whole B g w o' s.queue s.drain v.even v.no_half in
      record {
        even = e;
        no_half = c;
        words = record { played_word = v.words.played_word; dropped_word = v.words.dropped_word };
      }

  -- Through any chunks, gaps, mutes, flushes and passes of the playback task, however the chunks
  -- are cut, however much finds no room and whether the speaker opens or not: if the buffer holds
  -- whole samples, the task no half of one and the counts are 32-bit words, this is so ever after.
  pub run-IsWhole : (es : List Event) (s : Stage B.Buffer) → IsWhole s → IsWhole (run es s)
  unfolding run
  run-IsWhole [] s v = v
  run-IsWhole (e ∷ es) s v = run-IsWhole es (step e s).1.0 (step-IsWhole e s v)
