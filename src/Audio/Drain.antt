-- ===== src/Audio/Drain.antt =====
-- playback_task of main/audio_io.c: one pass of its loop. Within a pass the flags that other tasks
-- set and the bytes that wait are read once; the clock is read before the wait for bytes and after
-- it.
use esp32_deepgram_voice_age.Common.{
  ℕ, zero, suc, ◌+◌, ◌-◌, ◌*◌, ◌/◌, ◌%◌, Bool, true, false, not, ◌&&◌, ◌||◌, List, [], ◌∷◌, ◌++◌,
  ltb, ◌==◌, if◌then◌else◌, length, get_or, u32,
}
use esp32_deepgram_voice_age.Audio.Buffer.{StreamBuffer}
use esp32_deepgram_voice_age.Audio.Speaker.{
  Build, Sound, speech, tune, Call, backoff, tap, write, Speaker, spk_close_if_idle, spk_reopen,
  pa_on, pa_idle,
}
use esp32_deepgram_voice_age.Audio.Tune.{Tone, take_request, Waves, chime_fill, tone_fill}

abbrev pub chunk_mono : ℕ
chunk_mono = 1024

-- The task's own variables, and the speaker.
pub record Drain : Type 0 where
  pub carry : ℕ
  pub carry_valid : Bool
  pub chiming : Bool
  pub chime_pos : ℕ
  pub current : Tone
  pub speaker : Speaker

-- s_chime_on, s_tone_req, s_deep_idle_want, s_flush_pending, s_mic_is_open and s_volume, the
-- codec's answer, and the times.
pub record Outside : Type 0 where
  pub chime_on : Bool
  pub tone_req : ℕ
  pub deep_idle_want : Bool
  pub flush_pending : Bool
  pub mic_is_open : Bool
  pub volume : ℕ
  pub open_ok : Bool
  pub before_ms : ℕ
  pub after_ms : ℕ

-- Samples of two bytes, the low one first.
abbrev pub samples_of : List ℕ → List ℕ
samples_of [] = []
samples_of (lo ∷ []) = []
samples_of (lo ∷ hi ∷ bytes) = (lo + 256 * hi) ∷ samples_of bytes

-- Both channels, in 32 bits with the echo canceller.
unfoldable pub stereo : Build → List ℕ → List ℕ
stereo g [] = []
stereo g (v ∷ vs) = let w = if g.aec then u32 (v * 65536) else v in w ∷ w ∷ stereo g vs

-- Deep idle closes the speaker, its end reopens it.
unfoldable pub attend : Build → Bool → Bool → Outside → Speaker → Speaker × List Call
attend g sounding is_empty o s =
    if o.deep_idle_want && (not sounding && (not o.flush_pending && is_empty))
    then spk_close_if_idle g o.mic_is_open s
    else if not o.deep_idle_want
    then (spk_reopen g o.before_ms o.open_ok o.volume s).1
    else (s, [])

-- Samples to the speaker, if it opens; whether they went.
unfoldable pub sound : Build → Outside → Sound → List ℕ → Speaker → Bool × (Speaker × List Call)
sound g o kind samples s =
    let (opened, (s', calls)) = spk_reopen g o.after_ms o.open_ok o.volume s in
    let (s'', calls') = pa_on g s' in
    if not opened
    then (false, (s', calls ++ backoff ∷ []))
    else (true, (s'', calls ++ (calls' ++ tap kind samples ∷ write kind (stereo g samples) ∷ [])))

-- The pass of a chime or a tone, of a quarter of the chunk.
unfoldable pub tune_pass : Build → Waves → Outside → Bool → Drain → Drain × List Call
tune_pass g w o chime d =
    let n = chunk_mono / 2 / 2 in
    let (out, pos) = if chime then chime_fill w g.rate n d.chime_pos else tone_fill w n d.current in
    let d' =
      if chime
      then record d { chime_pos = pos }
      else record d { current = record d.current { pos = pos } } in
    let (went, (s, calls)) = sound g o tune out d.speaker in
    let s' =
      if not went
      then s
      else if chime
      then record s { play_write_ms = o.after_ms }
      else record s { tone_write_ms = o.after_ms } in
    (record d' { speaker = s' }, calls)

-- The pass of the agent's bytes, of which the last may be half a sample.
unfoldable pub speech_pass : Build → Outside → List ℕ → Drain → Drain × List Call
speech_pass g o bytes d =
    let last = get_or bytes (length bytes - 1) 0 in
    let odd = length bytes % 2 == 1 in
    let d' =
      if odd
      then record d { carry = last; carry_valid = true }
      else record d { carry_valid = false } in
    let (went, (s, calls)) = sound g o speech (samples_of bytes) d.speaker in
    let s' = if went then record s { play_write_ms = o.after_ms } else s in
    if ltb (length bytes) 2
    then (
      (if odd
          then record d { carry = get_or bytes 0 0; carry_valid = true }
          else record d { carry_valid = false }),
      [],
    )
    else (record d' { speaker = s' }, calls)

-- The chime and tones go on while no bytes come; a flush goes before bytes.
pub data Work : Type 0 where
  sounds empties speaks : Work

unfoldable pub work_of : Bool → Bool → List ℕ → Work
work_of sounding flush_pending got =
    if sounding && (0 == length got && not flush_pending)
    then sounds
    else if flush_pending
    then empties
    else speaks

abbrev pub joined : Drain → List ℕ → List ℕ
joined d got = if d.carry_valid then d.carry ∷ got else got

-- The pass up to its work: a new request, deep idle, the start or end of the chime, and speech that
-- cuts a tone short. Whether something sounds.
unfoldable pub before_work : Build → Outside → Bool → List ℕ → Drain → (Bool × Drain) × List Call
before_work g o is_empty got d =
    let now = take_request g.rate o.tone_req d.current in
    let chime = o.chime_on in
    let tone = not chime && ltb now.pos now.len in
    let (s, calls) = attend g (chime || tone) is_empty o d.speaker in
    let changed = not ((if chime then 1 else 0) == (if d.chiming then 1 else 0)) in
    let cut = tone && ltb 0 (length got) in
    (
      (
        chime || tone,
        record d {
          chiming = chime;
          chime_pos = (if changed then 0 else d.chime_pos);
          current = (if cut then record now { len = 0 } else now);
          speaker = s;
        },
      ),
      calls,
    )

module _ (B : StreamBuffer) where
  -- The flush: bytes are read, 128 at a time, until there are none; `fuel` is one for each byte.
  unfoldable pub empty_buffer : ℕ → B.Buffer → B.Buffer
  empty_buffer zero b = b
  empty_buffer (suc fuel) b =
      let (got, b') = B.receive b 128 in
      let rest = empty_buffer fuel b' in if 0 == length got then b' else rest

  -- What the task does, by its work: `bytes` are those received behind the half sample held over.
  unfoldable pub do_work :
      Build
      → Waves
      → Outside
      → Bool
      → Bool
      → List ℕ
      → B.Buffer
      → Drain
      → Work
      → (B.Buffer × Drain) × List Call
  do_work g w o chime idle bytes b d sounds =
      let (d', calls) = tune_pass g w o chime d in ((b, d'), calls)
  do_work g w o chime idle bytes b d empties =
      ((empty_buffer (length (B.contents b)) b, record d { carry_valid = false }), [])
  do_work g w o chime idle bytes b d speaks =
      let (s, calls) = if idle then pa_idle g o.after_ms d.speaker else (d.speaker, []) in
      let (d', calls') = speech_pass g o bytes (record d { speaker = s }) in
      ((b, d'), calls ++ calls')

  -- One pass; a pending flush is carried out in it.
  unfoldable pub pass : Build → Waves → Outside → B.Buffer → Drain → (B.Buffer × Drain) × List Call
  pass g w o b d =
      let (got, b') = B.receive b (chunk_mono - (if d.carry_valid then 1 else 0)) in
      let ((sounding, d'), calls) = before_work g o (0 == length (B.contents b)) got d in
      let (r, calls') =
        do_work g w o o.chime_on (not sounding && 0 == length got) (joined d got) b' d'
          (work_of sounding o.flush_pending got) in
      (r, calls ++ calls')
