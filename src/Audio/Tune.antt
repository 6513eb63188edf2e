-- ===== src/Audio/Tune.antt =====
-- The chime and the tones of main/audio_io.c. A tone is asked for by one word: a sequence number,
-- the milliseconds and the pitch. The floating-point waves are an argument.
use esp32_deepgram_voice_age.Common.{
  ℕ, zero, suc, ◌+◌, ◌*◌, ◌/◌, ◌^◌, bit_and, bit_or, List, [], ◌∷◌, ltb, leb, ◌==◌, if◌then◌else◌,
  u8, u32, sub32, add32,
}

abbrev pub tone_field : ℕ
tone_field = 4095

-- `audio_io_tone`: its `seq`, and s_tone_req.
unfoldable pub tone : ℕ → ℕ → ℕ → ℕ × ℕ
tone hz ms seq =
    let next = u8 (seq + 1) in
    let seq' = if next == 0 then 1 else next in
    let hz' = if ltb tone_field hz then tone_field else hz in
    let ms' = if ltb tone_field ms then tone_field else ms in
    (seq', bit_or (bit_or (u32 (seq' * 2 ^ 24)) (u32 (ms' * 2 ^ 12))) hz')

-- The playback task's tone: `hz` stands for the float of that number.
pub record Tone : Type 0 where
  pub seen : ℕ
  pub hz : ℕ
  pub pos : ℕ
  pub len : ℕ

-- The request that the playback task has not seen yet.
unfoldable pub take_request : ℕ → ℕ → Tone → Tone
take_request rate req t = if req / 2 ^ 24 == t.seen then t else record {
  seen = req / 2 ^ 24;
  hz = bit_and req tone_field;
  pos = 0;
  len = u32 (rate * bit_and (req / 2 ^ 12) tone_field) / 1000;
}

-- The sample of a note of so many Hz, at a place of its length; and of the agreed peak.
pub record Waves : Type 0 where
  pub chime_note : ℕ → ℕ → ℕ → ℕ
  pub tone_note : ℕ → ℕ → ℕ → ℕ

-- One sample of `chime_fill`: silence behind the two notes.
unfoldable pub chime_sample : Waves → ℕ → ℕ → ℕ
chime_sample w rate p =
    let n1 = u32 (rate * 160) / 1000 in
    let n2 = u32 (rate * 320) / 1000 in
    if ltb p n1
    then w.chime_note 880 p n1
    else if ltb p (add32 n1 n2)
    then (if ltb 0 n2 then w.chime_note 660 (sub32 p n1) n2 else 0)
    else 0

unfoldable pub chime_fill : Waves → ℕ → ℕ → ℕ → List ℕ × ℕ
chime_fill w rate zero pos = ([], pos)
chime_fill w rate (suc n) pos =
    let cycle = u32 (rate * 1100) / 1000 in
    let next = if leb cycle (pos + 1) then 0 else pos + 1 in
    let (out, pos') = chime_fill w rate n next in (chime_sample w rate pos ∷ out, pos')

unfoldable pub tone_fill : Waves → ℕ → Tone → List ℕ × ℕ
tone_fill w zero t = ([], t.pos)
tone_fill w (suc n) t =
    let t' = if ltb t.pos t.len then record t { pos = t.pos + 1 } else t in
    let v = if ltb t.pos t.len then w.tone_note t.hz t.pos t.len else 0 in
    let (out, pos) = tone_fill w n t' in (v ∷ out, pos)
