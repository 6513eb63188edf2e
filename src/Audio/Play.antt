-- ===== src/Audio/Play.antt =====
-- audio_io_play of main/audio_io.c and the operations beside it: the agent's speech, in chunks that
-- may end within a sample, on its way to the stream buffer. A sample is two bytes. `none` for a
-- buffer is s_ring before audio_io_init.
use esp32_deepgram_voice_age.Common.{
  ℕ, ◌+◌, ◌-◌, ◌*◌, ◌/◌, ◌%◌, Bool, true, false, ◌&&◌, Option, none, some, List, [], ◌∷◌, ltb, leb,
  ◌==◌, if◌then◌else◌, length, get_or, take, sub32, add32,
}
use esp32_deepgram_voice_age.Audio.Buffer.{StreamBuffer}

pub data Err : Type 0 where
  esp_ok esp_invalid_state esp_no_mem : Err

-- s_play_queue_ms, s_in_carry, s_in_carry_valid, s_play_gap, s_play_muted, s_played, s_dropped and
-- s_flush_pending.
pub record Player : Type 0 where
  pub queue_ms : ℕ
  pub in_carry : ℕ
  pub in_carry_valid : Bool
  pub gap : Bool
  pub muted : Bool
  pub played : ℕ
  pub dropped : ℕ
  pub flush_pending : Bool

-- `head[0..head_len)`, and the bytes after the one that completes it.
abbrev pub rejoin : Player → List ℕ → List ℕ × List ℕ
rejoin p [] = ([], [])
rejoin p (b ∷ pcm) = if p.in_carry_valid then (p.in_carry ∷ b ∷ [], pcm) else ([], b ∷ pcm)

-- `len & ~1`.
abbrev pub even_part : ℕ → ℕ
even_part n = 2 * (n / 2)

-- The carry after a chunk of which `rest` is left behind the head.
unfoldable pub carry_over : List ℕ → List ℕ → Player → Player
carry_over head rest p =
    let p' = if 0 == length head then p else record p { in_carry_valid = false } in
    if length rest % 2 == 1
    then record p' { in_carry = get_or rest (even_part (length rest)) 0; in_carry_valid = true }
    else p'

unfoldable pub after_gap : Player → Player
after_gap p = if p.gap then record p { gap = false; in_carry_valid = false } else p

abbrev pub count_played : ℕ → ℕ → Player → Err × Player
count_played sent lost p =
    let p' = record p { played = add32 p.played sent } in
    if ltb 0 lost then (esp_no_mem, record p' { dropped = add32 p.dropped lost }) else (esp_ok, p')

module _ (B : StreamBuffer) where
  -- The head goes in first, whole or not at all; `space` is what is left, in whole samples. What is
  -- sent, what is dropped.
  unfoldable pub send_head : ℕ → List ℕ → B.Buffer → ℕ × (ℕ × (ℕ × B.Buffer))
  send_head space head b =
      if 0 == length head
      then (0, (0, (space, b)))
      else if leb (length head) space
      then (let (n, b') = B.send b head in (n, (0, (space - length head, b'))))
      else (0, (length head, (space, b)))

  unfoldable pub send_body : ℕ → List ℕ → B.Buffer → ℕ × (ℕ × B.Buffer)
  send_body space body b =
      let to_send = if ltb (length body) space then length body else space in
      if 0 == length body
      then (0, (0, b))
      else if 0 == to_send
      then (0, (length body, b))
      else (let (n, b') = B.send b (take to_send body) in (n, (length body - to_send, b')))

  unfoldable pub enqueue : List ℕ → List ℕ → B.Buffer → ℕ × (ℕ × B.Buffer)
  enqueue head body b =
      let (sent, (lost, (space, b'))) = send_head (even_part (B.spaces b)) head b in
      let (sent', (lost', b'')) = send_body space body b' in (sent + sent', (lost + lost', b''))

  -- The chunk in two parts, behind the head's making.
  unfoldable pub play_parts : List ℕ → List ℕ → B.Buffer → Player → Err × (B.Buffer × Player)
  play_parts head rest b p =
      let body = take (even_part (length rest)) rest in
      let p' = carry_over head rest p in
      let (sent, (lost, b')) = enqueue head body b in
      let (e, p'') = count_played sent lost p' in
      if 0 == length head && 0 == length body then (esp_ok, (b, p')) else (e, (b', p''))

  -- Behind the test of the mute.
  unfoldable pub play_unmuted : ℕ → List ℕ → B.Buffer → Player → Err × (B.Buffer × Player)
  play_unmuted now_ms pcm b p =
      let (head, rest) = rejoin p pcm in play_parts head rest b (record p { queue_ms = now_ms })

  -- `audio_io_play`.
  unfoldable pub play : ℕ → List ℕ → Option B.Buffer → Player → Err × (Option B.Buffer × Player)
  play now_ms pcm none p = (esp_invalid_state, (none, p))
  play now_ms pcm (some b) p =
      let p' = after_gap p in
      let (e, (b', p'')) = play_unmuted now_ms pcm b p' in
      if p'.muted then (esp_ok, (some b, p')) else (e, (some b', p''))

  -- `audio_io_flush`: the playback task empties the buffer.
  unfoldable pub flush : Option B.Buffer → Player → Player
  flush none p = p
  flush (some b) p = record p { flush_pending = true; gap = true }

  -- `audio_io_playback_active`, from s_play_write_ms of the playback task.
  unfoldable pub playback_active : ℕ → ℕ → Option B.Buffer → Player → Bool
  playback_active now_ms write_ms none p = false
  playback_active now_ms write_ms (some b) p =
      let since_write = sub32 now_ms write_ms in
      let since_queue = sub32 now_ms p.queue_ms in
      if ltb 0 (length (B.contents b))
      then true
      else if 0 == write_ms && 0 == p.queue_ms
      then false
      else ltb (if ltb since_write since_queue then since_write else since_queue) 300

-- `audio_io_note_stream_gap`.
unfoldable pub note_stream_gap : Player → Player
note_stream_gap p = record p { gap = true }

-- `audio_io_mute_playback`.
unfoldable pub mute_playback : Bool → Player → Player
mute_playback muted p =
    let p' = record p { muted = muted } in if muted then record p' { gap = true } else p'

-- `audio_io_reset`, less s_captured.
unfoldable pub reset : Player → Player
reset p = record p {
  in_carry_valid = false;
  in_carry = 0;
  gap = false;
  muted = false;
  played = 0;
  dropped = 0;
}
