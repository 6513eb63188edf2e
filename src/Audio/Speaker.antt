-- ===== src/Audio/Speaker.antt =====
-- The speaker and its amplifier in main/audio_io.c: closed in deep idle, reopened before a sound.
-- The codec and the pin are calls; whether the codec opens is an answer, and a time is what now_ms
-- reads.
use esp32_deepgram_voice_age.Common.{
  ℕ, bit_or, Bool, true, false, not, ◌&&◌, List, [], ◌∷◌, ltb, leb, ◌==◌, if◌then◌else◌, sub32,
}

-- CONFIG_AUDIO_PA_IDLE_OFF_MS (0 for never), the sample rate, and CONFIG_AEC_ENABLE.
pub record Build : Type 0 where
  pub idle_off_ms : ℕ
  pub rate : ℕ
  pub aec : Bool

-- What sounds: the agent's speech, or the chime and the tones.
pub data Sound : Type 0 where
  speech tune : Sound

-- `write` is esp_codec_dev_write; `amplifier` sets the pin, `settle` waits for it.
pub data Call : Type 0 where
  codec_open codec_close settle backoff : Call
  set_out_vol : ℕ → Call
  amplifier : Bool → Call
  tap write : Sound → List ℕ → Call

-- s_spk_closed, s_busy_logged, s_pa_on, s_play_write_ms, s_tone_write_ms and s_reopen_failed_ms.
pub record Speaker : Type 0 where
  pub closed : Bool
  pub busy_logged : Bool
  pub pa_is_on : Bool
  pub play_write_ms : ℕ
  pub tone_write_ms : ℕ
  pub reopen_failed_ms : ℕ

abbrev pub spk_reopen_retry_ms : ℕ
spk_reopen_retry_ms = 500

-- s_mic_is_open comes from the capture task.
unfoldable pub spk_close_if_idle : Build → Bool → Speaker → Speaker × List Call
spk_close_if_idle g mic_is_open s =
    if s.closed then (s, []) else if mic_is_open then (record s { busy_logged = true }, []) else (
      record s {
        closed = true;
        busy_logged = false;
        pa_is_on = (if ltb 0 g.idle_off_ms then false else s.pa_is_on);
      },
      codec_close ∷ [],
    )

unfoldable pub spk_reopen : Build → ℕ → Bool → ℕ → Speaker → Bool × (Speaker × List Call)
spk_reopen g now_ms open_ok volume s =
    if not s.closed
    then (true, (s, []))
    else if not (s.reopen_failed_ms == 0)
        && ltb (sub32 now_ms s.reopen_failed_ms) spk_reopen_retry_ms
    then (false, (s, []))
    else if not open_ok
    then (false, (record s { reopen_failed_ms = bit_or now_ms 1 }, codec_open ∷ []))
    else (
      true,
      (
        record s {
          reopen_failed_ms = 0;
          closed = false;
          pa_is_on = (if ltb 0 g.idle_off_ms then true else s.pa_is_on);
          play_write_ms = now_ms;
        },
        codec_open ∷ set_out_vol volume ∷ [],
      ),
    )

unfoldable pub pa_on : Build → Speaker → Speaker × List Call
pa_on g s =
    if ltb 0 g.idle_off_ms && not s.pa_is_on
    then (record s { pa_is_on = true }, amplifier true ∷ settle ∷ [])
    else (s, [])

unfoldable pub pa_idle : Build → ℕ → Speaker → Speaker × List Call
pa_idle g now_ms s =
    if ltb 0 g.idle_off_ms
      && (s.pa_is_on
          && (leb g.idle_off_ms (sub32 now_ms s.play_write_ms)
              && leb g.idle_off_ms (sub32 now_ms s.tone_write_ms)))
    then (record s { pa_is_on = false }, amplifier false ∷ [])
    else (s, [])
