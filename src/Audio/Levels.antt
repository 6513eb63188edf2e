-- ===== src/Audio/Levels.antt =====
-- The speaker's volume and the microphone's gain in main/audio_io.c: set live from the screen,
-- saved to non-volatile storage when the finger lifts. CONFIG_MIC_GAIN_TOOL is built in.
use esp32_deepgram_voice_age.Common.{
  ℕ, suc, ◌*◌, ◌/◌, Bool, true, false, not, ◌&&◌, Option, none, some, leb, ◌==◌, if◌then◌else◌, u8,
}
use esp32_deepgram_voice_age.Common.Int.{ℤ, pos, negsuc, pos_part, neg_part, sub_ℕ, ◌+ℤ◌, ltb_ℤ}

-- What is saved under out_volume and mic_gain; `none` for no entry.
pub record Saved : Type 0 where
  pub out_volume : Option ℕ
  pub mic_gain : Option ℕ

-- s_volume, s_volume_dirty, s_mic_gain_want, s_mic_gain_dirty.
pub record Levels : Type 0 where
  pub volume : ℕ
  pub volume_dirty : Bool
  pub gain_want : ℕ
  pub gain_dirty : Bool

abbrev pub volume_min : ℕ
volume_min = 20

abbrev pub volume_max : ℕ
volume_max = 100

unfoldable pub volume_clamp : ℤ → ℕ
volume_clamp level =
    if ltb_ℤ level (pos volume_min)
    then volume_min
    else if ltb_ℤ (pos volume_max) level
    then volume_max
    else pos_part level

-- CONFIG_AUDIO_OUT_VOLUME where nothing can be read.
unfoldable pub volume_load : ℕ → Saved → ℕ
volume_load default f = elim f.out_volume [
  | none ↦ volume_clamp (pos default)
  | some v ↦ volume_clamp (pos v)
]

-- Whether the storage took it.
unfoldable pub volume_save : Bool → ℕ → Saved → Saved
volume_save ok level f = if ok then record f { out_volume = some (u8 level) } else f

unfoldable pub mic_gain_load : ℕ → Saved → ℕ
mic_gain_load default f = elim f.mic_gain [
  | none ↦ default
  | some g ↦ if leb 6 g && leb g 30 then g else default
]

unfoldable pub mic_gain_save : Bool → ℕ → Levels × Saved → Levels × Saved
mic_gain_save ok g (s, f) =
    (record s { gain_dirty = false }, (if ok then record f { mic_gain = some (u8 g) } else f))

-- `/` of C rounds towards zero.
abbrev quotient : ℤ → ℕ → ℤ
quotient (pos n) d = pos (n / d)
quotient (negsuc n) d = sub_ℕ 0 (suc n / d)

-- A multiple of 3 dB, near what was asked for, from 6 to 30.
unfoldable pub gain_of : ℤ → ℕ
gain_of requested_db =
    let q = quotient (requested_db +ℤ pos 1) 3 in
    let g : ℤ = sub_ℕ (pos_part q * 3) (neg_part q * 3) in
    if ltb_ℤ g (pos 6) then 6 else if ltb_ℤ (pos 30) g then 30 else pos_part g

unfoldable pub set_mic_gain_live : ℤ → Levels → ℕ × Levels
set_mic_gain_live requested_db s =
    let g = gain_of requested_db in
    if g == s.gain_want then (g, s) else (g, record s { gain_want = g; gain_dirty = true })

unfoldable pub set_mic_gain : Bool → ℤ → Levels × Saved → ℕ × (Levels × Saved)
set_mic_gain ok requested_db (s, f) =
    let (g, s') = set_mic_gain_live requested_db s in (g, mic_gain_save ok g (s', f))

-- `codec_ok` is the answer of esp_codec_dev_set_out_vol.
unfoldable pub set_volume_live : Bool → ℤ → Levels → ℕ × Levels
set_volume_live codec_ok requested s =
    let level = volume_clamp requested in
    if level == s.volume
    then (s.volume, s)
    else if not codec_ok
    then (s.volume, s)
    else (level, record s { volume = level; volume_dirty = true })

unfoldable pub set_volume : Bool → Bool → ℤ → Levels × Saved → ℕ × (Levels × Saved)
set_volume codec_ok ok requested (s, f) =
    let (level, s') = set_volume_live codec_ok requested s in
    if level == s.volume
    then (level, (s', f))
    else (level, (record s' { volume_dirty = false }, volume_save ok level f))

unfoldable pub adjust_volume : Bool → Bool → ℤ → Levels × Saved → ℕ × (Levels × Saved)
adjust_volume codec_ok ok delta (s, f) = set_volume codec_ok ok (pos s.volume +ℤ delta) (s, f)

-- The two parts of `audio_io_settings_persist`; the second one has read its flag before the first.
unfoldable pub persist_volume : Bool → Levels × Saved → Levels × Saved
persist_volume ok (s, f) =
    if s.volume_dirty
    then (record s { volume_dirty = false }, volume_save ok s.volume f)
    else (s, f)

unfoldable pub settings_persist : Bool → Bool → Levels × Saved → Levels × Saved
settings_persist ok ok' (s, f) =
    let (s', f') = persist_volume ok (s, f) in
    if s.gain_dirty then mic_gain_save ok' s'.gain_want (s', f') else (s', f')

-- What audio_io_init takes from storage, with CONFIG_AUDIO_OUT_VOLUME and CONFIG_MIC_IN_GAIN.
unfoldable pub levels_init : ℕ → ℕ → Saved → Levels
levels_init default default_db f = record {
  volume = volume_load default f;
  volume_dirty = false;
  gain_want = mic_gain_load default_db f;
  gain_dirty = false;
}
