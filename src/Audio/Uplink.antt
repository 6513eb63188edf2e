-- ===== src/Audio/Uplink.antt =====
-- What of the microphone goes up: capture_task of main/audio_io.c, one pass of its loop, and the
-- holds on the uplink. The echo canceller, the noise suppressor, the full-duplex uplink and its
-- voice gate are built in, and CONFIG_AUDIO_CAPTURE_ALWAYS is not. The canceller's block is an
-- argument, with the peaks that the pass measures on it; the sink and the tap are set, and
-- `set_in_gain` stands for the gains of both channels. Within a pass, what other tasks set is read
-- once.
use esp32_deepgram_voice_age.Common.{
  ℕ, ◌+◌, ◌-◌, ◌*◌, ◌/◌, bit_and, bit_or, Bool, true, false, not, ◌&&◌, ◌||◌, List, [], ◌∷◌, ◌++◌,
  ltb, leb, ◌==◌, if◌then◌else◌, length, add32,
}
use esp32_deepgram_voice_age.Audio.Denoise.{Engine, Staging, denoise_block}

-- `audio_io_uplink_hold`, on s_uplink_hold; a holder is one bit.
unfoldable pub uplink_hold : ℕ → Bool → ℕ → ℕ
uplink_hold who hold w = if hold then bit_or w who else bit_and w (4294967295 - who)

-- CONFIG_AEC_UPLINK_VAD_HANGOVER_MS in blocks of `VAD_BLOCK_MS`, and of
-- CONFIG_AEC_FULL_DUPLEX_MAX_VOLUME; CAPTURE_FRAMES of 1024.
pub record Gate : Type 0 where
  pub hangover_ms : ℕ
  pub max_volume : ℕ

abbrev pub vad_block_ms : ℕ
vad_block_ms = 64

unfoldable pub hangover_blocks : Gate → ℕ
hangover_blocks g = (g.hangover_ms + vad_block_ms - 1) / vad_block_ms

-- The flags of other tasks, the answers of the codec, and the block: with its peak after the
-- canceller and the peaks of the raw microphone and of the reference. `aec_on` is that the
-- canceller exists.
pub record Heard : Type 0 where
  pub capture_enabled : Bool
  pub monitor : Bool
  pub held : ℕ
  pub playback_active : Bool
  pub volume : ℕ
  pub gain_want : ℕ
  pub vad_peak : ℕ
  pub open_ok : Bool
  pub read_ok : Bool
  pub aec_on : Bool
  pub ns_on : Bool
  pub ns_run : Bool
  pub block : List ℕ
  pub block_peak : ℕ
  pub raw_peak : ℕ
  pub ref_peak : ℕ

pub data Uplink : Type 0 where
  mic_close mic_open : Uplink
  set_in_gain : ℕ → Uplink
  tapped sent : List ℕ → Uplink

-- mic_open, s_mic_is_open, s_mic_gain, s_aec_warm, s_vad_hold, s_vad_suppressed and s_captured.
pub record Capture (Memory : Type 0) : Type 0 where
  pub is_open : Bool
  pub shared_open : Bool
  pub gain : ℕ
  pub aec_warm : ℕ
  pub vad_hold : ℕ
  pub vad_suppressed : ℕ
  pub captured : ℕ
  pub staging : Staging Memory

abbrev pub aec_warmup_blocks : ℕ
aec_warmup_blocks = 16

abbrev pub aec_warmup_ref_peak : ℕ
aec_warmup_ref_peak = 500

-- The voice gate: whether it is open, s_vad_hold, s_vad_suppressed.
unfoldable pub vad : ℕ → Bool → Bool → ℕ × ℕ → Bool × (ℕ × ℕ)
vad hangover active loud (hold, suppressed) =
    if not active
    then (true, (0, suppressed))
    else if loud
    then (true, (hangover, suppressed))
    else if ltb 0 hold
    then (true, (hold - 1, suppressed))
    else (false, (hold, add32 suppressed 1))

abbrev pub is_loud : Heard → Bool
is_loud h = leb h.vad_peak h.block_peak && not (ltb h.raw_peak h.block_peak)

-- The speaker is too loud for the canceller while the agent speaks.
abbrev pub is_too_loud : Gate → Heard → Bool
is_too_loud g h = h.playback_active && ltb g.max_volume h.volume

module _ {Memory : Type 0} where
  -- The microphone is closed while nobody listens, and opened again; whether the pass goes on.
  unfoldable pub attend_mic : Heard → Capture Memory → Bool × (Capture Memory × List Uplink)
  attend_mic h c =
      if not h.capture_enabled && not h.monitor
      then (if c.is_open
          then (false, (record c { is_open = false; shared_open = false }, mic_close ∷ []))
          else (false, (c, [])))
      else if c.is_open
      then (true, (c, []))
      else if h.open_ok
      then (
        true,
        (record c { is_open = true; shared_open = true }, set_in_gain c.gain ∷ mic_open ∷ []),
      )
      else (false, (record c { shared_open = false }, set_in_gain c.gain ∷ mic_open ∷ []))

  unfoldable pub apply_gain : Heard → Capture Memory → Capture Memory × List Uplink
  apply_gain h c =
      if h.gain_want == c.gain
      then (c, [])
      else (record c { gain = h.gain_want }, set_in_gain h.gain_want ∷ [])

  -- The canceller has adapted once it has heard the reference for long enough.
  unfoldable pub warm_up : Heard → Capture Memory → Capture Memory
  warm_up h c =
      if h.aec_on && (ltb c.aec_warm aec_warmup_blocks && ltb aec_warmup_ref_peak h.ref_peak)
      then record c { aec_warm = c.aec_warm + 1 }
      else c

  -- The canceller is cold while the agent speaks; a block is dropped for either.
  abbrev pub is_cold : Heard → Capture Memory → Bool
  is_cold h c = h.playback_active && (h.aec_on && ltb c.aec_warm aec_warmup_blocks)

  unfoldable pub is_gated : Gate → Heard → Capture Memory → Bool
  is_gated g h c = is_cold h c || is_too_loud g h

module _ (N : Engine) where
  -- A block past those gates: the voice gate, the suppressor, and who gets it.
  unfoldable pub pass_block : Gate → ℕ → Heard → Capture N.Memory → Capture N.Memory × List Uplink
  pass_block g cap h c =
      let (uplink_ok, (hold, suppressed)) =
        vad (hangover_blocks g) h.playback_active (is_loud h) (c.vad_hold, c.vad_suppressed) in
      let (mono, s) = denoise_block N cap h.ns_on h.ns_run h.block c.staging in
      let c' = record c { vad_hold = hold; vad_suppressed = suppressed; staging = s } in
      if not h.capture_enabled
      then (c', (if h.monitor then tapped mono ∷ [] else []))
      else if uplink_ok && h.held == 0
      then (
        record c' { captured = add32 c.captured (2 * length mono) },
        tapped mono ∷ sent mono ∷ [],
      )
      else (c', tapped mono ∷ [])

  unfoldable pub capture_pass : Gate → ℕ → Heard → Capture N.Memory → Capture N.Memory × List Uplink
  capture_pass g cap h c =
      let (goes_on, (c1, calls)) = attend_mic h c in
      let (c2, calls') = apply_gain h c1 in
      let c3 = warm_up h c2 in
      let (c4, calls'') = pass_block g cap h c3 in
      if not goes_on
      then (c1, calls)
      else if not h.read_ok
      then (c2, calls ++ calls')
      else if is_gated g h c3
      then (c3, calls ++ calls')
      else (c4, calls ++ (calls' ++ calls''))
