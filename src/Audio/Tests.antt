-- ===== src/Audio/Tests.antt =====
-- Runs of the audio path, and theorems at a concrete state.
use esp32_deepgram_voice_age.Common.{
  ℕ, ◌≤◌, ◌≡◌, refl, Bool, true, false, none, some, List, [], ◌∷◌, ◌++◌, arith, if◌then◌else◌,
  length, replicate,
}
use esp32_deepgram_voice_age.Common.Int.{pos, negsuc}
use esp32_deepgram_voice_age.Audio.Buffer.{bounded}
use esp32_deepgram_voice_age.Audio.Play.{
  esp_ok, esp_no_mem, Player, carry_over, after_gap, send_head, send_body, enqueue, play_parts,
  play_unmuted, play,
}
use esp32_deepgram_voice_age.Audio.Carry.{HasWords}
use esp32_deepgram_voice_age.Audio.Stream.{IsAccepted, play-IsAccepted}
use esp32_deepgram_voice_age.Audio.Speaker.{Build, Speaker, spk_reopen, pa_on, pa_idle}
use esp32_deepgram_voice_age.Audio.Tune.{Tone, Waves, take_request}
use esp32_deepgram_voice_age.Audio.Requests.{tones, tones-take_request}
use esp32_deepgram_voice_age.Audio.Drain.{
  Drain, Outside, samples_of, stereo, attend, sound, speech_pass, do_work, work_of, before_work,
  pass,
}
use esp32_deepgram_voice_age.Audio.Runs.{
  Event, chunk, gap, flushed, mute, drained, Stage, step, run, IsWhole, run-IsWhole,
}
use esp32_deepgram_voice_age.Audio.Heard.{IsSmooth, heard, heard_lem}
use esp32_deepgram_voice_age.Audio.Denoise.{Engine, Staging, chunks}
use esp32_deepgram_voice_age.Audio.Blocks.{concat, denoise_blocks}
use esp32_deepgram_voice_age.Audio.Delay.{denoise_blocks-delayed}
use esp32_deepgram_voice_age.Audio.Levels.{Saved}
use esp32_deepgram_voice_age.Audio.Reboot.{Op, volume_live, volume_set, gain_set}
use esp32_deepgram_voice_age.Audio.Uplink.{Gate, Heard, Capture, capture_pass}
use esp32_deepgram_voice_age.Audio.Mic.{sent_of}
use esp32_deepgram_voice_age.Audio.Sending.{cleaned, wanted_now, capture_pass-sent}

-- A byte is held over, and the count is near its wrap.
abbrev speaking : Player
speaking = record {
  queue_ms = 1;
  in_carry = 9;
  in_carry_valid = true;
  gap = false;
  muted = false;
  played = 4294967294;
  dropped = 0;
  flush_pending = false;
}

abbrev speaking-HasWords : HasWords speaking
speaking-HasWords = record { played_word = omega arith; dropped_word = omega arith }

-- Three bytes and the one held over: two samples, in the order of the stream.
play_joins : play (bounded 8) 5 (1 ∷ 2 ∷ 3 ∷ []) (some []) speaking ≡ (
  esp_ok,
  (some (9 ∷ 1 ∷ 2 ∷ 3 ∷ []), record speaking { queue_ms = 5; in_carry_valid = false; played = 2 }),
)
unfolding play play_unmuted play_parts carry_over after_gap enqueue send_head send_body
play_joins = refl

-- Room for one sample and a half.
play_drops : play (bounded 3) 5 (1 ∷ 2 ∷ 3 ∷ []) (some []) speaking ≡ (
  esp_no_mem,
  (
    some (9 ∷ 1 ∷ []),
    record speaking { queue_ms = 5; in_carry_valid = false; played = 0; dropped = 2 },
  ),
)
unfolding play play_unmuted play_parts carry_over after_gap enqueue send_head send_body
play_drops = refl

play-IsAccepted_example :
    let (e, (o, q)) = play (bounded 3) 5 (1 ∷ 2 ∷ 3 ∷ []) (some []) speaking in
    (b : List ℕ) × ((o ≡ some b)
      × IsAccepted (bounded 3) (9 ∷ 1 ∷ 2 ∷ 3 ∷ []) [] (after_gap speaking) (e, (b, q)))
play-IsAccepted_example =
    play-IsAccepted (bounded 3) 5 (1 ∷ 2 ∷ 3 ∷ []) [] speaking speaking-HasWords refl

abbrev build : Build
build = record { idle_off_ms = 60000; rate = 16000; aec = true }

abbrev silence : Waves
silence = record { chime_note = λ hz k n. 0; tone_note = λ hz k n. 0 }

abbrev quiet : Tone
quiet = record { seen = 0; hz = 0; pos = 0; len = 0 }

abbrev open_speaker : Speaker
open_speaker = record {
  closed = false;
  busy_logged = false;
  pa_is_on = false;
  play_write_ms = 0;
  tone_write_ms = 0;
  reopen_failed_ms = 0;
}

abbrev idle : Drain
idle = record {
  carry = 0;
  carry_valid = false;
  chiming = false;
  chime_pos = 0;
  current = quiet;
  speaker = open_speaker;
}

abbrev outside : Outside
outside = record {
  chime_on = false;
  tone_req = 0;
  deep_idle_want = false;
  flush_pending = false;
  mic_is_open = true;
  volume = 70;
  open_ok = true;
  before_ms = 100;
  after_ms = 100;
}

abbrev begun : Stage (List ℕ)
begun = record { queue = 5 ∷ 6 ∷ []; player = speaking; drain = idle }

abbrev begun-IsWhole : IsWhole (bounded 8) build silence begun
begun-IsWhole = record { even = refl; no_half = refl; words = speaking-HasWords }

abbrev stretch : List Event
stretch = chunk 5 (1 ∷ []) ∷ drained outside ∷ chunk 6 (2 ∷ 3 ∷ 4 ∷ []) ∷ drained outside ∷ []

run-IsWhole_example : IsWhole (bounded 8) build silence (
    run
      (bounded 8)
      build
      silence
      (chunk 5 (1 ∷ 2 ∷ []) ∷ gap ∷ mute true ∷ flushed ∷ drained outside ∷ [])
      begun)
run-IsWhole_example =
    run-IsWhole (bounded 8) build silence
      (chunk 5 (1 ∷ 2 ∷ []) ∷ gap ∷ mute true ∷ flushed ∷ drained outside ∷ []) begun begun-IsWhole

-- The chunks are cut within samples, and a pass comes between them.
stretch-IsSmooth : IsSmooth (bounded 8) build silence stretch begun
unfolding step play play_unmuted play_parts carry_over after_gap enqueue send_head send_body pass
    before_work take_request attend spk_reopen do_work work_of speech_pass sound pa_on pa_idle
    stereo
stretch-IsSmooth = (refl, (refl, (refl, (refl, tt))))

heard_lem_example :
    heard (bounded 8) build silence stretch begun
      ++ stereo build (samples_of (run (bounded 8) build silence stretch begun).queue)
    ≡ stereo build (samples_of (5 ∷ 6 ∷ 9 ∷ 1 ∷ 2 ∷ 3 ∷ 4 ∷ []))
heard_lem_example =
    heard_lem (bounded 8) build silence stretch begun begun-IsWhole
      (record { no_gap = refl; no_mute = refl; no_flush = refl; no_failure = refl })
      stretch-IsSmooth

abbrev notes : List (ℕ × ℕ)
notes = (440, 100) ∷ (5000, 80) ∷ []

-- The third tone since the task looked, of 880 Hz and 120 ms.
tones-take_request_example :
    let r = (tones (notes ++ (880, 120) ∷ []) (0, 0)).1 in
    let t = take_request 16000 r quiet in
    ((t.hz ≡ 880) × ((t.len ≡ 1920) × (t.pos ≡ 0))) × (take_request 16000 r t ≡ t)
tones-take_request_example =
    tones-take_request 16000 880 120 0 notes quiet (omega arith) (omega arith)

-- An engine that changes nothing.
abbrev plain : Engine
plain = record { Memory = ℕ; process = λ e xs. (xs, e); length-process = λ e xs. refl }

abbrev off : Staging ℕ
off = record { held = 4 ∷ []; out = 5 ∷ []; memory = 0; was_running = false }

abbrev block : ℕ → List ℕ
block v = replicate 200 v

denoise_blocks-delayed_example :
    let (sent, s) = denoise_blocks plain 720 (block 7 ∷ block 8 ∷ []) off in
    (sent ++ s.out ≡ replicate 200 0 ++ (chunks plain 400 0 (concat (block 7 ∷ block 8 ∷ []))).0)
    × ((length s.out ≤ 200) × (length sent ≡ 400))
denoise_blocks-delayed_example =
    denoise_blocks-delayed plain 200 (block 7) (block 8 ∷ []) off (omega arith) (omega arith) refl
      (refl, tt) refl

abbrev stored : Saved
stored = record { out_volume = some 5; mic_gain = none }

abbrev asked : List Op
asked = volume_live true (pos 80) ∷ gain_set (pos 40) ∷ volume_set true (negsuc 3) ∷ []

abbrev voices : List Bool
voices = true ∷ false ∷ false ∷ false ∷ true ∷ []

abbrev listened : Heard
listened = record {
  capture_enabled = true;
  monitor = false;
  held = 0;
  playback_active = true;
  volume = 70;
  gain_want = 18;
  vad_peak = 400;
  open_ok = true;
  read_ok = true;
  aec_on = true;
  ns_on = true;
  ns_run = false;
  block = 1 ∷ 2 ∷ [];
  block_peak = 500;
  raw_peak = 600;
  ref_peak = 700;
}

-- The canceller has one block to go.
abbrev parked : Capture ℕ
parked = record {
  is_open = false;
  shared_open = false;
  gain = 18;
  aec_warm = 15;
  vad_hold = 0;
  vad_suppressed = 0;
  captured = 0;
  staging = off;
}

abbrev gates : Gate
gates = record { hangover_ms = 300; max_volume = 100 }

capture_pass-sent_example : sent_of (capture_pass plain gates 720 listened parked).1 ≡ (
    if wanted_now plain gates listened parked then cleaned plain 720 listened parked ∷ [] else [])
capture_pass-sent_example = capture_pass-sent plain gates 720 listened parked
