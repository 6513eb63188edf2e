-- ===== src/Alarm/Ring/Tests.antt =====
-- A run of the ring cycle.
use esp32_deepgram_voice_age.Common.{ℕ, ◌≡◌, refl, Bool, true, false}
use esp32_deepgram_voice_age.Alarm.Ring.{idle, Config, Ring, Actions, begin, step, perform}

abbrev cfg : Config
cfg = record {
  chime_ms = 8000;
  drain_max_ms = 3000;
  speak_max_ms = 30000;
  quiet_ms = 1000;
  cap_ms = 600000;
}

abbrev rings : Actions
rings = record { sounding = false; uplink_held = false; announcements = 0; ringing = true }

-- A step at a time, with whether a tone or an answer plays and whether a stop was asked for.
tick_at : ℕ → Bool → Bool → Ring × Actions → Ring × Actions
tick_at now_ms playback stop (r, d) =
    let (r', acts) = step r cfg now_ms playback stop false in (r', perform acts d)

cycle_ends :
    let begun : Ring × Actions = ((begin 0 false).0, perform (begin 0 false).1 rings) in
    let drained = tick_at 9100 false false (tick_at 9000 true false begun) in
    let spoken = tick_at 14000 false false (tick_at 12000 true false drained) in
    let (r, d) = tick_at 15000 false true spoken in
    (r.phase ≡ idle) × (d.announcements ≡ 1) × (d.ringing ≡ false)
unfolding begin step perform tick_at
cycle_ends = (refl, refl, refl)
