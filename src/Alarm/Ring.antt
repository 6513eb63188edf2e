-- ===== src/Alarm/Ring.antt =====
-- The ring cycle of main/alarm_sched.c, and `perform` of main/alarms.c that carries it out.
pub mod Sound
mod Tests
use esp32_deepgram_voice_age.Common.{
  ℕ, ◌+◌, bit_or, Bool, true, false, not, ◌&&◌, ◌||◌, ltb, leb, ◌==◌, if◌then◌else◌, sub32,
  has_bits,
}

pub data Phase : Type 0 where
  idle chime drain speak silent : Phase

pub record Config : Type 0 where
  pub chime_ms : ℕ
  pub drain_max_ms : ℕ
  pub speak_max_ms : ℕ
  pub quiet_ms : ℕ
  pub cap_ms : ℕ

pub record Ring : Type 0 where
  pub phase : Phase
  pub phase_ms : ℕ
  pub start_ms : ℕ
  pub heard_ms : ℕ
  pub announced : Bool
  pub stopping : Bool

-- The action bits.
abbrev pub chime_on : ℕ
chime_on = 0x01

abbrev pub chime_off : ℕ
chime_off = 0x02

abbrev pub hold_on : ℕ
hold_on = 0x04

abbrev pub hold_off : ℕ
hold_off = 0x08

abbrev pub announce : ℕ
announce = 0x10

abbrev pub ended : ℕ
ended = 0x20

abbrev enter_phase : Phase → Ring → Ring × ℕ
enter_phase chime r = (r, bit_or chime_on hold_on)
enter_phase speak r = (record r { heard_ms = 0; announced = true }, bit_or hold_off announce)
enter_phase drain r = (r, chime_off)
enter_phase silent r = (r, bit_or chime_off hold_off)
enter_phase idle r = (r, bit_or (bit_or chime_off hold_off) ended)

-- `enter`.
pub enter : Ring → Phase → ℕ → Ring × ℕ
enter r phase now_ms = enter_phase phase (record r { phase = phase; phase_ms = now_ms })

-- `alarm_ring_begin`.
unfoldable pub begin : ℕ → Bool → Ring × ℕ
unfolding enter
begin now_ms session_live =
    let cleared : Ring = record {
      phase = idle;
      phase_ms = 0;
      start_ms = now_ms;
      heard_ms = 0;
      announced = false;
      stopping = false;
    } in
    enter cleared (if session_live then speak else chime) now_ms

-- The case ALARM_RING_SPEAK of the last `switch`.
speak_step : Ring → Config → ℕ → ℕ → Bool → Ring × ℕ
unfolding enter
speak_step r cfg in_phase now_ms playback =
    let r' = if playback then record r { heard_ms = now_ms } else r in
    let said =
      not (r'.heard_ms == 0) && (not playback && leb cfg.quiet_ms (sub32 now_ms r'.heard_ms)) in
    if said || leb cfg.speak_max_ms in_phase
    then (if r'.stopping then enter r' idle now_ms else enter r' chime now_ms)
    else (r', 0)

-- The last `switch`.
phase_step : Phase → Ring → Config → ℕ → ℕ → Bool → Ring × ℕ
unfolding enter speak_step
phase_step chime r cfg in_phase now_ms playback =
    if leb cfg.chime_ms in_phase then enter r drain now_ms else (r, 0)
phase_step drain r cfg in_phase now_ms playback =
    if not playback || leb cfg.drain_max_ms in_phase then enter r speak now_ms else (r, 0)
phase_step speak r cfg in_phase now_ms playback = speak_step r cfg in_phase now_ms playback
phase_step _ r cfg in_phase now_ms playback = (r, 0)

abbrev is_silent : Phase → Bool
is_silent silent = true
is_silent _ = false

abbrev is_idle : Phase → Bool
is_idle idle = true
is_idle _ = false

abbrev chime_or_silent : Phase → Bool
chime_or_silent chime = true
chime_or_silent silent = true
chime_or_silent _ = false

-- The cap, and then the phase: what is left of a step once snooze and stop are dealt with.
timed_step : Ring → Config → ℕ → Bool → Ring × ℕ
unfolding enter phase_step
timed_step r cfg now_ms playback =
    if not r.stopping
      && (ltb 0 cfg.cap_ms && (not (is_silent r.phase) && leb cfg.cap_ms (sub32 now_ms r.start_ms)))
    then enter r silent now_ms
    else phase_step r.phase r cfg (sub32 now_ms r.phase_ms) now_ms playback

-- `alarm_ring_step`.
unfoldable pub step : Ring → Config → ℕ → Bool → Bool → Bool → Ring × ℕ
unfolding enter timed_step
step r cfg now_ms playback stop snooze =
    let stopped = record r { stopping = true } in
    if is_idle r.phase
    then (r, 0)
    else if snooze
    then enter r idle now_ms
    else if stop
    then (if r.announced
        then enter r idle now_ms
        else if chime_or_silent r.phase
        then enter stopped drain now_ms
        else timed_step stopped cfg now_ms playback)
    else timed_step r cfg now_ms playback

-- What `perform` acts on: the chime, the alarm's hold on the microphone uplink, the announcements
-- queued, and `s_ringing`.
pub record Actions : Type 0 where
  pub sounding : Bool
  pub uplink_held : Bool
  pub announcements : ℕ
  pub ringing : Bool

-- `perform`, in the order of its tests.
unfoldable pub perform : ℕ → Actions → Actions
perform acts d0 =
    let d1 = if has_bits acts chime_off then record d0 { sounding = false } else d0 in
    let d2 = if has_bits acts hold_off then record d1 { uplink_held = false } else d1 in
    let d3 = if has_bits acts hold_on then record d2 { uplink_held = true } else d2 in
    let d4 = if has_bits acts chime_on then record d3 { sounding = true } else d3 in
    let d5 =
      if has_bits acts announce then record d4 { announcements = d4.announcements + 1 } else d4 in
    if has_bits acts ended then record d5 { ringing = false } else d5
