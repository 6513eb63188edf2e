-- ===== src/Alarm/Snooze.antt =====
-- The ring as the alarm loop and the buttons share it: `alarm_snooze_entry` of main/alarm_sched.c,
-- and of main/alarms.c the request flags, `ring` and `ring_tick`. Captions are left out.
pub mod Outcome
pub mod Sound
mod Tests
use esp32_deepgram_voice_age.Common.{
  ℕ, ◌+◌, ◌-◌, ◌*◌, min, Bool, true, false, not, ◌&&◌, ◌||◌, Option, none, some, ltb, ◌==◌,
  if◌then◌else◌, take,
}
use esp32_deepgram_voice_age.Common.Int.{ℤ, pos, ◌+ℤ◌}
use esp32_deepgram_voice_age.Alarm.{
  Entry, no_entry, alarm_timer, alarm_once, alarm_snooze_max_min, alarm_label_max,
}
use esp32_deepgram_voice_age.Alarm.Calendar.{Tm}
use esp32_deepgram_voice_age.Alarm.Ring.{Ring, Config, Actions, begin, step, perform}
use esp32_deepgram_voice_age.Alarm.Table.{Table, add}

-- `s_ring`, `s_rang`, `s_stop_req`, `s_snooze_req`, what the ring's actions reach (with
-- `s_ringing`), and the table.
pub record Loop : Type 0 where
  pub ring : Ring
  pub rang : Entry
  pub stop_req : Bool
  pub snooze_req : ℕ
  pub actions : Actions
  pub table : Table

-- `alarms_ringing`.
abbrev pub is_ringing : Loop → Bool
is_ringing s = s.actions.ringing && not s.ring.stopping

-- `alarms_dismiss`.
unfoldable pub dismiss : Loop → Loop
dismiss s =
    let a = s.actions in
    if a.ringing then record s { stop_req = true; actions = record a { sounding = false } } else s

-- `alarms_snooze`. Its callers ask for no negative number of minutes.
unfoldable pub snooze : ℕ → Loop → Loop
snooze minutes s =
    let a = s.actions in
    if a.ringing && (not (s.rang.kind == alarm_timer) && ltb 0 minutes)
    then record s {
      snooze_req = if ltb alarm_snooze_max_min minutes then alarm_snooze_max_min else minutes;
      actions = record a { sounding = false };
    }
    else s

-- `alarm_snooze_entry`, with the local time that localtime_r answers.
pub snooze_entry : (ℤ → Tm) → Entry → ℤ → ℕ → Option Entry
snooze_entry local rang now minutes =
    let at = now +ℤ pos (minutes * 60) in
    if rang.kind == alarm_timer || (ltb minutes 1 || ltb alarm_snooze_max_min minutes)
    then none
    else some (record no_entry {
      kind = alarm_once;
      hh = (local at).hour;
      mm = (local at).min;
      fire_epoch = at;
      label = take (alarm_label_max - 1) rang.label;
    })

-- `ring`: an entry starts to ring, `live` if a session runs or is being started.
unfoldable pub start_ring : Entry → ℕ → Bool → Loop → Loop
start_ring e now_ms live s =
    let a = s.actions in
    let (r, acts) = begin now_ms live in
    let quiet = if a.ringing then record a { sounding = false } else a in
    record s {
      ring = r;
      rang = e;
      stop_req = false;
      snooze_req = 0;
      actions = perform acts (record quiet { ringing = true });
    }

-- The snooze that `ring_tick` adds to the table; `clock` is what clock_now answers.
pub add_snooze : (ℤ → Tm) → Option ℤ → ℕ → Entry → Table → Bool × Table
unfolding snooze_entry
add_snooze local none minutes rang t = (false, t)
add_snooze local (some now) minutes rang t = elim (snooze_entry local rang now minutes) [
  | none ↦ (false, t)
  | some e ↦ let (slot, u) = add e t in elim slot [ none ↦ (false, t) | some i ↦ (true, u) ]
]

-- `ring_tick`.
unfoldable pub ring_tick : (ℤ → Tm) → Config → Option ℤ → ℕ → Bool → Loop → Loop
unfolding add_snooze
ring_tick local cfg clock now_ms playback s =
    let (added, t) =
      if ltb 0 s.snooze_req
      then add_snooze local clock s.snooze_req s.rang s.table
      else (false, s.table) in
    let (r, acts) = step s.ring cfg now_ms playback s.stop_req added in
    if not s.actions.ringing then s else record s {
      ring = r;
      stop_req = false;
      snooze_req = 0;
      actions = perform acts s.actions;
      table = t;
    }
