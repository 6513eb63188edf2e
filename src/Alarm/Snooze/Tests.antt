-- ===== src/Alarm/Snooze/Tests.antt =====
-- Snoozes of a ringing alarm.
use esp32_deepgram_voice_age.Common.{
  ◌≡◌, refl, ◌≢◌, ◌⊎◌, inl, true, false, none, some, List, [], ◌∷◌, arith, replicate,
}
use esp32_deepgram_voice_age.Common.Int.{ℤ, pos}
use esp32_deepgram_voice_age.Common.Bytes.{codes}
use esp32_deepgram_voice_age.Alarm.{no_entry, alarm_max, alarm_once}
use esp32_deepgram_voice_age.Alarm.Calendar.{Tm, wall}
use esp32_deepgram_voice_age.Alarm.Ring.{Config, chime, idle, step, perform}
use esp32_deepgram_voice_age.Alarm.Table.{Table, empty_slot, first_empty}
use esp32_deepgram_voice_age.Alarm.Table.Ids.{ids}
use esp32_deepgram_voice_age.Alarm.Table.Adding.{Inv, Added}
use esp32_deepgram_voice_age.Alarm.Snooze.{Loop, snooze, start_ring, ring_tick}
use esp32_deepgram_voice_age.Alarm.Snooze.Outcome.{again, snooze-granted, hushed, snooze-refused}
use esp32_deepgram_voice_age.Alarm.Snooze.Sound.{
  Event, dismisses, snoozes, passes, run, IsSafe, run-IsSafe,
}

abbrev fresh : Table
fresh = record {
  slots = replicate alarm_max empty_slot;
  next_id = 1;
  dirty = false;
  reconciled = true;
  tz_gen = 0;
  worst_late_ms = pos 0;
}

fresh-Inv : Inv fresh
unfolding ids
fresh-Inv = ground arith

fresh_slot : first_empty fresh.slots ≡ some 0
unfolding first_empty
fresh_slot = refl

abbrev half_past : ℤ → Tm
half_past t = wall 126 10 26 7 30 none

abbrev config : Config
config = record {
  chime_ms = 5000;
  drain_max_ms = 3000;
  speak_max_ms = 30000;
  quiet_ms = 1000;
  cap_ms = 0;
}

-- An alarm in its first chime.
abbrev ringing : Loop
ringing = record {
  ring = record {
    phase = chime;
    phase_ms = 100;
    start_ms = 100;
    heard_ms = 0;
    announced = false;
    stopping = false;
  };
  rang = record no_entry { id = 3; kind = alarm_once; hh = 7; mm = 25; label = codes "up" };
  stop_req = false;
  snooze_req = 0;
  actions = record { sounding = true; uplink_held = true; announcements = 0; ringing = true };
  table = fresh;
}

snooze-granted_example :
    let u = ring_tick half_past config (some (pos 5000)) 900 false (snooze 5 ringing) in
    (u.ring.phase ≡ idle)
    × (u.actions.ringing ≡ false)
    × (u.actions.sounding ≡ false)
    × (u.actions.uplink_held ≡ false)
    × (u.snooze_req ≡ 0)
    × (u.stop_req ≡ false)
    × Added (again half_past ringing.rang (pos 5000) 5) fresh 0 u.table
snooze-granted_example =
    snooze-granted half_past config (pos 5000) 900 false ringing 0 5 refl (λ e. cc e) refl
      (omega arith) fresh-Inv fresh_slot

snooze-refused_example :
    let s = snooze 5 ringing in
    let u = ring_tick half_past config none 900 false s in
    let w = ring_tick half_past config none 900 false (record ringing { snooze_req = 0 }) in
    (u.table ≡ fresh)
    × (u.ring ≡ w.ring)
    × (u.snooze_req ≡ 0)
    × (u.stop_req ≡ false)
    × (u.actions
        ≡ perform (step ringing.ring config 900 false false false).1 (hushed ringing).actions)
    × ((u.actions.sounding ≡ false) ⊎ ((ringing.ring.phase ≢ chime) × (u.ring.phase ≡ chime)))
snooze-refused_example =
    snooze-refused half_past config none 900 false ringing 5 refl refl (omega arith) (inl refl)

-- A snooze that the unset clock refuses, in a chime.
abbrev asked : List Event
asked = passes none 150 false ∷ snoozes 5 ∷ passes none 900 false ∷ dismisses ∷ []

abbrev at_rest : Loop
at_rest = record ringing {
  actions = record { sounding = false; uplink_held = false; announcements = 0; ringing = false };
}

run-IsSafe_example :
    let (s, hushed) =
      run half_past config asked (start_ring ringing.rang 100 false at_rest, false) in
    IsSafe s hushed
run-IsSafe_example = run-IsSafe half_past config ringing.rang 100 false at_rest asked refl refl refl
