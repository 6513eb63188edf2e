-- ===== src/Alarm/Table/Tests.antt =====
-- Runs of the alarm table, and each theorem at a concrete table.
use esp32_deepgram_voice_age.Common.{
  ℕ, ◌≡◌, refl, ◌⊎◌, true, false, none, some, [], ◌∷◌, arith, replicate, All,
}
use esp32_deepgram_voice_age.Common.Int.{ℤ, pos, ◌+ℤ◌, ◌-ℤ◌}
use esp32_deepgram_voice_age.Common.Bytes.{codes}
use esp32_deepgram_voice_age.Alarm.{
  Entry, no_entry, alarm_max, alarm_timer, alarm_once, alarm_weekly, is_stale,
}
use esp32_deepgram_voice_age.Alarm.Table.{
  Table, empty_slot, pick_id, first_empty, id_in_use, add, set_timer, cancel_id, cancel_where,
  count, first_due, is_due, tick, reconcile_slot, init,
}
use esp32_deepgram_voice_age.Alarm.Table.Ids.{mem, ids}
use esp32_deepgram_voice_age.Alarm.Table.Adding.{Inv, AddOutcome, add-outcome}
use esp32_deepgram_voice_age.Alarm.Table.Due.{searched, Fired, tick-outcome}

abbrev fresh : Table
fresh = record {
  slots = replicate alarm_max empty_slot;
  next_id = 1;
  dirty = false;
  reconciled = false;
  tz_gen = 0;
  worst_late_ms = pos 0;
}

runs : Unit {0}
unfolding add pick_id first_empty id_in_use set_timer cancel_id cancel_where count tick first_due
    is_due init ids mem ◌+ℤ◌ ◌-ℤ◌ is_stale reconcile_slot
runs = tt

fresh-Inv : Inv fresh
unfolding runs
fresh-Inv = ground arith

abbrev tea : Entry
tea = record no_entry { kind = alarm_timer; label = codes "Tea" }

add-outcome_example : AddOutcome tea fresh × Inv (add tea fresh).1
add-outcome_example = add-outcome tea fresh refl fresh-Inv

abbrev no_zone : ℤ → ℕ → ℕ → ℕ → ℤ
no_zone now hh mm mask = now +ℤ pos 86400

-- A timer of 60 seconds, fired by the pass 60 seconds on.
abbrev timed : Table
timed = (set_timer 60 (codes "Tea") true (pos 1000) 5 fresh).1

fires : (tick no_zone true (pos 1060) 3 60005 timed).1.slots ≡ fresh.slots
unfolding runs
fires = refl

tick-outcome_example :
    let t1 = searched no_zone true (pos 1060) 3 60005 timed in
    let r = tick no_zone true (pos 1060) 3 60005 timed in
    ((r ≡ (none, t1)) × All (λ s. is_due true (pos 1060) 60005 t1.reconciled s ≡ false) t1.slots)
    ⊎ ((i : ℕ) × (e : Entry) × (r.0 ≡ some e) × Fired no_zone true (pos 1060) 60005 t1 r.1 e i)
tick-outcome_example = tick-outcome no_zone true (pos 1060) 3 60005 timed

abbrev wake : Entry
wake = record {
  id = 3;
  kind = alarm_once;
  hh = 7;
  mm = 30;
  dow_mask = 0;
  fire_epoch = pos 5000;
  label = [];
}

abbrev daily : Entry
daily = record {
  id = 4;
  kind = alarm_weekly;
  hh = 7;
  mm = 30;
  dow_mask = 0x7F;
  fire_epoch = pos 5000;
  label = [];
}

-- The timer with no instant is dropped.
drops :
    (init (some (wake ∷ daily ∷ tea ∷ [], 5))).slots
    ≡ record { entry = wake; mono_ms = 0 } ∷ record { entry = daily; mono_ms = 0 } ∷ empty_slot ∷ []
unfolding runs
drops = refl
