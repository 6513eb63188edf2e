-- ===== src/Alarm.antt =====
-- Timers and alarms: the entry and constants of main/alarm_sched.h, which main/alarm_sched.c
-- (Calendar, Text, Ring, Snooze and the rest of this file) and main/alarms.c (Table, Snooze) share.
pub mod Calendar
pub mod Text
pub mod Ring
pub mod Table
pub mod Snooze
use esp32_deepgram_voice_age.Common.{
  ℕ, ◌+◌, Bool, false, not, ◌&&◌, ◌||◌, Option, none, some, List, [], ◌∷◌, ◌==◌, if◌then◌else◌,
}
use esp32_deepgram_voice_age.Common.Int.{ℤ, pos, ◌+ℤ◌, ltb_ℤ, leb_ℤ}

abbrev pub alarm_max : ℕ
alarm_max = 8

abbrev pub alarm_label_max : ℕ
alarm_label_max = 24

abbrev pub alarm_miss_window_s : ℕ
alarm_miss_window_s = 600

abbrev pub alarm_days_all : ℕ
alarm_days_all = 0x7F

abbrev pub alarm_snooze_max_min : ℕ
alarm_snooze_max_min = 60

-- `alarm_kind_t`, as the byte that an entry keeps.
abbrev pub alarm_empty : ℕ
alarm_empty = 0

abbrev pub alarm_timer : ℕ
alarm_timer = 1

abbrev pub alarm_once : ℕ
alarm_once = 2

abbrev pub alarm_weekly : ℕ
alarm_weekly = 3

-- `alarm_entry_t`, without its reserved bytes. The label is the text before its NUL.
pub record Entry : Type 0 where
  pub id : ℕ
  pub kind : ℕ
  pub hh : ℕ
  pub mm : ℕ
  pub dow_mask : ℕ
  pub fire_epoch : ℤ
  pub label : List ℕ

-- A zeroed slot.
abbrev pub no_entry : Entry
no_entry = record { id = 0; kind = 0; hh = 0; mm = 0; dow_mask = 0; fire_epoch = pos 0; label = [] }

-- `alarm_is_stale`.
unfoldable pub is_stale : Entry → ℤ → Bool
is_stale e now =
    if not (e.kind == alarm_timer) && not (e.kind == alarm_once)
    then false
    else ltb_ℤ (pos 0) e.fire_epoch && ltb_ℤ (e.fire_epoch +ℤ pos alarm_miss_window_s) now

-- The loop of `alarm_soonest` from index `i`, with the best index so far and its epoch.
soonest_from : List Entry → ℕ → Option (ℕ × ℤ) → Option (ℕ × ℤ)
soonest_from [] i best = best
soonest_from (e ∷ es) i best = soonest_from es (i + 1) (
    if e.kind == alarm_empty || leb_ℤ e.fire_epoch (pos 0) then best else elim best [
      | none ↦ some (i, e.fire_epoch)
      | some (b, t) ↦ if ltb_ℤ e.fire_epoch t then some (i, e.fire_epoch) else some (b, t)
    ])

-- `alarm_soonest`, with the epoch of the entry that it finds.
unfoldable pub soonest : List Entry → Option (ℕ × ℤ)
unfolding soonest_from
soonest table = soonest_from table 0 none
