-- ===== src/Memory/Schedule.antt =====
-- When the conversation is written to flash: the dirty flag, the debounce and the retries in
-- main/dg_agent.c. Each function runs at a `time` in ms since boot, of which the code keeps the low
-- 32 bits.
use esp32_deepgram_voice_age.Common.{
  ℕ, ◌+◌, ◌-◌, Bool, true, false, not, ◌&&◌, Option, none, some, ltb, leb, if◌then◌else◌, u32,
  sub32, add32,
}

abbrev pub history_save_attempts : ℕ
history_save_attempts = 3

abbrev pub history_flush_debounce_ms : ℕ
history_flush_debounce_ms = 1500

abbrev pub history_flush_max_defer_ms : ℕ
history_flush_max_defer_ms = 5000

-- `s_history_dirty`, `s_dirty_since_ms`, `s_save_failures` and `s_save_disabled`; when the flush
-- timer runs out, if it is armed; and whether the worker is asked for a flush.
pub record Saver : Type 0 where
  pub dirty : Bool
  pub since : ℕ
  pub failures : ℕ
  pub disabled : Bool
  pub timer : Option ℕ
  pub requested : Bool

abbrev pub saver_start : Saver
saver_start = record {
  dirty = false;
  since = 0;
  failures = 0;
  disabled = false;
  timer = none;
  requested = false;
}

abbrev pub mark : ℕ → Saver → Saver
mark time s = if s.dirty then s else record s { dirty = true; since = u32 time }

-- The end of `history_mark_dirty`: the timer, for the stretch that began at `since`.
unfoldable pub defer : ℕ → Saver → Saver
defer time s =
    let elapsed = sub32 (u32 time) s.since in
    if ltb history_flush_max_defer_ms (add32 elapsed history_flush_debounce_ms)
    then (if leb history_flush_max_defer_ms elapsed
        then s
        else record s { timer = some (time + (history_flush_max_defer_ms - elapsed)) })
    else record s { timer = some (time + history_flush_debounce_ms) }

-- `history_mark_dirty`, with the timer created.
unfoldable pub mark_dirty : ℕ → Saver → Saver
mark_dirty time s = if s.disabled then s else defer time (mark time s)

-- `history_note_save_failure`.
unfoldable pub note_save_failure : ℕ → Saver → Saver
note_save_failure time s =
    let failures = s.failures + 1 in
    if ltb failures history_save_attempts
    then mark_dirty time (record s { failures = failures })
    else record s { failures = failures; disabled = true }

-- `dg_agent_clear_history`, for the writing of it.
unfoldable pub mark_forgotten : ℕ → Saver → Saver
mark_forgotten time s = record (mark_dirty time (record s { disabled = false; failures = 0 })) {
  requested = true;
}

-- `history_flush_timer_cb`.
abbrev pub timer_ran_out : Saver → Saver
timer_ran_out s = record s { timer = none; requested = true }

-- Whether `dg_agent_flush_history` writes.
abbrev pub is_due : Saver → Bool
is_due s = s.dirty && not s.disabled

-- `dg_agent_flush_history` on the worker, by whether the record was staged and saved.
unfoldable pub flush_history : Bool → ℕ → Saver → Saver
flush_history saved time s =
    let taken = record s { requested = false } in
    if is_due s
    then (if saved
        then record taken { dirty = false; failures = 0 }
        else note_save_failure time (record taken { dirty = false }))
    else taken
