-- ===== src/Session/Outside.antt =====
-- What the session worker's calls do to the modules around it.
use esp32_deepgram_voice_age.Common.{
  ℕ, ◌≡◌, ◌≢◌, Bool, true, false, not, List, [], ◌∷◌, arith, if◌then◌else◌, ◌&&◌,
}
use esp32_deepgram_voice_age.Session.Requests.{
  Request, start, toggle, restart, reload, stop, reload_soon, start_soon,
}
use esp32_deepgram_voice_age.Session.{
  Status, stopping, error, Call, suppress_state_events, set_status, set_stopped,
  capture_set_enabled, pm_lock, Ctl, Answers, finish,
}

-- The microphone uplink, the CPU lock and the screen, as the calls leave them.
pub record Device : Type 0 where
  pub capturing : Bool
  pub full_speed : Bool
  pub screen_stopped : Bool
  pub label : Status
  pub events_suppressed : Bool

abbrev pub apply : Call → Device → Device
apply (capture_set_enabled b) d = record d { capturing = b }
apply (pm_lock b) d = record d { full_speed = b }
apply (set_stopped b) d = record d { screen_stopped = b }
apply (set_status l) d = record d { label = l }
apply (suppress_state_events b) d = record d { events_suppressed = b }
apply _ d = d

abbrev pub apply_all : List Call → Device → Device
apply_all [] d = d
apply_all (c ∷ cs) d = apply_all cs (apply c d)

-- The device agrees with the worker's idea of it.
pub record Agrees (c : Ctl) (d : Device) : Type 0 where
  pub capture_is_running : d.capturing ≡ c.running
  pub speed_is_running : d.full_speed ≡ c.running
  pub held_is_running : c.pm_held ≡ c.running
  pub screen_is_stopped : d.screen_stopped ≡ not c.running
  pub events_while_running : c.running ≡ true → d.events_suppressed ≡ false
  pub not_stopping : d.label ≢ stopping
  pub failure_shown : c.start_failed ≡ true → (c.running ≡ false) × (d.label ≡ error)

-- Every request, whatever the agent answers and from either state, leaves the microphone capturing
-- and the CPU at full speed exactly while a session runs, the screen's stopped mark exactly while
-- none does, no label left at "stopping", and a failed start shown as "error".
pub finish-Agrees :
    (r : Request) (a : Answers) (now_ms : ℕ) (c : Ctl) (d : Device)
    → Agrees c d
    → Agrees (finish r a now_ms c).0 (apply_all (finish r a now_ms c).1 d)
unfolding finish
finish-Agrees start a now_ms c d v = ground arith
finish-Agrees toggle a now_ms c d v = ground arith
finish-Agrees restart a now_ms c d v = ground arith
finish-Agrees reload a now_ms c d v = ground arith
finish-Agrees stop a now_ms c d v = ground arith
finish-Agrees reload_soon a now_ms c d v = ground arith
finish-Agrees start_soon a now_ms c d v = ground arith

-- Requests that must never open a session on their own.
abbrev pub never_opens : Request → Bool
never_opens stop = true
never_opens reload_soon = true
never_opens _ = false

-- On a stopped device, a stop or a deferred reload makes no call at all and leaves it stopped.
-- (The idle timeout and the forget backstop cannot start a conversation.)
pub finish_stays_stopped :
    (r : Request) (a : Answers) (now_ms : ℕ) (c : Ctl)
    → never_opens r ≡ true
    → c.running ≡ false
    → ((finish r a now_ms c).1 ≡ []) × ((finish r a now_ms c).0.running ≡ false)
unfolding finish
finish_stays_stopped r a now_ms c h e = ground arith

-- What each request makes of a session, when a start succeeds.
abbrev pub runs_after : Request → Bool → Bool
runs_after toggle running = not running
runs_after stop running = false
runs_after reload_soon running = running
runs_after _ running = true

-- The requests that leave a running session alone.
abbrev pub leaves_running : Request → Bool
leaves_running start = true
leaves_running start_soon = true
leaves_running _ = false

-- Where a start succeeds, a request ends in the state that it asks for; where a start fails, a
-- session runs afterwards exactly if one ran and the request was to start one.
pub finish-running :
    (r : Request) (a : Answers) (now_ms : ℕ) (c : Ctl)
    → (finish r a now_ms c).0.running
      ≡ (if a.start_ok then runs_after r c.running else c.running && leaves_running r)
unfolding finish
finish-running r a now_ms c = ground arith
