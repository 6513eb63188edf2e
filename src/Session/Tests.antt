-- ===== src/Session/Tests.antt =====
-- Runs of the session worker, and each theorem at a concrete state.
use esp32_deepgram_voice_age.Common.{
  ℕ, ◌≤◌, ◌≡◌, refl, true, false, Option, none, List, [], ◌∷◌, arith, add32,
}
use esp32_deepgram_voice_age.Session.Requests.{Request, toggle, slot}
use esp32_deepgram_voice_age.Session.{
  stopped, Ctl, Answers, System, finish, request, request_history_flush, request_start_soon,
  busy_for_ms,
}
use esp32_deepgram_voice_age.Session.Outside.{Device, apply_all, Agrees, finish-Agrees}
use esp32_deepgram_voice_age.Session.Cooldown.{request_window}
use esp32_deepgram_voice_age.Session.Wakeups.{
  ask, ask_flush, ask_start_soon, asked, passes, Served, request_start_soon-Served,
}
use esp32_deepgram_voice_age.Session.Steps.{
  World, at_wait, at_ns_save, Move, asks, works, moves, Live, moves-Live,
}

abbrev boot : Ctl
boot = record {
  running = false;
  busy = false;
  busy_since_ms = 0;
  ready_at_ms = 0;
  start_failed = false;
  pm_held = false;
  flush_wanted = false;
  ns_save_wanted = false;
  settings_save_wanted = false;
  reload_wanted = false;
  start_wanted = false;
}

abbrev quiet : Device
quiet = record {
  capturing = false;
  full_speed = false;
  screen_stopped = true;
  label = stopped;
  events_suppressed = true;
}

abbrev good : Answers
good = record { saved_at_stop = true; saved_at_start = false; start_ok = true }

boot-Agrees : Agrees boot quiet
boot-Agrees = ground arith

finish-Agrees_example :
    Agrees (finish toggle good 100 boot).0 (apply_all (finish toggle good 100 boot).1 quiet)
finish-Agrees_example = finish-Agrees toggle good 100 boot quiet boot-Agrees

toggle_starts : (finish toggle good 100 boot).0.running ≡ true
unfolding finish
toggle_starts = refl

abbrev booted : System (Option (Option Request))
booted = record { ctl = boot; box = none }

abbrev cooling : System (Option (Option Request))
cooling = record { ctl = record boot { ready_at_ms = 2500 }; box = none }

-- After 25 quiet days a tap is refused.
request_window_example : request slot toggle (add32 1000 2160000000) cooling ≡ cooling
request_window_example =
    request_window slot toggle 1000 2160000000 cooling (omega arith) (omega arith) refl refl

abbrev waiting : World (Option (Option Request))
waiting = record {
  sys = booted;
  stage = at_wait;
  job = none;
  flush_owed = false;
  ns_owed = false;
  settings_owed = false;
}

waiting-Live : Live slot waiting
waiting-Live = ground arith

-- A flush is asked for with a tap, and again while the worker makes the first one.
abbrev interleaved : List Move
interleaved =
    asks (ask toggle) 2000
    ∷ asks ask_flush 2001
    ∷ works good 2002
    ∷ works good 2003
    ∷ works good 2004
    ∷ works good 2005
    ∷ works good 2006
    ∷ asks ask_flush 2007
    ∷ asks ask_start_soon 2008
    ∷ works good 2009
    ∷ []

moves-Live_example : Live slot (moves slot interleaved waiting)
moves-Live_example = moves-Live slot interleaved waiting waiting-Live

runs : Unit {0}
unfolding moves asked request request_history_flush request_start_soon
runs = tt

interleaved_ends :
    let w = moves slot interleaved waiting in
    (w.stage ≡ at_ns_save) × (w.sys.ctl.busy ≡ true) × (w.sys.ctl.flush_wanted ≡ true)
unfolding runs
interleaved_ends = (refl, refl, refl)

request_start_soon-Served_example :
    (k : ℕ) × (k ≤ 4) × Served slot (passes slot k good 10 (request_start_soon slot booted))
request_start_soon-Served_example = request_start_soon-Served slot good 10 booted refl

busy_reads : busy_for_ms true 4294967290 10 ≡ 16
unfolding busy_for_ms
busy_reads = refl
