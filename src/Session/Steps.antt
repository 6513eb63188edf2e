-- ===== src/Session/Steps.antt =====
-- main/session_ctl.c: the worker's loop one test at a time, with the requests of other tasks between
-- any two of its steps. A test of a flag and its clearing are one step: a request between the two
-- leaves the flag as a request before the test does, and its wakeup is pending either way. The
-- `switch` is one step, for what is asked during it touches none of what it changes: the busy flag
-- is up, so `request` only reads it, and the others write flags and the notification.
use esp32_deepgram_voice_age.Common.{
  ℕ, ◌≤◌, ◌≡◌, refl, ◌≢◌, ◌⊎◌, Bool, true, false, ◌&&◌, Option, none, some, List, [], ◌∷◌, arith,
  ltb, if◌then◌else◌,
}
use esp32_deepgram_voice_age.Session.Requests.{Request, Mailbox}
use esp32_deepgram_voice_age.Session.{
  Ctl, Answers, System, finish, promote_reload, promote_start, raise_busy, take_flush, take_ns_save,
  take_settings_save, request_now, request, request_history_flush, request_ns_save,
  request_settings_save, request_reload_soon, request_start_soon,
}
use esp32_deepgram_voice_age.Session.Wakeups.{
  Ask, ask_now, ask, ask_flush, ask_ns_save, ask_settings_save, ask_reload_soon, ask_start_soon,
  asked, finished, poke_wakes,
}

-- What the worker does next.
pub data Point : Type 0 where
  at_wait at_reload at_start at_raise : Point
  at_flush flushing at_ns_save ns_saving at_settings_save settings_saving : Point
  at_switch : Point

-- Where in the loop that is.
abbrev pub place : Point → ℕ
place at_wait = 11
place at_reload = 1
place at_start = 2
place at_raise = 3
place at_flush = 4
place flushing = 5
place at_ns_save = 6
place ns_saving = 7
place at_settings_save = 8
place settings_saving = 9
place at_switch = 10

-- The state, with where the worker is and its request in hand, and with what was asked for and not
-- called since.
pub record World (Box : Type 0) : Type 0 where
  pub sys : System Box
  pub stage : Point
  pub job : Option Request
  pub flush_owed : Bool
  pub ns_owed : Bool
  pub settings_owed : Bool

abbrev pub is_some : Option Request → Bool
is_some none = false
is_some (some r) = true

-- Another task asks, or the worker takes a step.
pub data Move : Type 0 where
  asks : Ask → ℕ → Move
  works : Answers → ℕ → Move

-- What is owed once something is asked.
owe : {Box : Type 0} → Ask → World Box → World Box
owe ask_flush w = record w { flush_owed = true }
owe ask_ns_save w = record w { ns_owed = true }
owe ask_settings_save w = record w { settings_owed = true }
owe _ w = w

-- What the switch leaves as it was, with the busy flag down.
finish-flags :
    (r : Request) (a : Answers) (now_ms : ℕ) (c : Ctl)
    → let c' = (finish r a now_ms c).0 in
      (c'.flush_wanted ≡ c.flush_wanted)
      × (c'.ns_save_wanted ≡ c.ns_save_wanted)
      × (c'.settings_save_wanted ≡ c.settings_save_wanted)
      × (c'.reload_wanted ≡ c.reload_wanted)
      × (c'.start_wanted ≡ c.start_wanted)
      × (c'.busy ≡ false)
unfolding finish
finish-flags r a now_ms c = ground arith

module _ (M : Mailbox) where
  open M use {Box, empty, post, poke, take, take-empty, take-post, take-poke_some, take-poke_none}

  with_ctl : Ctl → World Box → World Box
  with_ctl c w = let s = w.sys in record w { sys = record s { ctl = c } }

  -- The `switch`, or the `continue` that passes it over.
  switch : Answers → ℕ → Option Request → World Box → World Box
  switch a now_ms none w = record w { stage = at_wait }
  switch a now_ms (some r) w = record w {
    sys = finished M r a now_ms w.sys;
    stage = at_wait;
    job = none;
  }

  -- One step of the worker; a wait with no wakeup blocks.
  work : Answers → ℕ → Point → World Box → World Box
  unfolding promote_reload promote_start raise_busy take_flush take_ns_save take_settings_save
      with_ctl switch
  work a now_ms at_wait w =
      let s = w.sys in
      elim (take s.box) [
        | none ↦ w
        | some req ↦ record w { sys = record s { box = empty }; stage = at_reload; job = req }
      ]
  work a now_ms at_reload w =
      let (req, s) = promote_reload M w.job w.sys in
      record w { sys = s; stage = at_start; job = req }
  work a now_ms at_start w =
      let (req, s) = promote_start M w.job w.sys in
      record w { sys = s; stage = at_raise; job = req }
  work a now_ms at_raise w = record (with_ctl (raise_busy M w.job now_ms w.sys.ctl) w) {
    stage = at_flush;
  }
  work a now_ms at_flush w =
      let (c, wanted) = take_flush w.sys.ctl in
      record (with_ctl c w) { stage = if wanted then flushing else at_ns_save }
  work a now_ms flushing w = record w { stage = at_ns_save; flush_owed = false }
  work a now_ms at_ns_save w =
      let (c, wanted) = take_ns_save w.sys.ctl in
      record (with_ctl c w) { stage = if wanted then ns_saving else at_settings_save }
  work a now_ms ns_saving w = record w { stage = at_settings_save; ns_owed = false }
  work a now_ms at_settings_save w =
      let (c, wanted) = take_settings_save w.sys.ctl in
      record (with_ctl c w) { stage = if wanted then settings_saving else at_switch }
  work a now_ms settings_saving w = record w { stage = at_switch; settings_owed = false }
  work a now_ms at_switch w = switch a now_ms w.job w

  move : Move → World Box → World Box
  unfolding owe work
  move (asks a now_ms) w = owe a (record w { sys = asked M a now_ms w.sys })
  move (works a now_ms) w = work a now_ms w.stage w

  unfoldable pub moves : List Move → World Box → World Box
  unfolding move
  moves [] w = w
  moves (m ∷ ms) w = moves ms (move m w)

  -- The worker will test a flag that is set: in this pass, if it is not past the test, or in a pass
  -- that a pending wakeup starts.
  abbrev pub Seen : World Box → Bool → ℕ → Type 0
  Seen w flag test = (flag ≡ true) → (place w.stage ≤ test) ⊎ (take w.sys.box ≢ none)

  -- A save that is owed is wanted, or its call comes next.
  abbrev pub Kept : World Box → Bool → Bool → ℕ → Type 0
  Kept w owed flag call = (owed ≡ true) → (flag ≡ true) ⊎ (place w.stage ≡ call)

  pub record Live (w : World Box) : Type 0 where
    pub reload_seen : Seen w w.sys.ctl.reload_wanted 1
    pub start_seen : Seen w w.sys.ctl.start_wanted 2
    pub flush_seen : Seen w w.sys.ctl.flush_wanted 4
    pub ns_seen : Seen w w.sys.ctl.ns_save_wanted 6
    pub settings_seen : Seen w w.sys.ctl.settings_save_wanted 8
    pub flush_kept : Kept w w.flush_owed w.sys.ctl.flush_wanted 5
    pub ns_kept : Kept w w.ns_owed w.sys.ctl.ns_save_wanted 7
    pub settings_kept : Kept w w.settings_owed w.sys.ctl.settings_save_wanted 9
    pub busy_is_job : w.sys.ctl.busy ≡ (ltb 3 (place w.stage) && is_some w.job)
    pub free_at_wait : w.stage ≡ at_wait → w.job ≡ none

  asks-Live : (a : Ask) (now_ms : ℕ) (w : World Box) → Live w → Live (move (asks a now_ms) w)
  unfolding move asked request_now request request_history_flush request_ns_save
      request_settings_save request_reload_soon request_start_soon
  asks-Live (ask_now r) now_ms w v = ground (arith, take-post w.sys.box r)
  asks-Live (ask r) now_ms w v = ground (arith, take-post w.sys.box r)
  asks-Live ask_flush now_ms w v = ground (arith, poke_wakes M w.sys.box)
  asks-Live ask_ns_save now_ms w v = ground (arith, poke_wakes M w.sys.box)
  asks-Live ask_settings_save now_ms w v = ground (arith, poke_wakes M w.sys.box)
  asks-Live ask_reload_soon now_ms w v = ground (arith, poke_wakes M w.sys.box)
  asks-Live ask_start_soon now_ms w v = ground (arith, poke_wakes M w.sys.box)

  switch-Live :
      (a : Answers) (now_ms : ℕ) (job : Option Request) (w : World Box)
      → w.stage ≡ at_switch
      → w.job ≡ job
      → Live w
      → Live (switch a now_ms job w)
  unfolding switch finished
  switch-Live a now_ms none w e j v = ground arith
  switch-Live a now_ms (some r) w e j v = ground (arith, finish-flags r a now_ms w.sys.ctl)

  work-Live :
      (a : Answers) (now_ms : ℕ) (stage : Point) (w : World Box)
      → w.stage ≡ stage
      → Live w
      → Live (work a now_ms stage w)
  unfolding work
  work-Live a now_ms at_wait w e v = ground arith
  work-Live a now_ms at_reload w e v = ground (arith, poke_wakes M w.sys.box)
  work-Live a now_ms at_start w e v = ground (arith, poke_wakes M w.sys.box)
  work-Live a now_ms at_raise w e v = ground arith
  work-Live a now_ms at_flush w e v = ground arith
  work-Live a now_ms flushing w e v = ground arith
  work-Live a now_ms at_ns_save w e v = ground arith
  work-Live a now_ms ns_saving w e v = ground arith
  work-Live a now_ms at_settings_save w e v = ground arith
  work-Live a now_ms settings_saving w e v = ground arith
  work-Live a now_ms at_switch w e v = switch-Live a now_ms w.job w e refl v

  move-Live : (m : Move) (w : World Box) → Live w → Live (move m w)
  unfolding move
  move-Live (asks a now_ms) w v = asks-Live a now_ms w v
  move-Live (works a now_ms) w v = work-Live a now_ms w.stage w refl v

  -- However the requests of other tasks fall between the steps of the worker, from a state where
  -- this holds: a flag that is set has a wakeup pending, or the pass under way has yet to test it; a
  -- save that was asked for and not made since is still wanted, or its call comes next; and the busy
  -- flag is up exactly from the step that raises it, which is before any save, to the end of the
  -- switch, if a request is in hand.
  pub moves-Live : (ms : List Move) (w : World Box) → Live w → Live (moves ms w)
  unfolding moves
  moves-Live [] w v = v
  moves-Live (m ∷ ms) w v = moves-Live ms (move m w) (move-Live m w v)
