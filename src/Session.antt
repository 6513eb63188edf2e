-- ===== src/Session.antt =====
-- main/session_ctl.c: the worker that starts and stops conversations, and the requests that other
-- tasks make of it. What it calls in audio_io, dg_agent, ui and wifi_sta is a list of calls; what
-- those modules answer is an argument. The request value 0 of the source is `none`, so the
-- `default` arm of its switch has no case here. The denoiser (CONFIG_MIC_NS_ENABLE) and power
-- management (CONFIG_PM_ENABLE) are built in, and the power lock can be created.
pub mod Requests
pub mod Outside
pub mod Wakeups
pub mod Steps
pub mod Cooldown
mod Tests
use esp32_deepgram_voice_age.Common.{
  ℕ, ◌+◌, Bool, true, false, not, ◌||◌, Option, none, some, List, [], ◌∷◌, ◌++◌, leb, ◌==◌,
  if◌then◌else◌, take, sub32, add32,
}
use Requests.{Request, start, toggle, restart, reload, stop, reload_soon, start_soon, Mailbox}

abbrev pub cooldown_ms : ℕ
cooldown_ms = 1500

-- UINT32_MAX / 2
abbrev pub half_range : ℕ
half_range = 2147483647

-- The labels of `ui_set_status`.
pub data Status : Type 0 where
  stopping resuming connecting error stopped_saved stopped : Status

-- The calls that the worker makes.
pub data Call : Type 0 where
  suppress_state_events : Bool → Call
  set_status : Status → Call
  set_stopped : Bool → Call
  capture_set_enabled : Bool → Call
  pm_lock : Bool → Call
  audio_flush audio_reset agent_stop agent_start power_save_none : Call
  flush_history ns_persist settings_persist : Call

-- The file's static variables. `pm_held` is the `held` of `pm_session`.
pub record Ctl : Type 0 where
  pub running : Bool
  pub busy : Bool
  pub busy_since_ms : ℕ
  pub ready_at_ms : ℕ
  pub start_failed : Bool
  pub pm_held : Bool
  pub flush_wanted : Bool
  pub ns_save_wanted : Bool
  pub settings_save_wanted : Bool
  pub reload_wanted : Bool
  pub start_wanted : Bool

-- The answers of `dg_agent_has_history` and `dg_agent_start` during one action.
pub record Answers : Type 0 where
  pub saved_at_stop : Bool
  pub saved_at_start : Bool
  pub start_ok : Bool

pub pm_session : Bool → Ctl → Ctl × List Call
pm_session hold c =
    if hold
    then (if c.pm_held then (c, []) else (record c { pm_held = true }, pm_lock true ∷ []))
    else (if c.pm_held then (record c { pm_held = false }, pm_lock false ∷ []) else (c, []))

-- `session_ctl_repaint_idle_status`.
pub repaint_idle_status : Bool → Ctl → List Call
repaint_idle_status saved c =
    if c.running
    then []
    else if c.start_failed
    then set_status error ∷ []
    else set_status (if saved then stopped_saved else stopped) ∷ []

pub do_stop : Answers → Ctl → Ctl × List Call
unfolding pm_session repaint_idle_status
do_stop a c =
    let (c', pm) = pm_session false (record c { running = false }) in
    if not c.running then (c, []) else (
      c',
      (suppress_state_events true
            ∷ set_status stopping
            ∷ capture_set_enabled false
            ∷ audio_flush
            ∷ agent_stop
            ∷ audio_flush
            ∷ audio_reset
            ∷ [])
          ++ (pm
              ++ (set_stopped true
                  ∷ (repaint_idle_status a.saved_at_stop c' ++ (flush_history ∷ [])))),
    )

pub do_start : Answers → Ctl → Ctl × List Call
unfolding pm_session
do_start a c =
    let (c1, held) = pm_session true (record c { start_failed = false }) in
    let (c2, released) = pm_session false (record c1 { start_failed = true }) in
    let opening =
      (suppress_state_events false
        ∷ set_stopped false
        ∷ set_status (if a.saved_at_start then resuming else connecting)
        ∷ [])
      ++ (held ++ (power_save_none ∷ agent_start ∷ [])) in
    if c.running
    then (c, [])
    else if a.start_ok
    then (record c1 { running = true }, opening ++ (capture_set_enabled true ∷ []))
    else (c2, opening ++ (set_stopped true ∷ set_status error ∷ released))

stop_start : Answers → Ctl → Ctl × List Call
unfolding do_stop do_start
stop_start a c =
    let (c1, calls1) = do_stop a c in let (c2, calls2) = do_start a c1 in (c2, calls1 ++ calls2)

-- The `switch`: the state and calls, and whether the action is charged a cooldown (`continue` or
-- `break`).
pub perform : Request → Answers → Ctl → Ctl × List Call × Bool
unfolding do_stop do_start stop_start
perform start a c = let (c', calls) = do_start a c in (c', calls, true)
perform toggle a c =
    let (c', calls) = if c.running then do_stop a c else do_start a c in (c', calls, true)
perform stop a c = let (c', calls) = if c.running then do_stop a c else (c, []) in (c', calls, true)
perform restart a c = let (c', calls) = stop_start a c in (c', calls, true)
perform reload_soon a c =
    let (c', calls) = stop_start a c in if c.running then (c', calls, true) else (c, [], false)
perform start_soon a c =
    let (c', calls) = do_start a c in if c.running then (c, [], false) else (c', calls, true)
perform reload a c = let (c', calls) = stop_start a c in (c', calls, true)

-- From the `switch` to the end of the loop's body, at `now_ms`.
unfoldable pub finish : Request → Answers → ℕ → Ctl → Ctl × List Call
unfolding perform
finish r a now_ms c =
    let (c', calls, charged) = perform r a c in
    let c'' = if charged then record c' { ready_at_ms = add32 now_ms cooldown_ms } else c' in
    (record c'' { busy = false; busy_since_ms = 0 }, calls)

-- The saves that ride alongside the requests: each test of a flag, which clears it, with whether
-- its call follows.
pub take_flush : Ctl → Ctl × Bool
take_flush c = (record c { flush_wanted = false }, c.flush_wanted)

pub take_ns_save : Ctl → Ctl × Bool
take_ns_save c = (record c { ns_save_wanted = false }, c.ns_save_wanted)

pub take_settings_save : Ctl → Ctl × Bool
take_settings_save c = (record c { settings_save_wanted = false }, c.settings_save_wanted)

saves : Ctl → Ctl × List Call
unfolding take_flush take_ns_save take_settings_save
saves c =
    let (c1, flush) = take_flush c in
    let (c2, ns) = take_ns_save c1 in
    let (c3, settings) = take_settings_save c2 in
    (
      c3,
      (if flush then flush_history ∷ [] else [])
          ++ ((if ns then ns_persist ∷ [] else [])
              ++ (if settings then settings_persist ∷ [] else [])),
    )

-- The state with the worker's task notification.
pub record System (Box : Type 0) : Type 0 where
  pub ctl : Ctl
  pub box : Box

module _ (M : Mailbox) where
  open M use {Box, empty, post, poke, take}

  -- A deferred reload becomes the request, or waits behind the one in hand.
  pub promote_reload : Option Request → System Box → Option Request × System Box
  promote_reload req s =
      let c = s.ctl in
      if c.reload_wanted
      then elim req [
        | none ↦ (some reload_soon, record s { ctl = record c { reload_wanted = false } })
        | some r ↦ (some r, record s { box = poke s.box })
      ]
      else (req, s)

  pub promote_start : Option Request → System Box → Option Request × System Box
  promote_start req s =
      let c = s.ctl in
      if c.start_wanted
      then elim req [
        | none ↦ (some start_soon, record s { ctl = record c { start_wanted = false } })
        | some r ↦ (some r, record s { box = poke s.box })
      ]
      else (req, s)

  pub raise_busy : Option Request → ℕ → Ctl → Ctl
  raise_busy none now_ms c = c
  raise_busy (some r) now_ms c = record c { busy_since_ms = now_ms; busy = true }

  -- From the wait to the saves, where nothing is asked meanwhile: `none` where the task blocks. The
  -- request in hand comes with it. Steps has the same tests one at a time, for a worker that other
  -- tasks interrupt.
  unfoldable pub wake : ℕ → System Box → Option (Option Request × System Box × List Call)
  unfolding promote_reload promote_start raise_busy saves
  wake now_ms s = elim (take s.box) [
    | none ↦ none
    | some req ↦
        let (req1, s1) = promote_reload req (record s { box = empty }) in
        let (req2, s2) = promote_start req1 s1 in
        let (c, calls) = saves (raise_busy req2 now_ms s2.ctl) in
        some (req2, record s2 { ctl = c }, calls)
  ]

  -- `request_now` and `session_ctl_request_reload`.
  unfoldable pub request_now : Request → System Box → System Box
  request_now r s = record s { box = post s.box r }

  -- `request`, for start, toggle, stop and restart.
  unfoldable pub request : Request → ℕ → System Box → System Box
  request r now_ms s =
      let cooling = leb half_range (sub32 now_ms s.ctl.ready_at_ms) in
      if s.ctl.busy || cooling then s else record s { box = post s.box r }

  -- The five requests that are flags, each with a wakeup that writes no value.
  unfoldable pub request_history_flush : System Box → System Box
  request_history_flush s =
      let c = s.ctl in record s { ctl = record c { flush_wanted = true }; box = poke s.box }

  unfoldable pub request_ns_save : System Box → System Box
  request_ns_save s =
      let c = s.ctl in record s { ctl = record c { ns_save_wanted = true }; box = poke s.box }

  unfoldable pub request_settings_save : System Box → System Box
  request_settings_save s =
      let c = s.ctl in record s { ctl = record c { settings_save_wanted = true }; box = poke s.box }

  unfoldable pub request_reload_soon : System Box → System Box
  request_reload_soon s =
      let c = s.ctl in record s { ctl = record c { reload_wanted = true }; box = poke s.box }

  unfoldable pub request_start_soon : System Box → System Box
  request_start_soon s =
      let c = s.ctl in record s { ctl = record c { start_wanted = true }; box = poke s.box }

-- `session_ctl_busy_for_ms`, from the flag and then the stamp as they were read.
unfoldable pub busy_for_ms : Bool → ℕ → ℕ → ℕ
busy_for_ms busy since now_ms = if not busy then 0 else if since == 0 then 0 else sub32 now_ms since
