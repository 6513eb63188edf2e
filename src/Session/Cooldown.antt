-- ===== src/Session/Cooldown.antt =====
-- The debounce of main/session_ctl.c: when a gesture is taken.
use esp32_deepgram_voice_age.Common.{
  ℕ, ◌+◌, ◌^◌, ◌<◌, ◌≡◌, Bool, not, false, ◌&&◌, arith, ltb, leb, if◌then◌else◌, add32,
}
use esp32_deepgram_voice_age.Session.Requests.{Request, Mailbox, reload_soon, start_soon}
use esp32_deepgram_voice_age.Session.{
  cooldown_ms, half_range, Ctl, Answers, System, finish, request,
}

-- A deferred request that finds nothing to do: a reload with no session, a start with one.
abbrev pub is_noop : Request → Bool → Bool
is_noop reload_soon running = not running
is_noop start_soon running = running
is_noop _ _ = false

-- A deferred request that finds nothing to do leaves the moment from which gestures are taken;
-- every other request moves it to 1500 ms after its own end. Either way the worker is idle
-- afterwards.
pub finish-ready_at :
    (r : Request) (a : Answers) (now_ms : ℕ) (c : Ctl)
    → ((finish r a now_ms c).0.ready_at_ms
        ≡ (if is_noop r c.running then c.ready_at_ms else add32 now_ms cooldown_ms))
      × ((finish r a now_ms c).0.busy ≡ false)
unfolding finish
finish-ready_at r a now_ms c = ground arith

module _ (M : Mailbox) where
  open M use {Box, post}

  -- `d` ms after an action that was charged a cooldown ended, with the worker idle, a gesture is
  -- taken exactly when 1500 ≤ d < 2147485147, for every d below 2 ^ 32; otherwise nothing changes.
  pub request_window :
      (r : Request) (t d : ℕ) (s : System Box)
      → t < 2 ^ 32
      → d < 2 ^ 32
      → s.ctl.busy ≡ false
      → s.ctl.ready_at_ms ≡ add32 t cooldown_ms
      → request M r (add32 t d) s ≡ (
          if leb cooldown_ms d && ltb d (cooldown_ms + half_range)
          then record s { box = post s.box r }
          else s)
  unfolding request
  request_window r t d s ht hd b e = ground arith
