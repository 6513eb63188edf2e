-- ===== src/Session/Wakeups.antt =====
-- The passes of the worker after a request that rides on a flag.
use esp32_deepgram_voice_age.Common.{
  ℕ, zero, suc, ◌≤◌, ◌<◌, ◌≡◌, refl, ◌≢◌, ◌⊎◌, inl, inr, true, false, Option, none, some, arith,
  if◌then◌else◌, Option-cases,
}
use esp32_deepgram_voice_age.Session.Requests.{Request, Mailbox}
use esp32_deepgram_voice_age.Session.{
  Answers, System, finish, wake, request_now, request, request_history_flush, request_ns_save,
  request_settings_save, request_reload_soon, request_start_soon,
}

-- The requests as other tasks make them.
pub data Ask : Type 0 where
  ask_now ask : Request → Ask
  ask_flush ask_ns_save ask_settings_save ask_reload_soon ask_start_soon : Ask

module _ (M : Mailbox) where
  open M use {Box, empty, post, poke, take, take-empty, take-post, take-poke_some, take-poke_none}

  unfoldable pub asked : Ask → ℕ → System Box → System Box
  asked (ask_now r) now_ms s = request_now M r s
  asked (ask r) now_ms s = request M r now_ms s
  asked ask_flush now_ms s = request_history_flush M s
  asked ask_ns_save now_ms s = request_ns_save M s
  asked ask_settings_save now_ms s = request_settings_save M s
  asked ask_reload_soon now_ms s = request_reload_soon M s
  asked ask_start_soon now_ms s = request_start_soon M s

  unfoldable pub finished : Request → Answers → ℕ → System Box → System Box
  finished r a now_ms s = record s { ctl = (finish r a now_ms s.ctl).0 }

  pub poke_wakes : (b : Box) → take (poke b) ≢ none
  poke_wakes b e = elim (Option-cases (take b)) [
    | inl p ↦ cc (take-poke_none b p)
    | inr p ↦ cc (take-poke_some b p.0 p.1)
  ]

  -- One whole pass of the worker's loop, with nothing asked meanwhile.
  pub pass : Answers → ℕ → System Box → System Box
  pass a now_ms s = elim (wake M now_ms s) [
    | none ↦ s
    | some (none, t, calls) ↦ t
    | some (some r, t, calls) ↦ finished r a now_ms t
  ]

  -- A wanted start was carried out: nothing of it is left to do, and a session runs.
  abbrev pub Served : System Box → Type 0
  Served s = (s.ctl.running ≡ true) × (s.ctl.start_wanted ≡ false)

  -- How many passes a wanted start may still have to wait for.
  abbrev rank : System Box → Option (Option Request) → ℕ
  rank s none = 0
  rank s (some none) = if s.ctl.reload_wanted then 2 else 1
  rank s (some (some r)) = 3

  -- The start is done, or is still wanted, nearer, and with a wakeup pending.
  abbrev Nearer : System Box → System Box → Type 0
  Nearer s t =
      Served t
      ⊎ ((t.ctl.start_wanted ≡ true)
          × (take t.box ≢ none)
          × (rank t (take t.box) < rank s (take s.box)))

  poke_once : take (poke empty) ≡ some none
  poke_once = take-poke_none empty take-empty

  poke_twice : take (poke (poke empty)) ≡ some none
  poke_twice = take-poke_some (poke empty) none poke_once

  pass-Nearer :
      (a : Answers) (now_ms : ℕ) (s : System Box)
      → a.start_ok ≡ true
      → s.ctl.start_wanted ≡ true
      → take s.box ≢ none
      → Nearer s (pass a now_ms s)
  unfolding pass wake finished finish
  pass-Nearer a now_ms s ok w b = ground (arith, poke_once, poke_twice)

  -- `n` passes, each ending with a start that would succeed.
  pub passes : ℕ → Answers → ℕ → System Box → System Box
  passes zero a now_ms s = s
  passes (suc n) a now_ms s = passes n a now_ms (pass a now_ms s)

  Served-within :
      (n : ℕ) (a : Answers) (now_ms : ℕ) (s : System Box)
      → a.start_ok ≡ true
      → s.ctl.start_wanted ≡ true
      → take s.box ≢ none
      → rank s (take s.box) < suc n
      → (k : ℕ) × (k ≤ suc n) × Served (passes k a now_ms s)
  unfolding passes
  Served-within zero a now_ms s ok w b h = absurd (ground arith)
  Served-within (suc n) a now_ms s ok w b h = elim (pass-Nearer a now_ms s ok w b) [
    | inl done ↦ (1, omega arith, done)
    | inr t ↦
        let (k, le, done) =
          Served-within n a now_ms (pass a now_ms s) ok t.0 t.1 (omega (arith, t.2)) in
        (suc k, omega arith, done)
  ]

  -- A start asked for by `session_ctl_request_start_soon`, as an alarm asks, is carried out within
  -- four passes of the worker, whatever request and whatever other deferred work was pending, if
  -- starting the agent succeeds and nothing is asked between the passes: then a session runs and
  -- the start is no longer wanted.
  pub request_start_soon-Served :
      (a : Answers) (now_ms : ℕ) (s : System Box)
      → a.start_ok ≡ true
      → (k : ℕ) × (k ≤ 4) × Served (passes k a now_ms (request_start_soon M s))
  unfolding request_start_soon
  request_start_soon-Served a now_ms s ok =
      let t = request_start_soon M s in
      Served-within 3 a now_ms t ok refl (poke_wakes s.box) (ground arith)
