-- ===== src/Alarm/Snooze/Sound.antt =====
-- What a ring does to the speaker and the microphone, with what is asked of it between the passes of
-- the alarm loop.
use esp32_deepgram_voice_age.Common.{
  ℕ, ◌≡◌, refl, sym, subst, Bool, true, false, not, ◌&&◌, ◌||◌, Option, List, [], ◌∷◌, arith, ltb,
  ◌==◌, if◌then◌else◌,
}
use esp32_deepgram_voice_age.Common.Int.{ℤ}
use esp32_deepgram_voice_age.Alarm.{Entry, alarm_timer, alarm_snooze_max_min}
use esp32_deepgram_voice_age.Alarm.Calendar.{Tm}
use esp32_deepgram_voice_age.Alarm.Ring.{Ring, Config, Actions, step, perform}
use esp32_deepgram_voice_age.Alarm.Ring.Sound.{Safe, begin-Safe, step-Safe, after_step}
use esp32_deepgram_voice_age.Alarm.Table.{Table}
use esp32_deepgram_voice_age.Alarm.Snooze.{Loop, dismiss, snooze, start_ring, ring_tick, add_snooze}

-- `alarms_dismiss` and `alarms_snooze`, from any task, and a pass of the alarm loop, with what
-- clock_now answers.
pub data Event : Type 0 where
  dismisses : Event
  snoozes : ℕ → Event
  passes : Option ℤ → ℕ → Bool → Event

unfoldable pub happen : (ℤ → Tm) → Config → Event → Loop → Loop
happen local cfg dismisses s = dismiss s
happen local cfg (snoozes minutes) s = snooze minutes s
happen local cfg (passes clock now_ms playback) s = ring_tick local cfg clock now_ms playback s

-- Whether a dismissal or a snooze was taken since CHIME began.
unfoldable pub hush : (ℤ → Tm) → Config → Event → Loop → Bool → Bool
unfolding happen
hush local cfg dismisses s hushed = s.actions.ringing || hushed
hush local cfg (snoozes minutes) s hushed =
    (s.actions.ringing && (not (s.rang.kind == alarm_timer) && ltb 0 minutes)) || hushed
hush local cfg (passes clock now_ms playback) s hushed =
    after_step s.ring (ring_tick local cfg clock now_ms playback s).ring hushed

unfoldable pub run : (ℤ → Tm) → Config → List Event → Loop × Bool → Loop × Bool
unfolding happen hush
run local cfg [] w = w
run local cfg (e ∷ es) (s, hushed) =
    run local cfg es (happen local cfg e s, hush local cfg e s hushed)

abbrev pub IsSafe : Loop → Bool → Type 0
IsSafe s hushed = Safe s.ring s.actions hushed

hushed_now :
    (r : Ring) (d : Actions) (hushed taken : Bool)
    → Safe r d hushed
    → Safe r (if taken then record d { sounding = false } else d) (taken || hushed)
hushed_now r d hushed true v = ground arith
hushed_now r d hushed false v = v

same_phase : (r : Ring) (hushed : Bool) → after_step r r hushed ≡ hushed
same_phase r hushed = ground arith

dismissed :
    (s : Loop) (hushed ringing : Bool)
    → IsSafe s hushed
    → IsSafe
        (if ringing
          then record s { stop_req = true; actions = record s.actions { sounding = false } }
          else s)
        (ringing || hushed)
dismissed s hushed true v = hushed_now s.ring s.actions hushed true v
dismissed s hushed false v = v

snoozed :
    (s : Loop) (hushed taken : Bool) (req : ℕ)
    → IsSafe s hushed
    → IsSafe
        (if taken
          then record s { snooze_req = req; actions = record s.actions { sounding = false } }
          else s)
        (taken || hushed)
snoozed s hushed true req v = hushed_now s.ring s.actions hushed true v
snoozed s hushed false req v = v

passed :
    (s u : Loop) (hushed ringing : Bool)
    → IsSafe s hushed
    → IsSafe u (after_step s.ring u.ring hushed)
    → let s' = if not ringing then s else u in IsSafe s' (after_step s.ring s'.ring hushed)
passed s u hushed true v w = w
passed s u hushed false v w = subst (IsSafe s) (sym (same_phase s.ring hushed)) v

module _ (local : ℤ → Tm) (cfg : Config) where
  happen-IsSafe :
      (e : Event) (s : Loop) (hushed : Bool)
      → IsSafe s hushed
      → IsSafe (happen local cfg e s) (hush local cfg e s hushed)
  unfolding happen hush dismiss snooze ring_tick
  happen-IsSafe dismisses s hushed v = dismissed s hushed s.actions.ringing v
  happen-IsSafe (snoozes minutes) s hushed v =
      snoozed s hushed (s.actions.ringing && (not (s.rang.kind == alarm_timer) && ltb 0 minutes))
        (if ltb alarm_snooze_max_min minutes then alarm_snooze_max_min else minutes) v
  happen-IsSafe (passes clock now_ms playback) s hushed v =
      let (added, t) : Bool × Table =
        if ltb 0 s.snooze_req
        then add_snooze local clock s.snooze_req s.rang s.table
        else (false, s.table) in
      let (r, acts) = step s.ring cfg now_ms playback s.stop_req added in
      passed s
        (record s {
          ring = r;
          stop_req = false;
          snooze_req = 0;
          actions = perform acts s.actions;
          table = t;
        })
        hushed s.actions.ringing v
        (step-Safe s.ring cfg now_ms playback s.stop_req added s.actions hushed v)

  run_from-IsSafe :
      (es : List Event) (s : Loop) (hushed : Bool)
      → IsSafe s hushed
      → let (s', hushed') = run local cfg es (s, hushed) in IsSafe s' hushed'
  unfolding run
  run_from-IsSafe [] s hushed v = v
  run_from-IsSafe (e ∷ es) s hushed v =
      run_from-IsSafe es (happen local cfg e s) (hush local cfg e s hushed)
        (happen-IsSafe e s hushed v)

  start_quiet :
      (e : Entry) (now_ms : ℕ) (live : Bool) (s : Loop)
      → s.actions.ringing ≡ false
      → s.actions.sounding ≡ false
      → s.actions.announcements ≡ 0
      → IsSafe (start_ring e now_ms live s) false
  unfolding start_ring
  start_quiet e now_ms live s g q n =
      begin-Safe now_ms live
        (record (if s.actions.ringing then record s.actions { sounding = false } else s.actions) {
          ringing = true;
        })
        (ground arith) refl (ground arith)

  -- From the start of a ring and through any dismissals, snoozes and passes of the alarm loop, in any
  -- order: the tone sounds exactly in CHIME while no dismissal and no snooze has been taken since
  -- that began, and only with the microphone uplink held; the uplink is open while the agent speaks,
  -- in silence and after the ring; `s_ringing` falls exactly when the cycle is idle; and the ring
  -- counts itself announced exactly when an announcement was queued.
  pub run-IsSafe :
      (e : Entry) (now_ms : ℕ) (live : Bool) (s : Loop) (es : List Event)
      → s.actions.ringing ≡ false
      → s.actions.sounding ≡ false
      → s.actions.announcements ≡ 0
      → let (s', hushed) = run local cfg es (start_ring e now_ms live s, false) in IsSafe s' hushed
  run-IsSafe e now_ms live s es g q n =
      run_from-IsSafe es (start_ring e now_ms live s) false (start_quiet e now_ms live s g q n)
