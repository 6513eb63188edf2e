-- ===== src/Alarm/Ring/Sound.antt =====
-- What a ring does to the speaker and the microphone.
use esp32_deepgram_voice_age.Common.{ℕ, ◌<◌, ◌≡◌, ◌≢◌, ◌⊎◌, Bool, true, false, not, ◌&&◌, arith}
use esp32_deepgram_voice_age.Alarm.Ring.{
  Phase, idle, chime, drain, speak, silent, Config, Ring, Actions, begin, step, perform,
}

abbrev pub is_chime : Phase → Bool
is_chime chime = true
is_chime _ = false

-- The tone sounds in CHIME, unless it was hushed since that began, and nowhere else, and only while
-- the microphone uplink is held; the uplink is open while the agent speaks and in silence; the ring
-- is over exactly in IDLE; an announcement was queued exactly if the ring says so.
pub record Safe (r : Ring) (d : Actions) (hushed : Bool) : Type 0 where
  pub sounds : d.sounding ≡ is_chime r.phase && not hushed
  pub chime_held : r.phase ≡ chime → d.uplink_held ≡ true
  pub speech_heard :
      (r.phase ≡ speak) ⊎ ((r.phase ≡ silent) ⊎ (r.phase ≡ idle)) → d.uplink_held ≡ false
  pub over : (d.ringing ≡ false → r.phase ≡ idle) × (r.phase ≡ idle → d.ringing ≡ false)
  pub told :
      (r.announced ≡ true → 0 < d.announcements) × (r.announced ≡ false → d.announcements ≡ 0)
  pub speaking : r.phase ≡ speak → r.announced ≡ true

-- A hush lasts until CHIME is entered anew.
abbrev pub after_step : Ring → Ring → Bool → Bool
after_step r r' hushed = hushed && not (is_chime r'.phase && not (is_chime r.phase))

pub begin-Safe :
    (now_ms : ℕ) (live : Bool) (d : Actions)
    → d.sounding ≡ false
    → d.ringing ≡ true
    → d.announcements ≡ 0
    → Safe (begin now_ms live).0 (perform (begin now_ms live).1 d) false
unfolding begin perform
begin-Safe now_ms live d s g a = ground arith

-- What a step does: nothing, or it enters a phase with that phase's actions.
pub data Did (r : Ring) : Ring → ℕ → Type 0 where
  stays : (r' : Ring) → r'.phase ≡ r.phase → r'.announced ≡ r.announced → Did r r' 0
  chimes :
      (r' : Ring)
      → r.phase ≢ idle
      → r.phase ≢ chime
      → r'.phase ≡ chime
      → r'.announced ≡ r.announced
      → Did r r' 0x05
  drains :
      (r' : Ring) → r.phase ≢ idle → r'.phase ≡ drain → r'.announced ≡ r.announced → Did r r' 0x02
  speaks : (r' : Ring) → r.phase ≡ drain → r'.phase ≡ speak → r'.announced ≡ true → Did r r' 0x18
  falls_silent :
      (r' : Ring) → r.phase ≢ idle → r'.phase ≡ silent → r'.announced ≡ r.announced → Did r r' 0x0a
  ends : (r' : Ring) → r.phase ≢ idle → r'.phase ≡ idle → r'.announced ≡ r.announced → Did r r' 0x2a

ruleset outcomes = (stays, chimes, drains, speaks, falls_silent, ends)

pub step-Did :
    (r : Ring) (cfg : Config) (now_ms : ℕ) (playback stop snooze : Bool)
    → let s = step r cfg now_ms playback stop snooze in Did r s.0 s.1
unfolding step
step-Did r cfg now_ms playback stop snooze = grind (arith, outcomes)

Did-Safe :
    (r r' : Ring) (acts : ℕ) (d : Actions) (hushed : Bool)
    → Did r r' acts
    → Safe r d hushed
    → Safe r' (perform acts d) (after_step r r' hushed)
unfolding perform
Did-Safe r _ _ d hushed (stays r' p a) v = ground arith
Did-Safe r _ _ d hushed (chimes r' q n p a) v = ground arith
Did-Safe r _ _ d hushed (drains r' q p a) v = ground arith
Did-Safe r _ _ d hushed (speaks r' q p a) v = ground arith
Did-Safe r _ _ d hushed (falls_silent r' q p a) v = ground arith
Did-Safe r _ _ d hushed (ends r' q p a) v = ground arith

-- A step of the ring, whatever is asked of it.
pub step-Safe :
    (r : Ring) (cfg : Config) (now_ms : ℕ) (playback stop snooze : Bool) (d : Actions)
    (hushed : Bool)
    → Safe r d hushed
    → let s = step r cfg now_ms playback stop snooze in
      Safe s.0 (perform s.1 d) (after_step r s.0 hushed)
step-Safe r cfg now_ms playback stop snooze d hushed v =
    let s = step r cfg now_ms playback stop snooze in
    Did-Safe r s.0 s.1 d hushed (step-Did r cfg now_ms playback stop snooze) v
