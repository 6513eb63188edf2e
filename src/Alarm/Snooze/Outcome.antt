-- ===== src/Alarm/Snooze/Outcome.antt =====
-- What a snooze leaves.
use esp32_deepgram_voice_age.Common.{
  ℕ, ◌-◌, ◌*◌, ◌≤◌, min, ◌≡◌, refl, ap, ◌≢◌, ◌⊎◌, inl, inr, Bool, true, false, Option, none, some,
  arith, ◌==◌, lt→ltb, Option-cases, take,
}
use esp32_deepgram_voice_age.Common.Int.{ℤ, pos, ◌+ℤ◌}
use esp32_deepgram_voice_age.Alarm.{
  Entry, no_entry, alarm_timer, alarm_once, alarm_snooze_max_min, alarm_label_max,
}
use esp32_deepgram_voice_age.Alarm.Calendar.{Tm}
use esp32_deepgram_voice_age.Alarm.Ring.{Ring, Config, Actions, chime, idle, step, perform}
use esp32_deepgram_voice_age.Alarm.Ring.Sound.{Did, step-Did}
use esp32_deepgram_voice_age.Alarm.Table.{Table, first_empty, add}
use esp32_deepgram_voice_age.Alarm.Table.Adding.{Inv, Added, add-Added, add-full}
use esp32_deepgram_voice_age.Alarm.Snooze.{Loop, snooze_entry, add_snooze, snooze, ring_tick}

-- The entry that a snooze adds, whose label is the rung one's, cut to the buffer.
abbrev pub again : (ℤ → Tm) → Entry → ℤ → ℕ → Entry
again local rang now minutes =
    let at = now +ℤ pos (minutes * 60) in
    record no_entry {
      kind = alarm_once;
      hh = (local at).hour;
      mm = (local at).min;
      fire_epoch = at;
      label = take (alarm_label_max - 1) rang.label;
    }

snooze_entry-again :
    (local : ℤ → Tm) (rang : Entry) (now : ℤ) (minutes : ℕ)
    → (rang.kind == alarm_timer) ≡ false
    → 1 ≤ minutes
    → minutes ≤ alarm_snooze_max_min
    → snooze_entry local rang now minutes ≡ some (again local rang now minutes)
unfolding snooze_entry
snooze_entry-again local rang now minutes k l h = ground arith

add_snooze-some :
    (local : ℤ → Tm) (now : ℤ) (minutes : ℕ) (rang e : Entry) (t : Table) (slot : Option ℕ)
    → snooze_entry local rang now minutes ≡ some e
    → (add e t).0 ≡ slot
    → add_snooze local (some now) minutes rang t
      ≡ (elim slot [ none ↦ (false, t) | some i ↦ (true, (add e t).1) ])
unfolding add_snooze
add_snooze-some local now minutes rang e t slot h k = rw (h, add_snooze, k)

add_snooze-none :
    (local : ℤ → Tm) (now : ℤ) (minutes : ℕ) (rang : Entry) (t : Table)
    → snooze_entry local rang now minutes ≡ none
    → add_snooze local (some now) minutes rang t ≡ (false, t)
unfolding add_snooze
add_snooze-none local now minutes rang t h = rw (h, add_snooze)

add_snooze-Added :
    (local : ℤ → Tm) (now : ℤ) (minutes : ℕ) (rang : Entry) (t : Table) (i : ℕ)
    → (rang.kind == alarm_timer) ≡ false
    → 1 ≤ minutes
    → minutes ≤ alarm_snooze_max_min
    → Inv t
    → first_empty t.slots ≡ some i
    → let r = add_snooze local (some now) minutes rang t in
      (r.0 ≡ true) × Added (again local rang now minutes) t i r.1
add_snooze-Added local now minutes rang t i k l h v f =
    let e = again local rang now minutes in
    let (slot, added) = add-Added e t i v f in
    let named = snooze_entry-again local rang now minutes k l h in
    rw (add_snooze-some local now minutes rang e t (some i) named slot) (refl, added)

snoozed_ends :
    (r : Ring) (cfg : Config) (now_ms : ℕ) (playback stop : Bool) (a : Actions)
    → r.phase ≢ idle
    → let (r', acts) = step r cfg now_ms playback stop true in
      (r'.phase ≡ idle)
      × ((perform acts a).ringing ≡ false)
      × ((perform acts a).sounding ≡ false)
      × ((perform acts a).uplink_held ≡ false)
unfolding step perform
snoozed_ends r cfg now_ms playback stop a p = ground arith

-- A pass during a ring: the ring's step, told of a snooze only if one was added.
ring_tick-fields :
    (local : ℤ → Tm) (cfg : Config) (clock : Option ℤ) (now_ms : ℕ) (playback : Bool) (s : Loop)
    (added : Bool) (t : Table)
    → s.actions.ringing ≡ true
    → 1 ≤ s.snooze_req
    → add_snooze local clock s.snooze_req s.rang s.table ≡ (added, t)
    → ring_tick local cfg clock now_ms playback s ≡ record s {
      ring = (step s.ring cfg now_ms playback s.stop_req added).0;
      stop_req = false;
      snooze_req = 0;
      actions = perform (step s.ring cfg now_ms playback s.stop_req added).1 s.actions;
      table = t;
    }
unfolding ring_tick
ring_tick-fields local cfg clock now_ms playback s added t g l e =
    ground (arith, lt→ltb 0 s.snooze_req l)

ring_tick-snoozed :
    (local : ℤ → Tm) (cfg : Config) (now : ℤ) (now_ms : ℕ) (playback : Bool) (s : Loop) (i : ℕ)
    → s.actions.ringing ≡ true
    → s.ring.phase ≢ idle
    → (s.rang.kind == alarm_timer) ≡ false
    → 1 ≤ s.snooze_req
    → s.snooze_req ≤ alarm_snooze_max_min
    → Inv s.table
    → first_empty s.table.slots ≡ some i
    → let u = ring_tick local cfg (some now) now_ms playback s in
      (u.ring.phase ≡ idle)
      × (u.actions.ringing ≡ false)
      × (u.actions.sounding ≡ false)
      × (u.actions.uplink_held ≡ false)
      × (u.snooze_req ≡ 0)
      × (u.stop_req ≡ false)
      × Added (again local s.rang now s.snooze_req) s.table i u.table
ring_tick-snoozed local cfg now now_ms playback s i g p k l h v f =
    let (e, a) = add_snooze-Added local now s.snooze_req s.rang s.table i k l h v f in
    let r = add_snooze local (some now) s.snooze_req s.rang s.table in
    let pair : r ≡ (true, r.1) = ap (λ o. (o, r.1)) e in
    let (q, o, d, w) = snoozed_ends s.ring cfg now_ms playback s.stop_req s.actions p in
    rw (ring_tick-fields local cfg (some now) now_ms playback s true r.1 g l pair)
      (q, o, d, w, refl, refl, a)

snooze-asked :
    (minutes : ℕ) (s : Loop)
    → s.actions.ringing ≡ true
    → (s.rang.kind == alarm_timer) ≡ false
    → 1 ≤ minutes
    → snooze minutes s ≡ record s {
      snooze_req = min minutes alarm_snooze_max_min;
      actions = record s.actions { sounding = false };
    }
unfolding snooze
snooze-asked minutes s g k l = ground arith

-- Snoozing a ringing alarm, not a timer, for at least a minute, with a known clock and a free slot:
-- the next pass of the loop ends the ring, in any phase and also if a stop was asked for, with the
-- tone off and the uplink open; and a free slot holds, under a new id, a one-shot alarm for that
-- many minutes after now, but for 60 at most, with the same label. Both requests are taken off.
pub snooze-granted :
    (local : ℤ → Tm) (cfg : Config) (now : ℤ) (now_ms : ℕ) (playback : Bool) (s : Loop) (i : ℕ)
    (minutes : ℕ)
    → s.actions.ringing ≡ true
    → s.ring.phase ≢ idle
    → (s.rang.kind == alarm_timer) ≡ false
    → 1 ≤ minutes
    → Inv s.table
    → first_empty s.table.slots ≡ some i
    → let u = ring_tick local cfg (some now) now_ms playback (snooze minutes s) in
      (u.ring.phase ≡ idle)
      × (u.actions.ringing ≡ false)
      × (u.actions.sounding ≡ false)
      × (u.actions.uplink_held ≡ false)
      × (u.snooze_req ≡ 0)
      × (u.stop_req ≡ false)
      × Added (again local s.rang now (min minutes alarm_snooze_max_min)) s.table i u.table
snooze-granted local cfg now now_ms playback s i minutes g p k l v f =
    let m = min minutes alarm_snooze_max_min in
    let asked : Loop = record s {
      snooze_req = m;
      actions = record s.actions { sounding = false };
    } in
    rw (snooze-asked minutes s g k l) (
      ring_tick-snoozed local cfg now now_ms playback asked i g p k (omega arith) (omega arith) v f)

add_snooze-full :
    (local : ℤ → Tm) (now : ℤ) (minutes : ℕ) (rang : Entry) (t : Table)
    → first_empty t.slots ≡ none
    → add_snooze local (some now) minutes rang t ≡ (false, t)
add_snooze-full local now minutes rang t f =
    elim (Option-cases (snooze_entry local rang now minutes)) [
      | inl e ↦ add_snooze-none local now minutes rang t e
      | inr (e, h) ↦
          add_snooze-some local now minutes rang e t none h (ap (λ r. r.0) (add-full e t f))
    ]

add_snooze-refused :
    (local : ℤ → Tm) (clock : Option ℤ) (s : Loop)
    → (clock ≡ none) ⊎ (first_empty s.table.slots ≡ none)
    → add_snooze local clock s.snooze_req s.rang s.table ≡ (false, s.table)
unfolding add_snooze
add_snooze-refused local none s h = refl
add_snooze-refused local (some now) s (inl h) = cc h
add_snooze-refused local (some now) s (inr h) =
    add_snooze-full local now s.snooze_req s.rang s.table h

ring_tick-unasked :
    (local : ℤ → Tm) (cfg : Config) (clock : Option ℤ) (now_ms : ℕ) (playback : Bool) (s : Loop)
    → s.actions.ringing ≡ true
    → ring_tick local cfg clock now_ms playback (record s { snooze_req = 0 }) ≡ record s {
      ring = (step s.ring cfg now_ms playback s.stop_req false).0;
      stop_req = false;
      snooze_req = 0;
      actions = perform (step s.ring cfg now_ms playback s.stop_req false).1 s.actions;
    }
unfolding ring_tick
ring_tick-unasked local cfg clock now_ms playback s g = ground arith

-- What alarms_snooze has done by then: the tone is off.
abbrev pub hushed : Loop → Loop
hushed s = record s { snooze_req = 0; actions = record s.actions { sounding = false } }

-- A tone that is off sounds only if CHIME is entered.
stays_quiet :
    (r r' : Ring) (acts : ℕ) (d : Actions)
    → d.sounding ≡ false
    → Did r r' acts
    → ((perform acts d).sounding ≡ false) ⊎ ((r.phase ≢ chime) × (r'.phase ≡ chime))
unfolding perform
stays_quiet r _ _ d q (Did.stays r' p a) = inl q
stays_quiet r _ _ d q (Did.chimes r' i n p a) = inr (n, p)
stays_quiet r _ _ d q (Did.drains r' i p a) = inl refl
stays_quiet r _ _ d q (Did.speaks r' p e a) = inl q
stays_quiet r _ _ d q (Did.falls_silent r' i p a) = inl refl
stays_quiet r _ _ d q (Did.ends r' i p a) = inl refl

-- A snooze of a ringing alarm, not a timer, for at least a minute, with no known clock or no free
-- slot: the next pass of the loop leaves the table as it was, takes both requests off, and steps the
-- ring as if only a stop had been asked for, if that was; but the tone that alarms_snooze stopped
-- stays off, also in CHIME, unless that pass enters CHIME.
pub snooze-refused :
    (local : ℤ → Tm) (cfg : Config) (clock : Option ℤ) (now_ms : ℕ) (playback : Bool) (s : Loop)
    (minutes : ℕ)
    → s.actions.ringing ≡ true
    → (s.rang.kind == alarm_timer) ≡ false
    → 1 ≤ minutes
    → (clock ≡ none) ⊎ (first_empty s.table.slots ≡ none)
    → let u = ring_tick local cfg clock now_ms playback (snooze minutes s) in
      let w = ring_tick local cfg clock now_ms playback (record s { snooze_req = 0 }) in
      (u.table ≡ s.table)
      × (u.ring ≡ w.ring)
      × (u.snooze_req ≡ 0)
      × (u.stop_req ≡ false)
      × (u.actions
          ≡ perform (step s.ring cfg now_ms playback s.stop_req false).1 (hushed s).actions)
      × ((u.actions.sounding ≡ false) ⊎ ((s.ring.phase ≢ chime) × (u.ring.phase ≡ chime)))
snooze-refused local cfg clock now_ms playback s minutes g k l h =
    let asked : Loop = record s {
      snooze_req = min minutes alarm_snooze_max_min;
      actions = record s.actions { sounding = false };
    } in
    let none_added = add_snooze-refused local clock asked h in
    let (r, acts) = step s.ring cfg now_ms playback s.stop_req false in
    let quiet =
      stays_quiet s.ring r acts (hushed s).actions refl
        (step-Did s.ring cfg now_ms playback s.stop_req false) in
    rw
      (
        snooze-asked minutes s g k l,
        ring_tick-fields local cfg clock now_ms playback asked false s.table g (omega arith)
            none_added,
        ring_tick-unasked local cfg clock now_ms playback s g,
      )
      (refl, refl, refl, refl, refl, quiet)
