-- ===== src/Alarm/Table/Due.antt =====
-- What `alarms_tick` fires, and what it leaves.
use esp32_deepgram_voice_age.Common.{
  ℕ, zero, suc, ◌-◌, ◌<◌, ◌≡◌, refl, ◌≢◌, ◌⊎◌, inl, inr, Bool, true, false, ◌&&◌, Option, none,
  some, List, [], ◌∷◌, arith, ◌==◌, if◌then◌else◌, Bool-cases, Option-cases, length, get_or, set,
  All, get_or-set_self, get_or-set_ne,
}
use esp32_deepgram_voice_age.Common.Int.{ℤ, pos, ◌+ℤ◌, ◌≤ℤ◌, ◌<ℤ◌, leb_ℤ, +ℤ_parts}
use esp32_deepgram_voice_age.Alarm.{
  Entry, alarm_timer, alarm_once, alarm_weekly, alarm_miss_window_s, is_stale,
}
use esp32_deepgram_voice_age.Alarm.Table.{
  Slot, Table, empty_slot, reconcile_slot, is_due, first_due, settle, fire, tick,
}

-- Slot `i` is due, and no slot before it is.
pub record FirstDue (due : Slot → Bool) (ss : List Slot) (i : ℕ) : Type 0 where
  pub in_table : i < length ss
  pub is_due_now : due (get_or ss i empty_slot) ≡ true
  pub first : (j : ℕ) → j < i → due (get_or ss j empty_slot) ≡ false

first_due_cases :
    (valid : Bool) (now : ℤ) (mono : ℕ) (rec : Bool) (s : Slot) (ss : List Slot) (i : ℕ)
    → first_due valid now mono rec (s ∷ ss) ≡ some i
    → ((i ≡ 0) × (is_due valid now mono rec s ≡ true))
      ⊎ ((is_due valid now mono rec s ≡ false)
          × (i ≡ suc (i - 1))
          × (first_due valid now mono rec ss ≡ some (i - 1)))
unfolding first_due
first_due_cases valid now mono rec s ss i e = ground arith

FirstDue-cons :
    (due : Slot → Bool) (s : Slot) (ss : List Slot) (i : ℕ)
    → due s ≡ false
    → FirstDue due ss i
    → FirstDue due (s ∷ ss) (suc i)
FirstDue-cons due s ss i no_due f = record {
  in_table = omega (arith, f.in_table);
  is_due_now = f.is_due_now;
  first = before;
}
  where
    before : (j : ℕ) → j < suc i → due (get_or (s ∷ ss) j empty_slot) ≡ false
    before zero h = no_due
    before (suc j) h = f.first j (omega arith)

-- The alarm that a pass of the loop fires is the first one that is due.
pub first_due-FirstDue :
    (valid : Bool) (now : ℤ) (mono : ℕ) (rec : Bool) (ss : List Slot) (i : ℕ)
    → first_due valid now mono rec ss ≡ some i
    → FirstDue (is_due valid now mono rec) ss i
first_due-FirstDue valid now mono rec [] i e = absurd (unfold first_due in e_none e)
  where
    e_none : ◌≡◌ {A = Option ℕ} none (some i) → ⊥
    e_none q = cc
first_due-FirstDue valid now mono rec (s ∷ ss) i e =
    elim (first_due_cases valid now mono rec s ss i e) [
      | inl (at_0, due) ↦
          rw at_0 (record {
            in_table = omega arith;
            is_due_now = due;
            first = λ j h. absurd (omega arith);
          })
      | inr (not_due, up, rest) ↦ rw up (
          FirstDue-cons _ s ss (i - 1) not_due
            (first_due-FirstDue valid now mono rec ss (i - 1) rest))
    ]

-- Nothing fires only where nothing is due.
pub first_due-none :
    (valid : Bool) (now : ℤ) (mono : ℕ) (rec : Bool) (ss : List Slot)
    → first_due valid now mono rec ss ≡ none
    → All (λ s. is_due valid now mono rec s ≡ false) ss
unfolding first_due
first_due-none valid now mono rec [] e = tt
first_due-none valid now mono rec (s ∷ ss) e = ground (arith, first_due-none valid now mono rec ss)

module _ (next_local : ℤ → ℕ → ℕ → ℕ → ℤ) where
  -- The table as `alarms_tick` searches it.
  abbrev pub searched : Bool → ℤ → ℕ → ℕ → Table → Table
  searched valid now gen mono t = if valid then settle next_local now gen mono t else t

  -- What becomes of the slot that fired: it is emptied, or with the clock known a weekly alarm
  -- keeps all but its instant.
  abbrev pub spent : Bool → ℤ → Slot → Slot
  spent valid now s =
      let e = s.entry in
      if e.kind == alarm_weekly && valid
      then record s { entry = record e { fire_epoch = next_local now e.hh e.mm e.dow_mask } }
      else empty_slot

  fire-slots :
      (valid : Bool) (now : ℤ) (mono i : ℕ) (t : Table)
      → (fire next_local valid now mono i t).slots
        ≡ set t.slots i (spent valid now (get_or t.slots i empty_slot))
  unfolding fire
  fire-slots valid now mono i t =
      elim (Bool-cases ((get_or t.slots i empty_slot).entry.kind == alarm_weekly && valid)) [
        | inl e ↦ rw e (ground arith)
        | inr e ↦ rw e (ground arith)
      ]

  -- A pass fired the entry of slot `i`, found in table `t`, and left `u`.
  pub record Fired (valid : Bool) (now : ℤ) (mono : ℕ) (t u : Table) (e : Entry) (i : ℕ)
      : Type 0 where
    pub first_due_is : FirstDue (is_due valid now mono t.reconciled) t.slots i
    pub fired_is : (get_or t.slots i empty_slot).entry ≡ e
    pub spent_is : get_or u.slots i empty_slot ≡ spent valid now (get_or t.slots i empty_slot)
    pub others : (j : ℕ) → i ≢ j → get_or u.slots j empty_slot ≡ get_or t.slots j empty_slot

  fire-Fired :
      (valid : Bool) (now : ℤ) (mono i : ℕ) (t : Table)
      → FirstDue (is_due valid now mono t.reconciled) t.slots i
      → Fired valid now mono t
          (fire next_local valid now mono i t)
          (get_or t.slots i empty_slot).entry
          i
  fire-Fired valid now mono i t f = record {
    first_due_is = f;
    fired_is = refl;
    spent_is =
        rw (fire-slots valid now mono i t) (get_or-set_self t.slots i _ empty_slot f.in_table);
    others = λ j n. rw (fire-slots valid now mono i t) (get_or-set_ne t.slots i j _ empty_slot n);
  }

  tick-none :
      (valid : Bool) (now : ℤ) (gen mono : ℕ) (t : Table)
      → let t1 = searched valid now gen mono t in
        first_due valid now mono t1.reconciled t1.slots ≡ none
        → tick next_local valid now gen mono t ≡ (none, t1)
  unfolding tick
  tick-none valid now gen mono t e = rw (e, tick)

  tick-some :
      (valid : Bool) (now : ℤ) (gen mono i : ℕ) (t : Table)
      → let t1 = searched valid now gen mono t in
        first_due valid now mono t1.reconciled t1.slots ≡ some i
        → tick next_local valid now gen mono t
          ≡ (some ((get_or t1.slots i empty_slot).entry), fire next_local valid now mono i t1)
  unfolding tick
  tick-some valid now gen mono i t e = rw (e, tick)

  -- A pass of the loop, once the table is settled with the clock, either finds nothing due and
  -- changes nothing more, or fires the first entry that is due: that slot alone changes, and it is
  -- emptied unless it is a weekly alarm under a known clock, which moves to its next instant.
  pub tick-outcome :
      (valid : Bool) (now : ℤ) (gen mono : ℕ) (t : Table)
      → let t1 = searched valid now gen mono t in
        let r = tick next_local valid now gen mono t in
        ((r ≡ (none, t1)) × All (λ s. is_due valid now mono t1.reconciled s ≡ false) t1.slots)
        ⊎ ((i : ℕ) × (e : Entry) × (r.0 ≡ some e) × Fired valid now mono t1 r.1 e i)
  tick-outcome valid now gen mono t =
      let t1 = searched valid now gen mono t in
      elim (Option-cases (first_due valid now mono t1.reconciled t1.slots)) [
        | inl quiet ↦ inl (
          tick-none valid now gen mono t quiet,
          first_due-none valid now mono t1.reconciled t1.slots quiet,
        )
        | inr (i, found) ↦ rw (tick-some valid now gen mono i t found) (
            inr (
              i,
              (get_or t1.slots i empty_slot).entry,
              refl,
              fire-Fired valid now mono i t1
                  (first_due-FirstDue valid now mono t1.reconciled t1.slots i found),
            ))
      ]

  -- At the first pass after a boot, a timer or one-shot whose instant has come stays and is due if
  -- it is at most ten minutes late; later than that its slot is emptied, and not due. Its monotonic
  -- deadline is 0, as in every slot read from flash.
  pub rings_late :
      (e : Entry) (now : ℤ) (mono : ℕ)
      → (e.kind ≡ alarm_timer) ⊎ (e.kind ≡ alarm_once)
      → pos 0 <ℤ e.fire_epoch
      → e.fire_epoch ≤ℤ now
      → let s0 : Slot = record { entry = e; mono_ms = 0 } in
        let s = (reconcile_slot next_local now false s0).0 in
        let in_window = leb_ℤ now (e.fire_epoch +ℤ pos alarm_miss_window_s) in
        (s ≡ (if in_window then s0 else empty_slot)) × (is_due true now mono true s ≡ in_window)
  unfolding reconcile_slot is_stale is_due
  rings_late e now mono k p q = ground (arith, +ℤ_parts e.fire_epoch (pos alarm_miss_window_s))
