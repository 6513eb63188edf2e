-- ===== src/Alarm/Table.antt =====
-- The alarm table of main/alarms.c: slots and ids, reconciling with the wall clock, what is due,
-- the locked part of `alarms_tick`, and what the tools and the panel do to it. Index i of `s_b->e`
-- and of `s_mono_ms` are one slot. The lock makes each function atomic. `alarm_next_local` is a
-- parameter (Calendar models it); what esp_timer and clock.c answer is an argument.
pub mod Ids
pub mod Adding
pub mod Due
mod Tests
use esp32_deepgram_voice_age.Common.{
  ℕ, zero, suc, ◌+◌, ◌-◌, ◌*◌, ◌/◌, Bool, true, false, not, ◌&&◌, ◌||◌, Option, none, some, List,
  [], ◌∷◌, map, ltb, leb, ◌==◌, if◌then◌else◌, get_or, set, replicate, u8, has_bits,
}
use esp32_deepgram_voice_age.Common.Int.{
  ℤ, pos, pos_part, neg_part, sub_ℕ, ◌+ℤ◌, ◌-ℤ◌, ltb_ℤ, leb_ℤ,
}
use esp32_deepgram_voice_age.Alarm.{
  Entry, no_entry, alarm_max, alarm_empty, alarm_timer, alarm_once, alarm_weekly, alarm_days_all,
  is_stale,
}

pub record Slot : Type 0 where
  pub entry : Entry
  pub mono_ms : ℕ

abbrev pub empty_slot : Slot
empty_slot = record { entry = no_entry; mono_ms = 0 }

pub record Table : Type 0 where
  pub slots : List Slot
  pub next_id : ℕ
  pub dirty : Bool
  pub reconciled : Bool
  pub tz_gen : ℕ
  pub worst_late_ms : ℤ

abbrev pub is_empty : Slot → Bool
is_empty s = s.entry.kind == alarm_empty

-- `id_in_use`.
pub id_in_use : List Slot → ℕ → Bool
id_in_use [] id = false
id_in_use (s ∷ ss) id = (not (is_empty s) && s.entry.id == id) || id_in_use ss id

-- The first empty slot.
unfoldable pub first_empty : List Slot → Option ℕ
first_empty [] = none
first_empty (s ∷ ss) =
    if is_empty s then some 0 else elim (first_empty ss) [ none ↦ none | some i ↦ some (suc i) ]

-- `s_b->next_id++`, which skips 0.
abbrev pub id_after : ℕ → ℕ
id_after id = let n = u8 (id + 1) in if n == 0 then 1 else n

-- The do-while loop of `add_locked`: the id it settles on, and `next_id` after it. `none` if the
-- fuel runs out.
pub pick_id : ℕ → List Slot → ℕ → Option (ℕ × ℕ)
pick_id zero slots next_id = none
pick_id (suc fuel) slots next_id =
    let again = pick_id fuel slots (id_after next_id) in
    if next_id == 0 || id_in_use slots next_id then again else some (next_id, id_after next_id)

-- One round more than there are slots.
abbrev pub id_fuel : ℕ
id_fuel = 9

-- `add_locked`: the slot it landed in, or `none` for -1.
unfoldable pub add : Entry → Table → Option ℕ × Table
add proto t = elim (first_empty t.slots) [
  | none ↦ (none, t)
  | some i ↦ elim (pick_id id_fuel t.slots t.next_id) [
    | none ↦ (none, t)
    | some (id, next) ↦ (
      some i,
      record t {
        slots = set t.slots i (record { entry = record proto { id = id }; mono_ms = 0 });
        next_id = next;
        dirty = true;
      },
    )
  ]
]

-- `remove_locked`.
unfoldable pub remove : ℕ → Table → Table
remove i t = record t { slots = set t.slots i empty_slot; dirty = true }

-- `count_locked`.
unfoldable pub count : List Slot → ℕ
count [] = 0
count (s ∷ ss) = (if is_empty s then 0 else 1) + count ss

-- The tests of `due_locked` at one slot.
pub is_due : Bool → ℤ → ℕ → Bool → Slot → Bool
is_due valid now mono reconciled s =
    not (is_empty s)
    && ((ltb 0 s.mono_ms && leb s.mono_ms mono)
        || (valid
            && (reconciled && (ltb_ℤ (pos 0) s.entry.fire_epoch && leb_ℤ s.entry.fire_epoch now))))

-- `due_locked`.
pub first_due : Bool → ℤ → ℕ → Bool → List Slot → Option ℕ
first_due valid now mono reconciled [] = none
first_due valid now mono reconciled (s ∷ ss) =
    if is_due valid now mono reconciled s
    then some 0
    else elim (first_due valid now mono reconciled ss) [ none ↦ none | some i ↦ some (suc i) ]

-- A timer on the monotonic clock gets its instant: the loop of `alarms_tick`, at one slot.
-- (mono_ms - mono + 999) / 1000 rounds towards zero, as C does.
unfoldable pub anchor : ℤ → ℕ → Slot → Slot
anchor now mono s =
    let e = s.entry in
    let ahead = (s.mono_ms + 999 - mono) / 1000 in
    let behind = (mono - (s.mono_ms + 999)) / 1000 in
    if ltb 0 s.mono_ms && e.kind == alarm_timer
    then record { entry = record e { fire_epoch = now +ℤ pos ahead -ℤ pos behind }; mono_ms = 0 }
    else s

anchored : Slot → Bool
anchored s = ltb 0 s.mono_ms && s.entry.kind == alarm_timer

anchor_any : List Slot → Bool
unfolding anchored
anchor_any [] = false
anchor_any (s ∷ ss) = anchored s || anchor_any ss

-- How late the entry in a slot is, in ms.
pub late_ms : ℤ → ℕ → Slot → ℤ
late_ms now mono s =
    let late = now -ℤ s.entry.fire_epoch in
    if ltb 0 s.mono_ms
    then pos mono -ℤ pos s.mono_ms
    else sub_ℕ (pos_part late * 1000) (neg_part late * 1000)

module _ (next_local : ℤ → ℕ → ℕ → ℕ → ℤ) where
  -- The `switch` of `reconcile_locked`: the entry, and whether it became dirty.
  realign : ℤ → Bool → Entry → Entry × Bool
  realign now zone_changed e =
      if e.kind == alarm_once
      then (if zone_changed
          then (
            record e {
              fire_epoch =
                  next_local now e.hh e.mm (if e.dow_mask == 0 then alarm_days_all else e.dow_mask);
            },
            true,
          )
          else (e, false))
      else if e.kind == alarm_weekly
      then (record e { fire_epoch = next_local now e.hh e.mm e.dow_mask }, false)
      else (e, false)

  -- A round of `reconcile_locked`.
  unfoldable pub reconcile_slot : ℤ → Bool → Slot → Slot × Bool
  unfolding realign
  reconcile_slot now zone_changed s =
      let (e, changed) = realign now zone_changed s.entry in
      if is_stale e now then (empty_slot, true) else (record s { entry = e }, changed)

  reconcile_slots : ℤ → Bool → List Slot → List Slot × Bool
  unfolding reconcile_slot
  reconcile_slots now zone_changed [] = ([], false)
  reconcile_slots now zone_changed (s ∷ ss) =
      let (s', d) = reconcile_slot now zone_changed s in
      let (ss', ds) = reconcile_slots now zone_changed ss in (s' ∷ ss', d || ds)

  -- `reconcile_locked`.
  unfoldable pub reconcile : ℤ → Bool → Table → Table
  unfolding reconcile_slots
  reconcile now zone_changed t =
      let (slots, d) = reconcile_slots now zone_changed t.slots in
      record t { slots = slots; dirty = t.dirty || d }

  -- The part of `alarms_tick` under `if (valid)`.
  pub settle : ℤ → ℕ → ℕ → Table → Table
  unfolding reconcile anchor anchor_any
  settle now gen mono t =
      let t1 =
        if not t.reconciled || not (gen == t.tz_gen)
        then record (reconcile now t.reconciled t) { reconciled = true; tz_gen = gen }
        else t in
      record t1 { slots = map (anchor now mono) t1.slots; dirty = t1.dirty || anchor_any t1.slots }

  -- What `alarms_tick` does with the slot that is due: it rolls on or is removed.
  unfoldable pub fire : Bool → ℤ → ℕ → ℕ → Table → Table
  unfolding late_ms remove
  fire valid now mono i t =
      let s = get_or t.slots i empty_slot in
      let e = s.entry in
      let late = late_ms now mono s in
      let t1 = if ltb_ℤ t.worst_late_ms late then record t { worst_late_ms = late } else t in
      let rolled = record s {
        entry = record e { fire_epoch = next_local now e.hh e.mm e.dow_mask };
      } in
      if e.kind == alarm_weekly && valid
      then record t1 { slots = set t1.slots i rolled }
      else remove i t1

  -- `alarms_tick` up to its unlock: the entry that fired, if any.
  unfoldable pub tick : Bool → ℤ → ℕ → ℕ → Table → Option Entry × Table
  unfolding settle first_due fire
  tick valid now gen mono t =
      let t1 = if valid then settle now gen mono t else t in
      elim (first_due valid now mono t1.reconciled t1.slots) [
        | none ↦ (none, t1)
        | some i ↦ (some ((get_or t1.slots i empty_slot).entry), fire valid now mono i t1)
      ]

-- `alarms_fn_set_timer`, once its arguments are read: `secs` seconds from now.
unfoldable pub set_timer : ℕ → List ℕ → Bool → ℤ → ℕ → Table → Option ℕ × Table
unfolding add
set_timer secs label valid now mono t =
    let proto = record no_entry { kind = alarm_timer; label = label } in
    let (slot, t1) = add proto t in
    elim slot [
      | none ↦ (none, t1)
      | some i ↦
          let s = get_or t1.slots i empty_slot in
          let e = s.entry in
          let s' =
            if valid
            then record s { entry = record e { fire_epoch = now +ℤ pos secs } }
            else record s { mono_ms = mono + secs * 1000 } in
          (some i, record t1 { slots = set t1.slots i s' })
    ]

-- The loop of `alarms_fn_cancel`: every pending entry that the test names goes.
unfoldable pub cancel_where : (Entry → Bool) → List Slot → List Slot × ℕ
cancel_where named [] = ([], 0)
cancel_where named (s ∷ ss) =
    let (ss', n) = cancel_where named ss in
    if not (is_empty s) && named s.entry then (empty_slot ∷ ss', n + 1) else (s ∷ ss', n)

-- The loop of `alarms_cancel_id`: the first pending entry with the id goes.
cancel_first : ℕ → List Slot → List Slot × Bool
cancel_first id [] = ([], false)
cancel_first id (s ∷ ss) =
    let (ss', found) = cancel_first id ss in
    if not (is_empty s) && s.entry.id == id then (empty_slot ∷ ss, true) else (s ∷ ss', found)

-- `alarms_cancel_id`.
unfoldable pub cancel_id : ℕ → Table → Bool × Table
unfolding cancel_first
cancel_id id t =
    let (slots, found) = cancel_first id t.slots in
    if id == 0 then (false, t) else (found, record t { slots = slots; dirty = t.dirty || found })

-- The check of `alarms_init` on a saved entry.
pub is_sane : Entry → Bool
is_sane e =
    not (e.id == 0)
    && (leb alarm_timer e.kind
        && (leb e.kind alarm_weekly
            && (ltb e.hh 24
                && (ltb e.mm 60
                    && ((not (e.kind == alarm_weekly) || has_bits e.dow_mask alarm_days_all)
                        && (not (e.kind == alarm_timer) || ltb_ℤ (pos 0) e.fire_epoch))))))

load_slot : Entry → Slot
unfolding is_sane
load_slot e = record { entry = if is_sane e then e else no_entry; mono_ms = 0 }

-- `alarms_init`: `saved` is the blob's entries and `next_id`, where one of the right size and
-- version was read. An entry's label was cut at its buffer's last byte.
unfoldable pub init : Option (List Entry × ℕ) → Table
unfolding load_slot
init saved =
    let none_saved = replicate alarm_max empty_slot in
    let slots : List Slot = elim saved [ none ↦ none_saved | some (es, n) ↦ map load_slot es ] in
    let next : ℕ = elim saved [ none ↦ 0 | some (es, n) ↦ n ] in
    record {
      slots = slots;
      next_id = if next == 0 then 1 else next;
      dirty = false;
      reconciled = false;
      tz_gen = 0;
      worst_late_ms = pos 0;
    }
