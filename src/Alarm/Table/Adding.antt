-- ===== src/Alarm/Table/Adding.antt =====
-- Adding to and removing from the table: `add_locked` and `remove_locked`.
use esp32_deepgram_voice_age.Common.{
  ℕ, zero, suc, ◌≤◌, ◌≡◌, refl, ◌∙◌, ◌⊎◌, inl, inr, true, false, ◌||◌, none, some, List, [], ◌∷◌,
  arith, ◌==◌, Option-cases, length, set, All, length-set,
}
use esp32_deepgram_voice_age.Alarm.{Entry, alarm_max, alarm_empty}
use esp32_deepgram_voice_age.Alarm.Table.{
  Slot, Table, empty_slot, is_empty, first_empty, pick_id, id_fuel, add, remove, count,
}
use esp32_deepgram_voice_age.Alarm.Table.Ids.{mem, ids, pick_id-free, pick_id_total}

-- No value comes twice.
abbrev pub Distinct : List ℕ → Type 0
Distinct [] = Unit {0}
Distinct (x ∷ xs) = (mem x xs ≡ false) × Distinct xs

-- What holds of the table between two calls.
pub record Inv (t : Table) : Type 0 where
  pub size : length t.slots ≡ alarm_max
  pub distinct : Distinct (ids t.slots)
  pub ids_in : All (λ id. (1 ≤ id) × (id ≤ 255)) (ids t.slots)
  pub next_in : (1 ≤ t.next_id) × (t.next_id ≤ 255)

first_empty_head : (s : Slot) (ss : List Slot) → first_empty (s ∷ ss) ≡ some 0 → is_empty s ≡ true
unfolding first_empty
first_empty_head s ss e = ground arith

first_empty_tail :
    (s : Slot) (ss : List Slot) (i : ℕ)
    → first_empty (s ∷ ss) ≡ some (suc i)
    → (is_empty s ≡ false) × (first_empty ss ≡ some i)
unfolding first_empty
first_empty_tail s ss i e = ground arith

module _ (s' : Slot) (pending : is_empty s' ≡ false) where
  mem-ids-set :
      (ss : List Slot) (i z : ℕ)
      → first_empty ss ≡ some i
      → mem z (ids (set ss i s')) ≡ (s'.entry.id == z || mem z (ids ss))
  unfolding first_empty ids mem
  mem-ids-set [] i z e = cc
  mem-ids-set (s ∷ ss) zero z e = ground (arith, first_empty_head s ss e)
  mem-ids-set (s ∷ ss) (suc i) z e = ground (arith, first_empty_tail s ss i e, mem-ids-set ss i z)

  Distinct-set :
      (ss : List Slot) (i : ℕ)
      → first_empty ss ≡ some i
      → mem s'.entry.id (ids ss) ≡ false
      → Distinct (ids ss)
      → Distinct (ids (set ss i s'))
  unfolding ids mem
  Distinct-set [] i e new d = d
  Distinct-set (s ∷ ss) zero e new d = ground (arith, first_empty_head s ss e)
  Distinct-set (s ∷ ss) (suc i) e new d =
      ground (arith, first_empty_tail s ss i e, mem-ids-set ss i s.entry.id, Distinct-set ss i)

  All-ids-set :
      (ss : List Slot) (i : ℕ)
      → first_empty ss ≡ some i
      → (1 ≤ s'.entry.id) × (s'.entry.id ≤ 255)
      → All (λ id. (1 ≤ id) × (id ≤ 255)) (ids ss)
      → All (λ id. (1 ≤ id) × (id ≤ 255)) (ids (set ss i s'))
  unfolding ids
  All-ids-set [] i e new d = d
  All-ids-set (s ∷ ss) zero e new d = ground (arith, first_empty_head s ss e)
  All-ids-set (s ∷ ss) (suc i) e new d = ground (arith, first_empty_tail s ss i e, All-ids-set ss i)

-- An entry of another kind than EMPTY is added: the slot it is given was free, its id is new and
-- not 0, and every other slot stays. A full table refuses it and stays as it was.
pub record Added (proto : Entry) (t : Table) (i : ℕ) (u : Table) : Type 0 where
  pub was_free : first_empty t.slots ≡ some i
  pub id : ℕ
  pub id_new : mem id (ids t.slots) ≡ false
  pub id_in : (1 ≤ id) × (id ≤ 255)
  pub slots_are : u.slots ≡ set t.slots i (record { entry = record proto { id = id }; mono_ms = 0 })
  pub next_in : (1 ≤ u.next_id) × (u.next_id ≤ 255)
  pub saved_soon : u.dirty ≡ true

add-eq :
    (proto : Entry) (t : Table) (i id next : ℕ)
    → first_empty t.slots ≡ some i
    → pick_id id_fuel t.slots t.next_id ≡ some (id, next)
    → add proto t ≡ (
      some i,
      record t {
        slots = set t.slots i (record { entry = record proto { id = id }; mono_ms = 0 });
        next_id = next;
        dirty = true;
      },
    )
unfolding add
add-eq proto t i id next e f = rw (e, add, f)

pub add-full : (proto : Entry) (t : Table) → first_empty t.slots ≡ none → add proto t ≡ (none, t)
unfolding add
add-full proto t e = rw (e, add)

pub add-Added :
    (proto : Entry) (t : Table) (i : ℕ)
    → Inv t
    → first_empty t.slots ≡ some i
    → ((add proto t).0 ≡ some i) × Added proto t i (add proto t).1
add-Added proto t i v e = elim (Option-cases (pick_id id_fuel t.slots t.next_id)) [
  | inl stuck ↦
      absurd (pick_id_total t.next_id t.slots v.next_in.0 v.next_in.1 (omega (arith, v.size)) stuck)
  | inr ((id, next), found) ↦
      let (new, lo, hi, nlo, nhi) =
        pick_id-free id_fuel t.next_id t.slots id next v.next_in.0 v.next_in.1 found in
      rw (add-eq proto t i id next e found) (
        refl,
        record {
          was_free = e;
          id = id;
          id_new = new;
          id_in = (lo, hi);
          slots_are = refl;
          next_in = (nlo, nhi);
          saved_soon = refl;
        },
      )
]

Added-Inv :
    (proto : Entry) (t : Table) (i : ℕ) (u : Table)
    → (proto.kind == alarm_empty) ≡ false
    → Inv t
    → Added proto t i u
    → Inv u
Added-Inv proto t i u k v a =
    let s' : Slot = record { entry = record proto { id = a.id }; mono_ms = 0 } in
    record {
      size = rw a.slots_are (length-set t.slots i s' ∙ v.size);
      distinct = rw a.slots_are (Distinct-set s' k t.slots i a.was_free a.id_new v.distinct);
      ids_in = rw a.slots_are (All-ids-set s' k t.slots i a.was_free a.id_in v.ids_in);
      next_in = a.next_in;
    }

first_empty-count : (ss : List Slot) → first_empty ss ≡ none → count ss ≡ length ss
unfolding first_empty count
first_empty-count [] e = refl
first_empty-count (s ∷ ss) e = ground (arith, first_empty-count ss)

-- What became of an attempt to add an entry.
abbrev pub AddOutcome : Entry → Table → Type 0
AddOutcome proto t =
    ((add proto t ≡ (none, t)) × (count t.slots ≡ alarm_max))
    ⊎ ((i : ℕ) × ((add proto t).0 ≡ some i) × Added proto t i (add proto t).1)

-- Adding a timer or an alarm always ends: it is refused, with nothing changed, only when all eight
-- slots hold pending entries; otherwise it takes a free slot under an id from 1 to 255 that no
-- pending entry has. Either way ids stay distinct and in range.
pub add-outcome :
    (proto : Entry) (t : Table)
    → (proto.kind == alarm_empty) ≡ false
    → Inv t
    → AddOutcome proto t × Inv (add proto t).1
add-outcome proto t k v = elim (Option-cases (first_empty t.slots)) [
  | inl full ↦ (
    inl (add-full proto t full, first_empty-count t.slots full ∙ v.size),
    rw (add-full proto t full) v,
  )
  | inr (i, free) ↦
      let (found, a) = add-Added proto t i v free in
      (inr (i, found, a), Added-Inv proto t i (add proto t).1 k v a)
]

mem-ids-remove :
    (ss : List Slot) (i z : ℕ) → mem z (ids ss) ≡ false → mem z (ids (set ss i empty_slot)) ≡ false
unfolding ids mem
mem-ids-remove [] i z h = h
mem-ids-remove (s ∷ ss) zero z h = ground arith
mem-ids-remove (s ∷ ss) (suc i) z h = ground (arith, mem-ids-remove ss i z)

Distinct-remove :
    (ss : List Slot) (i : ℕ) → Distinct (ids ss) → Distinct (ids (set ss i empty_slot))
unfolding ids mem
Distinct-remove [] i d = d
Distinct-remove (s ∷ ss) zero d = ground arith
Distinct-remove (s ∷ ss) (suc i) d =
    ground (arith, Distinct-remove ss i, mem-ids-remove ss i s.entry.id)

All-ids-remove :
    (ss : List Slot) (i : ℕ)
    → All (λ id. (1 ≤ id) × (id ≤ 255)) (ids ss)
    → All (λ id. (1 ≤ id) × (id ≤ 255)) (ids (set ss i empty_slot))
unfolding ids
All-ids-remove [] i d = d
All-ids-remove (s ∷ ss) zero d = ground arith
All-ids-remove (s ∷ ss) (suc i) d = ground (arith, All-ids-remove ss i)

-- Removing any slot keeps the ids distinct and in range.
pub remove-Inv : (i : ℕ) (t : Table) → Inv t → Inv (remove i t)
unfolding remove
remove-Inv i t v = record {
  size = length-set t.slots i empty_slot ∙ v.size;
  distinct = Distinct-remove t.slots i v.distinct;
  ids_in = All-ids-remove t.slots i v.ids_in;
  next_in = v.next_in;
}
