-- ===== src/Alarm/Table/Ids.antt =====
-- The ids of the table's entries, and the search for a free one.
use esp32_deepgram_voice_age.Common.{
  ℕ, zero, suc, ◌+◌, ◌-◌, ◌%◌, ◌≤◌, ◌<◌, ◌≡◌, refl, ◌≢◌, Bool, true, false, ◌||◌, none, some, List,
  [], ◌∷◌, arith, ◌==◌, if◌then◌else◌, length,
}
use esp32_deepgram_voice_age.Alarm.{alarm_max}
use esp32_deepgram_voice_age.Alarm.Table.{Slot, is_empty, id_in_use, id_after, pick_id, id_fuel}

-- The value is among the elements.
unfoldable pub mem : ℕ → List ℕ → Bool
mem x [] = false
mem x (y ∷ ys) = y == x || mem x ys

erase : ℕ → List ℕ → List ℕ
erase x [] = []
erase x (y ∷ ys) = if y == x then ys else y ∷ erase x ys

length-erase : (x : ℕ) (ys : List ℕ) → mem x ys ≡ true → length (erase x ys) + 1 ≡ length ys
unfolding mem erase
length-erase x [] h = cc
length-erase x (y ∷ ys) h = ground (arith, length-erase x ys)

mem-erase : (x z : ℕ) (ys : List ℕ) → x ≢ z → mem z ys ≡ true → mem z (erase x ys) ≡ true
unfolding mem erase
mem-erase x z [] n h = cc
mem-erase x z (y ∷ ys) n h = ground (arith, mem-erase x z ys n)

-- A list that holds n different values has at least n elements.
pigeonhole :
    (n : ℕ) (f : ℕ → ℕ) (ys : List ℕ)
    → ((i j : ℕ) → i < n → j < n → f i ≡ f j → i ≡ j)
    → ((i : ℕ) → i < n → mem (f i) ys ≡ true)
    → n ≤ length ys
pigeonhole zero f ys inj all = omega arith
pigeonhole (suc n) f ys inj all = omega (
  arith,
  length-erase (f n) ys (all n (omega arith)),
  pigeonhole n f (erase (f n) ys) (λ i j h k. inj i j (omega arith) (omega arith))
      (λ i h.
        mem-erase (f n) (f i) ys
          (λ e. absurd (omega (arith, inj n i (omega arith) (omega arith) e)))
          (all i (omega arith))),
)

-- The ids of the pending entries.
unfoldable pub ids : List Slot → List ℕ
ids [] = []
ids (s ∷ ss) = if is_empty s then ids ss else s.entry.id ∷ ids ss

length-ids : (ss : List Slot) → length (ids ss) ≤ length ss
unfolding ids
length-ids [] = omega arith
length-ids (s ∷ ss) = ground (arith, length-ids ss)

pub id_in_use-mem : (ss : List Slot) (id : ℕ) → id_in_use ss id ≡ mem id (ids ss)
unfolding id_in_use ids mem
id_in_use-mem [] id = refl
id_in_use-mem (s ∷ ss) id = ground (arith, id_in_use-mem ss id)

-- The ids tried from `k` on.
nth_id : ℕ → ℕ → ℕ
nth_id k i = (k - 1 + i) % 255 + 1

id_after-nth_id : (k i : ℕ) → 1 ≤ k → k ≤ 255 → nth_id (id_after k) i ≡ nth_id k (suc i)
unfolding nth_id
id_after-nth_id k i lo hi = ground arith

id_after_range : (k : ℕ) → 1 ≤ k → k ≤ 255 → (1 ≤ id_after k) × (id_after k ≤ 255)
id_after_range k lo hi = ground arith

pick_id_step :
    (fuel k : ℕ) (ss : List Slot)
    → 1 ≤ k
    → pick_id (suc fuel) ss k ≡ none
    → (mem k (ids ss) ≡ true) × (pick_id fuel ss (id_after k) ≡ none)
unfolding pick_id
pick_id_step fuel k ss lo e = ground (arith, id_in_use-mem ss k)

nth_id-zero : (k : ℕ) → 1 ≤ k → k ≤ 255 → nth_id k 0 ≡ k
unfolding nth_id
nth_id-zero k lo hi = omega arith

-- Where the loop runs out of fuel, every id that it tried is in use.
pick_id-none :
    (fuel k : ℕ) (ss : List Slot)
    → 1 ≤ k
    → k ≤ 255
    → pick_id fuel ss k ≡ none
    → (i : ℕ) → i < fuel
    → mem (nth_id k i) (ids ss) ≡ true
pick_id-none zero k ss lo hi e i h = absurd (omega arith)
pick_id-none (suc fuel) k ss lo hi e zero h =
    rw (nth_id-zero k lo hi) ((pick_id_step fuel k ss lo e).0)
pick_id-none (suc fuel) k ss lo hi e (suc i) h =
    let r = id_after_range k lo hi in
    rw (← id_after-nth_id k i lo hi)
      (pick_id-none fuel (id_after k) ss r.0 r.1 (pick_id_step fuel k ss lo e).1 i (omega arith))

nth_id_inj : (k i j : ℕ) → i < 9 → j < 9 → nth_id k i ≡ nth_id k j → i ≡ j
unfolding nth_id
nth_id_inj k i j hi hj e = omega arith

pub pick_id-free :
    (fuel k : ℕ) (ss : List Slot) (id next : ℕ)
    → 1 ≤ k
    → k ≤ 255
    → pick_id fuel ss k ≡ some (id, next)
    → (mem id (ids ss) ≡ false) × (1 ≤ id) × (id ≤ 255) × (1 ≤ next) × (next ≤ 255)
unfolding pick_id
pick_id-free zero k ss id next lo hi e = cc
pick_id-free (suc fuel) k ss id next lo hi e =
    ground
      (arith, id_in_use-mem ss k, id_after_range k lo hi, pick_id-free fuel (id_after k) ss id next)

-- With at most eight entries an id is found within nine rounds, for any entries and any next id.
pub pick_id_total :
    (k : ℕ) (ss : List Slot) → 1 ≤ k → k ≤ 255 → length ss ≤ alarm_max → pick_id id_fuel ss k ≢ none
pick_id_total k ss lo hi size e = omega (
  arith,
  length-ids ss,
  pigeonhole 9 (nth_id k) (ids ss) (nth_id_inj k) (pick_id-none 9 k ss lo hi e),
)
