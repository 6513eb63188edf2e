-- ===== src/Battery/Median.antt =====
-- The median filter against a definition by counting.
use esp32_deepgram_voice_age.Common.{
  ℕ, zero, suc, ◌+◌, ◌-◌, ◌*◌, ◌/◌, ◌≤◌, ◌<◌, ◌≡◌, refl, ap, inl, inr, true, List, [], ◌∷◌, arith,
  ltb, leb, if◌then◌else◌, Bool-cases, length, get_or, All,
}
use esp32_deepgram_voice_age.Battery.{shift_in, sort_onto, median_of}

-- How many samples are at most `m`, and at least `m`.
abbrev pub count_le : ℕ → List ℕ → ℕ
count_le m [] = 0
count_le m (x ∷ xs) = (if leb x m then 1 else 0) + count_le m xs

abbrev pub count_ge : ℕ → List ℕ → ℕ
count_ge m [] = 0
count_ge m (x ∷ xs) = (if leb m x then 1 else 0) + count_ge m xs

-- More than half of the samples are at most `m`, and at least half are at least `m`.
pub record IsMedian (xs : List ℕ) (m : ℕ) : Type 0 where
  pub below : length xs < 2 * count_le m xs
  pub above : length xs ≤ 2 * count_ge m xs

abbrev IsDescending : List ℕ → Type 0
IsDescending [] = Unit
IsDescending (x ∷ xs) = All (λ y. y ≤ x) xs × IsDescending xs

count_le-shift_in : (m v : ℕ) (xs : List ℕ) → count_le m (shift_in v xs) ≡ count_le m (v ∷ xs)
unfolding shift_in
count_le-shift_in m v [] = refl
count_le-shift_in m v (x ∷ xs) = elim (Bool-cases (ltb v x)) [
  | inl e ↦ rw e (omega (arith, count_le-shift_in m v xs))
  | inr e ↦ rw e refl
]

count_ge-shift_in : (m v : ℕ) (xs : List ℕ) → count_ge m (shift_in v xs) ≡ count_ge m (v ∷ xs)
unfolding shift_in
count_ge-shift_in m v [] = refl
count_ge-shift_in m v (x ∷ xs) = elim (Bool-cases (ltb v x)) [
  | inl e ↦ rw e (omega (arith, count_ge-shift_in m v xs))
  | inr e ↦ rw e refl
]

length-shift_in : (v : ℕ) (xs : List ℕ) → length (shift_in v xs) ≡ suc (length xs)
unfolding shift_in
length-shift_in v [] = refl
length-shift_in v (x ∷ xs) = elim (Bool-cases (ltb v x)) [
  | inl e ↦ rw e (ap suc (length-shift_in v xs))
  | inr e ↦ rw e refl
]

All-shift_in :
    (x v : ℕ) (xs : List ℕ) → v ≤ x → All (λ y. y ≤ x) xs → All (λ y. y ≤ x) (shift_in v xs)
unfolding shift_in
All-shift_in x v [] l h = (l, h)
All-shift_in x v (y ∷ ys) l (h, hs) = elim (Bool-cases (ltb v y)) [
  | inl e ↦ rw e (h, All-shift_in x v ys l hs)
  | inr e ↦ rw e (l, (h, hs))
]

All-le : (x v : ℕ) (xs : List ℕ) → x ≤ v → All (λ y. y ≤ x) xs → All (λ y. y ≤ v) xs
All-le x v [] l h = h
All-le x v (y ∷ ys) l (h, hs) = (omega (arith, h), All-le x v ys l hs)

shift_in-IsDescending : (v : ℕ) (xs : List ℕ) → IsDescending xs → IsDescending (shift_in v xs)
unfolding shift_in
shift_in-IsDescending v [] h = (h, h)
shift_in-IsDescending v (x ∷ xs) (h, hs) = elim (Bool-cases (ltb v x)) [
  | inl e ↦ rw e (All-shift_in x v xs (ground (arith, e)) h, shift_in-IsDescending v xs hs)
  | inr e ↦ let l : x ≤ v = ground (arith, e) in rw e ((l, All-le x v xs l h), (h, hs))
]

sort_onto-IsDescending :
    (sorted rest : List ℕ) → IsDescending sorted → IsDescending (sort_onto sorted rest)
unfolding sort_onto
sort_onto-IsDescending sorted [] h = h
sort_onto-IsDescending sorted (v ∷ rest) h =
    sort_onto-IsDescending (shift_in v sorted) rest (shift_in-IsDescending v sorted h)

-- Sorting keeps the counts.
sort_onto-counts :
    (m : ℕ) (sorted rest : List ℕ)
    → (count_le m (sort_onto sorted rest) ≡ count_le m sorted + count_le m rest)
      × ((count_ge m (sort_onto sorted rest) ≡ count_ge m sorted + count_ge m rest)
          × (length (sort_onto sorted rest) ≡ length sorted + length rest))
unfolding sort_onto
sort_onto-counts m sorted [] = (omega arith, (omega arith, omega arith))
sort_onto-counts m sorted (v ∷ rest) =
    let (a, (b, c)) = sort_onto-counts m (shift_in v sorted) rest in
    (
      omega (arith, a, count_le-shift_in m v sorted),
      (omega (arith, b, count_ge-shift_in m v sorted), omega (arith, c, length-shift_in v sorted)),
    )

count_le-whole : (m : ℕ) (xs : List ℕ) → All (λ y. y ≤ m) xs → count_le m xs ≡ length xs
count_le-whole m [] h = refl
count_le-whole m (x ∷ xs) (h, hs) =
    let e : leb x m ≡ true = ground (arith, h) in rw e (omega (arith, count_le-whole m xs hs))

All-get : (x : ℕ) (xs : List ℕ) (k : ℕ) → All (λ y. y ≤ x) xs → get_or xs k 0 ≤ x
All-get x [] k h = omega arith
All-get x (y ∷ ys) zero (h, hs) = h
All-get x (y ∷ ys) (suc k) (h, hs) = All-get x ys k hs

-- The counts at a place of a descending list.
descending-counts :
    (xs : List ℕ) (k : ℕ)
    → IsDescending xs
    → k < length xs
    → (suc k ≤ count_ge (get_or xs k 0) xs) × (length xs ≤ count_le (get_or xs k 0) xs + k)
descending-counts [] k h l = absurd (omega arith)
descending-counts (x ∷ xs) zero (h, hs) l =
    let e : leb x x ≡ true = ground arith in
    rw e (omega arith, omega (arith, count_le-whole x xs h))
descending-counts (x ∷ xs) (suc k) (h, hs) l =
    let (a, b) = descending-counts xs k hs (omega arith) in
    let e : leb (get_or xs k 0) x ≡ true = ground (arith, All-get x xs k h) in
    rw e (omega (arith, a), omega (arith, b))

-- `median_of` of one sample or more is their median: more than half of them are at most it, and at
-- least half are at least it.
pub median_of-IsMedian : (xs : List ℕ) → 1 ≤ length xs → IsMedian xs (median_of xs)
unfolding median_of
median_of-IsMedian xs h =
    let k = length xs - 1 - length xs / 2 in
    let m = get_or (sort_onto [] xs) k 0 in
    let (le, (ge, len)) = sort_onto-counts m [] xs in
    let (a, b) =
      descending-counts (sort_onto [] xs) k (sort_onto-IsDescending [] xs (ground arith))
        (omega (arith, len)) in
    record { below = omega (arith, le, len, b); above = omega (arith, ge, len, a) }
