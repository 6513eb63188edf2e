-- ===== src/Clock/Civil.antt =====
-- The day number of a date against a count of the days of its years and months.
use esp32_deepgram_voice_age.Common.{
  ℕ, zero, suc, ◌+◌, ◌-◌, ◌*◌, ◌/◌, ◌%◌, ◌≤◌, ◌<◌, ◌≡◌, refl, sym, subst, ◌⊎◌, inl, inr, Bool, true,
  false, not, ◌&&◌, ◌||◌, List, [], ◌∷◌, arith, ltb, leb, ◌==◌, if◌then◌else◌, Bool-cases, take,
}
use esp32_deepgram_voice_age.Clock.{days_from_civil}

-- Whether the year so many years after 2000 is a leap year: the Gregorian rule.
abbrev pub is_leap : ℕ → Bool
is_leap n = (n % 4 == 0 && not (n % 100 == 0)) || n % 400 == 0

-- The days of the years from 2000 on, `n` of them.
unfoldable pub days_of_years : ℕ → ℕ
days_of_years zero = 0
days_of_years (suc n) = days_of_years n + (if is_leap n then 366 else 365)

-- The lengths of the months, February's by the year.
abbrev pub month_lengths : Bool → List ℕ
month_lengths leap =
    31 ∷ (if leap then 29 else 28) ∷ 31 ∷ 30 ∷ 31 ∷ 30 ∷ 31 ∷ 31 ∷ 30 ∷ 31 ∷ 30 ∷ 31 ∷ []

abbrev pub sum : List ℕ → ℕ
sum [] = 0
sum (x ∷ xs) = x + sum xs

-- The day number of a date: the 10957 days before 2000, the years and months before it, and its
-- day.
unfoldable pub counted_days : ℕ → ℕ → ℕ → ℕ
unfolding days_of_years
counted_days n m d =
    10957 + (days_of_years n + (sum (take (m - 1) (month_lengths (is_leap n))) + (d - 1)))

leap_of : (n : ℕ) → n < 100 → is_leap n ≡ (n % 4 == 0)
leap_of n h = ground (arith, h)

days_of_years-closed : (n : ℕ) → n ≤ 100 → days_of_years n ≡ 365 * n + (n + 3) / 4
unfolding days_of_years
days_of_years-closed zero h = refl
days_of_years-closed (suc n) h =
    rw (leap_of n (omega arith), days_of_years-closed n (omega arith))
      (elim (Bool-cases (n % 4 == 0)) [
        | inl e ↦ rw e (ground (arith, e))
        | inr e ↦ rw e (ground (arith, e))
      ])

-- The days before a month from March on, by the sum and by the formula.
before_month :
    (k : ℕ) (leap : Bool)
    → k < 10
    → sum (take (suc (suc k)) (month_lengths leap)) ≡ (153 * k + 2) / 5 + (if leap then 60 else 59)
before_month zero leap h = ground arith
before_month (suc zero) leap h = ground arith
before_month (suc (suc zero)) leap h = ground arith
before_month (suc (suc (suc zero))) leap h = ground arith
before_month (suc (suc (suc (suc zero)))) leap h = ground arith
before_month (suc (suc (suc (suc (suc zero))))) leap h = ground arith
before_month (suc (suc (suc (suc (suc (suc zero)))))) leap h = ground arith
before_month (suc (suc (suc (suc (suc (suc (suc zero))))))) leap h = ground arith
before_month (suc (suc (suc (suc (suc (suc (suc (suc zero)))))))) leap h = ground arith
before_month (suc (suc (suc (suc (suc (suc (suc (suc (suc zero))))))))) leap h = ground arith
before_month (suc (suc (suc (suc (suc (suc (suc (suc (suc (suc k)))))))))) leap h =
    absurd (omega arith)

leap_day : (n : ℕ) → n < 100 → (if is_leap n then 60 else 59) ≡ 59 + ((n + 4) / 4 - (n + 3) / 4)
leap_day n h = rw (leap_of n h) (ground arith)

-- A date from March on.
from_march :
    (n k d : ℕ)
    → n < 100
    → k < 10
    → 1 ≤ d
    → days_from_civil (2000 + n) (3 + k) d ≡ counted_days n (3 + k) d
unfolding days_from_civil counted_days
from_march n k d hn hk hd =
    let late : leb (3 + k) 2 ≡ false = ground arith in
    let march : ltb 2 (3 + k) ≡ true = ground arith in
    let m : 3 + k - 3 ≡ k = omega arith in
    let t : 3 + k - 1 ≡ suc (suc k) = omega arith in
    rw
      (
        late,
        march,
        m,
        t,
        before_month k (is_leap n) hk,
        leap_day n hn,
        days_of_years-closed n (omega arith),
      )
      (omega (arith, hn, hd))

-- A date in January or February.
in_winter :
    (n m d : ℕ)
    → n < 100
    → 1 ≤ m
    → m ≤ 2
    → 1 ≤ d
    → days_from_civil (2000 + n) m d ≡ counted_days n m d
unfolding days_from_civil counted_days
in_winter n zero d hn hm h2 hd = absurd (omega arith)
in_winter n (suc zero) d hn hm h2 hd =
    rw (days_of_years-closed n (omega arith)) (omega (arith, hn, hd))
in_winter n (suc (suc zero)) d hn hm h2 hd =
    rw (days_of_years-closed n (omega arith)) (omega (arith, hn, hd))
in_winter n (suc (suc (suc m))) d hn hm h2 hd = absurd (omega arith)

season : (m : ℕ) → 1 ≤ m → m ≤ 12 → (m ≤ 2) ⊎ ((k : ℕ) × (m ≡ 3 + k) × (k < 10))
season m h l = elim (Bool-cases (leb m 2)) [
  | inl e ↦ inl (ground (arith, e))
  | inr e ↦ inr (m - 3, ground (arith, e), ground (arith, e))
]

-- In the years 2000 to 2099, `days_from_civil` is the count of the days since 1970: those before
-- 2000, those of the years since by the Gregorian rule, those of the months before, and the day.
pub days_from_civil-counted_days :
    (n m d : ℕ)
    → n < 100
    → 1 ≤ m
    → m ≤ 12
    → 1 ≤ d
    → days_from_civil (2000 + n) m d ≡ counted_days n m d
days_from_civil-counted_days n m d hn hm h12 hd = elim (season m hm h12) [
  | inl w ↦ in_winter n m d hn hm w hd
  | inr (k, is, hk) ↦
      subst (λ j. days_from_civil (2000 + n) j d ≡ counted_days n j d) (sym is)
        (from_march n k d hn hk hd)
]
