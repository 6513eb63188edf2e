-- ===== src/Common/Bits.antt =====
-- The binary digits of a number: fields put together by "or", and taken apart by a mask.
use Prim.Native.Nat.{
  ℕ, zero, suc, ◌+◌, ◌-◌, ◌*◌, ◌/◌, ◌%◌, ◌≤◌, ◌<◌, min, max, bit_and, bit_or, digits,
  bit_and-bitwise, bit_or-bitwise,
}
use mathlib.Core.Path.{◌≡◌, refl, sym, ap, ◌∙◌}
use native.Mathlib.Nat.{mod-eq-sub-mul-div, div-div-eq-div-mul, mod-add-div}
use native.Mathlib.Omega.{arith}

-- Digits that have run out cost no fuel, so any two sufficient amounts agree.
module _ (over : ℕ → ℕ) (digit : ℕ → ℕ → ℕ) where
  fuel_free :
      (x y : ℕ) (j k : ℕ) → x ≤ j → x ≤ k → digits over digit j x y ≡ digits over digit k x y
  fuel_free zero y zero zero s t = refl
  fuel_free zero y zero (suc k) s t = refl
  fuel_free zero y (suc j) zero s t = refl
  fuel_free zero y (suc j) (suc k) s t = refl
  fuel_free (suc x) y zero k s t = absurd (omega (arith, s))
  fuel_free (suc x) y (suc j) zero s t = absurd (omega (arith, t))
  fuel_free (suc x) y (suc j) (suc k) s t =
      let half = fuel_free (suc x / 2) (y / 2) j k (omega (arith, s)) (omega (arith, t)) in
      ap (λ h. h * 2 + digit (suc x % 2) (y % 2)) half

or_low : (x y : ℕ) → bit_or x y ≡ 2 * bit_or (x / 2) (y / 2) + max (x % 2) (y % 2)
or_low zero y = omega (arith, bit_or-bitwise 0 y, bit_or-bitwise 0 (y / 2))
or_low (suc x) y =
    let half = suc x / 2 in
    omega (
      arith,
      bit_or-bitwise (suc x) y,
      bit_or-bitwise half (y / 2),
      fuel_free (λ b. b) max half (y / 2) x half (omega arith) (omega arith),
    )

and_low : (x y : ℕ) → bit_and x y ≡ 2 * bit_and (x / 2) (y / 2) + min (x % 2) (y % 2)
and_low zero y = omega (arith, bit_and-bitwise 0 y, bit_and-bitwise 0 (y / 2))
and_low (suc x) y =
    let half = suc x / 2 in
    omega (
      arith,
      bit_and-bitwise (suc x) y,
      bit_and-bitwise half (y / 2),
      fuel_free (λ b. 0) min half (y / 2) x half (omega arith) (omega arith),
    )

-- `2 ^ k`, and k ones.
abbrev pub power : ℕ → ℕ
power zero = 1
power (suc k) = 2 * power k

abbrev pub ones : ℕ → ℕ
ones zero = 0
ones (suc k) = 2 * ones k + 1

or_nothing : (fuel x : ℕ) → x ≤ fuel → bit_or x 0 ≡ x
or_nothing fuel zero h = refl
or_nothing zero (suc x) h = absurd (omega arith)
or_nothing (suc fuel) (suc x) h =
    omega (arith, or_low (suc x) 0, or_nothing fuel (suc x / 2) (omega arith))

and_nothing : (fuel x : ℕ) → x ≤ fuel → bit_and x 0 ≡ 0
and_nothing fuel zero h = refl
and_nothing zero (suc x) h = absurd (omega arith)
and_nothing (suc fuel) (suc x) h =
    omega (arith, and_low (suc x) 0, and_nothing fuel (suc x / 2) (omega arith))

-- A field is put behind another.
pub bit_or-power :
    (k high low : ℕ) → low < power k → bit_or (high * power k) low ≡ high * power k + low
bit_or-power zero high zero h = omega (arith, or_nothing (high * 1) (high * 1) (omega arith))
bit_or-power zero high (suc low) h = absurd (omega arith)
bit_or-power (suc k) high low h =
    let two : high * (2 * power k) ≡ 2 * (high * power k) = grind arith in
    let m = high * power k in
    let half : bit_or (2 * m / 2) (low / 2) ≡ m + low / 2 =
      ap (λ q. bit_or q (low / 2)) (omega arith)
      ∙ bit_or-power k high (low / 2) (omega (arith, h)) in
    rw two (omega (arith, or_low (2 * m) low, half))

mod_twice : (x p : ℕ) → x % (2 * p) ≡ 2 * (x / 2 % p) + x % 2
mod_twice x p =
    let q = x / 2 / p in
    let t : 2 * p * q ≡ 2 * (p * q) = grind arith in
    omega (
      arith,
      t,
      mod-eq-sub-mul-div x (2 * p) ∙ ap (λ k. x - 2 * p * k) (sym (div-div-eq-div-mul x 2 p)),
      mod-add-div (x / 2) p,
    )

pub bit_and-ones : (k x : ℕ) → bit_and x (ones k) ≡ x % power k
bit_and-ones zero x = omega (arith, and_nothing x x (omega arith))
bit_and-ones (suc k) x =
    let o = ones k in
    let p = power k in
    let half : bit_and (x / 2) ((2 * o + 1) / 2) ≡ x / 2 % p =
      ap (λ q. bit_and (x / 2) q) (omega arith) ∙ bit_and-ones k (x / 2) in
    omega (arith, and_low x (2 * o + 1), half, mod_twice x p)
