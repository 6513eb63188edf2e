-- ===== src/Common/Cuts.antt =====
-- Lists cut in two and put together.
use Prim.Native.Nat.{ℕ, zero, suc, ◌+◌, ◌-◌, ◌≤◌, min}
use mathlib.Core.Path.{◌≡◌, refl, ap}
use mathlib.Core.List.{List, [], ◌∷◌, ◌++◌}
use native.Mathlib.Omega.{arith}
use esp32_deepgram_voice_age.Common.Lists.{length, get_or, take, drop}

zero_add : (n : ℕ) → 0 + n ≡ n
zero_add n = omega arith

suc_add : (m n : ℕ) → suc m + n ≡ suc (m + n)
suc_add m n = omega arith

module _ {ℓ} {A : Type ℓ} where
  pub length-take : (n : ℕ) (xs : List A) → length (take n xs) ≡ min n (length xs)
  length-take zero xs = omega arith
  length-take (suc n) [] = omega arith
  length-take (suc n) (x ∷ xs) = omega (arith, length-take n xs)

  pub length-drop : (n : ℕ) (xs : List A) → length (drop n xs) ≡ length xs - n
  length-drop zero xs = omega arith
  length-drop (suc n) [] = omega arith
  length-drop (suc n) (x ∷ xs) = omega (arith, length-drop n xs)

  pub take-append-drop : (n : ℕ) (xs : List A) → take n xs ++ drop n xs ≡ xs
  take-append-drop zero xs = refl
  take-append-drop (suc n) [] = refl
  take-append-drop (suc n) (x ∷ xs) = ap (λ l. x ∷ l) (take-append-drop n xs)

  pub take_whole : (n : ℕ) (xs : List A) → length xs ≤ n → take n xs ≡ xs
  take_whole zero [] h = refl
  take_whole zero (x ∷ xs) h = absurd (omega arith)
  take_whole (suc n) [] h = refl
  take_whole (suc n) (x ∷ xs) h = ap (λ l. x ∷ l) (take_whole n xs (omega arith))

  pub drop_whole : (n : ℕ) (xs : List A) → length xs ≤ n → drop n xs ≡ []
  drop_whole zero [] h = refl
  drop_whole zero (x ∷ xs) h = absurd (omega arith)
  drop_whole (suc n) [] h = refl
  drop_whole (suc n) (x ∷ xs) h = drop_whole n xs (omega arith)

  pub take-take : (m n : ℕ) (xs : List A) → n ≤ m → take m (take n xs) ≡ take n xs
  take-take m zero [] h = take_whole m [] (omega arith)
  take-take m zero (x ∷ xs) h = take_whole m [] (omega arith)
  take-take m (suc n) [] h = take_whole m [] (omega arith)
  take-take zero (suc n) (x ∷ xs) h = absurd (omega arith)
  take-take (suc m) (suc n) (x ∷ xs) h = ap (λ l. x ∷ l) (take-take m n xs (omega arith))

  pub take_within : (m n : ℕ) (xs : List A) → n ≤ m → take n (take m xs) ≡ take n xs
  take_within m zero xs h = refl
  take_within zero (suc n) xs h = absurd (omega arith)
  take_within (suc m) (suc n) [] h = refl
  take_within (suc m) (suc n) (x ∷ xs) h = ap (λ l. x ∷ l) (take_within m n xs (omega arith))

  pub drop_last : (k : ℕ) (xs : List A) (d : A) → length xs ≡ suc k → drop k xs ≡ get_or xs k d ∷ []
  drop_last k [] d h = absurd (omega arith)
  drop_last zero (x ∷ []) d h = refl
  drop_last zero (x ∷ y ∷ xs) d h = absurd (omega arith)
  drop_last (suc k) (x ∷ xs) d h = drop_last k xs d (omega arith)

  -- A cut behind or within the first of two lists.
  pub take-append_more :
      (n : ℕ) (xs ys : List A) → take (length xs + n) (xs ++ ys) ≡ xs ++ take n ys
  take-append_more n [] ys = rw (zero_add n) refl
  take-append_more n (x ∷ xs) ys =
      rw (suc_add (length xs) n) (ap (λ l. x ∷ l) (take-append_more n xs ys))

  pub drop-append_more : (n : ℕ) (xs ys : List A) → drop (length xs + n) (xs ++ ys) ≡ drop n ys
  drop-append_more n [] ys = rw (zero_add n) refl
  drop-append_more n (x ∷ xs) ys = rw (suc_add (length xs) n) (drop-append_more n xs ys)

  pub take-append_less : (n : ℕ) (xs ys : List A) → n ≤ length xs → take n (xs ++ ys) ≡ take n xs
  take-append_less zero xs ys h = refl
  take-append_less (suc n) [] ys h = absurd (omega arith)
  take-append_less (suc n) (x ∷ xs) ys h = ap (λ l. x ∷ l) (take-append_less n xs ys (omega arith))

  pub drop-append_less :
      (n : ℕ) (xs ys : List A) → n ≤ length xs → drop n (xs ++ ys) ≡ drop n xs ++ ys
  drop-append_less zero xs ys h = refl
  drop-append_less (suc n) [] ys h = absurd (omega arith)
  drop-append_less (suc n) (x ∷ xs) ys h = drop-append_less n xs ys (omega arith)
