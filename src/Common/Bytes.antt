-- ===== src/Common/Bytes.antt =====
-- C strings as lists of bytes, and the parts of the C library that the program prints with.
use Prim.Native.Nat.{ℕ, zero, suc, ◌+◌, ◌-◌, ◌/◌, ◌%◌}
use Prim.Native.Char.{code}
use Prim.Native.String.{String}
use mathlib.Core.Bool.{Bool, true, false, ◌&&◌, ◌||◌}
use mathlib.Core.List.{List, [], ◌∷◌}
use esp32_deepgram_voice_age.Common.Tests.{ltb, leb, ◌==◌, if◌then◌else◌}
use esp32_deepgram_voice_age.Common.Lists.{take}

-- The bytes of an ASCII text.
abbrev pub codes : String → List ℕ
codes String.[] = []
codes (String.◌∷◌ c s) = code c ∷ codes s

-- `strcmp(a, b) == 0`.
abbrev pub bytes_eq : List ℕ → List ℕ → Bool
bytes_eq [] [] = true
bytes_eq [] (y ∷ ys) = false
bytes_eq (x ∷ xs) [] = false
bytes_eq (x ∷ xs) (y ∷ ys) = x == y && bytes_eq xs ys

-- `isdigit`, `isalpha` and `tolower` of the C locale.
abbrev pub is_digit : ℕ → Bool
is_digit c = leb b'0' c && leb c b'9'

abbrev pub is_upper : ℕ → Bool
is_upper c = leb b'A' c && leb c b'Z'

abbrev pub is_alpha : ℕ → Bool
is_alpha c = is_upper c || (leb b'a' c && leb c b'z')

abbrev pub to_lower : ℕ → ℕ
to_lower c = if is_upper c then c + 32 else c

-- The decimal digits of a number, before those already written. The fuel is more than its digits.
decimal_from : ℕ → ℕ → List ℕ → List ℕ
decimal_from zero n rest = rest
decimal_from (suc fuel) n rest =
    let more = decimal_from fuel (n / 10) ((b'0' + n % 10) ∷ rest) in
    if ltb n 10 then (b'0' + n) ∷ rest else more

-- "%d" and "%u" of a number that is not negative; ten digits hold 32 bits.
unfoldable pub decimal : ℕ → List ℕ
unfolding decimal_from
decimal n = decimal_from 10 n []

-- "%02d" of such a number.
unfoldable pub decimal_two : ℕ → List ℕ
unfolding decimal
decimal_two n = if ltb n 10 then b'0' ∷ decimal n else decimal n

-- `snprintf` into a buffer of `cap` bytes: what the buffer then holds.
abbrev pub snprintf : ℕ → List ℕ → List ℕ
snprintf cap text = take (cap - 1) text
