-- ===== src/Common/Words.antt =====
-- Machine words as native numbers below 2 ^ w: wrap by `%`, shift by `/` and `*`.
use Prim.Native.Nat.{ℕ, ◌+◌, ◌-◌, ◌%◌, ◌^◌, ◌<◌, bit_and}
use mathlib.Core.Path.{◌≡◌}
use mathlib.Core.Bool.{Bool, not}
use native.Mathlib.Omega.{arith}
use esp32_deepgram_voice_age.Common.Tests.{◌==◌}

abbrev pub u8 : ℕ → ℕ
u8 n = n % 256

abbrev pub u16 : ℕ → ℕ
u16 n = n % 65536

abbrev pub u32 : ℕ → ℕ
u32 n = n % 4294967296

-- The unsigned 32-bit differences and sums that every millisecond stamp is taken by.
abbrev pub sub32 : ℕ → ℕ → ℕ
sub32 a b = (a + 4294967296 - b) % 4294967296

abbrev pub add32 : ℕ → ℕ → ℕ
add32 a b = (a + b) % 4294967296

-- `acts & mask` as a condition.
abbrev pub has_bits : ℕ → ℕ → Bool
has_bits acts mask = not (bit_and acts mask == 0)

-- A difference of two stamps is the time between them, as long as that is under 49.7 days.
pub sub32-add32 : (a d : ℕ) → a < 2 ^ 32 → d < 2 ^ 32 → sub32 (add32 a d) a ≡ d
sub32-add32 a d ha hd = omega arith
