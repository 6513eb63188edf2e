-- ===== src/Stopwatch/Readout.antt =====
-- The stopwatch's readout, read back.
use esp32_deepgram_voice_age.Common.{
  ℕ, ◌+◌, ◌-◌, ◌*◌, ◌/◌, ◌%◌, ◌<◌, ◌≡◌, ap, false, ◌&&◌, Option, none, some, List, [], ◌∷◌, ◌++◌,
  arith, leb, ◌==◌, if◌then◌else◌,
}
use esp32_deepgram_voice_age.Common.Bytes.{codes, decimal_two, snprintf}
use esp32_deepgram_voice_age.Stopwatch.{fmt}

-- The hundredths of a second that "MM:SS" and ".CC" say.
pub read_clock : List ℕ × List ℕ → Option ℕ
read_clock (a ∷ b ∷ colon ∷ c ∷ d ∷ [], point ∷ e ∷ f ∷ []) =
    if colon == b':' && point == b'.'
    then some (
        ((a - b'0') * 10 + (b - b'0')) * 6000
        + ((c - b'0') * 10 + (d - b'0')) * 100
        + ((e - b'0') * 10 + (f - b'0')))
    else none
read_clock _ = none

decimal_two-lt : (n : ℕ) → n < 100 → decimal_two n ≡ (b'0' + n / 10) ∷ (b'0' + n % 10) ∷ []
unfolding decimal_two
decimal_two-lt n h = ground arith

-- What `fmt` prints under an hour, by its two-digit parts.
fmt_short :
    (ms : ℕ)
    → ms < 3600000
    → fmt ms 12 12 ≡ (
      snprintf 12 (decimal_two (ms / 1000 / 60) ++ (codes ":" ++ decimal_two (ms / 1000 % 60))),
      snprintf 12 (codes "." ++ decimal_two (ms / 10 % 100)),
    )
unfolding fmt
fmt_short ms h = let e : leb 3600 (ms / 1000) ≡ false = ground arith in rw e

-- Under an hour the two parts of the readout, in buffers of 12, say the time to the hundredth.
pub read_clock-fmt : (ms : ℕ) → ms < 3600000 → read_clock (fmt ms 12 12) ≡ some (ms / 10)
unfolding read_clock
read_clock-fmt ms h = rw (fmt_short ms h) (
    rw (decimal_two-lt (ms / 1000 / 60) (omega arith)) (
      rw (decimal_two-lt (ms / 1000 % 60) (omega arith))
        (rw (decimal_two-lt (ms / 10 % 100) (omega arith)) (ap some (omega arith)))))
