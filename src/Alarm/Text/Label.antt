-- ===== src/Alarm/Text/Label.antt =====
-- What a label looks like after `alarm_label_sanitize`.
use esp32_deepgram_voice_age.Common.{
  ℕ, ◌+◌, ◌≤◌, ◌<◌, ◌≡◌, ◌≢◌, inl, inr, Bool, true, false, List, [], ◌∷◌, arith, ltb, ◌==◌,
  Bool-cases, length,
}
use esp32_deepgram_voice_age.Alarm.Text.{sanitize_from, label_sanitize}

-- Printable ASCII with single spaces, the first of them not at the front. `front` says that a space
-- may not come next.
abbrev Tidy : Bool → List ℕ → Type 0
Tidy front [] = Unit {0}
Tidy front (c ∷ s) = (0x20 ≤ c) × (c ≤ 0x7E) × (c ≡ 0x20 → front ≡ false) × Tidy (c == 0x20) s

sanitize_from-Tidy :
    (src : List ℕ) (cap n : ℕ) (space front : Bool)
    → (space ≡ true → front ≡ false)
    → (0 < n → front ≡ false)
    → Tidy front (sanitize_from src cap n space)
unfolding sanitize_from
sanitize_from-Tidy [] cap n space front h k = tt
sanitize_from-Tidy (p ∷ ps) cap n space front h k = ground (
  arith,
  sanitize_from-Tidy ps cap n space front h k,
  sanitize_from-Tidy ps cap n (ltb 0 n) front,
  sanitize_from-Tidy ps cap (n + 2) false false,
  sanitize_from-Tidy ps cap (n + 1) false false,
)

length-sanitize_from :
    (src : List ℕ) (cap n : ℕ) (space : Bool)
    → n < cap
    → n + length (sanitize_from src cap n space) < cap
unfolding sanitize_from
length-sanitize_from [] cap n space h = omega arith
length-sanitize_from (p ∷ ps) cap n space h = ground (
  arith,
  length-sanitize_from ps cap n space h,
  length-sanitize_from ps cap n (ltb 0 n) h,
  length-sanitize_from ps cap (n + 2) false,
  length-sanitize_from ps cap (n + 1) false,
)

-- The last byte is a space.
abbrev EndsInSpace : List ℕ → Type 0
EndsInSpace [] = ⊥
EndsInSpace (c ∷ []) = c ≡ 0x20
EndsInSpace (c ∷ d ∷ s) = EndsInSpace (d ∷ s)

EndsInSpace-cons : (c : ℕ) (s : List ℕ) → c ≢ 0x20 → EndsInSpace (c ∷ s) → EndsInSpace s
EndsInSpace-cons c [] h e = absurd (h e)
EndsInSpace-cons c (d ∷ s) h e = e

sanitize_from-EndsInSpace :
    (src : List ℕ) (cap n : ℕ) (space : Bool)
    → EndsInSpace (sanitize_from src cap n space)
    → n + length (sanitize_from src cap n space) + 1 ≡ cap
unfolding sanitize_from
sanitize_from-EndsInSpace [] cap n space e = elim e [ ]
sanitize_from-EndsInSpace (p ∷ ps) cap n space e = ground (
  arith,
  sanitize_from-EndsInSpace ps cap n space,
  sanitize_from-EndsInSpace ps cap n (ltb 0 n),
  sanitize_from-EndsInSpace ps cap (n + 2) false,
  sanitize_from-EndsInSpace ps cap (n + 1) false,
  EndsInSpace-cons p (sanitize_from ps cap (n + 2) false),
  EndsInSpace-cons p (sanitize_from ps cap (n + 1) false),
)

-- A label made for a buffer of `cap` bytes fits it with the NUL, whatever bytes it came from; it is
-- printable ASCII with single spaces and none in front; and it ends in a space only if it fills the
-- buffer.
label_sanitize-Tidy :
    (cap : ℕ) (src : List ℕ)
    → 0 < cap
    → let s = label_sanitize cap src in
      Tidy true s × (length s < cap) × (EndsInSpace s → length s + 1 ≡ cap)
unfolding label_sanitize
label_sanitize-Tidy cap src h = elim (Bool-cases (cap == 0)) [
  | inl e ↦ absurd (ground arith)
  | inr e ↦ rw e (
    sanitize_from-Tidy src cap 0 false true (λ q. cc) (λ q. absurd (omega arith)),
    omega (arith, length-sanitize_from src cap 0 false h),
    λ q. omega (arith, sanitize_from-EndsInSpace src cap 0 false q),
  )
]
