-- ===== src/Settings/Names.antt =====
-- The names that main/agent_name.c accepts.
use esp32_deepgram_voice_age.Common.{
  ℕ, zero, suc, ◌-◌, ◌≤◌, ◌<◌, ◌≡◌, refl, ap, inl, inr, false, ◌||◌, none, some, List, [], ◌∷◌,
  arith, leb, ◌==◌, if◌then◌else◌, Bool-cases, length, take,
}
use esp32_deepgram_voice_age.Settings.{
  is_space, skip_space, strip_space, any_cntrl, sanitise, before, strlcpy,
}

-- The first character of a text is not white space.
pub Bare : List ℕ → Type 0
Bare [] = Unit
Bare (c ∷ s) = is_space c ≡ false

-- The last character of a text is not white space.
pub Trimmed : List ℕ → Type 0
Trimmed [] = Unit
Trimmed (c ∷ []) = is_space c ≡ false
Trimmed (c ∷ d ∷ s) = Trimmed (d ∷ s)

skip_space-Bare : (s : List ℕ) → Bare (skip_space s)
unfolding skip_space Bare
skip_space-Bare [] = tt
skip_space-Bare (c ∷ s) = elim (Bool-cases (is_space c)) [
  | inl e ↦ rw e (skip_space-Bare s)
  | inr e ↦ rw e e
]

before-Trimmed : (c : ℕ) (s : List ℕ) → Trimmed s → Trimmed (before c s)
unfolding Trimmed
before-Trimmed c [] h = elim (Bool-cases (is_space c)) [ inl e ↦ rw e tt | inr e ↦ rw e e ]
before-Trimmed c (d ∷ s) h = h

strip_space-Trimmed : (s : List ℕ) → Trimmed (strip_space s)
unfolding strip_space Trimmed
strip_space-Trimmed [] = tt
strip_space-Trimmed (c ∷ s) = before-Trimmed c (strip_space s) (strip_space-Trimmed s)

before-Bare : (c : ℕ) (s : List ℕ) → is_space c ≡ false → Bare (before c s)
unfolding Bare
before-Bare c [] h = rw h h
before-Bare c (d ∷ s) h = h

strip_space-Bare : (s : List ℕ) → Bare s → Bare (strip_space s)
unfolding strip_space Bare
strip_space-Bare [] h = tt
strip_space-Bare (c ∷ s) h = before-Bare c (strip_space s) h

skip_space_fixed : (s : List ℕ) → Bare s → skip_space s ≡ s
unfolding skip_space Bare
skip_space_fixed [] h = refl
skip_space_fixed (c ∷ s) h = rw h

strip_space_fixed : (s : List ℕ) → Trimmed s → strip_space s ≡ s
unfolding strip_space Trimmed
strip_space_fixed [] h = refl
strip_space_fixed (c ∷ []) h = rw h
strip_space_fixed (c ∷ d ∷ s) h = rw (strip_space_fixed (d ∷ s) h)

-- The text of a name: not empty, shorter than its buffer, without white space at its ends, and
-- without control characters.
pub IsName : ℕ → List ℕ → Type 0
IsName len s = ¬ length s ≡ 0 × length s < len × Bare s × Trimmed s × any_cntrl s ≡ false

accept-IsName :
    (len : ℕ) (u t : List ℕ)
    → Bare u
    → Trimmed u
    → (if length u == 0 || leb len (length u) then none else if any_cntrl u then none else some u)
      ≡ some t
    → (¬ length u ≡ 0 × length u < len × any_cntrl u ≡ false) × t ≡ u
accept-IsName len u t bare trimmed h = ground arith

-- What `sanitise` accepts is a name, and it is the given text without the white space around it.
pub sanitise-IsName :
    (len : ℕ) (s t : List ℕ)
    → sanitise len s ≡ some t
    → IsName len t × t ≡ strip_space (skip_space s)
unfolding sanitise IsName
sanitise-IsName len s t h =
    let bare = strip_space-Bare (skip_space s) (skip_space-Bare s) in
    let trimmed = strip_space-Trimmed (skip_space s) in
    let ((h0, h1, h2), e) = accept-IsName len (strip_space (skip_space s)) t bare trimmed h in
    rw e ((h0, h1, bare, trimmed, h2), refl)

-- A name is accepted as it stands.
pub sanitise-name : (len : ℕ) (s : List ℕ) → IsName len s → sanitise len s ≡ some s
unfolding sanitise IsName
sanitise-name len s (h0, h1, h2, h3, h4) =
    rw (skip_space_fixed s h2, strip_space_fixed s h3) (ground arith)

take_all : (n : ℕ) (s : List ℕ) → length s ≤ n → take n s ≡ s
take_all zero [] h = refl
take_all zero (c ∷ s) h = absurd (omega arith)
take_all (suc n) [] h = refl
take_all (suc n) (c ∷ s) h = ap (λ t. c ∷ t) (take_all n s (omega arith))

-- What `sanitise` accepts, it accepts again unchanged.
pub sanitise_again : (len : ℕ) (s t : List ℕ) → sanitise len s ≡ some t → sanitise len t ≡ some t
sanitise_again len s t h = sanitise-name len t (sanitise-IsName len s t h).0

-- A name is shorter than its buffer.
pub IsName-short : (len : ℕ) (s : List ℕ) → IsName len s → length s < len
unfolding IsName
IsName-short len s (_, h, _, _, _) = h

-- `strlcpy` cuts nothing off a text that is shorter than the buffer.
pub strlcpy_fits : (len : ℕ) (s : List ℕ) → length s < len → strlcpy len s ≡ s
strlcpy_fits len s h = take_all (len - 1) s (omega arith)
