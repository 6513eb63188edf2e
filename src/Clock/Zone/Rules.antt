-- ===== src/Clock/Zone/Rules.antt =====
-- The rules that tz_resolve gives (main/tz_table.c).
use esp32_deepgram_voice_age.Common.{
  ℕ, ◌+◌, ◌<◌, ◌≡◌, refl, subst, ◌⊎◌, inl, inr, Bool, true, false, not, ◌&&◌, ◌||◌, Option, none,
  some, List, [], ◌∷◌, ◌++◌, arith, leb, ◌==◌, if◌then◌else◌, Bool-cases, length, All,
  length-append,
}
use mathlib.Core.Option
use esp32_deepgram_voice_age.Common.Bytes.{codes}
use esp32_deepgram_voice_age.Clock.Zone.{
  Entry, is_space, tz_lookup, looks_posix, has_slash, copy_rule, tz_resolve,
}

-- A byte that newlib reads in a rule.
abbrev pub IsPlain : ℕ → Type 0
IsPlain c = (c == b'<' ≡ false) × (is_space c ≡ false)

All-append : (P : ℕ → Type 0) (xs ys : List ℕ) → All P xs → All P ys → All P (xs ++ ys)
All-append P [] ys h k = k
All-append P (x ∷ xs) ys h k = (h.0, All-append P xs ys h.1 k)

-- The bytes that are copied for one.
piece_of : ℕ → Bool → List ℕ
piece_of c opens = if opens then codes "LCL" else c ∷ []

piece-IsPlain :
    (c : ℕ) (opens : Bool)
    → c == b'<' ≡ opens
    → not opens && is_space c ≡ false
    → All IsPlain (piece_of c opens)
unfolding piece_of
piece-IsPlain c true e h = ((refl, refl), ((refl, refl), ((refl, refl), tt)))
piece-IsPlain c false e h = ((e, h), tt)

if_some :
    (stop : Bool) (o : Option (List ℕ)) (out : List ℕ)
    → (if stop then none else o) ≡ some out
    → (stop ≡ false) × (o ≡ some out)
if_some true o out h = cc h
if_some false o out h = (refl, h)

map-eq_some :
    (f : List ℕ → List ℕ) (o : Option (List ℕ)) (out : List ℕ)
    → Option.map f o ≡ some out
    → (r : List ℕ) × ((o ≡ some r) × (f r ≡ out))
map-eq_some f none out h = cc h
map-eq_some f (some r) out h = (r, (refl, cc h))

or_false : (a b : Bool) → a || b ≡ false → (a ≡ false) × (b ≡ false)
or_false true b h = cc h
or_false false b h = (refl, h)

-- What the copy of the rest does for the whole.
copy_by :
    (cap n c : ℕ) (opens : Bool) (rest : Option (List ℕ)) (out : List ℕ)
    → c == b'<' ≡ opens
    → ((r : List ℕ)
        → rest ≡ some r
        → n + length (piece_of c opens) < cap
        → (n + length (piece_of c opens) + length r < cap) × All IsPlain r)
    → let n' = n + length (piece_of c opens) in
      (if (not opens && is_space c) || leb cap n'
          then none
          else Option.map (λ r. piece_of c opens ++ r) rest)
        ≡ some out
      → (n + length out < cap) × All IsPlain out
copy_by cap n c opens rest out e ih h =
    let n' = n + length (piece_of c opens) in
    let stop = (not opens && is_space c) || leb cap n' in
    let more = Option.map (λ r. piece_of c opens ++ r) rest in
    let (goes, same) = if_some stop more out h in
    let (r, (found, whole)) = map-eq_some (λ r. piece_of c opens ++ r) rest out same in
    let (no_space, room) = or_false (not opens && is_space c) (leb cap n') goes in
    let (fits, plain) = ih r found (ground (arith, room)) in
    let len = length-append (piece_of c opens) r in
    subst (λ l. (n + length l < cap) × All IsPlain l) whole
      (
        omega (arith, fits, len),
        All-append IsPlain (piece_of c opens) r (piece-IsPlain c opens e no_space) plain,
      )

copy_rule-fits :
    (cap n : ℕ) (quoted : Bool) (cs out : List ℕ)
    → n < cap
    → copy_rule cap quoted n cs ≡ some out
    → (n + length out < cap) × All IsPlain out
unfolding copy_rule piece_of
copy_rule-fits cap n true [] out low h = cc h
copy_rule-fits cap n false [] out low h =
    let e : [] ≡ out = cc h in
    subst (λ l. (n + length l < cap) × All IsPlain l) e (omega (arith, low), tt)
copy_rule-fits cap n true (c ∷ cs) out low h = copy_rule-fits cap n (not (c == b'>')) cs out low h
copy_rule-fits cap n false (c ∷ cs) out low h =
    let opens = c == b'<' in
    let n' = n + length (piece_of c opens) in
    copy_by cap n c opens (copy_rule cap opens n' cs) out refl
      (λ r e room. copy_rule-fits cap n' opens cs r room e) h

resolve_by :
    (cap : ℕ) (rule : List ℕ) (looked : Option (List ℕ)) (refused : Bool) (copied : Option (List ℕ))
    → (copied ≡ some rule → (length rule < cap) × All IsPlain rule)
    → let found : Option (List ℕ) = elim looked [
      | some r ↦ if leb cap (length r) then none else some r
      | none ↦ if refused then none else copied
    ] in
      found ≡ some rule → (length rule < cap) × ((looked ≡ some rule) ⊎ All IsPlain rule)
resolve_by cap rule none refused copied k h =
    let (goes, same) = if_some refused copied rule h in
    let (fits, plain) = k same in (fits, inr plain)
resolve_by cap rule (some r) refused copied k h =
    let (room, same) = if_some (leb cap (length r)) (some r) rule h in
    let e : r ≡ rule = cc same in (subst (λ l. length l < cap) e (ground (arith, room)), inl same)

-- A rule that tz_resolve gives fits the buffer of cap bytes with its NUL; and it is the one that
-- the table has for that name, letters compared without their case, or has no '<' and no space in
-- it.
pub tz_resolve-fits :
    (zones : List Entry) (cap : ℕ) (name rule : List ℕ)
    → tz_resolve zones cap name ≡ some rule
    → (length rule < cap) × ((tz_lookup zones name ≡ some rule) ⊎ All IsPlain rule)
unfolding tz_resolve
tz_resolve-fits zones cap [] rule h = cc h
tz_resolve-fits zones cap (c ∷ cs) rule h =
    let looked = tz_lookup zones (c ∷ cs) in
    let refused = has_slash (c ∷ cs) || not (looks_posix (c ∷ cs)) in
    let copied = copy_rule cap false 0 (c ∷ cs) in
    elim (Bool-cases (cap == 0)) [
      | inl e ↦ let h' = rw e at h in cc h'
      | inr e ↦
          resolve_by cap rule looked refused copied
            (λ same.
              let (fits, plain) =
                copy_rule-fits cap 0 false (c ∷ cs) rule (ground (arith, e)) same in
              (omega (arith, fits), plain))
            (rw e at h)
    ]
