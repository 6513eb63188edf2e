-- ===== src/Portal/Form.antt =====
-- The encoding of form values, and form_get's reading of one (main/wifi_prov.c).
use esp32_deepgram_voice_age.Common.{
  ℕ, zero, suc, ◌+◌, ◌-◌, ◌*◌, ◌/◌, ◌%◌, ◌≤◌, ◌<◌, ◌≡◌, refl, sym, ap, ◌∙◌, subst, ◌⊎◌, inl, inr,
  Bool, true, false, not, ◌||◌, none, some, List, [], ◌∷◌, ◌++◌, arith, ltb, ◌==◌, if◌then◌else◌,
  ==_iff, Bool-cases, length, All,
}
use esp32_deepgram_voice_age.Common.Bytes.{is_digit, is_alpha}
use mathlib.Core.List.{append_assoc}
use esp32_deepgram_voice_age.Portal.{hexval, hex_pair, form_value, after_amp}

-- application/x-www-form-urlencoded: letters, digits and "-._*" stand for themselves, a space is a
-- plus, every other byte is a percent sign and two hexadecimal digits.
abbrev is_plain : ℕ → Bool
is_plain c = is_digit c || (is_alpha c || (c == b'-' || (c == b'.' || (c == b'_' || c == b'*'))))

hex_upper : ℕ → ℕ
hex_upper d = if ltb d 10 then b'0' + d else b'A' + (d - 10)

unfoldable pub encode_byte : ℕ → List ℕ
unfolding hex_upper
encode_byte c =
    if c == b' '
    then b'+' ∷ []
    else if is_plain c
    then c ∷ []
    else b'%' ∷ hex_upper (c / 16) ∷ hex_upper (c % 16) ∷ []

unfoldable pub encode : List ℕ → List ℕ
encode [] = []
encode (c ∷ cs) = encode_byte c ++ encode cs

-- A test of bytes that holds from a byte on, for so many.
tested : (ℕ → Bool) → ℕ → ℕ → Bool
tested test first zero = true
tested test first (suc n) = if test first then tested test (first + 1) n else false

tested_at :
    (test : ℕ → Bool) (first n c : ℕ)
    → first ≤ c
    → c < first + n
    → tested test first n ≡ true
    → test c ≡ true
unfolding tested
tested_at test first zero c low high h = absurd (omega (arith, low, high))
tested_at test first (suc n) c low high h = elim (Bool-cases (test first)) [
  | inl e ↦ elim (Bool-cases (c == first)) [
    | inl s ↦ subst (λ k. test k ≡ true) (sym ((==_iff c first).0 s)) e
    | inr s ↦
        tested_at test (first + 1) n c (ground (arith, s, low)) (omega (arith, high))
          (sym (ap (λ q. if q then tested test (first + 1) n else false) e) ∙ h)
  ]
  | inr e ↦ cc (sym (ap (λ q. if q then tested test (first + 1) n else false) e) ∙ h)
]

-- What an encoded byte can be.
data Encoded (c : ℕ) : List ℕ → Type 0 where
  space : c ≡ b' ' → Encoded c (b'+' ∷ [])
  itself : c == b'&' ≡ false → c == b'+' ≡ false → c == b'%' ≡ false → Encoded c (c ∷ [])
  coded :
      (a b x y : ℕ)
      → hexval a ≡ some x
      → hexval b ≡ some y
      → x * 16 + y ≡ c
      → Encoded c (b'%' ∷ a ∷ b ∷ [])

hexval-hex_upper : (d : ℕ) → d < 16 → hexval (hex_upper d) ≡ some d
unfolding hexval hex_upper
hexval-hex_upper d h = ground (arith, h)

plain_table :
    tested (λ c. not (is_plain c) || not (c == b'&' || (c == b'+' || c == b'%'))) 0 256 ≡ true
unfolding tested
plain_table = refl

plain_itself :
    (c : ℕ)
    → c < 256
    → is_plain c ≡ true
    → (c == b'&' ≡ false) × ((c == b'+' ≡ false) × (c == b'%' ≡ false))
plain_itself c h e =
    let t =
      tested_at (λ c. not (is_plain c) || not (c == b'&' || (c == b'+' || c == b'%'))) 0 256 c
        (omega arith) (omega (arith, h)) plain_table in
    let u : not (c == b'&' || (c == b'+' || c == b'%')) ≡ true =
      sym (ap (λ b. not b || not (c == b'&' || (c == b'+' || c == b'%'))) e) ∙ t in
    split_three (c == b'&') (c == b'+') (c == b'%') u
  where
    split_three :
        (x y z : Bool) → not (x || (y || z)) ≡ true → (x ≡ false) × ((y ≡ false) × (z ≡ false))
    split_three false false false h = (refl, (refl, refl))
    split_three true y z h = cc h
    split_three false true z h = cc h
    split_three false false true h = cc h

encode_byte-Encoded : (c : ℕ) → c < 256 → Encoded c (encode_byte c)
unfolding encode_byte
encode_byte-Encoded c h = elim (Bool-cases (c == b' ')) [
  | inl e ↦ rw e (space ((==_iff c b' ').0 e))
  | inr e ↦ rw e (elim (Bool-cases (is_plain c)) [
    | inl e' ↦ let (x, (y, z)) = plain_itself c h e' in rw e' (itself x y z)
    | inr e' ↦ rw e' (
        coded (hex_upper (c / 16)) (hex_upper (c % 16)) (c / 16) (c % 16)
          (hexval-hex_upper (c / 16) (omega (arith, h))) (hexval-hex_upper (c % 16) (omega arith))
          (omega arith))
  ])
]

-- One byte of a value, decoded; the rest is read with the fuel that is left.
value_byte :
    (c : ℕ) (cs : List ℕ)
    → Encoded c cs
    → (fuel room : ℕ) (p : List ℕ)
    → form_value (suc fuel) (suc room) (cs ++ p) ≡ c ∷ form_value fuel room p
unfolding form_value hex_pair
value_byte c cs (space e) fuel room p = ap (λ k. k ∷ form_value fuel room p) (sym e)
value_byte c cs (itself x y z) fuel room p = rw (x, y, z) refl
value_byte c cs (coded a b x y hx hy s) fuel room p = rw (hx, hy, s) refl

-- Behind a value comes the end or the next field.
abbrev pub IsEnd : List ℕ → Type 0
IsEnd tail = (tail ≡ []) ⊎ ((rest : List ℕ) × (tail ≡ b'&' ∷ rest))

form_value-end : (fuel room : ℕ) (tail : List ℕ) → IsEnd tail → form_value fuel room tail ≡ []
unfolding form_value
form_value-end zero room tail h = refl
form_value-end (suc fuel) zero tail h = refl
form_value-end (suc fuel) (suc room) tail (inl e) = rw e refl
form_value-end (suc fuel) (suc room) tail (inr (rest, e)) = rw e refl

abbrev pub IsByte : ℕ → Type 0
IsByte c = c < 256

pub form_value-encode :
    (v : List ℕ) (fuel room : ℕ) (tail : List ℕ)
    → All IsByte v
    → length v ≤ room
    → length v ≤ fuel
    → IsEnd tail
    → form_value fuel room (encode v ++ tail) ≡ v
unfolding encode
form_value-encode [] fuel room tail h r f e = form_value-end fuel room tail e
form_value-encode (c ∷ v) zero room tail h r f e = absurd (omega (arith, f))
form_value-encode (c ∷ v) (suc fuel) zero tail h r f e = absurd (omega (arith, r))
form_value-encode (c ∷ v) (suc fuel) (suc room) tail (b, h) r f e =
    ap (form_value (suc fuel) (suc room)) (append_assoc (encode_byte c) (encode v) tail)
    ∙ value_byte c (encode_byte c) (encode_byte-Encoded c b) fuel room (encode v ++ tail)
    ∙ ap (λ k. c ∷ k) (form_value-encode v fuel room tail h (omega (arith, r)) (omega (arith, f)) e)

-- Bytes that are no ampersand.
abbrev pub NoAmp : List ℕ → Type 0
NoAmp = All (λ c. c == b'&' ≡ false)

pub NoAmp-append : (xs ys : List ℕ) → NoAmp xs → NoAmp ys → NoAmp (xs ++ ys)
NoAmp-append [] ys h k = k
NoAmp-append (x ∷ xs) ys (a, h) k = (a, NoAmp-append xs ys h k)

pub after_amp-next : (xs rest : List ℕ) → NoAmp xs → after_amp (xs ++ (b'&' ∷ rest)) ≡ some rest
unfolding after_amp
after_amp-next [] rest h = refl
after_amp-next (x ∷ xs) rest (a, h) = rw a (after_amp-next xs rest h)

pub after_amp-none : (xs : List ℕ) → NoAmp xs → after_amp xs ≡ none
unfolding after_amp
after_amp-none [] h = refl
after_amp-none (x ∷ xs) (a, h) = rw a (after_amp-none xs h)

hexval-amp : (a x : ℕ) → hexval a ≡ some x → a == b'&' ≡ false
unfolding hexval
hexval-amp a x h = elim (Bool-cases (a == b'&')) [
  | inl e ↦
      let is : a ≡ b'&' = (==_iff a b'&').0 e in
      let clash : hexval b'&' ≡ some x = subst (λ k. hexval k ≡ some x) is h in cc clash
  | inr e ↦ e
]

encode_byte-NoAmp : (c : ℕ) (cs : List ℕ) → Encoded c cs → NoAmp cs
encode_byte-NoAmp c cs (space e) = (refl, tt)
encode_byte-NoAmp c cs (itself x y z) = (x, tt)
encode_byte-NoAmp c cs (coded a b x y hx hy s) =
    (refl, (hexval-amp a x hx, (hexval-amp b y hy, tt)))

pub encode-NoAmp : (v : List ℕ) → All IsByte v → NoAmp (encode v)
unfolding encode
encode-NoAmp [] h = tt
encode-NoAmp (c ∷ v) (b, h) =
    NoAmp-append (encode_byte c) (encode v)
      (encode_byte-NoAmp c (encode_byte c) (encode_byte-Encoded c b)) (encode-NoAmp v h)
