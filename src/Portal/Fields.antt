-- ===== src/Portal/Fields.antt =====
-- Forms as a browser sends them, read by form_get (main/wifi_prov.c).
use esp32_deepgram_voice_age.Common.{
  ℕ, zero, suc, ◌-◌, ◌≤◌, ◌<◌, ◌≡◌, refl, sym, ap, ◌∙◌, ◌≢◌, inl, inr, true, false, ◌&&◌, Option,
  none, some, List, [], ◌∷◌, ◌++◌, arith, ◌==◌, if◌then◌else◌, ==_iff, Bool-cases, length, All,
  length-append,
}
use esp32_deepgram_voice_age.Common.Bytes.{bytes_eq}
use mathlib.Core.List.{append_assoc, append-nil}
use esp32_deepgram_voice_age.Portal.{
  or_empty, c_string, found, form_value, after_key, after_amp, form_find, form_get,
}
use esp32_deepgram_voice_age.Portal.Form.{
  encode, encode_byte, IsByte, IsEnd, form_value-encode, NoAmp, NoAmp-append, after_amp-next,
  after_amp-none, encode-NoAmp,
}

swapped_test : (x y : ℕ) → x == y ≡ false → y == x ≡ false
swapped_test x y h = ground (arith, h)

-- A field's name: neither "=" nor "&" in it, nor the NUL at which the body would end.
abbrev pub IsName : List ℕ → Type 0
IsName = All (λ c. (c == b'=' ≡ false) × ((c == b'&' ≡ false) × (c == 0 ≡ false)))

after_key-same : (k rest : List ℕ) → after_key k (k ++ (b'=' ∷ rest)) ≡ some rest
unfolding after_key
after_key-same [] rest = refl
after_key-same (c ∷ k) rest =
    let same : c == c ≡ true = ground arith in rw same (after_key-same k rest)

after_key-other :
    (key k rest : List ℕ)
    → IsName key
    → IsName k
    → bytes_eq key k ≡ false
    → after_key key (k ++ (b'=' ∷ rest)) ≡ none
unfolding after_key
after_key-other [] [] rest n m h = cc h
after_key-other [] (c ∷ k) rest n (m, ms) h = rw m.0 refl
after_key-other (x ∷ key) [] rest (n, ns) m h =
    let other : b'=' == x ≡ false = swapped_test x b'=' n.0 in rw other refl
after_key-other (x ∷ key) (y ∷ k) rest (n, ns) (m, ms) h = elim (Bool-cases (y == x)) [
  | inl e ↦
      let e' : x == y ≡ true = ground (arith, e) in
      rw e (after_key-other key k rest ns ms (sym (ap (λ b. b && bytes_eq key k) e') ∙ h))
  | inr e ↦ rw e refl
]

-- A form with these fields.
abbrev pub form : List (List ℕ × List ℕ) → List ℕ
form [] = []
form ((k, v) ∷ []) = k ++ (b'=' ∷ encode v)
form ((k, v) ∷ f ∷ fs) = k ++ (b'=' ∷ (encode v ++ (b'&' ∷ form (f ∷ fs))))

-- The value of the first field of that name, as a C string.
abbrev pub field_of : List ℕ → List (List ℕ × List ℕ) → Option (List ℕ)
field_of key [] = none
field_of key ((k, v) ∷ fs) = if bytes_eq key k then some (c_string v) else field_of key fs

-- A field that fits a buffer of `outlen` bytes.
abbrev pub IsField : ℕ → List ℕ × List ℕ → Type 0
IsField outlen (k, v) = IsName k × (All IsByte v × (length v < outlen))

bytes_eq-same : (xs ys : List ℕ) → bytes_eq xs ys ≡ true → xs ≡ ys
bytes_eq-same [] [] h = refl
bytes_eq-same [] (y ∷ ys) h = cc h
bytes_eq-same (x ∷ xs) [] h = cc h
bytes_eq-same (x ∷ xs) (y ∷ ys) h = elim (Bool-cases (x == y)) [
  | inl e ↦
      let rest = bytes_eq-same xs ys (sym (ap (λ b. b && bytes_eq xs ys) e) ∙ h) in
      (λ i. (==_iff x y).0 e i ∷ rest i)
  | inr e ↦ let clash : false ≡ true = sym (ap (λ b. b && bytes_eq xs ys) e) ∙ h in cc clash
]

IsName-NoAmp : (k : List ℕ) → IsName k → NoAmp k
IsName-NoAmp [] h = tt
IsName-NoAmp (c ∷ k) (n, h) = (n.1.0, IsName-NoAmp k h)

after_amp-empty : (rest : List ℕ) → after_amp [] ≢ some rest
unfolding after_amp
after_amp-empty rest h = cc h

length-encode_byte : (c : ℕ) → 1 ≤ length (encode_byte c)
unfolding encode_byte
length-encode_byte c = ground arith

length-encode : (v : List ℕ) → length v ≤ length (encode v)
unfolding encode
length-encode [] = omega arith
length-encode (c ∷ v) =
    omega (arith, length-encode v, length-encode_byte c, length-append (encode_byte c) (encode v))

after_key-empty : (key value : List ℕ) → after_key key [] ≢ some value
unfolding after_key
after_key-empty [] value h = cc h
after_key-empty (k ∷ key) value h = cc h

form_find-found :
    (fuel outlen : ℕ) (key body value : List ℕ)
    → after_key key body ≡ some value
    → form_find (suc fuel) outlen key body
      ≡ some (c_string (form_value (length value) (outlen - 1) value))
unfolding form_find
form_find-found fuel outlen key [] value h = absurd (after_key-empty key value h)
form_find-found fuel outlen key (c ∷ p) value h =
    ap (λ o. found outlen o (form_find fuel outlen key (or_empty (after_amp (c ∷ p))))) h

form_find-next :
    (fuel outlen : ℕ) (key body rest : List ℕ)
    → after_key key body ≡ none
    → after_amp body ≡ some rest
    → form_find (suc fuel) outlen key body ≡ form_find fuel outlen key rest
unfolding form_find
form_find-next fuel outlen key [] rest h a = absurd (after_amp-empty rest a)
form_find-next fuel outlen key (c ∷ p) rest h a =
    λ i. found outlen (h i) (form_find fuel outlen key (or_empty (a i)))

form_find-nothing : (fuel outlen : ℕ) (key : List ℕ) → form_find fuel outlen key [] ≡ none
unfolding form_find
form_find-nothing zero outlen key = refl
form_find-nothing (suc fuel) outlen key = refl

form_find-last :
    (fuel outlen : ℕ) (key body : List ℕ)
    → after_key key body ≡ none
    → after_amp body ≡ none
    → form_find (suc fuel) outlen key body ≡ none
unfolding form_find
form_find-last fuel outlen key [] h a = refl
form_find-last fuel outlen key (c ∷ p) h a =
    (λ i. found outlen (h i) (form_find fuel outlen key (or_empty (a i))))
    ∙ form_find-nothing fuel outlen key

-- A field found: `tail` is what follows its value.
form_find-here :
    (fuel outlen : ℕ) (k v tail : List ℕ)
    → IsField outlen (k, v)
    → IsEnd tail
    → form_find (suc fuel) outlen k (k ++ (b'=' ∷ (encode v ++ tail))) ≡ some (c_string v)
form_find-here fuel outlen k v tail (n, (b, l)) e =
    let value = encode v ++ tail in
    form_find-found fuel outlen k (k ++ (b'=' ∷ value)) value (after_key-same k value)
    ∙ ap (λ t. some (c_string t))
        (form_value-encode v (length value) (outlen - 1) tail b (omega (arith, l))
          (omega (arith, length-append (encode v) tail, length-encode v)) e)

field-NoAmp : (outlen : ℕ) (k v : List ℕ) → IsField outlen (k, v) → NoAmp (k ++ (b'=' ∷ encode v))
field-NoAmp outlen k v (n, (b, l)) =
    NoAmp-append k (b'=' ∷ encode v) (IsName-NoAmp k n) (refl, encode-NoAmp v b)

form_from :
    (fuel outlen : ℕ) (key : List ℕ) (fs : List (List ℕ × List ℕ))
    → length (form fs) ≤ fuel
    → IsName key
    → All (IsField outlen) fs
    → form_find fuel outlen key (form fs) ≡ field_of key fs
form_from fuel outlen key [] h m a = form_find-nothing fuel outlen key
form_from zero outlen key ((k, v) ∷ []) h m a =
    absurd (omega (arith, h, length-append k (b'=' ∷ encode v)))
form_from zero outlen key ((k, v) ∷ f ∷ fs) h m a =
    absurd (omega (arith, h, length-append k (b'=' ∷ (encode v ++ (b'&' ∷ form (f ∷ fs))))))
form_from (suc fuel) outlen key ((k, v) ∷ []) h m (a, others) = elim (Bool-cases (bytes_eq key k)) [
  | inl e ↦ rw e (
      ap (λ key'. form_find (suc fuel) outlen key' (k ++ (b'=' ∷ encode v))) (bytes_eq-same key k e)
      ∙ ap (λ r. form_find (suc fuel) outlen k (k ++ (b'=' ∷ r))) (sym (append-nil (encode v)))
      ∙ form_find-here fuel outlen k v [] a (inl refl))
  | inr e ↦ rw e (
      form_find-last fuel outlen key (k ++ (b'=' ∷ encode v))
        (after_key-other key k (encode v) m a.0 e)
        (after_amp-none (k ++ (b'=' ∷ encode v)) (field-NoAmp outlen k v a)))
]
form_from (suc fuel) outlen key ((k, v) ∷ f ∷ fs) h m (a, others) =
    let rest = form (f ∷ fs) in
    elim (Bool-cases (bytes_eq key k)) [
      | inl e ↦ rw e (
          ap (λ key'. form_find (suc fuel) outlen key' (k ++ (b'=' ∷ (encode v ++ (b'&' ∷ rest)))))
            (bytes_eq-same key k e)
          ∙ form_find-here fuel outlen k v (b'&' ∷ rest) a (inr (rest, refl)))
      | inr e ↦
          let body = k ++ (b'=' ∷ (encode v ++ (b'&' ∷ rest))) in
          let amp : after_amp body ≡ some rest =
            ap after_amp (sym (append_assoc k (b'=' ∷ encode v) (b'&' ∷ rest)))
            ∙ after_amp-next (k ++ (b'=' ∷ encode v)) rest (field-NoAmp outlen k v a) in
          let len = length-append k (b'=' ∷ (encode v ++ (b'&' ∷ rest))) in
          let len' = length-append (encode v) (b'&' ∷ rest) in
          rw e (
            form_find-next fuel outlen key body rest
              (after_key-other key k (encode v ++ (b'&' ∷ rest)) m a.0 e) amp
            ∙ form_from fuel outlen key (f ∷ fs) (omega (arith, h, len, len')) m others)
    ]

-- A form as a browser sends it, whose names have no "=", no "&" and no NUL in them and whose values,
-- of any bytes, are shorter than the buffer: `form_get` of a name answers the value of the first
-- field of that name, decoded, up to the first NUL in it, and nothing if there is no such field.
pub form_get-form :
    (outlen : ℕ) (key : List ℕ) (fs : List (List ℕ × List ℕ))
    → IsName key
    → All (IsField outlen) fs
    → form_get (form fs) key outlen ≡ field_of key fs
unfolding form_get
form_get-form outlen key fs m a = form_from (length (form fs)) outlen key fs (omega arith) m a
