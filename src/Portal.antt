-- ===== src/Portal.antt =====
-- main/wifi_prov.c: what the set-up page's form is read from, and the names that its list of
-- networks is printed with. The web server is not modelled.
pub mod Form
pub mod Fields
mod Tests
use esp32_deepgram_voice_age.Common.{
  ℕ, zero, suc, ◌+◌, ◌-◌, ◌*◌, ◌/◌, ◌%◌, Bool, true, false, ◌&&◌, ◌||◌, Option, none, some, List,
  [], ◌∷◌, ltb, leb, ◌==◌, if◌then◌else◌, length,
}

-- `hexval`; `none` for -1.
unfoldable pub hexval : ℕ → Option ℕ
hexval c =
    if leb b'0' c && leb c b'9'
    then some (c - b'0')
    else if leb b'a' c && leb c b'f'
    then some (c - b'a' + 10)
    else if leb b'A' c && leb c b'F'
    then some (c - b'A' + 10)
    else none

-- The byte that two hexadecimal digits stand for, and what is behind them.
unfoldable pub hex_pair : List ℕ → Option (ℕ × List ℕ)
hex_pair [] = none
hex_pair (a ∷ []) = none
hex_pair (a ∷ b ∷ rest) = elim (hexval a) [
  | none ↦ none
  | some x ↦ elim (hexval b) [ none ↦ none | some y ↦ some (x * 16 + y, rest) ]
]

-- The bytes that the inner loop of `form_get` writes, with room for so many bytes; `fuel` is one for each byte of the
-- body.
unfoldable pub form_value : ℕ → ℕ → List ℕ → List ℕ
form_value zero room p = []
form_value (suc fuel) zero p = []
form_value (suc fuel) (suc room) [] = []
form_value (suc fuel) (suc room) (c ∷ p) =
    let plain = form_value fuel room p in
    let (byte, rest) : ℕ × List ℕ = elim (hex_pair p) [ none ↦ (c, p) | some pair ↦ pair ] in
    let coded = form_value fuel room rest in
    if c == b'&'
    then []
    else if c == b'+'
    then b' ' ∷ plain
    else if c == b'%'
    then byte ∷ coded
    else c ∷ plain

-- `strncmp(p, key, keylen) == 0 && p[keylen] == '='`, and what is behind it.
unfoldable pub after_key : List ℕ → List ℕ → Option (List ℕ)
after_key [] [] = none
after_key [] (c ∷ p) = if c == b'=' then some p else none
after_key (k ∷ key) [] = none
after_key (k ∷ key) (c ∷ p) = let rest = after_key key p in if c == k then rest else none

-- `strchr(p, '&')`, and the byte behind it.
unfoldable pub after_amp : List ℕ → Option (List ℕ)
after_amp [] = none
after_amp (c ∷ p) = let rest = after_amp p in if c == b'&' then some p else rest

-- The rest of the body behind the next "&", if there is one.
abbrev pub or_empty : Option (List ℕ) → List ℕ
or_empty none = []
or_empty (some rest) = rest

-- What a reader finds in the buffer: the bytes ahead of the first NUL.
unfoldable pub c_string : List ℕ → List ℕ
c_string [] = []
c_string (c ∷ s) = if c == 0 then [] else c ∷ c_string s

-- The value behind the key, or what is found later.
abbrev pub found : ℕ → Option (List ℕ) → Option (List ℕ) → Option (List ℕ)
found outlen none later = later
found outlen (some value) later = some (c_string (form_value (length value) (outlen - 1) value))

-- `form_get`, into a buffer of `outlen` bytes: the text that it then holds. `fuel` is one for each
-- byte.
unfoldable pub form_find : ℕ → ℕ → List ℕ → List ℕ → Option (List ℕ)
form_find zero outlen key p = none
form_find (suc fuel) outlen key [] = none
form_find (suc fuel) outlen key (c ∷ p) =
    found outlen (after_key key (c ∷ p)) (form_find fuel outlen key (or_empty (after_amp (c ∷ p))))

unfoldable pub form_get : List ℕ → List ℕ → ℕ → Option (List ℕ)
form_get body key outlen = form_find (length body) outlen key body

-- `key_is_plausible`; a char is unsigned on this processor.
unfoldable pub key_is_plausible : List ℕ → Bool
key_is_plausible [] = true
key_is_plausible (c ∷ key) =
    let rest = key_is_plausible key in if leb c b' ' || c == 0x7f then false else rest

-- "%04x" of a byte below 32.
hex_digit : ℕ → ℕ
hex_digit d = if ltb d 10 then b'0' + d else b'a' + (d - 10)

-- `json_escape`, with `room` bytes left of the buffer.
unfoldable pub json_escape : ℕ → List ℕ → List ℕ
unfolding hex_digit
json_escape room [] = []
json_escape room (c ∷ p) =
    let two = json_escape (room - 2) p in
    let six = json_escape (room - 6) p in
    let one = json_escape (room - 1) p in
    if leb room 7
    then []
    else if c == b'"' || c == b'\\'
    then b'\\' ∷ c ∷ two
    else if ltb c 0x20
    then b'\\' ∷ b'u' ∷ b'0' ∷ b'0' ∷ hex_digit (c / 16) ∷ hex_digit (c % 16) ∷ six
    else c ∷ one
