-- ===== src/Alarm/Text.antt =====
-- The text functions of main/alarm_sched.c.
pub mod RoundTrip
pub mod Label
mod Tests
use esp32_deepgram_voice_age.Common.{
  ℕ, zero, suc, ◌+◌, ◌-◌, ◌*◌, ◌%◌, ◌^◌, bit_and, bit_or, Bool, true, false, not, ◌&&◌, ◌||◌,
  Option, none, some, List, [], ◌∷◌, ◌++◌, ltb, leb, ◌==◌, if◌then◌else◌, length, has_bits,
}
use esp32_deepgram_voice_age.Common.Bytes.{
  codes, bytes_eq, is_digit, is_alpha, to_lower, decimal, decimal_two, snprintf,
}
use esp32_deepgram_voice_age.Alarm.{alarm_days_all}

abbrev pub days_weekdays : ℕ
days_weekdays = 0x3E

abbrev pub days_weekends : ℕ
days_weekends = 0x41

abbrev pub day_names : List (List ℕ)
day_names =
    codes "sunday"
    ∷ codes "monday"
    ∷ codes "tuesday"
    ∷ codes "wednesday"
    ∷ codes "thursday"
    ∷ codes "friday"
    ∷ codes "saturday"
    ∷ []

abbrev pub day_short : List (List ℕ)
day_short =
    codes "Sun"
    ∷ codes "Mon"
    ∷ codes "Tue"
    ∷ codes "Wed"
    ∷ codes "Thu"
    ∷ codes "Fri"
    ∷ codes "Sat"
    ∷ []

pub skip_spaces : List ℕ → List ℕ
skip_spaces [] = []
skip_spaces (c ∷ s) = let rest = skip_spaces s in if c == b' ' then rest else c ∷ s

-- The digits loop of `alarm_parse_hhmm`: the value, how many were read, and the rest.
read_digits : ℕ → ℕ → ℕ → List ℕ → ℕ × ℕ × List ℕ
read_digits zero h digits s = (h, digits, s)
read_digits (suc room) h digits [] = (h, digits, [])
read_digits (suc room) h digits (c ∷ s) =
    let more = read_digits room (h * 10 + (c - b'0')) (digits + 1) s in
    if is_digit c then more else (h, digits, c ∷ s)

-- From the ':' on, with hour `h`.
parse_minutes : ℕ → List ℕ → Option (ℕ × ℕ)
unfolding skip_spaces
parse_minutes h (colon ∷ a ∷ b ∷ s) =
    let m = (a - b'0') * 10 + (b - b'0') in
    if not (colon == b':')
    then none
    else if not (is_digit a) || not (is_digit b)
    then none
    else if not (length (skip_spaces s) == 0) || (ltb 23 h || ltb 59 m)
    then none
    else some (h, m)
parse_minutes h _ = none

-- `alarm_parse_hhmm`; `none` for NULL.
unfoldable pub parse_hhmm : Option (List ℕ) → Option (ℕ × ℕ)
unfolding skip_spaces read_digits parse_minutes
parse_hhmm none = none
parse_hhmm (some s) =
    let (h, digits, rest) = read_digits 2 0 0 (skip_spaces s) in
    if digits == 0 then none else parse_minutes h rest

-- `strncmp(name, w, len) == 0` with `len <= strlen(name)`, for a word `w` of `len` bytes.
pub is_prefix : List ℕ → List ℕ → Bool
is_prefix [] name = true
is_prefix (c ∷ w) [] = false
is_prefix (c ∷ w) (d ∷ name) = d == c && is_prefix w name

-- The first day from `d` on whose name begins with the word.
find_day : List ℕ → ℕ → List (List ℕ) → Option ℕ
unfolding is_prefix
find_day w d [] = none
find_day w d (name ∷ names) = if is_prefix w name then some d else find_day w (d + 1) names

-- One pass of `day_index`.
day_pass : List ℕ → Option ℕ
unfolding find_day
day_pass w = if leb 2 (length w) then find_day w 0 day_names else none

-- The word without its last letter, if it has more than two and that is an 's'.
drop_plural : List ℕ → Option (List ℕ)
drop_plural (a ∷ b ∷ c ∷ []) = if c == b's' then some (a ∷ b ∷ []) else none
drop_plural (a ∷ b ∷ c ∷ d ∷ w) = elim (drop_plural (b ∷ c ∷ d ∷ w)) [
  | none ↦ none
  | some v ↦ some (a ∷ v)
]
drop_plural _ = none

-- `day_index`: -1 is `none`.
pub day_index : List ℕ → Option ℕ
unfolding day_pass drop_plural
day_index w = elim (day_pass w) [
  | some d ↦ some d
  | none ↦ elim (drop_plural w) [ none ↦ none | some v ↦ day_pass v ]
]

-- What the word adds to the mask; `none` if it is not understood.
pub word_days : List ℕ → Option ℕ
unfolding day_index
word_days w =
    if bytes_eq w (codes "daily")
      || (bytes_eq w (codes "everyday") || (bytes_eq w (codes "day") || bytes_eq w (codes "days")))
    then some alarm_days_all
    else if bytes_eq w (codes "weekdays") || bytes_eq w (codes "weekday")
    then some days_weekdays
    else if bytes_eq w (codes "weekends") || bytes_eq w (codes "weekend")
    then some days_weekends
    else if bytes_eq w (codes "every") || (bytes_eq w (codes "and") || bytes_eq w (codes "on"))
    then some 0
    else elim (day_index w) [ none ↦ none | some d ↦ some (2 ^ d) ]

-- The end of a word of `len` letters, of which the first 16 are kept: the mask with it.
end_word : List ℕ → ℕ → ℕ → Option ℕ
unfolding word_days
end_word w len mask =
    if len == 0
    then some mask
    else if ltb 16 len
    then none
    else elim (word_days w) [ none ↦ none | some days ↦ some (bit_or mask days) ]

-- The loop of `alarm_parse_days`, with the word so far, its length and the mask.
scan_days : List ℕ → List ℕ → ℕ → ℕ → Option ℕ
unfolding end_word
scan_days [] w len mask = end_word w len mask
scan_days (c ∷ s) w len mask =
    let longer = scan_days s (if ltb len 16 then w ++ to_lower c ∷ [] else w) (len + 1) mask in
    let next : Option ℕ = elim (end_word w len mask) [
      | none ↦ none
      | some mask' ↦ scan_days s [] 0 mask'
    ] in
    if is_alpha c then longer else next

-- `alarm_parse_days`: 0 for NULL and for a schedule with a word that is not understood.
unfoldable pub parse_days : Option (List ℕ) → ℕ
unfolding scan_days
parse_days none = 0
parse_days (some s) = elim (scan_days s [] 0 0) [ none ↦ 0 | some mask ↦ mask ]

-- The loop of `alarm_label_sanitize` with `n` bytes written: what it still writes.
sanitize_from : List ℕ → ℕ → ℕ → Bool → List ℕ
sanitize_from [] cap n space = []
sanitize_from (p ∷ ps) cap n space =
    let skip = sanitize_from ps cap n space in
    let gap = sanitize_from ps cap n (ltb 0 n) in
    let both = b' ' ∷ p ∷ sanitize_from ps cap (n + 2) false in
    let one = p ∷ sanitize_from ps cap (n + 1) false in
    if leb 0x80 p
    then skip
    else if leb p 0x20 || p == 0x7F
    then gap
    else if space
    then (if leb cap (n + 1) then [] else if leb cap (n + 2) then b' ' ∷ [] else both)
    else if leb cap (n + 1)
    then []
    else one

-- `alarm_label_sanitize`, for a buffer of `cap` bytes; a NULL source is the empty text.
unfoldable pub label_sanitize : ℕ → List ℕ → List ℕ
unfolding sanitize_from
label_sanitize cap src = if cap == 0 then [] else sanitize_from src cap 0 false

-- `alarm_fmt_time`.
unfoldable pub fmt_time : ℕ → ℕ → Bool → ℕ → List ℕ
unfolding decimal decimal_two
fmt_time hh mm h12 cap =
    let h = if hh % 12 == 0 then 12 else hh % 12 in
    if h12
    then snprintf cap (
        decimal h
        ++ (codes ":" ++ (decimal_two mm ++ (if ltb hh 12 then codes " AM" else codes " PM"))))
    else snprintf cap (decimal_two hh ++ (codes ":" ++ decimal_two mm))

-- The loop of `alarm_days_phrase` from day `d` on, with `n` bytes written: what it still writes.
phrase_from : List (List ℕ) → ℕ → ℕ → ℕ → ℕ → List ℕ
phrase_from [] mask cap d n = []
phrase_from (name ∷ names) mask cap d n =
    let text = (if n == 0 then [] else b' ' ∷ []) ++ name in
    let skip = phrase_from names mask cap (d + 1) n in
    let more = text ++ phrase_from names mask cap (d + 1) (n + length text) in
    if not (has_bits mask (2 ^ d))
    then skip
    else if leb (cap - n) (length text)
    then snprintf (cap - n) text
    else more

-- `alarm_days_phrase`.
unfoldable pub days_phrase : ℕ → ℕ → List ℕ
unfolding phrase_from
days_phrase mask0 cap =
    let mask = bit_and mask0 alarm_days_all in
    if mask == alarm_days_all
    then snprintf cap (codes "every day")
    else if mask == days_weekdays
    then snprintf cap (codes "weekdays")
    else if mask == days_weekends
    then snprintf cap (codes "weekends")
    else phrase_from day_short mask cap 0 0
