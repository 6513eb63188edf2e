-- ===== src/Clock/Zone.antt =====
-- main/tz_table.c: a zone's name or rule resolved to the rule that is set, over any table of zones.
-- main/clock.c: the zone and the 12-hour format, from a request to the next boot. What nvs_* keep
-- is a record, and the answer of a save is an argument.
mod Rules
mod Asking
mod Reboot
mod Tests
use esp32_deepgram_voice_age.Common.{
  ℕ, ◌+◌, ◌-◌, ◌/◌, ◌<◌, Bool, true, false, not, ◌&&◌, ◌||◌, Option, none, some, List, [], ◌∷◌,
  ◌++◌, map, ltb, leb, ◌==◌, if◌then◌else◌, length, get_or, u8, u32,
}
use mathlib.Core.Option
use esp32_deepgram_voice_age.Common.Int.{ℤ, pos, eqb_ℤ}
use esp32_deepgram_voice_age.Common.Bytes.{codes, bytes_eq, is_digit, is_alpha, to_lower, snprintf}

-- tz_entry_t.
pub record Entry : Type 0 where
  pub iana : List ℕ
  pub posix : List ℕ
  pub h12 : Bool

-- `isspace` of the C locale.
abbrev pub is_space : ℕ → Bool
is_space c = c == 32 || (leb 9 c && leb c 13)

-- `strcasecmp(a, b) == 0`.
abbrev same_name : List ℕ → List ℕ → Bool
same_name a b = bytes_eq (map to_lower a) (map to_lower b)

-- The loop of `tz_lookup` and of `tz_default_12h`.
unfoldable pub find_zone : List Entry → List ℕ → Option Entry
find_zone [] name = none
find_zone (e ∷ es) name = if same_name e.iana name then some e else find_zone es name

unfoldable pub tz_lookup : List Entry → List ℕ → Option (List ℕ)
unfolding find_zone
tz_lookup zones name = elim (find_zone zones name) [ none ↦ none | some e ↦ some e.posix ]

unfoldable pub tz_default_12h : List Entry → List ℕ → Bool
unfolding find_zone
tz_default_12h zones name = elim (find_zone zones name) [ none ↦ false | some e ↦ e.h12 ]

-- What follows the first '>'.
unfoldable pub after_quote : List ℕ → Option (List ℕ)
after_quote [] = none
after_quote (c ∷ cs) = if c == b'>' then some cs else after_quote cs

-- What follows the letters in front, and how many they are.
unfoldable pub after_letters : List ℕ → ℕ × List ℕ
after_letters [] = (0, [])
after_letters (c ∷ cs) =
    let (n, rest) = after_letters cs in if is_alpha c then (n + 1, rest) else (0, c ∷ cs)

abbrev signed_or_digit : List ℕ → Bool
signed_or_digit [] = false
signed_or_digit (c ∷ cs) = c == b'+' || (c == b'-' || is_digit c)

unfoldable pub looks_posix : List ℕ → Bool
unfolding after_quote after_letters
looks_posix s =
    if get_or s 0 0 == b'<'
    then (elim (after_quote s) [ none ↦ false | some rest ↦ signed_or_digit rest ])
    else (let (n, rest) = after_letters s in if ltb n 3 then false else signed_or_digit rest)

unfoldable pub has_slash : List ℕ → Bool
has_slash [] = false
has_slash (c ∷ cs) = c == b'/' || has_slash cs

-- The copy of `tz_resolve` from the byte at `n` of the rule on; `quoted` on the way from '<' to
-- '>', which gives no rule if there is none.
unfoldable pub copy_rule : ℕ → Bool → ℕ → List ℕ → Option (List ℕ)
copy_rule cap true n [] = none
copy_rule cap false n [] = some []
copy_rule cap true n (c ∷ cs) = copy_rule cap (not (c == b'>')) n cs
copy_rule cap false n (c ∷ cs) =
    let opens = c == b'<' in
    let piece = if opens then codes "LCL" else c ∷ [] in
    let n' = n + length piece in
    let rest = copy_rule cap opens n' cs in
    if (not opens && is_space c) || leb cap n' then none else Option.map (λ r. piece ++ r) rest

unfoldable pub tz_resolve : List Entry → ℕ → List ℕ → Option (List ℕ)
unfolding tz_lookup looks_posix has_slash copy_rule
tz_resolve zones cap [] = none
tz_resolve zones cap (c ∷ cs) = if cap == 0 then none else elim (tz_lookup zones (c ∷ cs)) [
  | some rule ↦ if leb cap (length rule) then none else some rule
  | none ↦
      if has_slash (c ∷ cs) || not (looks_posix (c ∷ cs))
      then none
      else copy_rule cap false 0 (c ∷ cs)
]

abbrev pub tz_name_max : ℕ
tz_name_max = 48

abbrev pub fmt_12 : ℕ
fmt_12 = 1

abbrev pub fmt_24 : ℕ
fmt_24 = 2

-- The variables of main/clock.c, with the rule in the environment's TZ; `fmt_pending` is `none` for
-- -1.
pub record Zone : Type 0 where
  pub rule : List ℕ
  pub tz_name : List ℕ
  pub tz_pending : List ℕ
  pub tz_dirty : Bool
  pub fmt_mode : ℕ
  pub fmt_pending : Option ℕ
  pub zone_h12 : Bool
  pub tz_gen : ℕ

-- What is saved under "tz" and "clk12"; `none` for no entry.
pub record Kept : Type 0 where
  pub tz : Option (List ℕ)
  pub clk12 : Option ℕ

-- The name and the rule that `tz_apply` settles on.
unfoldable pub settled : List Entry → List ℕ → List ℕ × List ℕ
unfolding tz_resolve
settled zones name = elim (tz_resolve zones tz_name_max name) [
  | none ↦ (codes "UTC", codes "UTC0")
  | some rule ↦ (name, rule)
]

unfoldable pub tz_apply : List Entry → List ℕ → Zone → Zone
unfolding settled
tz_apply zones name z =
    let (name', rule) = settled zones name in
    record z {
      rule = rule;
      tz_name = snprintf tz_name_max name';
      zone_h12 = tz_default_12h zones name';
      tz_gen = u32 (z.tz_gen + 1);
    }

-- What clock_start reads; a saved name that does not fit its buffer is an error of nvs_get_str.
unfoldable pub tz_load : List ℕ → Kept → List ℕ
tz_load default f = elim f.tz [
  | none ↦ default
  | some name ↦ if ltb (length name) tz_name_max then name else default
]

unfoldable pub fmt_load : Kept → ℕ
fmt_load f = elim f.clk12 [ none ↦ 0 | some mode ↦ if leb mode fmt_24 then mode else 0 ]

-- The zone's part of `clock_start`; CONFIG_CLOCK_DEFAULT_TZ is `default`.
unfoldable pub clock_start : List Entry → List ℕ → Kept → Zone
unfolding tz_apply tz_load fmt_load
clock_start zones default f = tz_apply zones (tz_load default f) (record {
  rule = [];
  tz_name = [];
  tz_pending = [];
  tz_dirty = false;
  fmt_mode = fmt_load f;
  fmt_pending = none;
  zone_h12 = false;
  tz_gen = 0;
})

-- The parts of `clock_tick` for the zone and for the format, with whether the save succeeds.
unfoldable pub tick_zone : Bool → List Entry → Zone × Kept → Zone × Kept
unfolding tz_apply
tick_zone ok zones (z, f) =
    let name = snprintf tz_name_max z.tz_pending in
    if z.tz_dirty
    then (
      tz_apply zones name (record z { tz_dirty = false }),
      (if ok then record f { tz = some name } else f),
    )
    else (z, f)

unfoldable pub tick_fmt : Bool → Zone × Kept → Zone × Kept
tick_fmt ok (z, f) = elim z.fmt_pending [
  | none ↦ (z, f)
  | some mode ↦ (
    record z { fmt_mode = u8 mode; fmt_pending = none },
    (if ok then record f { clk12 = some (u8 mode) } else f),
  )
]

unfoldable pub clock_tick : Bool → Bool → List Entry → Zone × Kept → Zone × Kept
unfolding tick_zone tick_fmt
clock_tick ok ok' zones w = tick_fmt ok' (tick_zone ok zones w)

unfoldable pub clock_12h : Zone → Bool
clock_12h z =
    let mode : ℕ = elim z.fmt_pending [ none ↦ z.fmt_mode | some m ↦ m ] in
    if mode == fmt_12 then true else if mode == fmt_24 then false else z.zone_h12

unfoldable pub clock_set_12h : Bool → Zone → Zone
clock_set_12h h12 z = record z { fmt_pending = some (if h12 then fmt_12 else fmt_24) }

unfoldable pub clock_tz_name : Zone → List ℕ
clock_tz_name z = if z.tz_dirty then z.tz_pending else z.tz_name

-- What `clock_fn_set_clock` answers.
pub data Reply : Type 0 where
  pass_one unknown_zone bad_hours done : Reply

-- A zone that is a text and not an empty one.
abbrev named_zone : Option (List ℕ) → Option (List ℕ)
named_zone none = none
named_zone (some []) = none
named_zone (some (c ∷ cs)) = some (c ∷ cs)

abbrev good_zone : List Entry → Option (List ℕ) → Bool
good_zone zones none = true
good_zone zones (some name) =
    not (leb tz_name_max (length name))
    && (elim (tz_resolve zones tz_name_max name) [ none ↦ false | some _ ↦ true ])

abbrev good_hours : Option ℤ → Bool
good_hours none = true
good_hours (some h) = eqb_ℤ h (pos 12) || eqb_ℤ h (pos 24)

abbrev with_zone : Option (List ℕ) → Zone → Zone
with_zone none z = z
with_zone (some name) z = record z { tz_pending = snprintf tz_name_max name; tz_dirty = true }

abbrev with_hours : Option ℤ → Zone → Zone
with_hours none z = z
with_hours (some h) z = record z {
  fmt_pending = some (if eqb_ℤ h (pos 12) then fmt_12 else fmt_24);
}

abbrev is_none {ℓ} : {A : Type ℓ} → Option A → Bool
is_none none = true
is_none (some _) = false

-- `none` for an argument that is missing or of another type.
unfoldable pub set_clock : List Entry → Option (List ℕ) → Option ℤ → Zone → Reply × Zone
unfolding tz_resolve
set_clock zones zone hours z =
    let zone' = named_zone zone in
    if is_none zone' && is_none hours
    then (pass_one, z)
    else if not (good_zone zones zone')
    then (unknown_zone, z)
    else if not (good_hours hours)
    then (bad_hours, z)
    else (done, with_hours hours (with_zone zone' z))
