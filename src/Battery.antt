-- ===== src/Battery.antt =====
-- The battery indicator: the filter and the sampler of main/battery.c, one pass of the sampler's
-- loop at a time. What the registers answer is an argument, none where a read fails.
pub mod Median
pub mod Settling
mod Tests
use esp32_deepgram_voice_age.Common.{
  ℕ, ◌+◌, ◌-◌, ◌*◌, ◌/◌, bit_and, Bool, true, false, ◌&&◌, ◌||◌, Option, none, some, List, [], ◌∷◌,
  ltb, leb, ◌==◌, if◌then◌else◌, length, get_or, take, u16, has_bits,
}

abbrev pub median_n : ℕ
median_n = 5

abbrev pub report_step_pct : ℕ
report_step_pct = 2

abbrev pub settled_samples : ℕ
settled_samples = 3

abbrev pub low_clear_margin : ℕ
low_clear_margin = 5

abbrev pub status1_vbus_good : ℕ
status1_vbus_good = 0x20

-- The inner loop of the insertion sort. The sorted part is listed from its end, where the loop
-- begins: what is larger than `v` moves up.
pub shift_in : ℕ → List ℕ → List ℕ
shift_in v [] = v ∷ []
shift_in v (x ∷ below) =
    let moved = shift_in v below in if ltb v x then x ∷ moved else v ∷ x ∷ below

pub sort_onto : List ℕ → List ℕ → List ℕ
sort_onto sorted [] = sorted
sort_onto sorted (v ∷ rest) = sort_onto (shift_in v sorted) rest

-- `median_of`: the sorted samples' place n / 2, counted from the end.
unfoldable pub median_of : List ℕ → ℕ
median_of src = get_or (sort_onto [] src) (length src - 1 - length src / 2) 0

-- What the four registers answer.
pub record Reading : Type 0 where
  pub status1 : ℕ
  pub status2 : ℕ
  pub vbat_h : ℕ
  pub vbat_l : ℕ
  pub gauge : ℕ

-- The sampler's own variables, none for -1, and `s_valid` to `s_dir`.
pub record Battery : Type 0 where
  pub history : List ℕ
  pub filled : ℕ
  pub reported : Option ℕ
  pub prev_pct : Option ℕ
  pub settled : ℕ
  pub valid : Bool
  pub percent : ℕ
  pub millivolts : ℕ
  pub charging : Bool
  pub full : Bool
  pub chg_state : Option ℕ
  pub low : Bool
  pub vbus : Bool
  pub direction : ℕ

-- The count of samples for which the median has held.
unfoldable pub settle : ℕ → Option ℕ → ℕ → ℕ
settle pct none settled = 1
settle pct (some prev) settled =
    if pct == prev then (if ltb settled settled_samples then settled + 1 else settled) else 1

-- The deadband, and its way out.
unfoldable pub report : ℕ → Option ℕ → ℕ → ℕ
report pct none settled = pct
report pct (some was) settled =
    if (leb (pct + report_step_pct) was || leb (was + report_step_pct) pct)
      || leb settled_samples settled
    then pct
    else was

-- The hysteresis of `s_low`, which falls at or under `low_pct`.
abbrev pub is_low : ℕ → Bool → ℕ → Bool
is_low low_pct was reported =
    if was then leb reported (low_pct + low_clear_margin) else leb reported low_pct

-- What each sample sets, whatever the gauge says.
abbrev pub power_read : Reading → Battery → Battery
power_read r b = record b {
  millivolts = u16 (bit_and r.vbat_h 0x3F * 256) + r.vbat_l;
  vbus = has_bits r.status1 status1_vbus_good;
  direction = r.status2 / 32;
}

abbrev pub is_charging : Reading → Bool
is_charging r =
    has_bits r.status1 status1_vbus_good && (r.status2 / 32 == 1 || leb (bit_and r.status2 7) 3)

abbrev pub is_full_charge : Reading → Bool
is_full_charge r = has_bits r.status1 status1_vbus_good && bit_and r.status2 7 == 4

-- The gauge has no answer.
abbrev pub no_gauge : Battery → Battery
no_gauge b = record b { valid = false; charging = false; full = false; filled = 0; reported = none }

unfoldable pub gauged : ℕ → Reading → Battery → Battery
gauged low_pct r b =
    let history = r.gauge ∷ take (median_n - 1) b.history in
    let filled = if ltb b.filled median_n then b.filled + 1 else b.filled in
    let pct = median_of (take filled history) in
    let settled = settle pct b.prev_pct b.settled in
    let reported = report pct b.reported settled in
    record b {
      history = history;
      filled = filled;
      reported = some reported;
      prev_pct = some pct;
      settled = settled;
      valid = true;
      percent = reported;
      charging = is_charging r;
      full = is_full_charge r;
      chg_state = some (bit_and r.status2 7);
      low = is_low low_pct b.low reported;
    }

-- A pass of the loop of `sampler_task`.
unfoldable pub sample : ℕ → Option Reading → Battery → Battery
sample low_pct none b = b
sample low_pct (some r) b =
    if ltb 100 r.gauge then no_gauge (power_read r b) else gauged low_pct r (power_read r b)
