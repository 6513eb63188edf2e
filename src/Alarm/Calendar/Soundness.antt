-- ===== src/Alarm/Calendar/Soundness.antt =====
-- What an answer of `alarm_next_local` means.
use esp32_deepgram_voice_age.Common.{
  ℕ, ◌+◌, ◌*◌, ◌^◌, ◌<◌, ◌≡◌, ◌⊎◌, true, false, Option, none, some, has_bits,
}
use esp32_deepgram_voice_age.Common.Int.{ℤ, ◌≤ℤ◌, ◌<ℤ◌}
use esp32_deepgram_voice_age.Alarm.{alarm_days_all}
use esp32_deepgram_voice_age.Alarm.Calendar.{noon, Tm, Zone}
use esp32_deepgram_voice_age.Alarm.Calendar.Minutes.{FirstMinute, NoMinute}

-- The mask has no day of the week, or there is no such time of day.
abbrev pub IsBad : ℕ → ℕ → ℕ → Type 0
IsBad hh mm mask = (has_bits mask alarm_days_all ≡ false) ⊎ ((23 < hh) ⊎ (59 < mm))

module _ (z : Zone) where
  open z use {localtime, mktime}

  -- The time of day came on that day no later than now.
  pub record TooEarly (now : ℤ) (day : Tm) (m : ℕ) : Type 0 where
    pub minute : ℕ
    pub instant : ℤ
    pub near : minute < m + 181
    pub first : FirstMinute z day.year day.mon day.mday m instant minute
    pub not_later : instant ≤ℤ now

  -- Why no alarm goes off on a day: mktime has no noon of it, it is not in the mask, its time has
  -- come already, or neither that minute nor any of the 180 after it on that day exists.
  abbrev pub PassedOver : Option (ℤ × Tm) → ℤ → ℕ → ℕ → ℕ → Type 0
  PassedOver none now hh mm mask = Unit {0}
  PassedOver (some (_, day)) now hh mm mask =
      (has_bits mask (2 ^ day.wday) ≡ false)
      ⊎ (TooEarly now day (hh * 60 + mm)
          ⊎ NoMinute z day.year day.mon day.mday (hh * 60 + mm) (hh * 60 + mm + 181))

  abbrev pub OnDay : Option (ℤ × Tm) → ℕ → ℕ → ℕ → ℤ → ℕ → Type 0
  OnDay none hh mm mask t k = ⊥
  OnDay (some (_, day)) hh mm mask t k =
      (has_bits mask (2 ^ day.wday) ≡ true)
      × FirstMinute z day.year day.mon day.mday (hh * 60 + mm) t k

  -- The days before day `d` are passed over.
  pub record PassedUpTo (now : ℤ) (today : Tm) (hh mm mask d : ℕ) : Type 0 where
    pub passed : (e : ℕ) → e < d → PassedOver (noon z today e) now hh mm mask

  -- The instant `t` after `now` is on day `d`, at minute `k` of it, and no earlier day would do.
  pub record Answer (now : ℤ) (today : Tm) (hh mm mask : ℕ) (t : ℤ) (d k : ℕ) : Type 0 where
    pub within_week : d < 8
    pub later : now <ℤ t
    pub near : k < hh * 60 + mm + 181
    pub on_day : OnDay (noon z today d) hh mm mask t k
    pub earliest : PassedUpTo now today hh mm mask d

  -- What a round of the loop comes to.
  abbrev DayFound : Option (ℤ × Tm) → ℤ → ℕ → ℕ → ℕ → Option ℤ → Type 0
  DayFound o now hh mm mask none = PassedOver o now hh mm mask
  DayFound o now hh mm mask (some t) =
      (now <ℤ t) × ((k : ℕ) × (k < hh * 60 + mm + 181) × OnDay o hh mm mask t k)
