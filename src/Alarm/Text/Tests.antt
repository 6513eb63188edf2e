-- ===== src/Alarm/Text/Tests.antt =====
-- Runs of the text functions.
use esp32_deepgram_voice_age.Common.{◌≡◌, refl, true, none, some}
use esp32_deepgram_voice_age.Common.Bytes.{codes}
use esp32_deepgram_voice_age.Alarm.Text.{
  parse_hhmm, fmt_time, parse_days, days_phrase, label_sanitize,
}

times :
    (parse_hhmm (some (codes " 7:30 ")) ≡ some (7, 30))
    × (parse_hhmm (some (codes "24:00")) ≡ none)
    × (fmt_time 0 5 true 12 ≡ codes "12:05 AM")
    × (fmt_time 20 52 true 12 ≡ codes "8:52 PM")
unfolding parse_hhmm fmt_time
times = (refl, refl, refl, refl)

days :
    (parse_days (some (codes "Monday, weds")) ≡ 10)
    × (parse_days (some (codes "every weekday")) ≡ 0x3E)
    × (parse_days (some (codes "mon, soon")) ≡ 0)
    × (days_phrase 0x2A 24 ≡ codes "Mon Wed Fri")
unfolding parse_days days_phrase
days = (refl, refl, refl, refl)

labels :
    (label_sanitize 24 (codes "  Tea  timer ") ≡ codes "Tea timer")
    × (label_sanitize 5 (codes "tea for two") ≡ codes "tea ")
unfolding label_sanitize
labels = (refl, refl)
