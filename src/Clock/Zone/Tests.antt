-- ===== src/Clock/Zone/Tests.antt =====
-- Runs of the zone's functions, and the theorems at a small table of zones.
use esp32_deepgram_voice_age.Common.{
  ◌<◌, ◌≡◌, refl, ◌⊎◌, true, false, none, some, List, [], ◌∷◌, length, All,
}
use esp32_deepgram_voice_age.Common.Int.{pos}
use esp32_deepgram_voice_age.Common.Bytes.{codes}
use esp32_deepgram_voice_age.Clock.Zone.{
  Entry, Zone, Kept, Reply, tz_lookup, tz_resolve, clock_start, clock_tick, clock_12h,
  clock_tz_name, set_clock,
}
use esp32_deepgram_voice_age.Clock.Zone.Rules.{IsPlain, tz_resolve-fits}
use esp32_deepgram_voice_age.Clock.Zone.Asking.{IsInForce, IsRefused, set_clock-clock_tick}
use esp32_deepgram_voice_age.Clock.Zone.Reboot.{Ask, run, clock_start-clock_tick}

abbrev zones : List Entry
zones =
    record { iana = codes "America/Chicago"; posix = codes "CST6CDT,M3.2.0,M11.1.0"; h12 = true }
    ∷ record { iana = codes "UTC"; posix = codes "UTC0"; h12 = false }
    ∷ []

resolved :
    (tz_resolve zones 48 (codes "america/chicago") ≡ some (codes "CST6CDT,M3.2.0,M11.1.0"))
    × (tz_resolve zones 48 (codes "<+04>-4") ≡ some (codes "LCL-4"))
    × (tz_resolve zones 48 (codes "Chicago") ≡ none)
    × (tz_resolve zones 48 (codes "Europe/Paris") ≡ none)
    × (tz_resolve zones 5 (codes "EST5EDT") ≡ none)
unfolding tz_resolve
resolved = (refl, refl, refl, refl, refl)

tz_resolve-fits_example :
    (length (codes "LCL-4") < 48)
    × ((tz_lookup zones (codes "<+04>-4") ≡ some (codes "LCL-4")) ⊎ All IsPlain (codes "LCL-4"))
tz_resolve-fits_example = tz_resolve-fits zones 48 (codes "<+04>-4") (codes "LCL-4") (resolved.1)

abbrev nothing_kept : Kept
nothing_kept = record { tz = none; clk12 = none }

-- A request is answered at once, before it is in force.
at_once :
    let z =
      (set_clock zones
        (some (codes "UTC"))
        (some (pos 12))
        (clock_start zones (codes "America/Chicago") nothing_kept)).1 in
    (clock_tz_name z ≡ codes "UTC") × ((z.tz_name ≡ codes "America/Chicago") × (clock_12h z ≡ true))
unfolding set_clock clock_start clock_tz_name clock_12h
at_once = (refl, (refl, refl))

abbrev unset : Zone
unset = record {
  rule = [];
  tz_name = [];
  tz_pending = [];
  tz_dirty = false;
  fmt_mode = 0;
  fmt_pending = none;
  zone_h12 = false;
  tz_gen = 0;
}

set_clock-clock_tick_example :
    let (reply, z') = set_clock zones (some (codes "UTC")) (some (pos 24)) unset in
    ((reply ≡ Reply.done)
      × IsInForce zones b'U'
          (codes "TC")
          (pos 24)
          (clock_tick true false zones (z', nothing_kept)).0)
    ⊎ ((z' ≡ unset) × IsRefused zones b'U' (codes "TC") (pos 24))
set_clock-clock_tick_example =
    set_clock-clock_tick zones b'U' (codes "TC") (pos 24) unset nothing_kept true false

abbrev asks : List Ask
asks =
    Ask.ask_clock (some (codes "UTC")) (some (pos 24))
    ∷ Ask.loop_pass
    ∷ Ask.ask_clock (some (codes "Nowhere")) none
    ∷ Ask.ask_12h true
    ∷ []

clock_start-clock_tick_example :
    let default = codes "America/Chicago" in
    let (z, f') =
      clock_tick true true zones
        (run zones asks (clock_start zones default nothing_kept, nothing_kept)) in
    let z' = clock_start zones default f' in
    (z'.tz_name ≡ z.tz_name) × ((z'.rule ≡ z.rule) × (clock_12h z' ≡ clock_12h z))
clock_start-clock_tick_example =
    clock_start-clock_tick zones (codes "America/Chicago") nothing_kept asks
