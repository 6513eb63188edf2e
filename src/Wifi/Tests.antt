-- ===== src/Wifi/Tests.antt =====
-- Runs of the station, and theorems at a concrete state.
use esp32_deepgram_voice_age.Common.{ℕ, ◌≡◌, refl, true, false, List, [], ◌∷◌}
use esp32_deepgram_voice_age.Wifi.{
  connect, Sta, Event, sta_start, sta_disconnected, on_wifi_event, esp_fail, wifi_sta_start,
  wifi_sta_wait_connected,
}
use esp32_deepgram_voice_age.Wifi.Retries.{events, wifi_sta_wait_connected-events}

abbrev off : Sta
off = record {
  connecting = false;
  retries = 7;
  connected_bit = true;
  failed_bit = false;
  bars = 2;
  weak_logged = false;
}

abbrev losing : List Event
losing = sta_start ∷ sta_disconnected ∷ sta_disconnected ∷ sta_disconnected ∷ []

-- Two retries, and a third loss.
gives_up :
    let (s, calls) = events 2 losing (wifi_sta_start (1 ∷ []) off).1.0 in
    (calls ≡ connect ∷ connect ∷ connect ∷ []) × (s.failed_bit ≡ true)
unfolding events on_wifi_event wifi_sta_start
gives_up = (refl, refl)

wifi_sta_wait_connected-events_example :
    let s = (events 2 losing (wifi_sta_start (1 ∷ []) off).1.0).0 in
    (wifi_sta_wait_connected s ≡ esp_fail) × (s.retries ≡ 2)
wifi_sta_wait_connected-events_example = wifi_sta_wait_connected-events 2 1 [] losing off

abbrev two_bars : ℕ
two_bars = 2
