-- ===== src/Wifi.antt =====
-- main/wifi_sta.c: the station's retries and its signal. The driver is a list of calls; what it
-- answers is an argument. CONFIG_WIFI_SIGNAL is built in, and the stack is initialised.
pub mod Retries
pub mod Signal
mod Tests
use esp32_deepgram_voice_age.Common.{
  ℕ, zero, suc, ◌+◌, Bool, true, false, not, Option, none, some, List, [], ◌∷◌, ltb, leb,
  if◌then◌else◌,
}
use esp32_deepgram_voice_age.Common.Int.{ℤ, pos, negsuc, ◌+ℤ◌, leb_ℤ}

pub data Call : Type 0 where
  connect arm_threshold driver_start driver_stop : Call

-- s_connecting, s_retries, the two bits of s_events, s_bars and s_weak_logged.
pub record Sta : Type 0 where
  pub connecting : Bool
  pub retries : ℕ
  pub connected_bit : Bool
  pub failed_bit : Bool
  pub bars : ℕ
  pub weak_logged : Bool

pub data Event : Type 0 where
  sta_start sta_disconnected bss_rssi_low sta_got_ip : Event

-- `on_wifi_event`, with CONFIG_WIFI_MAX_RETRY.
unfoldable pub on_wifi_event : ℕ → Event → Sta → Sta × List Call
on_wifi_event max_retry sta_start s = (s, (if s.connecting then connect ∷ [] else []))
on_wifi_event max_retry sta_disconnected s =
    if not s.connecting
    then (s, [])
    else if ltb s.retries max_retry
    then (record s { retries = s.retries + 1 }, connect ∷ [])
    else (record s { failed_bit = true }, [])
on_wifi_event max_retry bss_rssi_low s = (record s { weak_logged = true }, arm_threshold ∷ [])
on_wifi_event max_retry sta_got_ip s =
    (record s { retries = 0; connected_bit = true }, arm_threshold ∷ [])

pub data Err : Type 0 where
  esp_ok esp_fail esp_timeout esp_invalid_arg : Err

-- `wifi_sta_start`, by whether the name is empty.
unfoldable pub wifi_sta_start : List ℕ → Sta → Err × (Sta × List Call)
wifi_sta_start [] s = (esp_invalid_arg, (s, []))
wifi_sta_start (c ∷ ssid) s = (
  esp_ok,
  (
    record s { connected_bit = false; failed_bit = false; retries = 0; connecting = true },
    driver_start ∷ [],
  ),
)

-- `wifi_sta_stop`.
unfoldable pub wifi_sta_stop : Sta → Sta × List Call
wifi_sta_stop s = (
  record s {
    connecting = false;
    retries = 0;
    bars = 0;
    weak_logged = false;
    connected_bit = false;
    failed_bit = false;
  },
  driver_stop ∷ [],
)

-- `wifi_sta_wait_connected`, when the wait is over.
unfoldable pub wifi_sta_wait_connected : Sta → Err
wifi_sta_wait_connected s =
    if s.connected_bit then esp_ok else if s.failed_bit then esp_fail else esp_timeout

abbrev pub signal_hyst_db : ℕ
signal_hyst_db = 3

-- SIGNAL_FLOOR_DBM[i].
unfoldable pub signal_floor_dbm : ℕ → ℤ
signal_floor_dbm zero = negsuc 84
signal_floor_dbm (suc zero) = negsuc 74
signal_floor_dbm (suc (suc zero)) = negsuc 66
signal_floor_dbm (suc (suc (suc i))) = negsuc 54

-- The loop of `bars_from_rssi`, from i - 1 down.
unfoldable pub bars_from : ℕ → ℤ → ℕ → ℕ
bars_from zero rssi prev = 0
bars_from (suc i) rssi prev =
    let floor_dbm = signal_floor_dbm i in
    let floor_dbm' = if ltb prev (i + 1) then floor_dbm +ℤ pos signal_hyst_db else floor_dbm in
    let lower = bars_from i rssi prev in if leb_ℤ floor_dbm' rssi then i + 1 else lower

unfoldable pub bars_from_rssi : ℤ → ℕ → ℕ
bars_from_rssi rssi prev = bars_from 4 rssi prev

-- wifi_signal_t.
pub record Reading : Type 0 where
  pub rssi : ℤ
  pub bars : ℕ
  pub weak : Bool
  pub channel : ℕ

-- `wifi_sta_get_signal`; `none` for the access point's record is a failure of the driver's call.
unfoldable pub wifi_sta_get_signal : ℤ → Option (ℤ × ℕ) → Sta → Option Reading × Sta
wifi_sta_get_signal weak_dbm none s = (none, record s { bars = 0 })
wifi_sta_get_signal weak_dbm (some (rssi, primary)) s =
    let bars = bars_from_rssi rssi s.bars in
    let logged = if leb_ℤ (weak_dbm +ℤ pos signal_hyst_db) rssi then false else s.weak_logged in
    (
      some (record { rssi = rssi; bars = bars; weak = leb bars 1; channel = primary }),
      record s { bars = bars; weak_logged = logged },
    )
