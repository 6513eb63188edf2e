-- ===== src/Wifi/Signal.antt =====
-- The bars of the signal (main/wifi_sta.c).
use esp32_deepgram_voice_age.Common.{ℕ, zero, suc, ◌+◌, ◌-◌, ◌≤◌, ◌≡◌, ◌↔◌, ◌⊎◌, arith}
use esp32_deepgram_voice_age.Common.Int.{ℤ, pos, ◌+ℤ◌, ◌≤ℤ◌, ◌<ℤ◌}
use esp32_deepgram_voice_age.Wifi.{signal_floor_dbm, bars_from, bars_from_rssi}

-- The floor of so many bars.
abbrev pub floor_of : ℕ → ℤ
floor_of bars = signal_floor_dbm (bars - 1)

-- From so many bars, of at most four: another reading leaves them as they are exactly if it
-- is not below their floor and not three dB or more above the floor of one bar more.
bars_from_rssi-steady :
    (rssi : ℤ) (prev : ℕ)
    → prev ≤ 4
    → (bars_from_rssi rssi prev ≡ prev) ↔ (
        ((prev ≡ 0) ⊎ (floor_of prev ≤ℤ rssi))
        × ((prev ≡ 4) ⊎ (rssi <ℤ floor_of (prev + 1) +ℤ pos 3)))
unfolding bars_from_rssi bars_from signal_floor_dbm ◌+ℤ◌
bars_from_rssi-steady rssi zero h = ground arith
bars_from_rssi-steady rssi (suc zero) h = ground arith
bars_from_rssi-steady rssi (suc (suc zero)) h = ground arith
bars_from_rssi-steady rssi (suc (suc (suc zero))) h = ground arith
bars_from_rssi-steady rssi (suc (suc (suc (suc zero)))) h = ground arith
bars_from_rssi-steady rssi (suc (suc (suc (suc (suc n))))) h = absurd (omega arith)
