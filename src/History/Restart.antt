-- ===== src/History/Restart.antt =====
-- What a start of the device loads: `history_store_load` after a save and a loss of power.
use esp32_deepgram_voice_age.Common.{
  ℕ, ◌*◌, ◌^◌, ◌≤◌, ◌<◌, ◌≡◌, sym, ◌∙◌, ◌⊎◌, inl, inr, false, none, some, List, arith, length,
}
use esp32_deepgram_voice_age.History.{
  span, Partition, slot_size, max_payload, Known, Fate, Result, ok, failed, store_save, store_load,
}
use esp32_deepgram_voice_age.History.Flash.{record_at}
use esp32_deepgram_voice_age.History.Newest.{store_load-newest}
use esp32_deepgram_voice_age.History.Saving.{Stores, SaveOutcome, store_save-Stores}

-- From a flash that keeps a payload, the load answers ok with that payload, whatever was known.
pub store_load-Stores :
    (P : Partition) (crc32 : List ℕ → ℕ)
    (reads : (f : P.Flash) (off n : ℕ) → P.read f off n ≡ some (span (P.byte f) off n)) (size : ℕ)
    (f : P.Flash) (k before : Known) (payload : List ℕ)
    → Stores P crc32 size f k payload
    → store_load P crc32 f size before ≡ (ok, (payload, k))
store_load-Stores P crc32 reads size f k before payload v =
    store_load-newest P crc32 reads f size v.place v.header v.newest before
    ∙ (λ i. (ok, (v.payload_is i, sym v.known_is i)))

-- What a restart loads after the save that left this.
abbrev pub IsRecovered :
    (P : Partition) → (List ℕ → ℕ) → ℕ → List ℕ → List ℕ → Result × (Known × P.Flash) → Type 0
IsRecovered P crc32 size old new (answer, (known, g)) =
    (before : Known)
    → ((next : Known) × (store_load P crc32 g size before ≡ (ok, (new, next))))
      ⊎ ((answer ≡ failed)
          × ((next : Known) × (store_load P crc32 g size before ≡ (ok, (old, next)))))

recovered :
    (P : Partition) (crc32 : List ℕ → ℕ)
    (reads : (f : P.Flash) (off n : ℕ) → P.read f off n ≡ some (span (P.byte f) off n)) (size : ℕ)
    (k : Known) (old new : List ℕ) (r : Result × (Known × P.Flash))
    → SaveOutcome P crc32 size k old new r
    → IsRecovered P crc32 size old new r
unfolding SaveOutcome
recovered P crc32 reads size k old new (answer, (known, g)) (inl (e, (same, v))) before =
    inr (e, (k, store_load-Stores P crc32 reads size g k before old v))
recovered P crc32 reads size k old new (answer, (known, g)) (inr (next, v, ans)) before =
    inl (next, store_load-Stores P crc32 reads size g next before new v)

-- A save is all or nothing. From a flash whose newest record keeps a payload, its place known,
-- and however the save goes (its erase cut short, or the power lost at any byte of the payload or
-- of the header), the load at the next start answers ok with the old payload or with the new one,
-- and with the new one if the save did not fail. Reads answer, the checksum is a word of 32 bits,
-- the new payload fits, and an erase that is cut short leaves its slot as it was or without a
-- record.
pub store_load-store_save :
    (P : Partition) (crc32 : List ℕ → ℕ)
    (reads : (f : P.Flash) (off n : ℕ) → P.read f off n ≡ some (span (P.byte f) off n))
    (crc_word : (bs : List ℕ) → crc32 bs < 2 ^ 32) (f : P.Flash) (k : Known) (old new : List ℕ)
    → Stores P crc32 max_payload f k old
    → ((i : ℕ)
        → let now = record_at crc32 (P.byte (P.erase false (i * slot_size) f)) max_payload i in
          (now ≡ none) ⊎ (now ≡ record_at crc32 (P.byte f) max_payload i))
    → (fate : Fate) → length new ≤ max_payload
    → IsRecovered P crc32 max_payload old new (store_save P crc32 fate new (k, f))
store_load-store_save P crc32 reads crc_word f k old new v cut fate fits =
    recovered P crc32 reads max_payload k old new (store_save P crc32 fate new (k, f))
      (store_save-Stores P crc32 max_payload crc_word f k old v (omega arith) cut fate new fits)
