-- ===== src/Memory/Restart.antt =====
-- A conversation across a restart: `dg_agent_flush_history` to the ring of main/history_store.c,
-- and `history_load` at the next start.
use esp32_deepgram_voice_age.Common.{
  ℕ, ◌*◌, ◌^◌, ◌≤◌, ◌<◌, ◌≡◌, ap, ◌∙◌, ◌⊎◌, inl, inr, false, Option, none, some, List, [], arith,
  length, length-append,
}
use esp32_deepgram_voice_age.History.{
  Partition, span, slot_size, max_payload, Known, Fate, Result, ok, failed, store_save, store_load,
}
use esp32_deepgram_voice_age.History.Flash.{record_at}
use esp32_deepgram_voice_age.History.Saving.{Stores}
use esp32_deepgram_voice_age.History.Restart.{IsRecovered, store_load-store_save}
use esp32_deepgram_voice_age.Memory.{Memory, idx_records, flush_record, history_load}
use esp32_deepgram_voice_age.Memory.Turns.{Turn, size, Holds, length-pack}
use esp32_deepgram_voice_age.Memory.Saved.{length-idx_records, history_load-flush_record}

-- The memory of a start that `history_load` left as it was, empty.
abbrev pub started : Option Memory → Memory
started none = record { arena = []; idx = []; frozen = false }
started (some m) = m

abbrev pub loaded : Result × (List ℕ × Known) → Option Memory
loaded (ok, (bytes, k)) = history_load bytes
loaded (_, (bytes, k)) = none

module _ (P : Partition) (crc32 : List ℕ → ℕ) where
  -- The save of `dg_agent_flush_history`, its record staged.
  abbrev pub flush_to : Fate → ℕ → Memory → Known × P.Flash → Result × (Known × P.Flash)
  flush_to fate pad m s = store_save P crc32 fate (flush_record pad m) s

  -- What the device remembers when it starts.
  abbrev pub resumed : P.Flash → Known → Memory
  resumed f before = started (loaded (store_load P crc32 f max_payload before))

-- The record of a memory fits a slot: 2 + 40 * 6 + 3072 bytes at most.
length-flush_record :
    (pad : ℕ) (m : Memory) (ts : List Turn) → Holds m ts → length (flush_record pad m) ≤ 3314
unfolding flush_record
length-flush_record pad m ts v =
    let a : length m.arena ≡ size ts = ap length v.arena_is ∙ length-pack ts in
    let i : length (idx_records pad m.idx) ≡ length ts * 6 =
      ap (λ t. length (idx_records pad t)) v.index_is ∙ length-idx_records pad 0 ts in
    omega (arith, length-append (idx_records pad m.idx) m.arena, a, i, v.count_fits, v.bytes_fit)

-- What a device remembers after a restart that follows a flush.
abbrev pub Survives :
    (P : Partition) → (List ℕ → ℕ) → Memory → Memory → Result × (Known × P.Flash) → Type 0
Survives P crc32 old new (answer, (known, g)) =
    (before : Known)
    → (resumed P crc32 g before ≡ new) ⊎ ((answer ≡ failed) × (resumed P crc32 g before ≡ old))

IsRecovered-Survives :
    (P : Partition) (crc32 : List ℕ → ℕ) (old new : List ℕ) (m : Memory)
    (r : Result × (Known × P.Flash))
    → history_load new ≡ some m
    → IsRecovered P crc32 max_payload old new r
    → Survives P crc32 (started (history_load old)) m r
IsRecovered-Survives P crc32 old new m (answer, (known, g)) e v before = elim (v before) [
  | inl (next, is) ↦ inl (ap (λ r. started (loaded r)) is ∙ ap started e)
  | inr (bad, (next, is)) ↦ inr (bad, ap (λ r. started (loaded r)) is)
]

-- A conversation survives a restart. Let the memory hold some turns, and the flash a record, with
-- its place known. However the flush goes (the power may be lost at any byte), the device starts
-- again with the memory as it was flushed, or, if the flush failed, with that or with what the
-- record before it gives. Reads answer, the checksum is a word of 32 bits, and an erase that is cut
-- short leaves its slot as it was or without a record.
pub flush_to-Survives :
    (P : Partition) (crc32 : List ℕ → ℕ)
    (reads : (f : P.Flash) (off n : ℕ) → P.read f off n ≡ some (span (P.byte f) off n))
    (crc_word : (bs : List ℕ) → crc32 bs < 2 ^ 32) (f : P.Flash) (k : Known) (old : List ℕ)
    → Stores P crc32 max_payload f k old
    → ((i : ℕ)
        → let now = record_at crc32 (P.byte (P.erase false (i * slot_size) f)) max_payload i in
          (now ≡ none) ⊎ (now ≡ record_at crc32 (P.byte f) max_payload i))
    → (fate : Fate) (pad : ℕ) (m : Memory) (ts : List Turn) → Holds m ts
    → Survives P crc32
        (started (history_load old))
        (record m { frozen = false })
        (flush_to P crc32 fate pad m (k, f))
flush_to-Survives P crc32 reads crc_word f k old v cut fate pad m ts h =
    IsRecovered-Survives P crc32 old (flush_record pad m) (record m { frozen = false })
      (flush_to P crc32 fate pad m (k, f)) (history_load-flush_record pad m ts h)
      (store_load-store_save P crc32 reads crc_word f k old (flush_record pad m) v cut fate
        (omega (arith, length-flush_record pad m ts h)))
