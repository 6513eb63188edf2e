-- ===== src/History/Tests.antt =====
-- Saves to a plain flash.
use esp32_deepgram_voice_age.Common.{
  ℕ, zero, suc, ◌+◌, ◌*◌, ◌≡◌, refl, ◌∙◌, inl, inr, true, false, some, List, [], ◌∷◌, ◌++◌, arith,
  ◌==◌, get_or,
}
use esp32_deepgram_voice_age.History.Plain.{
  plain, sum_check, sum_check-word, first_saved, first_known, first_saved-Stores, plain_cut,
  first_header, get_or-past,
}
use esp32_deepgram_voice_age.History.{
  span, header_in, header_bytes, slot_magic, slot_size, header_size, max_payload, Known, Fate,
  store_save, store_load, write_slot, ensure_scanned, slot_valid, scan,
}
use esp32_deepgram_voice_age.History.Flash.{record_at, get_or-span}
use esp32_deepgram_voice_age.History.Saving.{SaveOutcome, store_save-Stores}
use esp32_deepgram_voice_age.History.Restart.{IsRecovered, store_load-store_save}
use esp32_deepgram_voice_age.History.Skipped.{AreWhole}

-- The power goes while the header is written.
abbrev power_cut : Fate
power_cut = record { erases = true; payload = 3; header = 13 }

store_save-Stores_example :
    SaveOutcome plain sum_check max_payload first_known
      (7 ∷ 8 ∷ [])
      (1 ∷ 2 ∷ 3 ∷ [])
      (store_save plain sum_check power_cut (1 ∷ 2 ∷ 3 ∷ []) (first_known, first_saved))
store_save-Stores_example =
    store_save-Stores plain sum_check max_payload sum_check-word first_saved first_known
      (7 ∷ 8 ∷ []) first_saved-Stores (omega arith) plain_cut power_cut (1 ∷ 2 ∷ 3 ∷ [])
      (omega arith)

store_load-store_save_example :
    IsRecovered plain sum_check max_payload
      (7 ∷ 8 ∷ [])
      (1 ∷ 2 ∷ 3 ∷ [])
      (store_save plain sum_check power_cut (1 ∷ 2 ∷ 3 ∷ []) (first_known, first_saved))
store_load-store_save_example =
    store_load-store_save plain sum_check (λ f off n. refl) sum_check-word first_saved first_known
      (7 ∷ 8 ∷ []) (1 ∷ 2 ∷ 3 ∷ []) first_saved-Stores plain_cut power_cut (omega arith)

abbrev no_trouble : Fate
no_trouble = record { erases = true; payload = 3; header = 20 }

-- A save that meets no trouble, and one that loses its power, and what the next start loads.
abbrev second_known : Known
second_known = record { slot = some 1; seq = 2 }

saved_second :
    (store_save plain sum_check no_trouble (1 ∷ 2 ∷ 3 ∷ []) (first_known, first_saved)).1.0
    ≡ second_known
unfolding store_save write_slot ensure_scanned
saved_second = refl

loads_second :
    (store_load plain sum_check
      (store_save plain sum_check no_trouble (1 ∷ 2 ∷ 3 ∷ []) (first_known, first_saved)).1.1
      max_payload
      second_known).1.0
    ≡ 1 ∷ 2 ∷ 3 ∷ []
unfolding store_save write_slot ensure_scanned store_load scan slot_valid span
loads_second = refl

loads_first :
    (store_load plain sum_check
      (store_save plain sum_check power_cut (1 ∷ 2 ∷ 3 ∷ []) (first_known, first_saved)).1.1
      max_payload
      second_known).1.0
    ≡ 7 ∷ 8 ∷ []
unfolding store_save write_slot ensure_scanned store_load scan slot_valid span
loads_first = refl

foreign : (head : List ℕ) → get_or head 3 0 ≡ 255 → ((header_in head).magic == slot_magic) ≡ false
foreign head e = ground (arith, e)

erased_later : (i : ℕ) → first_saved (suc i * slot_size + 3) ≡ 255
erased_later i =
    get_or-past (header_bytes first_header ++ (7 ∷ 8 ∷ [])) (suc i * slot_size + 3) 255
      (omega arith)

first_saved-AreWhole : AreWhole sum_check first_saved max_payload
unfolding record_at span
first_saved-AreWhole zero = inr refl
first_saved-AreWhole (suc i) = inl (
    foreign (span first_saved (suc i * slot_size) header_size)
      (get_or-span first_saved (suc i * slot_size) header_size 3 (omega arith) ∙ erased_later i))
