-- ===== src/History/Outcome.antt =====
-- What a slot holds after the writes of a save to it: `write_slot`.
use esp32_deepgram_voice_age.Common.{
  ℕ, ◌+◌, ◌*◌, ◌≤◌, ◌≡◌, refl, sym, ap, ◌∙◌, subst, ◌⊎◌, inl, inr, true, false, none, some, List,
  arith, ltb, if◌then◌else◌, Bool-cases, length,
}
use esp32_deepgram_voice_age.History.{
  span, Partition, slot_size, header_size, max_payload, Header, Fate, Result, ok, failed, checksum,
  write_slot,
}
use esp32_deepgram_voice_age.History.Flash.{record_at, get_or-span}
use esp32_deepgram_voice_age.History.Torn.{unmarked, IsWritable, judged-whole, judged-torn, crc_is}
use esp32_deepgram_voice_age.History.Writing.{
  filled, finished, filled-head, write_slot-cut, write_slot-short, write_slot-last,
  finished-payload, finished-head,
}

module _ (P : Partition) (crc32 : List ℕ → ℕ) (size : ℕ) where
  -- What slot `next` holds after the writes of a save.
  module _ (fate : Fate) (next : ℕ) (h : Header) (buf : List ℕ) (f : P.Flash) where
    unfoldable pub WriteOutcome : Result × P.Flash → Type 0
    WriteOutcome (answer, g) =
        let now = record_at crc32 (P.byte g) size next in
        ((answer ≡ failed) × ((now ≡ none) ⊎ (now ≡ record_at crc32 (P.byte f) size next)))
        ⊎ (((answer ≡ failed) ⊎ (answer ≡ ok))
            × ((now ≡ some h) × (span (P.byte g) (next * slot_size + header_size) h.len ≡ buf)))

    module _ (fits : length buf ≤ max_payload) (w : IsWritable size h) (len_is : h.len ≡ length buf)
        (crc_is_of : checksum crc32 buf ≡ h.crc) where
      payload_there :
          fate.erases ≡ true
          → length buf ≤ fate.payload
          → span (P.byte (finished P fate next h buf f fits)) (next * slot_size + header_size) h.len
            ≡ buf
      payload_there whole all =
          ap (span (P.byte (finished P fate next h buf f fits)) (next * slot_size + header_size))
            len_is
          ∙ finished-payload P fate next h buf f fits whole all

      filled-none :
          fate.erases ≡ true
          → record_at crc32 (P.byte (filled P fate next h buf f fits)) size next ≡ none
      unfolding record_at
      filled-none whole =
          let g = P.byte (filled P fate next h buf f fits) in
          unmarked crc32 size (span g (next * slot_size) header_size)
            (span g (next * slot_size + header_size))
            (get_or-span g (next * slot_size) header_size 3 (omega arith)
              ∙ filled-head P fate next h buf f fits whole 3 (omega arith))

      finished-record :
          fate.erases ≡ true
          → length buf ≤ fate.payload
          → let now = record_at crc32 (P.byte (finished P fate next h buf f fits)) size next in
            (now ≡ none) ⊎ (now ≡ some h)
      unfolding record_at
      finished-record whole all =
          let g = P.byte (finished P fate next h buf f fits) in
          judged-torn crc32 size fate.header h (span g (next * slot_size) header_size)
            (finished-head P fate next h buf f fits whole) w
            (span g (next * slot_size + header_size))
            (ap (checksum crc32) (payload_there whole all) ∙ crc_is_of)

      finished-whole :
          fate.erases ≡ true
          → length buf ≤ fate.payload
          → header_size ≤ fate.header
          → record_at crc32 (P.byte (finished P fate next h buf f fits)) size next ≡ some h
      unfolding record_at
      finished-whole whole all head =
          let g = P.byte (finished P fate next h buf f fits) in
          let t = finished-head P fate next h buf f fits whole in
          let hb = span g (next * slot_size) header_size in
          judged-whole crc32 size fate.header h hb t w (span g (next * slot_size + header_size))
            (ap (checksum crc32) (payload_there whole all) ∙ crc_is_of) (omega (arith, head))
            (crc_is crc32 size fate.header h hb t w (omega (arith, head)))

      last :
          fate.erases ≡ true
          → length buf ≤ fate.payload
          → WriteOutcome (
            if ltb fate.header header_size then failed else ok,
            finished P fate next h buf f fits,
          )
      unfolding WriteOutcome
      last whole all = elim (Bool-cases (ltb fate.header header_size)) [
        | inr d ↦ rw d (
            inr (inr refl, (finished-whole whole all (ground (arith, d)), payload_there whole all)))
        | inl d ↦ elim (finished-record whole all) [
          | inl gone ↦ rw d (inl (refl, inl gone))
          | inr there ↦ rw d (inr (inl refl, (there, payload_there whole all)))
        ]
      ]

      pub write_slot-outcome :
          (fate.erases ≡ false
            → let now = record_at crc32 (P.byte (P.erase false (next * slot_size) f)) size next in
              (now ≡ none) ⊎ (now ≡ record_at crc32 (P.byte f) size next))
          → WriteOutcome (write_slot P fate next h buf f)
      unfolding WriteOutcome
      write_slot-outcome cut = elim (Bool-cases fate.erases) [
        | inr e ↦
            subst WriteOutcome (sym (write_slot-cut P fate next h buf f fits e)) (inl (refl, cut e))
        | inl e ↦ elim (Bool-cases (ltb fate.payload (length buf))) [
          | inl s ↦
              subst WriteOutcome (sym (write_slot-short P fate next h buf f fits e s))
                (inl (refl, inl (filled-none e)))
          | inr s ↦
              let all : length buf ≤ fate.payload = ground (arith, s) in
              subst WriteOutcome (sym (write_slot-last P fate next h buf f fits e s)) (last e all)
        ]
      ]
