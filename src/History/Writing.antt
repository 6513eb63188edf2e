-- ===== src/History/Writing.antt =====
-- The bytes of the flash after each part of the writes of a save: `write_slot`.
use esp32_deepgram_voice_age.Common.{
  ℕ, ◌+◌, ◌*◌, ◌≤◌, ◌<◌, ◌≡◌, refl, ap, ◌∙◌, ◌≢◌, ◌⊎◌, inl, inr, true, false, List, arith, ltb,
  ◌==◌, if◌then◌else◌, Bool-cases, length, get_or,
}
use esp32_deepgram_voice_age.History.{
  span, Partition, slot_size, header_size, max_payload, Header, header_bytes, Fate, ok, failed,
  write_slot,
}
use esp32_deepgram_voice_age.History.Flash.{get_or-span, span_is}
use esp32_deepgram_voice_age.History.Torn.{IsTorn}

apart :
    (i next j n : ℕ)
    → i ≢ next
    → j < slot_size
    → n ≤ slot_size
    → (i * slot_size + j < next * slot_size) ⊎ (next * slot_size + n ≤ i * slot_size + j)
apart i next j n d l h = ground arith

apart_in :
    (a off k n : ℕ)
    → (a < off) ⊎ (off + slot_size ≤ a)
    → k + n ≤ slot_size
    → (a < off + k) ⊎ (off + k + n ≤ a)
apart_in a off k n d h = ground arith

-- The parts of `write_slot`.
module _ (P : Partition) (fate : Fate) (next : ℕ) (h : Header) (buf : List ℕ) (f : P.Flash)
    (fits : length buf ≤ max_payload) where
  abbrev pub erased : P.Flash
  erased = P.erase fate.erases (next * slot_size) f

  unfoldable pub filled : P.Flash
  filled =
      if length buf == 0
      then erased
      else P.program fate.payload (next * slot_size + header_size) buf erased

  abbrev pub finished : P.Flash
  finished = P.program fate.header (next * slot_size) (header_bytes h) filled

  -- The parts leave the other slots as they were.
  pub filled-other :
      (i j : ℕ)
      → i ≢ next
      → j < slot_size
      → P.byte filled (i * slot_size + j) ≡ P.byte f (i * slot_size + j)
  unfolding filled
  filled-other i j d l =
      let e =
        P.erase_outside f fate.erases (next * slot_size) (i * slot_size + j)
          (apart i next j slot_size d l (omega arith)) in
      elim (Bool-cases (length buf == 0)) [
        | inl c ↦ rw c e
        | inr c ↦ rw c (
            P.program_outside erased fate.payload (next * slot_size + header_size)
              (i * slot_size + j) buf
              (apart_in (i * slot_size + j) (next * slot_size) header_size (length buf)
                (apart i next j slot_size d l (omega arith)) (omega (arith, fits)))
            ∙ e)
      ]

  pub finished-other :
      (i j : ℕ)
      → i ≢ next
      → j < slot_size
      → P.byte finished (i * slot_size + j) ≡ P.byte f (i * slot_size + j)
  finished-other i j d l =
      P.program_outside filled fate.header (next * slot_size) (i * slot_size + j) (header_bytes h)
        (apart i next j header_size d l (omega arith))
      ∙ filled-other i j d l

  module _ (whole : fate.erases ≡ true) where
    erased-byte : (j : ℕ) → j < slot_size → P.byte erased (next * slot_size + j) ≡ 255
    erased-byte j l = rw whole (P.erase_inside f (next * slot_size) j l)

    pub filled-head : (j : ℕ) → j < header_size → P.byte filled (next * slot_size + j) ≡ 255
    unfolding filled
    filled-head j l = elim (Bool-cases (length buf == 0)) [
      | inl c ↦ rw c (erased-byte j (omega arith))
      | inr c ↦ rw c (
          P.program_outside erased fate.payload (next * slot_size + header_size)
            (next * slot_size + j) buf (inl (omega arith))
          ∙ erased-byte j (omega arith))
    ]

    filled-payload :
        (j : ℕ)
        → length buf ≤ fate.payload
        → j < length buf
        → P.byte filled (next * slot_size + header_size + j) ≡ get_or buf j 0
    unfolding filled
    filled-payload j all l =
        let some_byte : (length buf == 0) ≡ false = ground (arith, l) in
        let there : ltb j fate.payload ≡ true = ground (arith, l, all) in
        let was : P.byte erased (next * slot_size + header_size + j) ≡ 255 =
          ap (P.byte erased) (omega arith) ∙ erased-byte (header_size + j) (omega arith) in
        rw some_byte (
          P.program_inside erased fate.payload (next * slot_size + header_size) j buf l was
          ∙ ap (λ b. if b then get_or buf j 0 else 255) there)

    pub finished-payload :
        length buf ≤ fate.payload
        → span (P.byte finished) (next * slot_size + header_size) (length buf) ≡ buf
    finished-payload all = span_is (P.byte finished) (next * slot_size + header_size) buf (λ j l.
        P.program_outside filled fate.header (next * slot_size) (next * slot_size + header_size + j)
          (header_bytes h) (inr (omega arith))
        ∙ filled-payload j all l)

    pub finished-head : IsTorn fate.header h (span (P.byte finished) (next * slot_size) header_size)
    finished-head j l =
        get_or-span (P.byte finished) (next * slot_size) header_size j l
        ∙ P.program_inside filled fate.header (next * slot_size) j (header_bytes h) l
            (filled-head j l)

  pub write_slot-cut :
      fate.erases ≡ false
      → write_slot P fate next h buf f ≡ (failed, P.erase false (next * slot_size) f)
  unfolding write_slot
  write_slot-cut e = rw e refl

  pub write_slot-short :
      fate.erases ≡ true
      → ltb fate.payload (length buf) ≡ true
      → write_slot P fate next h buf f ≡ (failed, filled)
  unfolding write_slot filled
  write_slot-short e s = rw (e, s) refl

  pub write_slot-last :
      fate.erases ≡ true
      → ltb fate.payload (length buf) ≡ false
      → write_slot P fate next h buf f
        ≡ (if ltb fate.header header_size then failed else ok, finished)
  unfolding write_slot filled
  write_slot-last e s = rw (e, s) refl

  -- The writes of a save change no other slot.
  pub write_slot-other :
      (i j : ℕ)
      → i ≢ next
      → j < slot_size
      → P.byte (write_slot P fate next h buf f).1 (i * slot_size + j) ≡ P.byte f (i * slot_size + j)
  write_slot-other i j d l = elim (Bool-cases fate.erases) [
    | inr e ↦
        ap (λ r. P.byte r.1 (i * slot_size + j)) (write_slot-cut e)
        ∙ P.erase_outside f false (next * slot_size) (i * slot_size + j)
            (apart i next j slot_size d l (omega arith))
    | inl e ↦ elim (Bool-cases (ltb fate.payload (length buf))) [
      | inl s ↦
          ap (λ r. P.byte r.1 (i * slot_size + j)) (write_slot-short e s) ∙ filled-other i j d l
      | inr s ↦
          ap (λ r. P.byte r.1 (i * slot_size + j)) (write_slot-last e s) ∙ finished-other i j d l
    ]
  ]
