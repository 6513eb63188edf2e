-- ===== src/History/Skipped.antt =====
-- A save where the load never ran: `ensure_scanned`.
use esp32_deepgram_voice_age.Common.{
  ℕ, zero, suc, ◌+◌, ◌*◌, ◌≤◌, ◌≡◌, refl, sym, ap, ◌∙◌, subst, ◌⊎◌, inl, inr, Bool, true, false,
  Option, none, some, List, arith, ltb, ◌==◌, Bool-cases, length,
}
use esp32_deepgram_voice_age.History.{
  max_payload, Result, new_header, next_slot, write_slot, known_after, span, Partition, slot_magic,
  slot_size, header_size, Header, Known, header_in, is_newer, better, noted, scan_headers,
  ensure_scanned, scan, Fate, store_save,
}
use esp32_deepgram_voice_age.History.Flash.{record_at, judged, slot_valid-record_at}
use esp32_deepgram_voice_age.History.Newest.{IsSoFar, scan-newest}
use esp32_deepgram_voice_age.History.Saving.{Stores}

-- What the scan of the load has, and what the scan of the headers knows.
IsTracked : Option (ℕ × Header) → Known → Type 0
IsTracked none k = k.slot ≡ none
IsTracked (some (b, h)) k = k ≡ record { slot = some b; seq = h.seq }

noted-IsTracked :
    (best : Option (ℕ × Header)) (k : Known) (i : ℕ) (head : List ℕ)
    → ((header_in head).magic == slot_magic) ≡ true
    → IsTracked best k
    → IsTracked (better best i (some (header_in head))) (noted k i (some head))
unfolding IsTracked
noted-IsTracked none k i head m t = rw (m, t) refl
noted-IsTracked (some (b, h)) k i head m t =
    subst (λ c. IsTracked (better (some (b, h)) i (some (header_in head))) (noted c i (some head)))
      (sym t)
      (elim (Bool-cases (is_newer (header_in head).seq h.seq)) [
        | inl e ↦ rw (m, e) refl
        | inr e ↦ rw (m, e) refl
      ])

clash : (b : Bool) → b ≡ true → b ≡ false → ⊥
clash b e d = cc (e, d)

unmarked-none :
    (crc32 : List ℕ → ℕ) (size : ℕ) (head : List ℕ) (payload : ℕ → List ℕ)
    → ((header_in head).magic == slot_magic) ≡ false
    → judged crc32 size head payload ≡ none
unmarked-none crc32 size head payload m = rw m refl

noted-same :
    (k : Known) (i : ℕ) (head : List ℕ)
    → ((header_in head).magic == slot_magic) ≡ false
    → noted k i (some head) ≡ k
noted-same k i head m = rw m refl

-- Every slot with the magic holds a record.
abbrev pub AreWhole : (List ℕ → ℕ) → (ℕ → ℕ) → ℕ → Type 0
AreWhole crc32 byte size =
    (i : ℕ)
    → let h = header_in (span byte (i * slot_size) header_size) in
      ((h.magic == slot_magic) ≡ false) ⊎ (record_at crc32 byte size i ≡ some h)

module _ (P : Partition) (crc32 : List ℕ → ℕ)
    (reads : (f : P.Flash) (off n : ℕ) → P.read f off n ≡ some (span (P.byte f) off n))
    (f : P.Flash) (size : ℕ) (whole : AreWhole crc32 (P.byte f) size) where
  round :
      (i : ℕ) (best : Option (ℕ × Header)) (k : Known)
      → IsTracked best k
      → IsTracked
          (better best i (record_at crc32 (P.byte f) size i))
          (noted k i (some (span (P.byte f) (i * slot_size) header_size)))
  unfolding record_at
  round i best k t =
      let head = span (P.byte f) (i * slot_size) header_size in
      elim (Bool-cases ((header_in head).magic == slot_magic)) [
        | inr m ↦
            rw
              (
                unmarked-none crc32 size head (span (P.byte f) (i * slot_size + header_size)) m,
                noted-same k i head m,
              )
              t
        | inl m ↦ elim (whole i) [
          | inl bare ↦ absurd (clash ((header_in head).magic == slot_magic) m bare)
          | inr is ↦ rw is (noted-IsTracked best k i head m t)
        ]
      ]

  scan_headers-IsTracked :
      (i n : ℕ) (best : Option (ℕ × Header)) (k : Known)
      → IsTracked best k
      → IsTracked (scan P crc32 f size i n best) (scan_headers P f i n k)
  unfolding scan scan_headers
  scan_headers-IsTracked i zero best k t = t
  scan_headers-IsTracked i (suc n) best k t =
      let head = span (P.byte f) (i * slot_size) header_size in
      rw (slot_valid-record_at P crc32 reads f size i, reads f (i * slot_size) header_size)
        (scan_headers-IsTracked (i + 1) n (better best i (record_at crc32 (P.byte f) size i))
          (noted k i (some head)) (round i best k t))

  -- The headers alone give the slot and the number that the load would.
  pub ensure_scanned-Stores :
      (k : Known) (payload : List ℕ) (q : ℕ)
      → Stores P crc32 size f k payload
      → ensure_scanned P f (record { slot = none; seq = q }) ≡ k
  unfolding ensure_scanned IsTracked IsSoFar
  ensure_scanned-Stores k payload q v =
      let start : Known = record { slot = none; seq = q } in
      let t = scan_headers-IsTracked 0 8 none start refl in
      let n =
        scan-newest P crc32 reads f size v.place v.header v.newest 0 8 none (omega arith)
          (omega arith) (inl refl) in
      subst (λ b. IsTracked b (scan_headers P f 0 8 start)) n t ∙ sym v.known_is

-- A save that fits, from what is known once the headers were scanned.
abbrev pub saved_from :
    (P : Partition) → (List ℕ → ℕ) → Fate → List ℕ → P.Flash → Known → Result × (Known × P.Flash)
saved_from P crc32 fate buf f known =
    let h = new_header crc32 known.seq buf in
    let w = write_slot P fate (next_slot known) h buf f in
    (w.0, (known_after P crc32 known (next_slot known) h w.0, w.1))

store_save-scanned :
    (P : Partition) (crc32 : List ℕ → ℕ) (fate : Fate) (buf : List ℕ) (f : P.Flash) (k : Known)
    → length buf ≤ max_payload
    → store_save P crc32 fate buf (k, f) ≡ saved_from P crc32 fate buf f (ensure_scanned P f k)
unfolding store_save
store_save-scanned P crc32 fate buf f k fits =
    let small : ltb max_payload (length buf) ≡ false = ground (arith, fits) in rw small refl

ensure_scanned-known :
    (P : Partition) (f : P.Flash) (s q : ℕ)
    → let k : Known = record { slot = some s; seq = q } in ensure_scanned P f k ≡ k
unfolding ensure_scanned
ensure_scanned-known P f s q = refl

-- A save after a load that never ran does what it does after the load: it writes the same bytes to
-- the same slot, with the same answer, and knows the same then. The flash keeps a payload, every
-- slot with the magic holds a record, reads answer, and the new payload fits.
pub store_save-ensure_scanned :
    (P : Partition) (crc32 : List ℕ → ℕ)
    (reads : (f : P.Flash) (off n : ℕ) → P.read f off n ≡ some (span (P.byte f) off n))
    (f : P.Flash) (k : Known) (payload : List ℕ) (q : ℕ)
    → Stores P crc32 max_payload f k payload
    → AreWhole crc32 (P.byte f) max_payload
    → (fate : Fate) (buf : List ℕ) → length buf ≤ max_payload
    → store_save P crc32 fate buf (record { slot = none; seq = q }, f)
      ≡ store_save P crc32 fate buf (k, f)
store_save-ensure_scanned P crc32 reads f k payload q v whole fate buf fits =
    let start : Known = record { slot = none; seq = q } in
    let found = ensure_scanned-Stores P crc32 reads f max_payload whole k payload q v in
    let known : ensure_scanned P f k ≡ k =
      subst (λ c. ensure_scanned P f c ≡ c) (sym v.known_is)
        (ensure_scanned-known P f v.place v.header.seq) in
    store_save-scanned P crc32 fate buf f start fits
    ∙ ap (saved_from P crc32 fate buf f) (found ∙ sym known)
    ∙ sym (store_save-scanned P crc32 fate buf f k fits)
