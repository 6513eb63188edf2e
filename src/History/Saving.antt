-- ===== src/History/Saving.antt =====
-- A save of the conversation that ends, fails or loses its power: `history_store_save`.
use esp32_deepgram_voice_age.Common.{
  ℕ, ◌+◌, ◌*◌, ◌^◌, ◌≤◌, ◌<◌, ◌≡◌, refl, sym, ap, ◌∙◌, subst, ◌≢◌, ◌⊎◌, inl, inr, false, none, some,
  List, [], ◌∷◌, arith, ltb, length, u32, add32,
}
use esp32_deepgram_voice_age.History.{
  span, Partition, slot_size, header_size, max_payload, slots, Header, Known, Fate, Result, ok,
  failed, checksum, new_header, ensure_scanned, write_slot, known_after, store_save,
}
use esp32_deepgram_voice_age.History.Flash.{record_at, record_at-same, record_at-fits, span_same}
use esp32_deepgram_voice_age.History.Newest.{IsNewest}
use esp32_deepgram_voice_age.History.Torn.{IsWritable}
use esp32_deepgram_voice_age.History.Writing.{write_slot-other}
use esp32_deepgram_voice_age.History.Outcome.{WriteOutcome, write_slot-outcome}
use esp32_deepgram_voice_age.History.Ring.{after, kept, moved}

module _ (P : Partition) (crc32 : List ℕ → ℕ) (size : ℕ) where
  -- The flash keeps `payload` as the newest record, and `k` knows where.
  pub record Stores (f : P.Flash) (k : Known) (payload : List ℕ) : Type 0 where
    pub place : ℕ
    pub header : Header
    pub newest : IsNewest (record_at crc32 (P.byte f) size) place header
    pub known_is : k ≡ record { slot = some place; seq = header.seq }
    pub payload_is : span (P.byte f) (place * slot_size + header_size) header.len ≡ payload

store_save-known :
    (P : Partition) (crc32 : List ℕ → ℕ) (fate : Fate) (buf : List ℕ) (s q : ℕ) (f : P.Flash)
    → length buf ≤ max_payload
    → let k : Known = record { slot = some s; seq = q } in
      let h = new_header crc32 q buf in
      let w = write_slot P fate (after s) h buf f in
      store_save P crc32 fate buf (k, f) ≡ (w.0, (known_after P crc32 k (after s) h w.0, w.1))
unfolding store_save ensure_scanned
store_save-known P crc32 fate buf s q f fits =
    let small : ltb max_payload (length buf) ≡ false = ground (arith, fits) in rw small refl

module _ (P : Partition) (crc32 : List ℕ → ℕ) (size : ℕ) (k : Known) (payload buf : List ℕ) where
  -- After a save that did not answer ok the old record is kept, or the new one is; after one that
  -- did the new one is, and it is known.
  unfoldable pub SaveOutcome : Result × (Known × P.Flash) → Type 0
  SaveOutcome (answer, (known, g)) =
      ((answer ≡ failed) × ((known ≡ k) × Stores P crc32 size g k payload))
      ⊎ ((next : Known) × Stores P crc32 size g next buf
          × (((answer ≡ failed) × (known ≡ k)) ⊎ ((answer ≡ ok) × (known ≡ next))))

-- A ring after the writes of a save to the next slot.
module _ (P : Partition) (crc32 : List ℕ → ℕ) (size : ℕ) (f : P.Flash) (payload buf : List ℕ)
    (s : ℕ) (old : Header) (v : IsNewest (record_at crc32 (P.byte f) size) s old)
    (payload_is : span (P.byte f) (s * slot_size + header_size) old.len ≡ payload) (fate : Fate)
    (h : Header) (seq_is : h.seq ≡ add32 old.seq 1) (answer : Result) (g : P.Flash)
    (same : (i j : ℕ)
      → i ≢ after s
      → j < slot_size
      → P.byte g (i * slot_size + j) ≡ P.byte f (i * slot_size + j)) where
  view_same :
      (i : ℕ)
      → i < slots
      → i ≢ after s
      → record_at crc32 (P.byte g) size i ≡ record_at crc32 (P.byte f) size i
  view_same i l d = record_at-same crc32 (P.byte g) (P.byte f) size i (λ j k. same i j d k)

  payload_same : span (P.byte g) (s * slot_size + header_size) old.len ≡ payload
  payload_same =
      let fits = record_at-fits crc32 (P.byte f) size s old v.held in
      span_same (P.byte g) (P.byte f) (s * slot_size + header_size) old.len (λ j l.
        ap (P.byte g) (omega arith)
        ∙ same s (header_size + j) (λ e. absurd (omega (arith, v.in_range, e)))
            (omega (arith, fits, l))
        ∙ ap (P.byte f) (omega arith))
      ∙ payload_is

  concluded :
      WriteOutcome P crc32 size fate (after s) h buf f (answer, g)
      → let k : Known = record { slot = some s; seq = old.seq } in
        SaveOutcome P crc32 size k payload buf
          (answer, (known_after P crc32 k (after s) h answer, g))
  unfolding WriteOutcome SaveOutcome
  concluded (inl (e, gone)) =
      let k : Known = record { slot = some s; seq = old.seq } in
      inl (
        e,
        (
          ap (known_after P crc32 k (after s) h) e,
          record {
            place = s;
            header = old;
            newest =
                kept (record_at crc32 (P.byte f) size) (record_at crc32 (P.byte g) size) s old v
                  view_same gone;
            known_is = refl;
            payload_is = payload_same;
          },
        ),
      )
  concluded (inr (ans, (there, bytes))) =
      let k : Known = record { slot = some s; seq = old.seq } in
      let next : Known = record { slot = some (after s); seq = h.seq } in
      inr (
        next,
        record {
          place = after s;
          header = h;
          newest =
              moved (record_at crc32 (P.byte f) size) (record_at crc32 (P.byte g) size) s old h v
                view_same there seq_is;
          known_is = refl;
          payload_is = bytes;
        },
        elim ans [
          | inl e ↦ inl (e, ap (known_after P crc32 k (after s) h) e)
          | inr e ↦ inr (e, ap (known_after P crc32 k (after s) h) e)
        ],
      )

module _ (P : Partition) (crc32 : List ℕ → ℕ) (size : ℕ)
    (crc_word : (bs : List ℕ) → crc32 bs < 2 ^ 32) (f : P.Flash) (k : Known) (payload : List ℕ)
    (v : Stores P crc32 size f k payload) (large : max_payload ≤ size)
    (cut : (i : ℕ)
      → let now = record_at crc32 (P.byte (P.erase false (i * slot_size) f)) size i in
        (now ≡ none) ⊎ (now ≡ record_at crc32 (P.byte f) size i))
    (fate : Fate) (buf : List ℕ) (fits : length buf ≤ max_payload) where
  checksum_word : (bs : List ℕ) → checksum crc32 bs < 2 ^ 32
  checksum_word [] = omega arith
  checksum_word (b ∷ bs) = crc_word (b ∷ bs)

  new_header-IsWritable : (q : ℕ) → IsWritable size (new_header crc32 q buf)
  new_header-IsWritable q = record {
    marked = refl;
    seq_word = omega arith;
    len_fits = omega (arith, fits);
    len_read = omega (arith, fits, large);
    crc_word = checksum_word buf;
  }

  -- From a flash that keeps a payload, its place known, a save that fits keeps the ring of records,
  -- whatever becomes of it: the newest record is the old one, and then the answer is a failure and
  -- what is known is the same; or it is the new one, which is known if the answer is ok. The load
  -- reads whole slots, the checksum is a word of 32 bits, and an erase that is cut short leaves its
  -- slot as it was or without a record.
  pub store_save-Stores :
      SaveOutcome P crc32 size k payload buf (store_save P crc32 fate buf (k, f))
  store_save-Stores =
      let s = v.place in
      let q = v.header.seq in
      let h = new_header crc32 q buf in
      let n : u32 (length buf) ≡ length buf = omega (arith, fits) in
      let w = write_slot P fate (after s) h buf f in
      let out =
        write_slot-outcome P crc32 size fate (after s) h buf f fits (new_header-IsWritable q) n refl
          (λ e. cut (after s)) in
      let k0 : Known = record { slot = some s; seq = q } in
      let done =
        concluded P crc32 size f payload buf s v.header v.newest v.payload_is fate h refl w.0 w.1
          (write_slot-other P fate (after s) h buf f fits) out in
      subst (λ c. SaveOutcome P crc32 size c payload buf (store_save P crc32 fate buf (c, f)))
        (sym v.known_is)
        (subst (SaveOutcome P crc32 size k0 payload buf)
          (sym (store_save-known P crc32 fate buf s q f fits)) done)
