-- ===== src/History/Torn.antt =====
-- What a slot reads as when the header over an erased sector was written in part or in full.
use esp32_deepgram_voice_age.Common.{
  ℕ, ◌+◌, ◌*◌, ◌/◌, ◌%◌, ◌^◌, ◌≤◌, ◌<◌, ◌≡◌, refl, sym, ap, ◌∙◌, ◌⊎◌, inl, inr, Bool, true, false,
  Option, none, some, List, arith, ltb, ◌==◌, if◌then◌else◌, ==_iff, Bool-cases, get_or,
}
use esp32_deepgram_voice_age.History.{
  slot_magic, header_size, max_payload, Header, word_at, header_in, header_bytes, is_readable,
  checksum, is_intact,
}
use esp32_deepgram_voice_age.History.Flash.{verdict, judged}

-- With the top byte of its magic, or of its length, still erased, a slot holds nothing.
pub unmarked :
    (crc32 : List ℕ → ℕ) (size : ℕ) (head : List ℕ) (payload : ℕ → List ℕ)
    → get_or head 3 0 ≡ 255
    → judged crc32 size head payload ≡ none
unmarked crc32 size head payload e =
    let m : ((header_in head).magic == slot_magic) ≡ false = ground (arith, e) in rw m refl

unsized :
    (crc32 : List ℕ → ℕ) (size : ℕ) (head : List ℕ) (payload : ℕ → List ℕ)
    → get_or head 11 0 ≡ 255
    → judged crc32 size head payload ≡ none
unsized crc32 size head payload e =
    let m : is_readable size (header_in head) ≡ false = ground (arith, e) in rw m refl

word_of :
    (a b c d n : ℕ)
    → a ≡ n % 256
    → b ≡ n / 256 % 256
    → c ≡ n / 65536 % 256
    → d ≡ n / 16777216 % 256
    → n < 2 ^ 32
    → a + (256 * b + (65536 * c + 16777216 * d)) ≡ n
word_of a b c d n ea eb ec ed h = omega arith

chosen : (j k x y : ℕ) → j < k → (if ltb j k then x else y) ≡ x
chosen j k x y h = ground (arith, h)

refused : (j k x y : ℕ) → k ≤ j → (if ltb j k then x else y) ≡ y
refused j k x y h = ground (arith, h)

-- `k` bytes of the header `h` are on the flash.
abbrev pub IsTorn : ℕ → Header → List ℕ → Type 0
IsTorn k h head =
    (j : ℕ)
    → j < header_size
    → get_or head j 0 ≡ (if ltb j k then get_or (header_bytes h) j 0 else 255)

written :
    (k : ℕ) (h : Header) (head : List ℕ) (j : ℕ)
    → IsTorn k h head
    → j < header_size
    → j < k
    → get_or head j 0 ≡ get_or (header_bytes h) j 0
written k h head j t l m = t j l ∙ chosen j k (get_or (header_bytes h) j 0) 255 m

unwritten :
    (k : ℕ) (h : Header) (head : List ℕ) (j : ℕ)
    → IsTorn k h head
    → j < header_size
    → k ≤ j
    → get_or head j 0 ≡ 255
unwritten k h head j t l m = t j l ∙ refused j k (get_or (header_bytes h) j 0) 255 m

-- The words of a header are less than 2 ^ 32, and its record can be read.
pub record IsWritable (size : ℕ) (h : Header) : Type 0 where
  pub marked : h.magic ≡ slot_magic
  pub seq_word : h.seq < 2 ^ 32
  pub len_fits : h.len ≤ max_payload
  pub len_read : h.len ≤ size
  pub crc_word : h.crc < 2 ^ 32

either_none : (b : Bool) → ◌≡◌ {A = Option Header} (if b then none else none) none
either_none true = refl
either_none false = refl

length_cases : (k : ℕ) → (k ≤ 3) ⊎ ((k ≤ 11) ⊎ (12 ≤ k))
length_cases k = ground arith

module _ (crc32 : List ℕ → ℕ) (size k : ℕ) (h : Header) (head : List ℕ) (t : IsTorn k h head)
    (w : IsWritable size h) where
  byte_is : (j : ℕ) → j < header_size → j < k → get_or head j 0 ≡ get_or (header_bytes h) j 0
  byte_is j = written k h head j t

  -- With twelve bytes, all but the checksum and the padding are there.
  three_words :
      12 ≤ k → (word_at head 0 ≡ h.magic) × ((word_at head 4 ≡ h.seq) × (word_at head 8 ≡ h.len))
  three_words l = (
    word_of (get_or head 0 0) (get_or head 1 0) (get_or head 2 0) (get_or head 3 0) h.magic
        (byte_is 0 (omega arith) (omega arith)) (byte_is 1 (omega arith) (omega arith))
        (byte_is 2 (omega arith) (omega arith)) (byte_is 3 (omega arith) (omega arith))
        (omega (arith, w.marked)),
    (
      word_of (get_or head 4 0) (get_or head 5 0) (get_or head 6 0) (get_or head 7 0) h.seq
          (byte_is 4 (omega arith) (omega arith)) (byte_is 5 (omega arith) (omega arith))
          (byte_is 6 (omega arith) (omega arith)) (byte_is 7 (omega arith) (omega arith))
          w.seq_word,
      word_of (get_or head 8 0) (get_or head 9 0) (get_or head 10 0) (get_or head 11 0) h.len
          (byte_is 8 (omega arith) (omega arith)) (byte_is 9 (omega arith) (omega arith))
          (byte_is 10 (omega arith) (omega arith)) (byte_is 11 (omega arith) (omega arith))
          (omega (arith, w.len_fits)),
    ),
  )

  pub crc_is : 16 ≤ k → word_at head 12 ≡ h.crc
  crc_is l =
      word_of (get_or head 12 0) (get_or head 13 0) (get_or head 14 0) (get_or head 15 0) h.crc
        (byte_is 12 (omega arith) (omega arith)) (byte_is 13 (omega arith) (omega arith))
        (byte_is 14 (omega arith) (omega arith)) (byte_is 15 (omega arith) (omega arith)) w.crc_word

  header_is : 12 ≤ k → word_at head 12 ≡ h.crc → header_in head ≡ h
  header_is l e =
      let (m, (s, n)) = three_words l in
      λ i. record { magic = m i; seq = s i; len = n i; crc = e i }

  readable : is_readable size h ≡ true
  readable = ground (arith, w.marked, w.len_fits, w.len_read)

  -- A header that is there in full, over the payload that it announces, is a record.
  pub judged-whole :
      (payload : ℕ → List ℕ)
      → checksum crc32 (payload h.len) ≡ h.crc
      → 12 ≤ k
      → word_at head 12 ≡ h.crc
      → judged crc32 size head payload ≡ some h
  judged-whole payload e l c =
      ap (λ q. verdict crc32 size q payload) (header_is l c)
      ∙ ap (λ b. if b then (if is_intact crc32 h (payload h.len) then some h else none) else none)
          readable
      ∙ ap (λ b. if b then some h else none) ((==_iff (checksum crc32 (payload h.len)) h.crc).1 e)

  wrong_crc :
      (payload : ℕ → List ℕ)
      → 12 ≤ k
      → (checksum crc32 (payload h.len) == word_at head 12) ≡ false
      → judged crc32 size head payload ≡ none
  wrong_crc payload l e =
      let (m, (s, n)) = three_words l in
      let torn : Header = record h { crc = word_at head 12 } in
      let is : header_in head ≡ torn =
        λ i. record { magic = m i; seq = s i; len = n i; crc = word_at head 12 } in
      ap (λ q. verdict crc32 size q payload) is
      ∙ ap (λ b. if is_readable size torn then (if b then some torn else none) else none) e
      ∙ either_none (is_readable size torn)

  -- A header cut short anywhere makes no record, or the record that it was to make.
  pub judged-torn :
      (payload : ℕ → List ℕ)
      → checksum crc32 (payload h.len) ≡ h.crc
      → (judged crc32 size head payload ≡ none) ⊎ (judged crc32 size head payload ≡ some h)
  judged-torn payload e = elim (length_cases k) [
    | inl short ↦
        inl (unmarked crc32 size head payload (unwritten k h head 3 t (omega arith) short))
    | inr (inl middle) ↦
        inl (unsized crc32 size head payload (unwritten k h head 11 t (omega arith) middle))
    | inr (inr long) ↦ elim (Bool-cases (checksum crc32 (payload h.len) == word_at head 12)) [
      | inl c ↦ inr (
          judged-whole payload e long
            (sym ((==_iff (checksum crc32 (payload h.len)) (word_at head 12)).0 c) ∙ e))
      | inr c ↦ inl (wrong_crc payload long c)
    ]
  ]
