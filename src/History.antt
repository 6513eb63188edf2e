-- ===== src/History.antt =====
-- The saved conversation: the ring of eight records on flash in main/history_store.c. The partition
-- and the checksum are the chip's and ESP-IDF's, so they are parameters. `none` of a read is a read
-- that failed.
pub mod Flash
pub mod Newest
pub mod Torn
pub mod Writing
pub mod Ring
pub mod Outcome
pub mod Saving
pub mod Restart
pub mod Skipped
pub mod Plain
mod Tests
use esp32_deepgram_voice_age.Common.{
  ℕ, zero, suc, ◌+◌, ◌*◌, ◌/◌, ◌%◌, ◌≤◌, ◌<◌, ◌≡◌, ◌⊎◌, Bool, true, not, ◌&&◌, ◌||◌, Option, none,
  some, List, [], ◌∷◌, ltb, ◌==◌, if◌then◌else◌, length, get_or, u32, sub32, add32,
}

-- The bytes at `n` places from `off`.
unfoldable pub span : (ℕ → ℕ) → ℕ → ℕ → List ℕ
span byte off zero = []
span byte off (suc n) = byte off ∷ span byte (off + 1) n

-- The partition and its calls, as ESP-IDF documents them. `read` is none where the call fails.
-- `erase whole off` erases a sector, or is cut short when not `whole`; `program k off bs` programs
-- the first `k` bytes of `bs`, and an erased byte takes the value programmed. Neither touches
-- another sector or byte.
pub record Partition : Type 1 where
  pub Flash : Type 0
  pub byte : Flash → ℕ → ℕ
  pub read : Flash → ℕ → ℕ → Option (List ℕ)
  pub erase : Bool → ℕ → Flash → Flash
  pub program : ℕ → ℕ → List ℕ → Flash → Flash
  pub erase_inside : (f : Flash) (off j : ℕ) → j < 4096 → byte (erase true off f) (off + j) ≡ 255
  pub erase_outside :
      (f : Flash) (whole : Bool) (off i : ℕ)
      → (i < off) ⊎ (off + 4096 ≤ i)
      → byte (erase whole off f) i ≡ byte f i
  pub program_inside :
      (f : Flash) (k off j : ℕ) (bs : List ℕ)
      → j < length bs
      → byte f (off + j) ≡ 255
      → byte (program k off bs f) (off + j) ≡ (if ltb j k then get_or bs j 0 else 255)
  pub program_outside :
      (f : Flash) (k off i : ℕ) (bs : List ℕ)
      → (i < off) ⊎ (off + length bs ≤ i)
      → byte (program k off bs f) i ≡ byte f i

abbrev pub slot_magic : ℕ
slot_magic = 0x31484744

abbrev pub slot_size : ℕ
slot_size = 4096

-- `sizeof(slot_header_t)`.
abbrev pub header_size : ℕ
header_size = 20

abbrev pub max_payload : ℕ
max_payload = 4076

abbrev pub slots : ℕ
slots = 8

-- `slot_header_t`, less its padding.
pub record Header : Type 0 where
  pub magic : ℕ
  pub seq : ℕ
  pub len : ℕ
  pub crc : ℕ

-- `s_slot`, none for -1, and `s_seq`.
pub record Known : Type 0 where
  pub slot : Option ℕ
  pub seq : ℕ

-- A 32-bit word of these bytes, the low byte first.
abbrev pub word_at : List ℕ → ℕ → ℕ
word_at bs j =
    get_or bs j 0
    + (256 * get_or bs (j + 1) 0 + (65536 * get_or bs (j + 2) 0 + 16777216 * get_or bs (j + 3) 0))

abbrev pub header_in : List ℕ → Header
header_in bs = record {
  magic = word_at bs 0;
  seq = word_at bs 4;
  len = word_at bs 8;
  crc = word_at bs 12;
}

abbrev pub le32 : ℕ → List ℕ → List ℕ
le32 n rest = (n % 256) ∷ (n / 256 % 256) ∷ (n / 65536 % 256) ∷ (n / 16777216 % 256) ∷ rest

-- The bytes of a header, with `_pad` 0.
abbrev pub header_bytes : Header → List ℕ
header_bytes h = le32 h.magic (le32 h.seq (le32 h.len (le32 h.crc (0 ∷ 0 ∷ 0 ∷ 0 ∷ []))))

-- `(int32_t)(a - b) > 0`.
abbrev pub is_newer : ℕ → ℕ → Bool
is_newer a b = ltb 0 (sub32 a b) && ltb (sub32 a b) 2147483648

-- How a save goes: whether its erase ends, and how many bytes of the payload and of the header
-- reach the flash before a write fails or the power is lost.
pub record Fate : Type 0 where
  pub erases : Bool
  pub payload : ℕ
  pub header : ℕ

pub data Result : Type 0 where
  ok invalid_size failed : Result

-- The tests of `slot_valid` on a header, and of its scratch buffer.
abbrev pub is_readable : ℕ → Header → Bool
is_readable size h =
    not (not (h.magic == slot_magic) || ltb max_payload h.len) && not (ltb size h.len)

-- One round of the scan in `history_store_load`.
abbrev pub better : Option (ℕ × Header) → ℕ → Option Header → Option (ℕ × Header)
better best i none = best
better none i (some h) = some (i, h)
better (some (b, bh)) i (some h) = if is_newer h.seq bh.seq then some (i, h) else some (b, bh)

-- One round of `ensure_scanned`.
abbrev pub noted : Known → ℕ → Option (List ℕ) → Known
noted k i none = k
noted k i (some hb) =
    let h = header_in hb in
    let fresh : Known = record { slot = some i; seq = h.seq } in
    if not (h.magic == slot_magic)
    then k
    else elim k.slot [ none ↦ fresh | some _ ↦ if is_newer h.seq k.seq then fresh else k ]

abbrev pub next_slot : Known → ℕ
next_slot k = elim k.slot [ none ↦ 0 | some s ↦ (s + 1) % slots ]

-- `crc32` is `esp_crc32_le(0, ...)`.
module _ (crc32 : List ℕ → ℕ) where
  -- The checksum of a payload, 0 for none.
  abbrev pub checksum : List ℕ → ℕ
  checksum [] = 0
  checksum (b ∷ bs) = crc32 (b ∷ bs)

  abbrev pub is_intact : Header → List ℕ → Bool
  is_intact h payload = checksum payload == h.crc

  abbrev pub new_header : ℕ → List ℕ → Header
  new_header seq buf = record {
    magic = slot_magic;
    seq = add32 seq 1;
    len = u32 (length buf);
    crc = checksum buf;
  }

module _ (P : Partition) where
  abbrev pub payload_of : P.Flash → ℕ → Header → Option (List ℕ)
  payload_of f i h = if h.len == 0 then some [] else P.read f (i * slot_size + header_size) h.len

  pub scan_headers : P.Flash → ℕ → ℕ → Known → Known
  scan_headers f i zero k = k
  scan_headers f i (suc n) k =
      scan_headers f (i + 1) n (noted k i (P.read f (i * slot_size) header_size))

  unfoldable pub ensure_scanned : P.Flash → Known → Known
  ensure_scanned f k = elim k.slot [ some _ ↦ k | none ↦ scan_headers f 0 slots k ]

  -- The writes of a save to a slot: erase, payload, header last.
  unfoldable pub write_slot : Fate → ℕ → Header → List ℕ → P.Flash → Result × P.Flash
  write_slot fate next h buf f =
      let off = next * slot_size in
      let erased = P.erase fate.erases off f in
      let filled =
        if length buf == 0 then erased else P.program fate.payload (off + header_size) buf erased in
      if not fate.erases
      then (failed, erased)
      else if ltb fate.payload (length buf)
      then (failed, filled)
      else (
        if ltb fate.header header_size then failed else ok,
        P.program fate.header off (header_bytes h) filled,
      )

module _ (P : Partition) (crc32 : List ℕ → ℕ) where
  unfoldable pub slot_valid : P.Flash → ℕ → ℕ → Option Header
  slot_valid f size i = elim (P.read f (i * slot_size) header_size) [
    | none ↦ none
    | some hb ↦
        if is_readable size (header_in hb)
        then elim (payload_of P f i (header_in hb)) [
          | none ↦ none
          | some payload ↦
              if is_intact crc32 (header_in hb) payload then some (header_in hb) else none
        ]
        else none
  ]

  -- The scan over the slots from `i` on, `n` of them.
  pub scan : P.Flash → ℕ → ℕ → ℕ → Option (ℕ × Header) → Option (ℕ × Header)
  scan f size i zero best = best
  scan f size i (suc n) best = scan f size (i + 1) n (better best i (slot_valid f size i))

  -- The rest of `history_store_load` once the scan is over: the record is read again.
  abbrev pub taken : P.Flash → Known → Option (ℕ × Header) → Result × (List ℕ × Known)
  taken f k none = (ok, ([], k))
  taken f k (some (best, h)) = elim (payload_of P f best h) [
    | none ↦ (failed, ([], k))
    | some payload ↦ (ok, (payload, record { slot = some best; seq = h.seq }))
  ]

  -- `history_store_load`: the answer, the bytes that it leaves in `buf` up to `*out_len`, and what
  -- is known then.
  unfoldable pub store_load : P.Flash → ℕ → Known → Result × (List ℕ × Known)
  store_load f size k = taken f k (scan f size 0 slots none)

  -- What is known after a save that wrote `h` to slot `next`.
  abbrev pub known_after : Known → ℕ → Header → Result → Known
  known_after known next h ok = record { slot = some next; seq = h.seq }
  known_after known next h _ = known

  -- `history_store_save`.
  unfoldable pub store_save : Fate → List ℕ → Known × P.Flash → Result × (Known × P.Flash)
  store_save fate buf (k, f) =
      let known = ensure_scanned P f k in
      let next = next_slot known in
      let h = new_header crc32 known.seq buf in
      let (answer, g) = write_slot P fate next h buf f in
      if ltb max_payload (length buf)
      then (invalid_size, (k, f))
      else (answer, (known_after known next h answer, g))

  -- `history_store_erase`.
  abbrev pub store_erase : Fate → Known × P.Flash → Result × (Known × P.Flash)
  store_erase fate s = store_save fate [] s
