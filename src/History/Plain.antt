-- ===== src/History/Plain.antt =====
-- A flash of plain bytes with one record on it, for runs and examples.
use esp32_deepgram_voice_age.Common.{
  ℕ, zero, suc, ◌+◌, ◌-◌, ◌*◌, ◌%◌, ◌^◌, ◌≤◌, ◌<◌, ◌≡◌, refl, sym, ◌∙◌, subst, ◌⊎◌, inr, Bool, true,
  false, ◌&&◌, Option, none, some, List, [], ◌∷◌, ◌++◌, arith, ltb, leb, if◌then◌else◌, length,
  get_or, u32, sub32,
}
use esp32_deepgram_voice_age.History.{
  span, Partition, slot_magic, slot_size, header_size, max_payload, slots, Header, Known,
  header_bytes,
}
use esp32_deepgram_voice_age.History.Flash.{record_at, get_or-span}
use esp32_deepgram_voice_age.History.Torn.{unmarked}
use esp32_deepgram_voice_age.History.Saving.{Stores}

abbrev pub plain_erase : Bool → ℕ → (ℕ → ℕ) → ℕ → ℕ
plain_erase whole off f i = if whole && (leb off i && ltb i (off + 4096)) then 255 else f i

abbrev pub plain_program : ℕ → ℕ → List ℕ → (ℕ → ℕ) → ℕ → ℕ
plain_program k off bs f i =
    if (leb off i && ltb i (off + length bs)) && ltb (i - off) k then get_or bs (i - off) 0 else f i

pub plain_erase-inside : (f : ℕ → ℕ) (off j : ℕ) → j < 4096 → plain_erase true off f (off + j) ≡ 255
plain_erase-inside f off j h =
    let in_sector : (leb off (off + j) && ltb (off + j) (off + 4096)) ≡ true = ground (arith, h) in
    rw in_sector refl

pub plain_erase-outside :
    (f : ℕ → ℕ) (whole : Bool) (off i : ℕ)
    → (i < off) ⊎ (off + 4096 ≤ i)
    → plain_erase whole off f i ≡ f i
plain_erase-outside f whole off i h =
    let out : (whole && (leb off i && ltb i (off + 4096))) ≡ false = ground (arith, h) in
    rw out refl

pub plain_program-inside :
    (f : ℕ → ℕ) (k off j : ℕ) (bs : List ℕ)
    → j < length bs
    → f (off + j) ≡ 255
    → plain_program k off bs f (off + j) ≡ (if ltb j k then get_or bs j 0 else 255)
plain_program-inside f k off j bs h e =
    let at : off + j - off ≡ j = omega arith in
    let in_range : (leb off (off + j) && ltb (off + j) (off + length bs)) ≡ true =
      ground (arith, h) in
    rw (at, in_range, e) refl

pub plain_program-outside :
    (f : ℕ → ℕ) (k off i : ℕ) (bs : List ℕ)
    → (i < off) ⊎ (off + length bs ≤ i)
    → plain_program k off bs f i ≡ f i
plain_program-outside f k off i bs h =
    let out : (leb off i && ltb i (off + length bs)) ≡ false = ground (arith, h) in rw out refl

abbrev pub plain : Partition
plain = record {
  Flash = ℕ → ℕ;
  byte = λ f. f;
  read = λ f off n. some (span f off n);
  erase = plain_erase;
  program = plain_program;
  erase_inside = plain_erase-inside;
  erase_outside = plain_erase-outside;
  program_inside = plain_program-inside;
  program_outside = plain_program-outside;
}

-- A checksum to run with.
abbrev pub sum_check : List ℕ → ℕ
sum_check bs = u32 (length bs + get_or bs 0 0)

pub sum_check-word : (bs : List ℕ) → sum_check bs < 2 ^ 32
sum_check-word bs = omega arith

abbrev pub first_header : Header
first_header = record { magic = slot_magic; seq = 1; len = 2; crc = 9 }

-- One record of two bytes in slot 0.
abbrev pub first_saved : ℕ → ℕ
first_saved i = get_or (header_bytes first_header ++ (7 ∷ 8 ∷ [])) i 255

abbrev pub first_known : Known
first_known = record { slot = some 0; seq = 1 }

pub get_or-past : (xs : List ℕ) (i d : ℕ) → length xs ≤ i → get_or xs i d ≡ d
get_or-past [] i d h = refl
get_or-past (x ∷ xs) zero d h = absurd (omega arith)
get_or-past (x ∷ xs) (suc i) d h = get_or-past xs i d (omega arith)

abbrev pub IsBehind : Option Header → Type 0
IsBehind none = Unit
IsBehind (some r) = (r.seq < 2 ^ 32) × (sub32 first_header.seq r.seq ≡ 0)

first_only :
    (i : ℕ) (r : Header)
    → i < slots
    → record_at sum_check first_saved max_payload i ≡ some r
    → (r.seq < 2 ^ 32) × (sub32 first_header.seq r.seq ≡ (0 + 8 - i) % 8)
unfolding record_at span
first_only zero r l e = subst (λ o. IsBehind o) e (omega arith, omega arith)
first_only (suc i) r l e =
    let erased : first_saved (suc i * slot_size + 3) ≡ 255 =
      get_or-past (header_bytes first_header ++ (7 ∷ 8 ∷ [])) (suc i * slot_size + 3) 255
        (omega arith) in
    let bad : ◌≡◌ {A = Option Header} none (some r) =
      sym (
        unmarked sum_check max_payload (span first_saved (suc i * slot_size) header_size)
          (span first_saved (suc i * slot_size + header_size))
          (get_or-span first_saved (suc i * slot_size) header_size 3 (omega arith) ∙ erased))
      ∙ e in
    absurd (cc bad)

pub first_saved-Stores : Stores plain sum_check max_payload first_saved first_known (7 ∷ 8 ∷ [])
unfolding record_at span
first_saved-Stores = record {
  place = 0;
  header = first_header;
  newest = record { in_range = omega arith; held = refl; behind = first_only };
  known_is = refl;
  payload_is = refl;
}

pub plain_cut :
    (i : ℕ)
    → let now = record_at sum_check (plain_erase false (i * slot_size) first_saved) max_payload i in
      (now ≡ none) ⊎ (now ≡ record_at sum_check first_saved max_payload i)
plain_cut i = inr refl
