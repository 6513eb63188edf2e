-- ===== src/History/Flash.antt =====
-- Spans of the flash, and what a slot holds as a function of its bytes.
use esp32_deepgram_voice_age.Common.{
  ℕ, zero, suc, ◌+◌, ◌*◌, ◌≤◌, ◌<◌, ◌≡◌, refl, sym, ap, ◌∙◌, subst, inl, inr, Bool, true, false,
  Option, none, some, List, [], ◌∷◌, arith, ◌==◌, if◌then◌else◌, ==_iff, Bool-cases, length, get_or,
}
use esp32_deepgram_voice_age.History.{
  span, Partition, slot_size, header_size, max_payload, Header, header_in, is_readable, is_intact,
  payload_of, slot_valid,
}

pub get_or-span :
    (byte : ℕ → ℕ) (off n j : ℕ) → j < n → get_or (span byte off n) j 0 ≡ byte (off + j)
unfolding span
get_or-span byte off zero j h = absurd (omega arith)
get_or-span byte off (suc n) zero h = ap byte (omega arith)
get_or-span byte off (suc n) (suc j) h =
    get_or-span byte (off + 1) n j (omega arith) ∙ ap byte (omega arith)

pub span_same :
    (b c : ℕ → ℕ) (off n : ℕ)
    → ((j : ℕ) → j < n → b (off + j) ≡ c (off + j))
    → span b off n ≡ span c off n
unfolding span
span_same b c off zero h = refl
span_same b c off (suc n) h =
    let here : b off ≡ c off = ap b (omega arith) ∙ h 0 (omega arith) ∙ ap c (omega arith) in
    let next : (j : ℕ) → j < n → b (off + 1 + j) ≡ c (off + 1 + j) =
      λ j l. ap b (omega arith) ∙ h (suc j) (omega arith) ∙ ap c (omega arith) in
    rw (here, span_same b c (off + 1) n next) refl

-- The bytes that were programmed are read back.
pub span_is :
    (b : ℕ → ℕ) (off : ℕ) (bs : List ℕ)
    → ((j : ℕ) → j < length bs → b (off + j) ≡ get_or bs j 0)
    → span b off (length bs) ≡ bs
unfolding span
span_is b off [] h = refl
span_is b off (x ∷ bs) h =
    let here : b off ≡ x = ap b (omega arith) ∙ h 0 (omega arith) in
    let next : (j : ℕ) → j < length bs → b (off + 1 + j) ≡ get_or bs j 0 =
      λ j l. ap b (omega arith) ∙ h (suc j) (omega arith) in
    rw (here, span_is b (off + 1) bs next) refl

-- The record of a slot, from its header and what lies behind it.
abbrev pub verdict : (List ℕ → ℕ) → ℕ → Header → (ℕ → List ℕ) → Option Header
verdict crc32 size h payload =
    if is_readable size h
    then (if is_intact crc32 h (payload h.len) then some h else none)
    else none

abbrev pub judged : (List ℕ → ℕ) → ℕ → List ℕ → (ℕ → List ℕ) → Option Header
judged crc32 size head payload = verdict crc32 size (header_in head) payload

-- The record that slot `i` holds, if any.
unfoldable pub record_at : (List ℕ → ℕ) → (ℕ → ℕ) → ℕ → ℕ → Option Header
record_at crc32 byte size i =
    judged crc32 size (span byte (i * slot_size) header_size)
      (span byte (i * slot_size + header_size))

judged-same :
    (crc32 : List ℕ → ℕ) (size : ℕ) (head : List ℕ) (p q : ℕ → List ℕ)
    → ((n : ℕ) → n ≤ max_payload → p n ≡ q n)
    → judged crc32 size head p ≡ judged crc32 size head q
judged-same crc32 size head p q h = elim (Bool-cases (is_readable size (header_in head))) [
  | inr e ↦ rw e refl
  | inl e ↦
      let fits : (header_in head).len ≤ max_payload = ground arith in
      rw (e, h (header_in head).len fits) refl
]

-- A slot whose bytes are the same holds the same record.
pub record_at-same :
    (crc32 : List ℕ → ℕ) (b c : ℕ → ℕ) (size i : ℕ)
    → ((j : ℕ) → j < slot_size → b (i * slot_size + j) ≡ c (i * slot_size + j))
    → record_at crc32 b size i ≡ record_at crc32 c size i
unfolding record_at
record_at-same crc32 b c size i h =
    let off = i * slot_size in
    let head : span b off header_size ≡ span c off header_size =
      span_same b c off header_size (λ j l. h j (omega arith)) in
    let tail : (n : ℕ)
        → n ≤ max_payload
        → span b (off + header_size) n ≡ span c (off + header_size) n =
      λ n l.
        span_same b c (off + header_size) n
          (λ j k. ap b (omega arith) ∙ h (header_size + j) (omega arith) ∙ ap c (omega arith)) in
    ap (λ hb. judged crc32 size hb (span b (off + header_size))) head
    ∙ judged-same crc32 size (span c off header_size) (span b (off + header_size))
        (span c (off + header_size)) tail

module _ (P : Partition) (crc32 : List ℕ → ℕ)
    (reads : (f : P.Flash) (off n : ℕ) → P.read f off n ≡ some (span (P.byte f) off n)) where
  pub payload_of-span :
      (f : P.Flash) (i : ℕ) (h : Header)
      → payload_of P f i h ≡ some (span (P.byte f) (i * slot_size + header_size) h.len)
  unfolding span
  payload_of-span f i h = elim (Bool-cases (h.len == 0)) [
    | inl e ↦ rw e (
        ap (λ n. some (span (P.byte f) (i * slot_size + header_size) n))
          (sym ((==_iff h.len 0).0 e)))
    | inr e ↦ rw e (reads f (i * slot_size + header_size) h.len)
  ]

  pub slot_valid-record_at :
      (f : P.Flash) (size i : ℕ) → slot_valid P crc32 f size i ≡ record_at crc32 (P.byte f) size i
  unfolding slot_valid record_at
  slot_valid-record_at f size i =
      let head = span (P.byte f) (i * slot_size) header_size in
      rw (reads f (i * slot_size) header_size, slot_valid, payload_of-span f i (header_in head))
        refl

len_of : Option Header → ℕ
len_of none = 0
len_of (some h) = h.len

picked-fits :
    (a b : Bool) (q h : Header)
    → (a ≡ true → q.len ≤ max_payload)
    → (if a then (if b then some q else none) else none) ≡ some h
    → h.len ≤ max_payload
unfolding len_of
picked-fits false b q h small e = cc e
picked-fits true false q h small e = cc e
picked-fits true true q h small e = subst (λ o. len_of o ≤ max_payload) e (small refl)

verdict-fits :
    (crc32 : List ℕ → ℕ) (size : ℕ) (q h : Header) (payload : ℕ → List ℕ)
    → verdict crc32 size q payload ≡ some h
    → h.len ≤ max_payload
verdict-fits crc32 size q h payload =
    picked-fits (is_readable size q) (is_intact crc32 q (payload q.len)) q h (λ d. ground arith)

-- A record fits its slot.
pub record_at-fits :
    (crc32 : List ℕ → ℕ) (byte : ℕ → ℕ) (size i : ℕ) (h : Header)
    → record_at crc32 byte size i ≡ some h
    → h.len ≤ max_payload
unfolding record_at
record_at-fits crc32 byte size i h e =
    verdict-fits crc32 size (header_in (span byte (i * slot_size) header_size)) h
      (span byte (i * slot_size + header_size)) e
