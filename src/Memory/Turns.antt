-- ===== src/Memory/Turns.antt =====
-- The turns that an arena and its index stand for.
use esp32_deepgram_voice_age.Common.{
  ℕ, zero, suc, ◌+◌, ◌-◌, ◌≤◌, ◌<◌, ◌≡◌, refl, sym, ap, List, [], ◌∷◌, ◌++◌, map, arith, length,
  take, drop, length-append, u16,
}
use mathlib.Core.List.{append_assoc}
use esp32_deepgram_voice_age.Memory.{
  history_bytes, history_max_turns, Idx, Memory, shift, evict_oldest, evict_from,
}

-- A turn: its role and its text.
abbrev pub Turn : Type 0
Turn = ℕ × List ℕ

-- The arena of these turns, oldest first: each text with its NUL.
abbrev pub pack : List Turn → List ℕ
pack [] = []
pack ((role, text) ∷ ts) = text ++ (0 ∷ pack ts)

-- Their index, from the offset of the first.
abbrev pub index_from : ℕ → List Turn → List Idx
index_from off [] = []
index_from off ((role, text) ∷ ts) =
    record { off = off; len = length text; role = role } ∷ index_from (off + length text + 1) ts

-- The bytes that they take.
abbrev pub size : List Turn → ℕ
size [] = 0
size ((role, text) ∷ ts) = length text + 1 + size ts

-- The memory holds these turns and nothing else, and they are within its limits.
pub record Holds (m : Memory) (ts : List Turn) : Type 0 where
  pub arena_is : m.arena ≡ pack ts
  pub index_is : m.idx ≡ index_from 0 ts
  pub count_fits : length ts ≤ history_max_turns
  pub bytes_fit : size ts ≤ history_bytes

pub length-pack : (ts : List Turn) → length (pack ts) ≡ size ts
length-pack [] = refl
length-pack ((role, text) ∷ ts) = omega (arith, length-append text (0 ∷ pack ts), length-pack ts)

pub length-index_from : (off : ℕ) (ts : List Turn) → length (index_from off ts) ≡ length ts
length-index_from off [] = refl
length-index_from off ((role, text) ∷ ts) = ap suc (length-index_from (off + length text + 1) ts)

pub size-append : (xs ys : List Turn) → size (xs ++ ys) ≡ size xs + size ys
size-append [] ys = omega arith
size-append ((role, text) ∷ xs) ys = omega (arith, size-append xs ys)

pub pack-append : (xs ys : List Turn) → pack (xs ++ ys) ≡ pack xs ++ pack ys
pack-append [] ys = refl
pack-append ((role, text) ∷ xs) ys =
    rw (pack-append xs ys) (sym (append_assoc text (0 ∷ pack xs) (pack ys)))

pub index_from-append :
    (off : ℕ) (xs ys : List Turn)
    → index_from off (xs ++ ys) ≡ index_from off xs ++ index_from (off + size xs) ys
index_from-append off [] ys = ap (λ k. index_from k ys) (omega arith)
index_from-append off ((role, text) ∷ xs) ys =
    rw (index_from-append (off + length text + 1) xs ys) (
      ap
        (λ k.
          record { off = off; len = length text; role = role }
          ∷ (index_from (off + length text + 1) xs ++ index_from k ys))
        (omega arith))

pub drop-append {ℓ} : {A : Type ℓ} (n : ℕ) (xs ys : List A) → length xs ≡ n → drop n (xs ++ ys) ≡ ys
drop-append zero [] ys h = refl
drop-append zero (x ∷ xs) ys h = absurd (omega arith)
drop-append (suc n) [] ys h = absurd (omega arith)
drop-append (suc n) (x ∷ xs) ys h = drop-append n xs ys (omega arith)

pub take-append {ℓ} : {A : Type ℓ} (n : ℕ) (xs ys : List A) → length xs ≡ n → take n (xs ++ ys) ≡ xs
take-append zero [] ys h = refl
take-append zero (x ∷ xs) ys h = absurd (omega arith)
take-append (suc n) [] ys h = absurd (omega arith)
take-append (suc n) (x ∷ xs) ys h = ap (λ t. x ∷ t) (take-append n xs ys (omega arith))

-- The rest of the index once `dropped` bytes in front are gone.
shift-index_from :
    (dropped off : ℕ) (ts : List Turn)
    → off + dropped + size ts < 65536
    → map (shift dropped) (index_from (off + dropped) ts) ≡ index_from off ts
shift-index_from dropped off [] h = refl
shift-index_from dropped off ((role, text) ∷ ts) h =
    let e : off + dropped + length text + 1 ≡ off + length text + 1 + dropped = omega arith in
    let here : u16 (off + dropped + 65536 - dropped) ≡ off = omega arith in
    rw (e, here, shift-index_from dropped (off + length text + 1) ts (omega arith))

pub drop-turn : (text rest : List ℕ) → drop (suc (length text)) (text ++ (0 ∷ rest)) ≡ rest
drop-turn [] rest = refl
drop-turn (c ∷ text) rest = drop-turn text rest

-- Evicting takes the oldest turn away, and no other.
pub evict_oldest-Holds :
    (m : Memory) (t : Turn) (ts : List Turn) → Holds m (t ∷ ts) → Holds (evict_oldest m) ts
unfolding evict_oldest evict_from
evict_oldest-Holds m (role, text) ts v =
    let d : length text + 1 ≡ suc (length text) = omega arith in
    let o : 0 + length text + 1 ≡ 0 + (length text + 1) = omega arith in
    rw v.index_is (record {
      arena_is = rw (v.arena_is, d, drop-turn text (pack ts));
      index_is = rw (o, shift-index_from (length text + 1) 0 ts (omega (arith, v.bytes_fit)));
      count_fits = omega (arith, v.count_fits);
      bytes_fit = omega (arith, v.bytes_fit);
    })
