-- ===== src/Memory/Saved.antt =====
-- The record of the memory on flash: `dg_agent_flush_history` and `history_load`.
use esp32_deepgram_voice_age.Common.{
  ℕ, zero, suc, ◌+◌, ◌-◌, ◌*◌, ◌/◌, ◌%◌, ◌≤◌, ◌<◌, ◌≡◌, refl, sym, ap, ◌∙◌, false, some, List, [],
  ◌∷◌, ◌++◌, arith, length, get_or, take, drop, length-append,
}
use mathlib.Core.List.{append_assoc, append-nil}
use native.Mathlib.Nat.{suc-add}
use esp32_deepgram_voice_age.Memory.{
  history_bytes, history_max_turns, Idx, Memory, le16, read16, idx_records, flush_record, read_idx,
  tile_from, history_load,
}
use esp32_deepgram_voice_age.Memory.Turns.{
  Turn, pack, index_from, size, Holds, length-pack, length-index_from, drop-append, drop-turn,
}

drop-drop : (a b : ℕ) (xs : List ℕ) → drop (a + b) xs ≡ drop b (drop a xs)
drop-drop zero b xs = ap (λ k. drop k xs) (omega arith)
drop-drop (suc a) zero [] = rw (suc-add a 0) refl
drop-drop (suc a) (suc b) [] = rw (suc-add a (suc b)) refl
drop-drop (suc a) b (x ∷ xs) = rw (suc-add a b) (drop-drop a b xs)

length-drop : (a : ℕ) (xs : List ℕ) → length (drop a xs) ≡ length xs - a
length-drop zero xs = omega arith
length-drop (suc a) [] = omega arith
length-drop (suc a) (x ∷ xs) = omega (arith, length-drop a xs)

get_or-drop : (a b : ℕ) (xs : List ℕ) → get_or (drop a xs) b 0 ≡ get_or xs (a + b) 0
get_or-drop zero b xs = ap (λ k. get_or xs k 0) (omega arith)
get_or-drop (suc a) b [] = refl
get_or-drop (suc a) b (x ∷ xs) = rw (suc-add a b) (get_or-drop a b xs)

-- The text and its NUL at the front of some bytes.
split_at_nul :
    (len : ℕ) (ys : List ℕ)
    → len < length ys
    → get_or ys len 0 ≡ 0
    → (ys ≡ take len ys ++ (0 ∷ drop (suc len) ys)) × (length (take len ys) ≡ len)
split_at_nul len [] h e = absurd (omega arith)
split_at_nul zero (y ∷ ys) h e = (ap (λ c. c ∷ ys) e, refl)
split_at_nul (suc len) (y ∷ ys) h e =
    let (is, n) = split_at_nul len ys (omega arith) e in (ap (λ t. y ∷ t) is, ap suc n)

tile_step :
    (arena : List ℕ) (walk : ℕ) (t : Idx) (ts : List Idx) (w : ℕ)
    → tile_from arena walk (t ∷ ts) ≡ some w
    → (t.off ≡ walk)
      × ((walk + t.len < length arena) × (get_or arena (walk + t.len) 0 ≡ 0))
      × (tile_from arena (walk + t.len + 1) ts ≡ some w)
unfolding tile_from
tile_step arena walk t ts w e = ground arith

-- An index that tiles the arena stands for turns that fill it.
tile_from-turns :
    (arena : List ℕ) (walk : ℕ) (idx : List Idx) (w : ℕ)
    → tile_from arena walk idx ≡ some w
    → (ts : List Turn) × (idx ≡ index_from walk ts)
      × (drop walk arena ≡ pack ts ++ drop w arena)
      × (w ≡ walk + size ts)
unfolding tile_from
tile_from-turns arena walk [] w e =
    let same : walk ≡ w = cc e in ([], refl, ap (λ k. drop k arena) same, omega (arith, same))
tile_from-turns arena walk (t ∷ ts) w e =
    let (o, (len_in, nul), rest) = tile_step arena walk t ts w e in
    let (us, idx_is, bytes_are, size_is) = tile_from-turns arena (walk + t.len + 1) ts w rest in
    let text = take t.len (drop walk arena) in
    let (split, len_is) =
      split_at_nul t.len (drop walk arena) (omega (arith, length-drop walk arena))
        (get_or-drop walk t.len arena ∙ nul) in
    (
      (t.role, text) ∷ us,
      λ i.
          record { off = o i; len = sym len_is i; role = t.role }
          ∷ (idx_is ∙ ap (λ n. index_from (walk + n + 1) us) (sym len_is)) i,
      split
          ∙ ap (λ r. text ++ (0 ∷ r))
              (sym (drop-drop walk (suc t.len) arena)
                ∙ ap (λ k. drop k arena) (omega arith)
                ∙ bytes_are)
          ∙ sym (append_assoc text (0 ∷ pack us) (drop w arena)),
      omega (arith, size_is, len_is),
    )

load_parts :
    (rec : List ℕ) (m : Memory)
    → history_load rec ≡ some m
    → let count = read16 (get_or rec 0 0) (get_or rec 1 0) in
      (length m.arena ≤ history_bytes)
      × (count ≤ history_max_turns)
      × (m.idx ≡ read_idx count (drop 2 rec))
      × (tile_from m.arena 0 m.idx ≡ some (length m.arena))
      × (m.frozen ≡ false)
unfolding history_load
load_parts rec m e = ground arith

length-read_idx : (n : ℕ) (bytes : List ℕ) → length (read_idx n bytes) ≤ n
unfolding read_idx
length-read_idx zero bytes = omega arith
length-read_idx (suc n) (o0 ∷ o1 ∷ l0 ∷ l1 ∷ role ∷ pad ∷ bytes) =
    omega (arith, length-read_idx n bytes)
length-read_idx (suc n) [] = omega arith
length-read_idx (suc n) (_ ∷ []) = omega arith
length-read_idx (suc n) (_ ∷ _ ∷ []) = omega arith
length-read_idx (suc n) (_ ∷ _ ∷ _ ∷ []) = omega arith
length-read_idx (suc n) (_ ∷ _ ∷ _ ∷ _ ∷ []) = omega arith
length-read_idx (suc n) (_ ∷ _ ∷ _ ∷ _ ∷ _ ∷ []) = omega arith

drop-length : (xs : List ℕ) → drop (length xs) xs ≡ []
drop-length [] = refl
drop-length (x ∷ xs) = drop-length xs

-- Whatever bytes the newest record holds, what `history_load` takes from it is a memory of turns
-- within the limits, its index tiling its arena, that is not frozen; it discards any other record.
pub history_load-Holds :
    (rec : List ℕ) (m : Memory)
    → history_load rec ≡ some m
    → (m.frozen ≡ false) × ((ts : List Turn) × Holds m ts)
history_load-Holds rec m e =
    let (bytes, count, idx_is, tiled, live) = load_parts rec m e in
    let (ts, is, text, size_is) = tile_from-turns m.arena 0 m.idx (length m.arena) tiled in
    let n = read16 (get_or rec 0 0) (get_or rec 1 0) in
    let few : length m.idx ≤ n = omega (arith, ap length idx_is, length-read_idx n (drop 2 rec)) in
    (
      live,
      (
        ts,
        record {
          arena_is = text ∙ ap (λ r. pack ts ++ r) (drop-length m.arena) ∙ append-nil (pack ts);
          index_is = is;
          count_fits = omega (arith, length-index_from 0 ts, ap length is, few, count);
          bytes_fit = omega (arith, size_is, bytes);
        },
      ),
    )

word_bytes : (n : ℕ) → n < 65536 → read16 (n % 256) (n / 256 % 256) ≡ n
word_bytes n h = omega arith

pub length-idx_records :
    (pad off : ℕ) (ts : List Turn) → length (idx_records pad (index_from off ts)) ≡ length ts * 6
unfolding idx_records
length-idx_records pad off [] = refl
length-idx_records pad off ((role, text) ∷ ts) =
    omega (arith, length-idx_records pad (off + length text + 1) ts)

read_idx-idx_records :
    (pad off : ℕ) (ts : List Turn) (rest : List ℕ)
    → off + size ts < 65536
    → read_idx (length ts) (idx_records pad (index_from off ts) ++ rest) ≡ index_from off ts
unfolding read_idx idx_records
read_idx-idx_records pad off [] rest h = refl
read_idx-idx_records pad off ((role, text) ∷ ts) rest h =
    rw
      (
        word_bytes off (omega arith),
        word_bytes (length text) (omega arith),
        read_idx-idx_records pad (off + length text + 1) ts rest (omega arith),
      )
      refl

get_or-turn : (text rest : List ℕ) → get_or (text ++ (0 ∷ rest)) (length text) 0 ≡ 0
get_or-turn [] rest = refl
get_or-turn (c ∷ text) rest = get_or-turn text rest

tile_from-tiles :
    (arena : List ℕ) (walk : ℕ) (ts : List Turn)
    → drop walk arena ≡ pack ts
    → tile_from arena walk (index_from walk ts) ≡ some (walk + size ts)
unfolding tile_from
tile_from-tiles arena walk [] e = ap (λ k. some k) (omega arith)
tile_from-tiles arena walk ((role, text) ∷ ts) e =
    let nul : get_or arena (walk + length text) 0 ≡ 0 =
      sym (get_or-drop walk (length text) arena)
      ∙ ap (λ b. get_or b (length text) 0) e
      ∙ get_or-turn text (pack ts) in
    let next : drop (walk + length text + 1) arena ≡ pack ts =
      ap (λ k. drop k arena) (omega arith)
      ∙ drop-drop walk (suc (length text)) arena
      ∙ ap (drop (suc (length text))) e
      ∙ drop-turn text (pack ts) in
    let whole : length arena - walk ≡ length text + 1 + size ts = omega (
      arith,
      length-drop walk arena,
      ap length e,
      length-append text (0 ∷ pack ts),
      length-pack ts,
    ) in
    let rest : tile_from arena (walk + length text + 1) (index_from (walk + length text + 1) ts)
        ≡ some (walk + (length text + 1 + size ts)) =
      tile_from-tiles arena (walk + length text + 1) ts next ∙ ap (λ k. some k) (omega arith) in
    ground arith

load_some :
    (rec : List ℕ) (count : ℕ) (idx : List Idx) (arena : List ℕ)
    → read16 (get_or rec 0 0) (get_or rec 1 0) ≡ count
    → read_idx count (drop 2 rec) ≡ idx
    → drop (2 + count * 6) rec ≡ arena
    → 2 ≤ length rec
    → count ≤ history_max_turns
    → 2 + count * 6 ≤ length rec
    → length arena ≤ history_bytes
    → tile_from arena 0 idx ≡ some (length arena)
    → history_load rec ≡ some (record { arena = arena; idx = idx; frozen = false })
unfolding history_load
load_some rec count idx arena hn hi ha h2 hc hr hb ht = rw (hn, ha, hi, ht) (ground arith)

-- Restarting gives the conversation back: what `history_load` takes from the record that
-- `dg_agent_flush_history` writes of a memory that holds some turns is that memory, not frozen.
pub history_load-flush_record :
    (pad : ℕ) (m : Memory) (ts : List Turn)
    → Holds m ts
    → history_load (flush_record pad m) ≡ some (record m { frozen = false })
unfolding flush_record
history_load-flush_record pad m ts v =
    let recs = idx_records pad m.idx in
    let rec = le16 (length m.idx) ++ (recs ++ m.arena) in
    let n : length m.idx ≡ length ts = ap length v.index_is ∙ length-index_from 0 ts in
    let count : read16 (get_or rec 0 0) (get_or rec 1 0) ≡ length ts =
      word_bytes (length m.idx) (omega (arith, n, v.count_fits)) ∙ n in
    let l : length recs ≡ length ts * 6 =
      ap (λ i. length (idx_records pad i)) v.index_is ∙ length-idx_records pad 0 ts in
    let twice : 2 + length ts * 6 ≡ suc (suc (length ts * 6)) = omega arith in
    let arena_is : drop (2 + length ts * 6) rec ≡ m.arena =
      ap (λ k. drop k rec) twice ∙ drop-append (length ts * 6) recs m.arena l in
    let idx_is : read_idx (length ts) (recs ++ m.arena) ≡ m.idx =
      rw v.index_is (read_idx-idx_records pad 0 ts m.arena (omega (arith, v.bytes_fit))) in
    let whole = length-append recs m.arena in
    let bytes : length m.arena ≡ size ts = ap length v.arena_is ∙ length-pack ts in
    let tiled : tile_from m.arena 0 m.idx ≡ some (length m.arena) =
      ap (tile_from m.arena 0) v.index_is
      ∙ tile_from-tiles m.arena 0 ts v.arena_is
      ∙ ap (λ k. some k) (omega (arith, bytes)) in
    load_some rec (length ts) m.idx m.arena count idx_is arena_is (omega arith) v.count_fits
      (omega (arith, whole, l)) (omega (arith, bytes, v.bytes_fit)) tiled
