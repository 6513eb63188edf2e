-- ===== src/Memory/Adding.antt =====
-- What `history_add` remembers.
use esp32_deepgram_voice_age.Common.{
  ℕ, zero, suc, ◌+◌, ◌-◌, ◌≤◌, ◌<◌, ◌≡◌, refl, ap, ◌∙◌, subst, ◌⊎◌, inl, inr, Bool, true, false,
  ◌||◌, some, List, [], ◌∷◌, ◌++◌, arith, ltb, leb, if◌then◌else◌, Bool-cases, length, get_or, take,
  length-append, u16,
}
use esp32_deepgram_voice_age.Memory.{
  history_bytes, history_max_turns, history_turn_max, Idx, Memory, role_id, evict_oldest,
  evict_from, is_continuation, back_off, turn_len, is_full, make_room, room_fuel, append_turn,
  history_add,
}
use esp32_deepgram_voice_age.Memory.Turns.{
  Turn, size, Holds, length-pack, length-index_from, size-append, pack-append, index_from-append,
  evict_oldest-Holds,
}

back_off-le : (content : List ℕ) (n : ℕ) → back_off content n ≤ n
unfolding back_off
back_off-le content zero = omega arith
back_off-le content (suc n) = ground (arith, back_off-le content n)

-- A turn is cut to 512 bytes at most, and only between two characters: the byte after the cut is
-- no continuation byte, unless nothing is left.
pub record IsCut (content : List ℕ) (n : ℕ) : Type 0 where
  pub short : n ≤ history_turn_max
  pub within : n ≤ length content
  pub between : (n ≡ 0) ⊎ (is_continuation (get_or content n 0) ≡ false)

back_off-between :
    (content : List ℕ) (n : ℕ)
    → let k = back_off content n in (k ≡ 0) ⊎ (is_continuation (get_or content k 0) ≡ false)
unfolding back_off
back_off-between content zero = inl refl
back_off-between content (suc n) = elim (Bool-cases (is_continuation (get_or content (suc n) 0))) [
  | inl e ↦ rw e (back_off-between content n)
  | inr e ↦ rw e (inr e)
]

pub turn_len-IsCut : (content : List ℕ) → IsCut content (turn_len content)
unfolding turn_len
turn_len-IsCut content =
    let cut = if ltb history_turn_max (length content) then history_turn_max else length content in
    let fit = if ltb history_bytes (cut + 1) then history_bytes - 1 else cut in
    let small : (fit ≤ history_turn_max) × (fit ≤ length content) = ground arith in
    record {
      short = omega (arith, back_off-le content fit, small.0);
      within = omega (arith, back_off-le content fit, small.1);
      between = back_off-between content fit;
    }

-- Whether a turn of `len` bytes has no room beside these.
abbrev pub crowded : ℕ → List Turn → Bool
crowded len ts = leb history_max_turns (length ts) || ltb history_bytes (size ts + len + 1)

-- The newest of the turns, as many as leave room for one of `len` bytes.
unfoldable pub newest : ℕ → List Turn → List Turn
newest len [] = []
newest len (t ∷ ts) = let rest = newest len ts in if crowded len (t ∷ ts) then rest else t ∷ ts

is_full-crowded :
    (len : ℕ) (m : Memory) (ts : List Turn) → Holds m ts → is_full len m ≡ crowded len ts
is_full-crowded len m ts v = rw (v.arena_is, v.index_is, length-pack ts, length-index_from 0 ts)

evict_from-frozen : (ts : List Idx) (m : Memory) → (evict_from ts m).frozen ≡ m.frozen
unfolding evict_from
evict_from-frozen [] m = refl
evict_from-frozen (t ∷ ts) m = refl

evict_oldest-frozen : (m : Memory) → (evict_oldest m).frozen ≡ m.frozen
unfolding evict_oldest
evict_oldest-frozen m = evict_from-frozen m.idx m

pub make_room-frozen :
    (fuel len : ℕ) (m r : Memory) → make_room fuel len m ≡ some r → r.frozen ≡ m.frozen
unfolding make_room
make_room-frozen zero len m r e = cc e
make_room-frozen (suc fuel) len m r e =
    ground (arith, evict_oldest-frozen m, make_room-frozen fuel len (evict_oldest m) r)

-- The eviction loop ends, with the newest turns that leave room.
pub make_room-Holds :
    (fuel len : ℕ) (m : Memory) (ts : List Turn)
    → Holds m ts
    → length ts < fuel
    → len ≤ history_turn_max
    → (r : Memory) × (make_room fuel len m ≡ some r) × Holds r (newest len ts)
unfolding make_room newest
make_room-Holds zero len m ts v h l = absurd (omega arith)
make_room-Holds (suc fuel) len m [] v h l = (m, rw (is_full-crowded len m [] v) (ground arith), v)
make_room-Holds (suc fuel) len m (t ∷ ts) v h l = elim (Bool-cases (crowded len (t ∷ ts))) [
  | inl e ↦
      rw (is_full-crowded len m (t ∷ ts) v, e)
        (make_room-Holds fuel len (evict_oldest m) ts (evict_oldest-Holds m t ts v) (omega arith) l)
  | inr e ↦ (m, rw (is_full-crowded len m (t ∷ ts) v, e), rw e v)
]

pub newest_fits :
    (len : ℕ) (ts : List Turn) → len ≤ history_turn_max → crowded len (newest len ts) ≡ false
unfolding newest
newest_fits len [] l = ground arith
newest_fits len (t ∷ ts) l = elim (Bool-cases (crowded len (t ∷ ts))) [
  | inl e ↦ rw e (newest_fits len ts l)
  | inr e ↦ rw e e
]

-- `kept` is the longest run of newest turns that leaves room for one of `len` bytes.
pub record IsNewest (len : ℕ) (ts kept : List Turn) : Type 0 where
  pub gone : List Turn
  pub split : ts ≡ gone ++ kept
  pub room : crowded len kept ≡ false
  pub no_more :
      (gone ≡ [])
      ⊎ ((older : List Turn) × (t : Turn) × (gone ≡ older ++ (t ∷ []))
          × (crowded len (t ∷ kept) ≡ true))

newest-none :
    (len : ℕ) (t : Turn) (ts : List Turn)
    → len ≤ history_turn_max
    → crowded len (t ∷ ts) ≡ true
    → IsNewest len ts (newest len ts)
    → IsNewest len (t ∷ ts) (newest len ts)
newest-none len t ts l e v = elim v.no_more [
  | inl none_gone ↦
      let all : ts ≡ newest len ts = v.split ∙ ap (λ g. g ++ newest len ts) none_gone in
      record {
        gone = t ∷ [];
        split = ap (λ k. t ∷ k) all;
        room = v.room;
        no_more = inr ([], t, refl, subst (λ k. crowded len (t ∷ k) ≡ true) all e);
      }
  | inr (older, last, is, full) ↦ record {
    gone = t ∷ v.gone;
    split = ap (λ k. t ∷ k) v.split;
    room = v.room;
    no_more = inr (t ∷ older, last, ap (λ k. t ∷ k) is, full);
  }
]

pub newest-IsNewest :
    (len : ℕ) (ts : List Turn) → len ≤ history_turn_max → IsNewest len ts (newest len ts)
unfolding newest
newest-IsNewest len [] l = record {
  gone = [];
  split = refl;
  room = ground arith;
  no_more = inl refl;
}
newest-IsNewest len (t ∷ ts) l = elim (Bool-cases (crowded len (t ∷ ts))) [
  | inl e ↦ rw e (newest-none len t ts l e (newest-IsNewest len ts l))
  | inr e ↦ rw e (record { gone = []; split = refl; room = e; no_more = inl refl })
]

length-take : (n : ℕ) (xs : List ℕ) → n ≤ length xs → length (take n xs) ≡ n
length-take zero xs h = refl
length-take (suc n) [] h = absurd (omega arith)
length-take (suc n) (x ∷ xs) h = ap suc (length-take n xs (omega arith))

pub append_turn-Holds :
    (role content : List ℕ) (n : ℕ) (m : Memory) (ts : List Turn)
    → Holds m ts
    → crowded n ts ≡ false
    → n ≤ history_turn_max
    → n ≤ length content
    → Holds (append_turn role content n m) (ts ++ ((role_id role, take n content) ∷ []))
append_turn-Holds role content n m ts v room s w =
    let t : Turn = (role_id role, take n content) in
    let k = length-take n content w in
    let fits : (length ts < history_max_turns) × (size ts + n + 1 ≤ history_bytes) = ground arith in
    let o : u16 (size ts) ≡ 0 + size ts = omega (arith, fits.1) in
    let l : u16 n ≡ n = omega (arith, s) in
    record {
      arena_is = rw (v.arena_is, pack-append ts (t ∷ []));
      index_is =
          rw (v.arena_is, length-pack ts, v.index_is, index_from-append 0 ts (t ∷ []), o, l, k);
      count_fits = omega (arith, length-append ts (t ∷ []), fits.0);
      bytes_fit = omega (arith, size-append ts (t ∷ []), fits.1, k);
    }

pub history_add-some :
    (role content : List ℕ) (m r : Memory)
    → m.frozen ≡ false
    → make_room room_fuel (turn_len content) m ≡ some r
    → history_add role content m ≡ some (append_turn role content (turn_len content) r)
unfolding history_add
history_add-some role content m r f e = ground arith

-- Adding a turn to a memory that holds some turns and is not frozen always ends. It forgets the
-- oldest turns, no more than it must, so that the new one has room; and the new one, cut to 512
-- bytes at a character's boundary, is the newest.
pub history_add-Holds :
    (role content : List ℕ) (m : Memory) (ts : List Turn)
    → Holds m ts
    → m.frozen ≡ false
    → let n = turn_len content in
      IsCut content n
      × IsNewest n ts (newest n ts)
      × ((r : Memory) × (history_add role content m ≡ some r)
          × Holds r (newest n ts ++ ((role_id role, take n content) ∷ [])))
history_add-Holds role content m ts v f =
    let n = turn_len content in
    let cut = turn_len-IsCut content in
    let (r, e, h) = make_room-Holds room_fuel n m ts v (omega (arith, v.count_fits)) cut.short in
    (
      cut,
      newest-IsNewest n ts cut.short,
      (
        append_turn role content n r,
        history_add-some role content m r f e,
        append_turn-Holds role content n r (newest n ts) h (newest_fits n ts cut.short) cut.short
            cut.within,
      ),
    )
