-- ===== src/Memory.antt =====
-- The conversation that is kept in memory: the arena of turns in main/dg_agent.c, what of it a new
-- session is given, and the record that goes to flash. `s_history_bytes` is the length of `arena`,
-- its bytes in use, and `s_history_count` the length of `idx`. The lock makes each function atomic.
pub mod Turns
pub mod Adding
pub mod Runs
pub mod Replay
pub mod Saved
pub mod Schedule
pub mod Debounce
pub mod Restart
pub mod Unsaved
mod Tests
use esp32_deepgram_voice_age.Common.{
  ℕ, zero, suc, ◌+◌, ◌-◌, ◌*◌, ◌/◌, ◌%◌, bit_and, Bool, true, false, not, ◌&&◌, ◌||◌, Option, none,
  some, List, [], ◌∷◌, ◌++◌, map, ltb, leb, ◌==◌, if◌then◌else◌, length, get_or, take, drop, u16,
}
use mathlib.Core.List.{reverse}
use esp32_deepgram_voice_age.Common.Bytes.{codes, bytes_eq}

abbrev pub history_bytes : ℕ
history_bytes = 3072

abbrev pub history_replay_bytes : ℕ
history_replay_bytes = 1280

abbrev pub history_replay_max_turns : ℕ
history_replay_max_turns = 6

abbrev pub turn_json_overhead : ℕ
turn_json_overhead = 64

abbrev pub history_max_turns : ℕ
history_max_turns = 40

abbrev pub history_turn_max : ℕ
history_turn_max = 512

-- `history_idx_t`.
pub record Idx : Type 0 where
  pub off : ℕ
  pub len : ℕ
  pub role : ℕ

pub record Memory : Type 0 where
  pub arena : List ℕ
  pub idx : List Idx
  pub frozen : Bool

abbrev pub blank : Memory
blank = record { arena = []; idx = []; frozen = false }

-- `history_role_id`.
abbrev pub role_id : List ℕ → ℕ
role_id role = if bytes_eq role (codes "assistant") then 1 else 0

-- `off - drop`, stored in 16 bits.
abbrev pub shift : ℕ → Idx → Idx
shift dropped t = record t { off = u16 (t.off + 65536 - dropped) }

evict_from : List Idx → Memory → Memory
evict_from [] m = m
evict_from (t ∷ ts) m = record m {
  arena = drop (t.len + 1) m.arena;
  idx = map (shift (t.len + 1)) ts;
}

-- `history_evict_oldest`.
pub evict_oldest : Memory → Memory
unfolding evict_from
evict_oldest m = evict_from m.idx m

-- A byte 10xxxxxx of UTF-8.
abbrev pub is_continuation : ℕ → Bool
is_continuation c = bit_and c 0xC0 == 0x80

-- The loop of `history_add` that backs off to a character boundary; past the last byte is the NUL.
pub back_off : List ℕ → ℕ → ℕ
back_off content zero = 0
back_off content (suc n) =
    let shorter = back_off content n in
    if is_continuation (get_or content (suc n) 0) then shorter else suc n

-- The length of a turn: the two clamps of `history_add`, then that loop.
pub turn_len : List ℕ → ℕ
unfolding back_off
turn_len content =
    let len = length content in
    let cut = if ltb history_turn_max len then history_turn_max else len in
    let fit = if ltb history_bytes (cut + 1) then history_bytes - 1 else cut in back_off content fit

-- The test of the eviction loop.
abbrev pub is_full : ℕ → Memory → Bool
is_full len m = leb history_max_turns (length m.idx) || ltb history_bytes (length m.arena + len + 1)

-- The eviction loop; `none` when the fuel runs out, as where it would not end.
pub make_room : ℕ → ℕ → Memory → Option Memory
unfolding evict_oldest
make_room zero len m = none
make_room (suc fuel) len m =
    let rest = make_room fuel len (evict_oldest m) in if is_full len m then rest else some m

-- One round more than there can be turns.
abbrev pub room_fuel : ℕ
room_fuel = 41

abbrev pub append_turn : List ℕ → List ℕ → ℕ → Memory → Memory
append_turn role content len m = record m {
  arena = m.arena ++ (take len content ++ (0 ∷ []));
  idx = m.idx ++ (record { off = u16 (length m.arena); len = u16 len; role = role_id role } ∷ []);
}

-- `history_add`, with the arena allocated.
unfoldable pub history_add : List ℕ → List ℕ → Memory → Option Memory
history_add role content m =
    if m.frozen then some m else elim (make_room room_fuel (turn_len content) m) [
      | none ↦ none
      | some r ↦ some (append_turn role content (turn_len content) r)
    ]

-- `dg_agent_clear_history`, for what is in memory.
unfoldable pub clear_history : Memory → Memory
clear_history m = record { arena = []; idx = []; frozen = true }

-- The walk of `history_to_json` from the newest turn back, over the turns newest first: how many
-- are replayed.
pub replay_count : List Idx → ℕ → ℕ → ℕ
replay_count [] budget taken = taken
replay_count (t ∷ older) budget taken =
    let cost = t.len + turn_json_overhead in
    let more = replay_count older (budget - cost) (taken + 1) in
    if ltb taken history_replay_max_turns && leb cost budget then more else taken

-- `history_to_json`: the turns it sends, by index, oldest first.
unfoldable pub replayed : List Idx → List Idx
unfolding replay_count
replayed idx =
    let n = replay_count (reverse idx) history_replay_bytes 0 in
    let first = if n == 0 then length idx - 1 else length idx - n in drop first idx

abbrev pub le16 : ℕ → List ℕ
le16 n = (n % 256) ∷ (n / 256 % 256) ∷ []

abbrev pub read16 : ℕ → ℕ → ℕ
read16 lo hi = lo + 256 * hi

-- The bytes of an index entry in memory; `pad` is what the compiler's padding holds.
abbrev pub idx_record : ℕ → Idx → List ℕ
idx_record pad t = le16 t.off ++ (le16 t.len ++ (t.role ∷ pad ∷ []))

pub idx_records : ℕ → List Idx → List ℕ
idx_records pad [] = []
idx_records pad (t ∷ ts) = idx_record pad t ++ idx_records pad ts

-- The record that `dg_agent_flush_history` writes.
unfoldable pub flush_record : ℕ → Memory → List ℕ
unfolding idx_records
flush_record pad m = le16 (length m.idx) ++ (idx_records pad m.idx ++ m.arena)

pub read_idx : ℕ → List ℕ → List Idx
read_idx zero bytes = []
read_idx (suc n) (o0 ∷ o1 ∷ l0 ∷ l1 ∷ role ∷ pad ∷ bytes) =
    record { off = read16 o0 o1; len = read16 l0 l1; role = role } ∷ read_idx n bytes
read_idx (suc n) _ = []

-- The loop that checks that the turns tile the arena: where it ends, or `none` at a bad turn.
pub tile_from : List ℕ → ℕ → List Idx → Option ℕ
tile_from arena walk [] = some walk
tile_from arena walk (t ∷ ts) =
    let rest = tile_from arena (walk + t.len + 1) ts in
    if not (t.off == walk)
      || (leb (length arena) (walk + t.len) || not (get_or arena (walk + t.len) 0 == 0))
    then none
    else rest

-- `history_load`, from the bytes of the newest record: `none` where it is discarded.
unfoldable pub history_load : List ℕ → Option Memory
history_load rec =
    let count = read16 (get_or rec 0 0) (get_or rec 1 0) in
    let idx = read_idx count (drop 2 rec) in
    let arena = drop (2 + count * 6) rec in
    if ltb (length rec) 2
      || (ltb history_max_turns count
          || (ltb (length rec) (2 + count * 6) || ltb history_bytes (length arena)))
    then none
    else elim (tile_from arena 0 idx) [
      | none ↦ none
      | some walk ↦
          if walk == length arena
          then some (record { arena = arena; idx = idx; frozen = false })
          else none
    ]
