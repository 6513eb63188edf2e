-- ===== src/Memory/Runs.antt =====
-- The memory over any sequence of turns, forgets and sessions, against a memory of lists.
use esp32_deepgram_voice_age.Common.{
  ℕ, ◌≡◌, refl, sym, ◌∙◌, subst, inl, inr, Bool, true, false, Option, none, some, List, [], ◌∷◌,
  ◌++◌, arith, if◌then◌else◌, Bool-cases, take,
}
use esp32_deepgram_voice_age.Memory.{
  Memory, blank, role_id, turn_len, room_fuel, append_turn, history_add, clear_history,
}
use esp32_deepgram_voice_age.Memory.Turns.{Turn, Holds}
use esp32_deepgram_voice_age.Memory.Adding.{
  newest, turn_len-IsCut, make_room-frozen, make_room-Holds, newest_fits, append_turn-Holds,
  history_add-some,
}

-- What happens to the memory: something is said, the conversation is forgotten, a session is live.
pub data Event : Type 0 where
  said : List ℕ → List ℕ → Event
  forget live : Event

-- The frozen flag falls at "SettingsApplied".
abbrev pub applied : Memory → Memory
applied m = record m { frozen = false }

unfoldable pub run : List Event → Memory → Option Memory
run [] m = some m
run (said role content ∷ es) m = elim (history_add role content m) [
  | none ↦ none
  | some r ↦ run es r
]
run (forget ∷ es) m = run es (clear_history m)
run (live ∷ es) m = run es (applied m)

-- The memory of a device with lists of turns: whether it is frozen, and the turns.
unfoldable pub remember : List Event → Bool → List Turn → List Turn
remember [] frozen ts = ts
remember (said role content ∷ es) frozen ts =
    let n = turn_len content in
    let kept = newest n ts ++ ((role_id role, take n content) ∷ []) in
    remember es frozen (if frozen then ts else kept)
remember (forget ∷ es) frozen ts = remember es true []
remember (live ∷ es) frozen ts = remember es false ts

frozen-same :
    (role content : List ℕ) (m : Memory) → m.frozen ≡ true → history_add role content m ≡ some m
unfolding history_add
frozen-same role content m f = ground arith

said-Holds :
    (role content : List ℕ) (m : Memory) (ts : List Turn)
    → Holds m ts
    → let n = turn_len content in
      let kept = newest n ts ++ ((role_id role, take n content) ∷ []) in
      (r : Memory) × (history_add role content m ≡ some r)
      × Holds r (if m.frozen then ts else kept)
      × (r.frozen ≡ m.frozen)
said-Holds role content m ts v = elim (Bool-cases m.frozen) [
  | inl f ↦
      let n = turn_len content in
      let kept = newest n ts ++ ((role_id role, take n content) ∷ []) in
      (
        m,
        frozen-same role content m f,
        subst (λ c. Holds m (if c then ts else kept)) (sym f) v,
        refl,
      )
  | inr f ↦
      let n = turn_len content in
      let cut = turn_len-IsCut content in
      let (r, e, h) = make_room-Holds room_fuel n m ts v (omega (arith, v.count_fits)) cut.short in
      let kept = newest n ts ++ ((role_id role, take n content) ∷ []) in
      let added =
        append_turn-Holds role content n r (newest n ts) h (newest_fits n ts cut.short) cut.short
          cut.within in
      (
        append_turn role content n r,
        history_add-some role content m r f e,
        subst (λ c. Holds (append_turn role content n r) (if c then ts else kept)) (sym f) added,
        make_room-frozen room_fuel n m r e,
      )
]

run-said :
    (role content : List ℕ) (es : List Event) (m r : Memory)
    → history_add role content m ≡ some r
    → run (said role content ∷ es) m ≡ run es r
unfolding run
run-said role content es m r e = rw (e, run)

run_from-Holds :
    (es : List Event) (m : Memory) (ts : List Turn)
    → Holds m ts
    → (r : Memory) × (run es m ≡ some r) × Holds r (remember es m.frozen ts)
unfolding run remember clear_history
run_from-Holds [] m ts v = (m, refl, v)
run_from-Holds (said role content ∷ es) m ts v =
    let (r, e, h, f) = said-Holds role content m ts v in
    let n = turn_len content in
    let next = if m.frozen then ts else newest n ts ++ ((role_id role, take n content) ∷ []) in
    let (q, d, k) = run_from-Holds es r next h in
    (q, run-said role content es m r e ∙ d, subst (λ c. Holds q (remember es c next)) f k)
run_from-Holds (forget ∷ es) m ts v = run_from-Holds es (clear_history m) [] (ground arith)
run_from-Holds (live ∷ es) m ts v = run_from-Holds es (applied m) ts (record {
  arena_is = v.arena_is;
  index_is = v.index_is;
  count_fits = v.count_fits;
  bytes_fit = v.bytes_fit;
})

-- From an empty memory, through anything said, forgotten or started, adding always ends, and the
-- memory holds the turns of a device that remembers lists: of what was said since the last forget
-- and a session after it, the newest turns, each cut as it was said. Their count and their bytes
-- stay within the limits of the arena and its index.
pub run-Holds :
    (es : List Event) → (r : Memory) × (run es blank ≡ some r) × Holds r (remember es false [])
run-Holds es = run_from-Holds es blank [] (ground arith)
