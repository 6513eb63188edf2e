-- ===== src/Memory/Debounce.antt =====
-- How long a turn waits for the flash, and that none is dropped: the runs of the flush schedule.
use esp32_deepgram_voice_age.Common.{
  ℕ, ◌+◌, ◌-◌, ◌≤◌, ◌<◌, ◌≡◌, refl, sym, ap, ◌∙◌, subst, ◌⊎◌, inl, inr, true, false, some, List, [],
  ◌∷◌, arith, ltb, leb, if◌then◌else◌, Bool-cases, All, u32, sub32, add32,
}
use esp32_deepgram_voice_age.Memory.Schedule.{
  history_flush_debounce_ms, history_flush_max_defer_ms, Saver, mark, defer, mark_dirty,
}

-- Turns at these times, while the worker is not asked.
unfoldable pub turns : List ℕ → Saver → Saver
turns [] s = s
turns (t ∷ ts) s = turns ts (mark_dirty t s)

-- The stretch of unwritten turns that began at `start`: the timer runs out within its five seconds.
pub record IsDeferred (start : ℕ) (s : Saver) : Type 0 where
  pub dirty_is : s.dirty ≡ true
  pub enabled : s.disabled ≡ false
  pub since_is : s.since ≡ u32 start
  pub deadline : ℕ
  pub armed : s.timer ≡ some deadline
  pub in_time : deadline ≤ start + history_flush_max_defer_ms

armed_by :
    (start deadline : ℕ) (s : Saver)
    → s.dirty ≡ true
    → s.disabled ≡ false
    → s.since ≡ u32 start
    → deadline ≤ start + history_flush_max_defer_ms
    → IsDeferred start (record s { timer = some deadline })
armed_by start deadline s d e c l = record {
  dirty_is = d;
  enabled = e;
  since_is = c;
  deadline = deadline;
  armed = refl;
  in_time = l;
}

since_start :
    (start t : ℕ) → start ≤ t → t < start + 4294960000 → sub32 (u32 t) (u32 start) ≡ t - start
since_start start t l h = omega arith

defer-IsDeferred :
    (start t : ℕ) (s : Saver)
    → s.dirty ≡ true
    → s.disabled ≡ false
    → s.since ≡ u32 start
    → start ≤ t
    → t < start + 4294960000
    → IsDeferred start s ⊎ (t ≡ start)
    → IsDeferred start (defer t s)
unfolding defer
defer-IsDeferred start t s d n c l h v =
    let e : sub32 (u32 t) s.since ≡ t - start = ap (sub32 (u32 t)) c ∙ since_start start t l h in
    elim (Bool-cases
      (ltb history_flush_max_defer_ms (add32 (t - start) history_flush_debounce_ms))) [
        | inr b ↦
            rw (e, b)
              (armed_by start (t + history_flush_debounce_ms) s d n c (ground (arith, b, h, l)))
        | inl b ↦ elim (Bool-cases (leb history_flush_max_defer_ms (t - start))) [
          | inr a ↦
              rw (e, b, a)
                (armed_by start (t + (history_flush_max_defer_ms - (t - start))) s d n c
                  (ground (arith, a, l)))
          | inl a ↦
              rw (e, b, a) (elim v [ inl was ↦ was | inr now ↦ absurd (ground (arith, a, now)) ])
        ]
      ]

pub mark_dirty-enabled :
    (t : ℕ) (s : Saver) → s.disabled ≡ false → mark_dirty t s ≡ defer t (mark t s)
unfolding mark_dirty
mark_dirty-enabled t s e = ap (λ b. if b then s else defer t (mark t s)) e

mark_dirty-IsDeferred :
    (start t : ℕ) (s : Saver)
    → IsDeferred start s
    → start ≤ t
    → t < start + 4294960000
    → IsDeferred start (mark_dirty t s)
mark_dirty-IsDeferred start t s v l h =
    subst (IsDeferred start)
      (sym (
        mark_dirty-enabled t s v.enabled
        ∙ ap (λ b. defer t (if b then s else record s { dirty = true; since = u32 t })) v.dirty_is))
      (defer-IsDeferred start t s v.dirty_is v.enabled v.since_is l h (inl v))

first_turn :
    (start : ℕ) (s : Saver)
    → s.dirty ≡ false
    → s.disabled ≡ false
    → IsDeferred start (mark_dirty start s)
first_turn start s d e =
    let m : Saver = record s { dirty = true; since = u32 start } in
    subst (IsDeferred start)
      (sym (mark_dirty-enabled start s e ∙ ap (λ b. defer start (if b then s else m)) d))
      (defer-IsDeferred start start m refl e refl (omega arith) (omega arith) (inr refl))

turns_from-IsDeferred :
    (start : ℕ) (ts : List ℕ) (s : Saver)
    → IsDeferred start s
    → All (λ t. (start ≤ t) × (t < start + 4294960000)) ts
    → IsDeferred start (turns ts s)
unfolding turns
turns_from-IsDeferred start [] s v h = v
turns_from-IsDeferred start (t ∷ ts) s v ((l, h), rest) =
    turns_from-IsDeferred start ts (mark_dirty t s) (mark_dirty-IsDeferred start t s v l h) rest

-- However the turns follow one another after the first of an unwritten stretch, in the 49 days
-- before the stamps repeat, the flush timer stays armed, and it runs out within five seconds of
-- that first turn. Saving must not have been given up.
pub turns-IsDeferred :
    (start : ℕ) (ts : List ℕ) (s : Saver)
    → s.dirty ≡ false
    → s.disabled ≡ false
    → All (λ t. (start ≤ t) × (t < start + 4294960000)) ts
    → IsDeferred start (turns (start ∷ ts) s)
unfolding turns
turns-IsDeferred start ts s d e h =
    turns_from-IsDeferred start ts (mark_dirty start s) (first_turn start s d e) h
