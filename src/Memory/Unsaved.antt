-- ===== src/Memory/Unsaved.antt =====
-- That no change of the conversation is left behind: any order of turns, forgets, timers and
-- flushes.
use esp32_deepgram_voice_age.Common.{
  ℕ, ◌+◌, ◌-◌, ◌≤◌, ◌<◌, ◌≡◌, refl, sym, subst, ◌⊎◌, inl, inr, Bool, true, false, ◌&&◌, some, List,
  [], ◌∷◌, arith, ltb, leb, if◌then◌else◌, Bool-cases, u32, sub32, add32,
}
use esp32_deepgram_voice_age.Memory.Schedule.{
  history_save_attempts, history_flush_debounce_ms, history_flush_max_defer_ms, Saver, saver_start,
  mark, defer, mark_dirty, note_save_failure, mark_forgotten, timer_ran_out, is_due, flush_history,
}
use esp32_deepgram_voice_age.Memory.Debounce.{mark_dirty-enabled}

-- A turn, a forget, the timer running out, a flush by whether it could save.
pub data Act : Type 0 where
  spoke forgot : ℕ → Act
  ran_out : Act
  flushed : Bool → ℕ → Act

-- The schedule, beside whether the memory differs from the newest record on flash.
abbrev pub acted : Act → Bool × Saver → Bool × Saver
acted (spoke t) (unsaved, s) = (true, mark_dirty t s)
acted (forgot t) (unsaved, s) = (true, mark_forgotten t s)
acted ran_out (unsaved, s) = (unsaved, timer_ran_out s)
acted (flushed saved t) (unsaved, s) =
    (if is_due s && saved then false else unsaved, flush_history saved t s)

unfoldable pub act : List Act → Bool × Saver → Bool × Saver
act [] u = u
act (a ∷ acts) u = act acts (acted a u)

-- A flush is coming: its timer is armed, or the worker is asked for it.
abbrev pub IsComing : Saver → Type 0
IsComing s = ((d : ℕ) × (s.timer ≡ some d)) ⊎ (s.requested ≡ true)

-- Saving goes on after at most two failures, with a flush coming when there is something to write,
-- or it was given up after three.
abbrev pub IsWorking : Saver → Type 0
IsWorking s =
    (s.disabled ≡ false) × ((s.failures < history_save_attempts) × ((s.dirty ≡ false) ⊎ IsComing s))

abbrev pub HasGivenUp : Saver → Type 0
HasGivenUp s = (s.disabled ≡ true) × ((history_save_attempts ≤ s.failures) × (s.dirty ≡ false))

-- What is not on flash will be written by a flush that is coming, unless saving was given up.
abbrev pub IsTended : Bool × Saver → Type 0
IsTended (unsaved, s) = (IsWorking s × ((unsaved ≡ false) ⊎ (s.dirty ≡ true))) ⊎ HasGivenUp s

defer-cases :
    (t : ℕ) (s : Saver)
    → ((defer t s ≡ s) × (history_flush_max_defer_ms ≤ sub32 (u32 t) s.since))
      ⊎ ((d : ℕ) × (defer t s ≡ record s { timer = some d }))
unfolding defer
defer-cases t s =
    elim (Bool-cases
      (ltb history_flush_max_defer_ms (add32 (sub32 (u32 t) s.since) history_flush_debounce_ms))) [
        | inr b ↦ rw b (inr (t + history_flush_debounce_ms, refl))
        | inl b ↦ elim (Bool-cases (leb history_flush_max_defer_ms (sub32 (u32 t) s.since))) [
          | inr a ↦ rw (b, a) (inr (t + (history_flush_max_defer_ms - sub32 (u32 t) s.since), refl))
          | inl a ↦ rw (b, a) (inl (refl, ground (arith, a)))
        ]
      ]

-- A mark leaves a flush coming.
IsMarked : Saver → Type 0
IsMarked s =
    (s.disabled ≡ false) × ((s.failures < history_save_attempts) × ((s.dirty ≡ true) × IsComing s))

defer-IsMarked :
    (t : ℕ) (s : Saver)
    → s.disabled ≡ false
    → s.failures < history_save_attempts
    → s.dirty ≡ true
    → (s.since ≡ u32 t) ⊎ IsComing s
    → IsMarked (defer t s)
unfolding IsMarked
defer-IsMarked t s e l d c = elim (defer-cases t s) [
  | inr (k, is) ↦ subst IsMarked (sym is) (e, (l, (d, inl (k, refl))))
  | inl (is, late) ↦
      subst IsMarked (sym is)
        (e, (l, (d, elim c [ inr coming ↦ coming | inl now ↦ absurd (omega (arith, now, late)) ])))
]

bool_clash : (b : Bool) → b ≡ true → b ≡ false → ⊥
bool_clash b e d = cc (e, d)

mark_dirty-IsMarked : (t : ℕ) (s : Saver) → IsWorking s → IsMarked (mark_dirty t s)
mark_dirty-IsMarked t s (e, (l, c)) =
    subst IsMarked (sym (mark_dirty-enabled t s e)) (elim (Bool-cases s.dirty) [
      | inl d ↦
          subst
            (λ b. IsMarked (defer t (if b then s else record s { dirty = true; since = u32 t })))
            (sym d)
            (defer-IsMarked t s e l d (elim c [
              | inl clean ↦ absurd (bool_clash s.dirty d clean)
              | inr coming ↦ inr coming
            ]))
      | inr d ↦
          subst
            (λ b. IsMarked (defer t (if b then s else record s { dirty = true; since = u32 t })))
            (sym d)
            (defer-IsMarked t (record s { dirty = true; since = u32 t }) e l refl (inl refl))
    ])

marked-IsTended : (u : Bool) (s : Saver) → IsMarked s → IsTended (u, s)
unfolding IsMarked
marked-IsTended u s (e, (l, (d, c))) = inl ((e, (l, inr c)), inr d)

spoke-IsTended : (t : ℕ) (u : Bool) (s : Saver) → IsTended (u, s) → IsTended (true, mark_dirty t s)
unfolding mark_dirty
spoke-IsTended t u s (inl (w, k)) =
    marked-IsTended true (mark_dirty t s) (mark_dirty-IsMarked t s w)
spoke-IsTended t u s (inr (e, (l, d))) =
    subst (λ b. IsTended (true, if b then s else defer t (mark t s))) (sym e) (inr (e, (l, d)))

-- A forget gives saving a fresh start.
fresh-IsWorking :
    (u : Bool) (s : Saver)
    → IsTended (u, s)
    → IsWorking (record s { disabled = false; failures = 0 })
fresh-IsWorking u s (inl ((e, (l, c)), k)) = (refl, (omega arith, c))
fresh-IsWorking u s (inr (e, (l, d))) = (refl, (omega arith, inl d))

forgot-IsTended :
    (t : ℕ) (u : Bool) (s : Saver) → IsTended (u, s) → IsTended (true, mark_forgotten t s)
unfolding mark_forgotten IsMarked
forgot-IsTended t u s v =
    let (e, (l, (d, c))) =
      mark_dirty-IsMarked t (record s { disabled = false; failures = 0 }) (fresh-IsWorking u s v) in
    inl ((e, (l, inr (inr refl))), inr d)

ran_out-IsTended : (u : Bool) (s : Saver) → IsTended (u, s) → IsTended (u, timer_ran_out s)
ran_out-IsTended u s (inl ((e, (l, c)), k)) = inl ((e, (l, inr (inr refl))), k)
ran_out-IsTended u s (inr v) = inr v

note_save_failure-IsTended :
    (t : ℕ) (u : Bool) (s : Saver)
    → s.disabled ≡ false
    → s.dirty ≡ false
    → IsTended (u, note_save_failure t s)
unfolding note_save_failure
note_save_failure-IsTended t u s e d =
    elim (Bool-cases (ltb (s.failures + 1) history_save_attempts)) [
      | inl more ↦
          let again : Saver = record s { failures = s.failures + 1 } in
          rw more (
            marked-IsTended u (mark_dirty t again)
              (mark_dirty-IsMarked t again (e, (ground (arith, more), inl d))))
      | inr over ↦ rw over (inr (refl, (ground (arith, over), d)))
    ]

flushed-IsTended :
    (saved : Bool) (t : ℕ) (u : Bool) (s : Saver)
    → IsTended (u, s)
    → IsTended (if is_due s && saved then false else u, flush_history saved t s)
unfolding flush_history
flushed-IsTended saved t u s (inr (e, (l, d))) =
    let idle : is_due s ≡ false = rw d refl in rw idle (inr (e, (l, d)))
flushed-IsTended saved t u s (inl ((e, (l, c)), k)) = elim (Bool-cases s.dirty) [
  | inr d ↦
      let idle : is_due s ≡ false = rw d refl in
      let clean : u ≡ false = elim k [
        | inl is ↦ is
        | inr bad ↦ absurd (bool_clash s.dirty bad d)
      ] in
      rw idle (inl ((e, (l, inl d)), inl clean))
  | inl d ↦ let due : is_due s ≡ true = rw (d, e) refl in rw due (written saved)
]
  where
    written :
        (saved : Bool)
        → IsTended (
          if saved then false else u,
          if saved
              then record s { requested = false; dirty = false; failures = 0 }
              else note_save_failure t (record s { requested = false; dirty = false }),
        )
    written true = inl ((e, (omega arith, inl refl)), inl refl)
    written false =
        note_save_failure-IsTended t u (record s { requested = false; dirty = false }) e refl

acted-IsTended : (a : Act) (u : Bool) (s : Saver) → IsTended (u, s) → IsTended (acted a (u, s))
acted-IsTended (spoke t) u s = spoke-IsTended t u s
acted-IsTended (forgot t) u s = forgot-IsTended t u s
acted-IsTended ran_out u s = ran_out-IsTended u s
acted-IsTended (flushed saved t) u s = flushed-IsTended saved t u s

act_from-IsTended :
    (acts : List Act) (u : Bool) (s : Saver) → IsTended (u, s) → IsTended (act acts (u, s))
unfolding act
act_from-IsTended [] u s v = v
act_from-IsTended (a ∷ acts) u s v =
    let next = acted a (u, s) in act_from-IsTended acts next.0 next.1 (acted-IsTended a u s v)

-- Whatever the order of turns, forgets, timers that run out and flushes that save or fail: while
-- the memory differs from the record on flash, it is marked dirty with its flush timer armed or the
-- worker asked, after at most two failures; or saving is disabled, after three failures or more.
pub act-IsTended : (acts : List Act) → IsTended (act acts (false, saver_start))
act-IsTended acts = act_from-IsTended acts false saver_start (ground arith)
