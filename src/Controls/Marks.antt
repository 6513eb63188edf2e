-- ===== src/Controls/Marks.antt =====
-- The marks of the panel's volume (main/controls.c).
use esp32_deepgram_voice_age.Common.{
  ℕ, ◌+◌, ◌%◌, ◌≤◌, ◌<◌, ◌≡◌, refl, sym, ◌∙◌, subst, ◌⊎◌, inl, inr, Bool, true, false, arith, ltb,
  ◌==◌, if◌then◌else◌, ==_iff, Bool-cases, u32,
}
use esp32_deepgram_voice_age.Common.Int.{ℤ}
use esp32_deepgram_voice_age.Audio.Levels.{Levels, volume_clamp, set_volume_live}
use esp32_deepgram_voice_age.Controls.{Panel, next_mark, volume_step}

-- A mark of the grid, at most a step away and on the asked side, or the end of the range.
abbrev IsNext : Bool → ℕ → ℕ → Type 0
IsNext true v v' = (v' % 10 ≡ 0) × (v' ≤ 100) × (v' ≤ v + 10) × ((v < v') ⊎ (v' ≡ 100))
IsNext false v v' = (v' % 10 ≡ 0) × (20 ≤ v') × (v ≤ v' + 10) × ((v' < v) ⊎ (v' ≡ 20))

clamp-IsNext : (up : Bool) (v : ℕ) → 20 ≤ v → v ≤ 100 → IsNext up v (volume_clamp (next_mark up v))
unfolding next_mark volume_clamp
clamp-IsNext true v low high = (
  ground (arith, low, high),
  ground (arith, low, high),
  ground (arith, low, high),
  elim (Bool-cases (ltb v 100)) [
    | inl e ↦ inl (ground (arith, low, e))
    | inr e ↦ inr (ground (arith, high, e))
  ],
)
clamp-IsNext false v low high = (
  ground (arith, low, high),
  ground (arith, low, high),
  ground (arith, low, high),
  elim (Bool-cases (ltb 20 v)) [
    | inl e ↦ inl (ground (arith, high, e))
    | inr e ↦ inr (ground (arith, low, e))
  ],
)

live_volume :
    (v : ℤ) (s : Levels)
    → ((set_volume_live true v s).0 ≡ volume_clamp v)
      × ((set_volume_live true v s).1.volume ≡ volume_clamp v)
unfolding set_volume_live
live_volume v s = elim (Bool-cases (volume_clamp v == s.volume)) [
  | inl e ↦ let same = sym ((==_iff (volume_clamp v) s.volume).0 e) in rw e (same, same)
  | inr e ↦ rw e (refl, refl)
]

step_by :
    (up : Bool) (v : ℕ) (q : ℕ × Levels) (p p' : Panel) (same : Bool)
    → (q.0 == v) ≡ same
    → IsNext up v q.1.volume
    → q.0 ≡ q.1.volume
    → let (level, (s', p'')) : ℕ × (Levels × Panel) =
        if same then (q.0, (q.1, p)) else (q.0, (q.1, p')) in
      IsNext up v s'.volume × ((level ≡ s'.volume) × (p'' ≡ (if level == v then p else p')))
step_by up v q p p' true e n l = (n, (l, rw e refl))
step_by up v q p p' false e n l = (n, (l, rw e refl))

-- A step of the volume from anywhere in its range of 20 to 100, the codec willing: the level, which
-- is also the one returned, is a multiple of ten within that side's end of the range, at most ten
-- away, and beyond the old one on the side asked for unless it is that end; the panel notes
-- something unsaved, with the time, if the level is another one, and is as it was if not.
volume_step-IsNext :
    (up : Bool) (time : ℕ) (s : Levels) (p : Panel)
    → 20 ≤ s.volume
    → s.volume ≤ 100
    → let (level, (s', p')) = volume_step true up time (s, p) in
      IsNext up s.volume s'.volume
      × ((level ≡ s'.volume)
          × (p' ≡ (
              if level == s.volume then p else record { unsaved = true; changed_ms = u32 time })))
unfolding volume_step
volume_step-IsNext up time s p low high =
    let q = set_volume_live true (next_mark up s.volume) s in
    let (a, b) = live_volume (next_mark up s.volume) s in
    step_by up s.volume q p (record { unsaved = true; changed_ms = u32 time }) (q.0 == s.volume)
      refl (subst (λ n. IsNext up s.volume n) (sym b) (clamp-IsNext up s.volume low high))
      (a ∙ sym b)
