-- ===== src/Audio/Reboot.antt =====
-- The levels across a boot (main/audio_io.c).
use esp32_deepgram_voice_age.Common.{
  ℕ, ◌≤◌, ◌≡◌, refl, sym, ◌⊎◌, inl, inr, Bool, true, false, none, some, List, [], ◌∷◌, arith,
  if◌then◌else◌,
}
use esp32_deepgram_voice_age.Common.Int.{ℤ, pos, ◌+ℤ◌}
use esp32_deepgram_voice_age.Audio.Levels.{
  Saved, Levels, volume_clamp, volume_load, volume_save, mic_gain_load, mic_gain_save,
  set_mic_gain_live, set_mic_gain, set_volume_live, set_volume, adjust_volume, persist_volume,
  settings_persist, levels_init,
}
use esp32_deepgram_voice_age.Audio.Kept.{
  IsKept, clamp_range, saved-IsKept, gain_saved-IsKept, live-IsKept, set-IsKept, gain_live-IsKept,
  gain_set-IsKept,
}

-- The calls of the screen, the tools and the worker, with the codec's answer; every save succeeds.
pub data Op : Type 0 where
  volume_live volume_set volume_adjust : Bool → ℤ → Op
  gain_live gain_set : ℤ → Op
  persist : Op

unfoldable pub apply : Op → Levels × Saved → Levels × Saved
apply (volume_live codec_ok v) (s, f) = ((set_volume_live codec_ok v s).1, f)
apply (volume_set codec_ok v) w = (set_volume codec_ok true v w).1
apply (volume_adjust codec_ok v) w = (adjust_volume codec_ok true v w).1
apply (gain_live g) (s, f) = ((set_mic_gain_live g s).1, f)
apply (gain_set g) w = (set_mic_gain true g w).1
apply persist w = settings_persist true true w

unfoldable pub apply_all : List Op → Levels × Saved → Levels × Saved
apply_all [] w = w
apply_all (o ∷ os) w = apply_all os (apply o w)

module _ (default default_db : ℕ) where
  persist_volume-IsKept :
      (s : Levels) (f : Saved)
      → IsKept default default_db s f
      → let (s', f') = persist_volume true (s, f) in
        IsKept default default_db s' f'
        × ((s'.volume_dirty ≡ false) × (s'.gain_dirty ≡ s.gain_dirty))
  unfolding persist_volume
  persist_volume-IsKept s f k = by_flag s.volume_dirty refl
    where
      by_flag :
          (v : Bool)
          → s.volume_dirty ≡ v
          → let (s', f') : Levels × Saved =
              if v
              then (record s { volume_dirty = false }, volume_save true s.volume f)
              else (s, f) in
            IsKept default default_db s' f'
            × ((s'.volume_dirty ≡ false) × (s'.gain_dirty ≡ s.gain_dirty))
      by_flag true e = (saved-IsKept default default_db s.volume s f k.low k.high k, (refl, refl))
      by_flag false e = (k, (e, refl))

  persist_gain-IsKept :
      (v : Bool) (s : Levels) (f : Saved)
      → 6 ≤ default_db
      → default_db ≤ 30
      → IsKept default default_db s f
      → s.volume_dirty ≡ false
      → s.gain_dirty ≡ v
      → let (s', f') : Levels × Saved =
          if v then mic_gain_save true s.gain_want (s, f) else (s, f) in
        IsKept default default_db s' f' × ((s'.volume_dirty ≡ false) × (s'.gain_dirty ≡ false))
  unfolding mic_gain_save
  persist_gain-IsKept true s f low high k d e =
      (gain_saved-IsKept default default_db s f low high k, (d, refl))
  persist_gain-IsKept false s f low high k d e = (k, (d, e))

  pub settings_persist-IsKept :
      (s : Levels) (f : Saved)
      → 6 ≤ default_db
      → default_db ≤ 30
      → IsKept default default_db s f
      → let (s', f') = settings_persist true true (s, f) in
        IsKept default default_db s' f' × ((s'.volume_dirty ≡ false) × (s'.gain_dirty ≡ false))
  unfolding settings_persist
  settings_persist-IsKept s f low high k =
      let (k', (d, e)) = persist_volume-IsKept s f k in
      let w = persist_volume true (s, f) in persist_gain-IsKept s.gain_dirty w.0 w.1 low high k' d e

  apply-IsKept :
      (o : Op) (s : Levels) (f : Saved)
      → 6 ≤ default_db
      → default_db ≤ 30
      → IsKept default default_db s f
      → let (s', f') = apply o (s, f) in IsKept default default_db s' f'
  unfolding apply adjust_volume
  apply-IsKept (volume_live c v) s f low high k = live-IsKept default default_db c v s f k
  apply-IsKept (volume_set c v) s f low high k = set-IsKept default default_db c v s f k
  apply-IsKept (volume_adjust c v) s f low high k =
      set-IsKept default default_db c (pos s.volume +ℤ v) s f k
  apply-IsKept (gain_live v) s f low high k = gain_live-IsKept default default_db v s f k
  apply-IsKept (gain_set v) s f low high k = gain_set-IsKept default default_db v s f low high k
  apply-IsKept persist s f low high k = (settings_persist-IsKept s f low high k).0

  apply_all-IsKept :
      (os : List Op) (s : Levels) (f : Saved)
      → 6 ≤ default_db
      → default_db ≤ 30
      → IsKept default default_db s f
      → let (s', f') = apply_all os (s, f) in IsKept default default_db s' f'
  unfolding apply_all
  apply_all-IsKept [] s f low high k = k
  apply_all-IsKept (o ∷ os) s f low high k =
      let w = apply o (s, f) in apply_all-IsKept os w.0 w.1 low high (apply-IsKept o s f low high k)

  load_range : (f : Saved) → (20 ≤ volume_load default f) × (volume_load default f ≤ 100)
  unfolding volume_load
  load_range f =
      elim f.out_volume
        as (λ o.
          (20 ≤ (elim o [ none ↦ volume_clamp (pos default) | some v ↦ volume_clamp (pos v) ]))
          × ((elim o [ none ↦ volume_clamp (pos default) | some v ↦ volume_clamp (pos v) ])
              ≤ 100)) [
                | none ↦ clamp_range default default_db (pos default)
                | some v ↦ clamp_range default default_db (pos v)
              ]

  gain_loaded :
      (f : Saved)
      → (mic_gain_load default_db f ≡ default_db)
        ⊎ ((6 ≤ mic_gain_load default_db f) × (mic_gain_load default_db f ≤ 30))
  unfolding mic_gain_load
  gain_loaded f = ground arith

  pub init_same :
      (s : Levels) (f : Saved)
      → IsKept default default_db s f
      → s.volume_dirty ≡ false
      → s.gain_dirty ≡ false
      → levels_init default default_db f ≡ s
  unfolding levels_init
  init_same s f k d e =
      let v : volume_load default f ≡ s.volume = elim k.volume_kept [
        | inl t ↦ absurd_by s.volume_dirty t d
        | inr r ↦ r
      ] in
      let g : mic_gain_load default_db f ≡ s.gain_want = elim k.gain_kept [
        | inl t ↦ absurd_by s.gain_dirty t e
        | inr r ↦ r
      ] in
      λ i. record { volume = v i; volume_dirty = sym d i; gain_want = g i; gain_dirty = sym e i }
    where
      absurd_by : {x y : ℕ} (b : Bool) → b ≡ true → b ≡ false → x ≡ y
      absurd_by b t f = cc (t, f)

  pub levels_init-IsKept :
      (f : Saved) → IsKept default default_db (levels_init default default_db f) f
  unfolding levels_init
  levels_init-IsKept f =
      let (h, l) = load_range f in
      record {
        low = h;
        high = l;
        volume_kept = inr refl;
        gain_known = gain_loaded f;
        gain_kept = inr refl;
      }

  -- From any boot, whatever was saved before, through any volumes and gains that are asked for,
  -- live or not, in range or not, accepted by the codec or not, and any saves between: once the
  -- settings are persisted, the next boot starts with the volume and the gain that are in force;
  -- every save succeeding, and the built-in gain being from 6 to 30 dB.
  levels_init-settings_persist :
      (f : Saved) (os : List Op)
      → 6 ≤ default_db
      → default_db ≤ 30
      → let (s', f') =
          settings_persist true true (apply_all os (levels_init default default_db f, f)) in
        levels_init default default_db f' ≡ s'
  levels_init-settings_persist f os low high =
      let w = apply_all os (levels_init default default_db f, f) in
      let k =
        apply_all-IsKept os (levels_init default default_db f) f low high (levels_init-IsKept f) in
      let (k', (d, e)) = settings_persist-IsKept w.0 w.1 low high k in
      let (s', f') = settings_persist true true w in init_same s' f' k' d e
