-- ===== src/Audio/Kept.antt =====
-- The volume and the gain, and what is saved of them (main/audio_io.c).
use esp32_deepgram_voice_age.Common.{
  ℕ, ◌≤◌, ◌≡◌, refl, sym, ap, ◌∙◌, subst, ◌⊎◌, inl, inr, Bool, true, false, ◌&&◌, arith, leb, ◌==◌,
  ==_iff, Bool-cases, u8,
}
use esp32_deepgram_voice_age.Common.Int.{ℤ, pos}
use esp32_deepgram_voice_age.Audio.Levels.{
  Saved, Levels, volume_clamp, volume_load, volume_save, mic_gain_load, mic_gain_save, gain_of,
  set_mic_gain_live, set_mic_gain, set_volume_live, set_volume,
}

module _ (default default_db : ℕ) where
  -- A level is saved, or marked to be.
  pub record IsKept (s : Levels) (f : Saved) : Type 0 where
    pub low : 20 ≤ s.volume
    pub high : s.volume ≤ 100
    pub volume_kept : (s.volume_dirty ≡ true) ⊎ (volume_load default f ≡ s.volume)
    pub gain_known : (s.gain_want ≡ default_db) ⊎ ((6 ≤ s.gain_want) × (s.gain_want ≤ 30))
    pub gain_kept : (s.gain_dirty ≡ true) ⊎ (mic_gain_load default_db f ≡ s.gain_want)

  pub clamp_range : (v : ℤ) → (20 ≤ volume_clamp v) × (volume_clamp v ≤ 100)
  unfolding volume_clamp
  clamp_range v = ground arith

  clamp_within : (n : ℕ) → 20 ≤ n → n ≤ 100 → volume_clamp (pos n) ≡ n
  unfolding volume_clamp
  clamp_within n h l = ground (arith, h, l)

  gain_range : (v : ℤ) → (6 ≤ gain_of v) × (gain_of v ≤ 30)
  unfolding gain_of
  gain_range v = ground arith

  load-save :
      (n : ℕ) (f : Saved) → 20 ≤ n → n ≤ 100 → volume_load default (volume_save true n f) ≡ n
  unfolding volume_load volume_save
  load-save n f h l = ap (λ k. volume_clamp (pos k)) (omega arith) ∙ clamp_within n h l

  load-gain_save :
      (g : ℕ) (s : Levels) (f : Saved)
      → (g ≡ default_db) ⊎ ((6 ≤ g) × (g ≤ 30))
      → 6 ≤ default_db
      → default_db ≤ 30
      → mic_gain_load default_db (mic_gain_save true g (s, f)).1 ≡ g
  unfolding mic_gain_load mic_gain_save
  load-gain_save g s f h low high =
      let l : (6 ≤ g) × (g ≤ 30) = elim h [
        | inl e ↦ (omega (arith, e, low), omega (arith, e, high))
        | inr r ↦ r
      ] in
      let (l6, l30) = l in
      let same : u8 g ≡ g = omega (arith, l30) in
      let good : leb 6 g && leb g 30 ≡ true = ground (arith, l6, l30) in rw (same, good) refl

  -- The volume changes, unsaved or saved.
  moved-IsKept :
      (n : ℕ) (s : Levels) (f : Saved)
      → 20 ≤ n
      → n ≤ 100
      → IsKept s f
      → IsKept (record s { volume = n; volume_dirty = true }) f
  moved-IsKept n s f h l k = record {
    low = h;
    high = l;
    volume_kept = inl refl;
    gain_known = k.gain_known;
    gain_kept = k.gain_kept;
  }

  pub saved-IsKept :
      (n : ℕ) (s : Levels) (f : Saved)
      → 20 ≤ n
      → n ≤ 100
      → IsKept s f
      → IsKept (record s { volume = n; volume_dirty = false }) (volume_save true n f)
  unfolding volume_save mic_gain_load
  saved-IsKept n s f h l k = record {
    low = h;
    high = l;
    volume_kept = inr (load-save n f h l);
    gain_known = k.gain_known;
    gain_kept = k.gain_kept;
  }

  pub live-IsKept :
      (c : Bool) (v : ℤ) (s : Levels) (f : Saved) → IsKept s f → IsKept (set_volume_live c v s).1 f
  unfolding set_volume_live
  live-IsKept true v s f k =
      let (h, l) = clamp_range v in
      elim (Bool-cases (volume_clamp v == s.volume)) [
        | inl e ↦ rw e k
        | inr e ↦ rw e (moved-IsKept (volume_clamp v) s f h l k)
      ]
  live-IsKept false v s f k = elim (Bool-cases (volume_clamp v == s.volume)) [
    | inl e ↦ rw e k
    | inr e ↦ rw e k
  ]

  pub set-IsKept :
      (c : Bool) (v : ℤ) (s : Levels) (f : Saved)
      → IsKept s f
      → let (s', f') = (set_volume c true v (s, f)).1 in IsKept s' f'
  unfolding set_volume set_volume_live
  set-IsKept true v s f k =
      let (h, l) = clamp_range v in
      elim (Bool-cases (volume_clamp v == s.volume)) [
        | inl e ↦ let same : s.volume == s.volume ≡ true = ground arith in rw (e, same) k
        | inr e ↦ rw e (rw e (saved-IsKept (volume_clamp v) s f h l k))
      ]
  set-IsKept false v s f k =
      let same : s.volume == s.volume ≡ true = ground arith in
      elim (Bool-cases (volume_clamp v == s.volume)) [
        | inl e ↦ rw (e, same) k
        | inr e ↦ rw (e, same) k
      ]

  pub gain_live-IsKept :
      (v : ℤ) (s : Levels) (f : Saved) → IsKept s f → IsKept (set_mic_gain_live v s).1 f
  unfolding set_mic_gain_live
  gain_live-IsKept v s f k = elim (Bool-cases (gain_of v == s.gain_want)) [
    | inl e ↦ rw e k
    | inr e ↦ rw e (record {
      low = k.low;
      high = k.high;
      volume_kept = k.volume_kept;
      gain_known = inr (gain_range v);
      gain_kept = inl refl;
    })
  ]

  wanted : (v : ℤ) (s : Levels) → (set_mic_gain_live v s).0 ≡ (set_mic_gain_live v s).1.gain_want
  unfolding set_mic_gain_live
  wanted v s = elim (Bool-cases (gain_of v == s.gain_want)) [
    | inl e ↦ rw e ((==_iff (gain_of v) s.gain_want).0 e)
    | inr e ↦ rw e refl
  ]

  pub gain_saved-IsKept :
      (s : Levels) (f : Saved)
      → 6 ≤ default_db
      → default_db ≤ 30
      → IsKept s f
      → let (s', f') = mic_gain_save true s.gain_want (s, f) in IsKept s' f'
  unfolding mic_gain_save volume_load
  gain_saved-IsKept s f low high k = record {
    low = k.low;
    high = k.high;
    volume_kept = k.volume_kept;
    gain_known = k.gain_known;
    gain_kept = inr (load-gain_save s.gain_want s f k.gain_known low high);
  }

  pub gain_set-IsKept :
      (v : ℤ) (s : Levels) (f : Saved)
      → 6 ≤ default_db
      → default_db ≤ 30
      → IsKept s f
      → let (s', f') = (set_mic_gain true v (s, f)).1 in IsKept s' f'
  unfolding set_mic_gain
  gain_set-IsKept v s f low high k =
      let (g, s') = set_mic_gain_live v s in
      subst (λ n. let (s'', f'') = mic_gain_save true n (s', f) in IsKept s'' f'')
        (sym (wanted v s)) (gain_saved-IsKept s' f low high (gain_live-IsKept v s f k))
