-- ===== src/Controls/Dial.antt =====
-- The panel's volume and gain, from a touch to the next boot (main/controls.c, main/audio_io.c).
use esp32_deepgram_voice_age.Common.{
  ℕ, ◌^◌, ◌≤◌, ◌<◌, ◌≡◌, refl, sym, ap, ◌∙◌, subst, ◌⊎◌, inl, inr, Bool, true, false, ◌&&◌, ◌||◌,
  List, [], ◌∷◌, arith, ◌==◌, if◌then◌else◌, Bool-cases, u32, sub32, add32, sub32-add32,
}
use esp32_deepgram_voice_age.Common.Int.{ℤ, pos, ◌+ℤ◌, sub_ℕ, leb_ℤ}
use esp32_deepgram_voice_age.Audio.Levels.{
  Saved, Levels, volume_clamp, gain_of, set_mic_gain_live, set_volume_live, persist_volume,
  mic_gain_save, settings_persist, levels_init,
}
use esp32_deepgram_voice_age.Audio.Kept.{IsKept, live-IsKept, gain_live-IsKept}
use esp32_deepgram_voice_age.Audio.Reboot.{init_same, settings_persist-IsKept, levels_init-IsKept}
use esp32_deepgram_voice_age.Controls.{
  Panel, signed, next_mark, volume_step, mic_gain_step, mic_gain_step_db, commit,
}

-- `asked` is the flag that session_ctl_request_settings_save sets.
pub record Desk : Type 0 where
  pub levels : Levels
  pub saved : Saved
  pub panel : Panel
  pub asked : Bool

-- Touches, with the codec's answer, whether up, and the time; frames, with the time and how long
-- the finger has to be away; and the worker's turns.
pub data Act : Type 0 where
  volume : Bool → Bool → ℕ → Act
  gain : Bool → ℕ → Act
  frame : ℕ → ℕ → Act
  worker : Act

-- The worker saves what it is asked to; each save succeeds.
unfoldable pub act : Act → Desk → Desk
act (volume codec_ok up time) w =
    let (level, (s, p)) = volume_step codec_ok up time (w.levels, w.panel) in
    record w { levels = s; panel = p }
act (gain up time) w =
    let (g, (s, p)) = mic_gain_step up time (w.levels, w.panel) in
    record w { levels = s; panel = p }
act (frame now_ms quiet_ms) w =
    let (p, asks) = commit now_ms quiet_ms w.panel in
    record w { panel = p; asked = asks || w.asked }
act worker w =
    let (s, f) = settings_persist true true (w.levels, w.saved) in
    if w.asked then record w { levels = s; saved = f; asked = false } else w

unfoldable pub act_all : List Act → Desk → Desk
act_all [] w = w
act_all (a ∷ acts) w = act_all acts (act a w)

module _ (default default_db : ℕ) where
  -- The start of the device.
  unfoldable pub boot : Saved → Desk
  boot f = record {
    levels = levels_init default default_db f;
    saved = f;
    panel = record { unsaved = false; changed_ms = 0 };
    asked = false;
  }

  -- What is not saved yet is going to be.
  record IsTracked (w : Desk) : Type 0 where
    kept : IsKept default default_db w.levels w.saved
    stamp : w.panel.changed_ms < 2 ^ 32
    volume_tracked : (w.levels.volume_dirty ≡ false) ⊎ ((w.panel.unsaved ≡ true) ⊎ (w.asked ≡ true))
    gain_tracked : (w.levels.gain_dirty ≡ false) ⊎ ((w.panel.unsaved ≡ true) ⊎ (w.asked ≡ true))

  -- A step that gave `q`, and whether it changed nothing.
  touched :
      (w : Desk) (time : ℕ) (q : ℕ × Levels) (same : Bool)
      → IsTracked w
      → IsKept default default_db q.1 w.saved
      → (same ≡ true → q.1 ≡ w.levels)
      → let (_, (s, p)) : ℕ × (Levels × Panel) =
          if same
          then (q.0, (q.1, w.panel))
          else (q.0, (q.1, record { unsaved = true; changed_ms = u32 time })) in
        IsTracked (record w { levels = s; panel = p })
  touched w time q true t k h =
      subst (λ s. IsTracked (record w { levels = s; panel = w.panel })) (sym (h refl)) t
  touched w time q false t k h = record {
    kept = k;
    stamp = omega arith;
    volume_tracked = inr (inl refl);
    gain_tracked = inr (inl refl);
  }

  live_same :
      (codec_ok : Bool) (v : ℤ) (s : Levels)
      → let (level, s') = set_volume_live codec_ok v s in level == s.volume ≡ true → s' ≡ s
  unfolding set_volume_live
  live_same true v s = elim (Bool-cases (volume_clamp v == s.volume)) [
    | inl e ↦ rw e (λ h. refl)
    | inr e ↦ rw e (λ h. cc (e, h))
  ]
  live_same false v s = elim (Bool-cases (volume_clamp v == s.volume)) [
    | inl e ↦ rw e (λ h. refl)
    | inr e ↦ rw e (λ h. refl)
  ]

  gain_same :
      (v : ℤ) (s : Levels) → let (g, s') = set_mic_gain_live v s in g == s.gain_want ≡ true → s' ≡ s
  unfolding set_mic_gain_live
  gain_same v s = elim (Bool-cases (gain_of v == s.gain_want)) [
    | inl e ↦ rw e (λ h. refl)
    | inr e ↦ rw e (λ h. cc (e, h))
  ]

  asked_by :
      (w : Desk) (fires : Bool)
      → IsTracked w
      → let (p, asks) : Panel × Bool =
          if fires then (record w.panel { unsaved = false }, true) else (w.panel, false) in
        IsTracked (record w { panel = p; asked = asks || w.asked })
  asked_by w true t = record {
    kept = t.kept;
    stamp = t.stamp;
    volume_tracked = inr (inr refl);
    gain_tracked = inr (inr refl);
  }
  asked_by w false t = t

  worked_by :
      (w : Desk) (asked : Bool)
      → 6 ≤ default_db
      → default_db ≤ 30
      → IsTracked w
      → let (s, f) = settings_persist true true (w.levels, w.saved) in
        IsTracked (if asked then record w { levels = s; saved = f; asked = false } else w)
  worked_by w true low high t =
      let (k, (d, e)) =
        settings_persist-IsKept default default_db w.levels w.saved low high t.kept in
      record { kept = k; stamp = t.stamp; volume_tracked = inl d; gain_tracked = inl e }
  worked_by w false low high t = t

  act-IsTracked :
      (a : Act) (w : Desk) → 6 ≤ default_db → default_db ≤ 30 → IsTracked w → IsTracked (act a w)
  unfolding act volume_step mic_gain_step commit
  act-IsTracked (volume codec_ok up time) w low high t =
      let v = next_mark up w.levels.volume in
      let q = set_volume_live codec_ok v w.levels in
      touched w time q (q.0 == w.levels.volume) t
        (live-IsKept default default_db codec_ok v w.levels w.saved t.kept)
        (live_same codec_ok v w.levels)
  act-IsTracked (gain up time) w low high t =
      let step : ℤ = if up then pos mic_gain_step_db else sub_ℕ 0 mic_gain_step_db in
      let v = pos w.levels.gain_want +ℤ step in
      let q = set_mic_gain_live v w.levels in
      touched w time q (q.0 == w.levels.gain_want) t
        (gain_live-IsKept default default_db v w.levels w.saved t.kept) (gain_same v w.levels)
  act-IsTracked (frame now_ms quiet_ms) w low high t =
      asked_by w
        (w.panel.unsaved && leb_ℤ (signed quiet_ms) (signed (sub32 now_ms w.panel.changed_ms))) t
  act-IsTracked worker w low high t = worked_by w w.asked low high t

  act_all-IsTracked :
      (acts : List Act) (w : Desk)
      → 6 ≤ default_db
      → default_db ≤ 30
      → IsTracked w
      → IsTracked (act_all acts w)
  unfolding act_all
  act_all-IsTracked [] w low high t = t
  act_all-IsTracked (a ∷ acts) w low high t =
      act_all-IsTracked acts (act a w) low high (act-IsTracked a w low high t)

  boot-IsTracked : (f : Saved) → IsTracked (boot f)
  unfolding boot levels_init
  boot-IsTracked f = record {
    kept = levels_init-IsKept default default_db f;
    stamp = omega arith;
    volume_tracked = inl refl;
    gain_tracked = inl refl;
  }

  fired : (p : Panel) (fires : Bool) → Panel × Bool
  fired p fires = if fires then (record p { unsaved = false }, true) else (p, false)

  fired_unsaved :
      (p : Panel) (fires u : Bool)
      → fires ≡ true
      → p.unsaved ≡ u
      → (fired p (u && fires)).0.unsaved ≡ false
  unfolding fired
  fired_unsaved p true true h e = refl
  fired_unsaved p true false h e = e
  fired_unsaved p false u h e = cc h

  -- Long enough after the last change, a frame leaves nothing unsaved that is not asked for.
  quiet_asks :
      (w : Desk) (elapsed quiet_ms : ℕ)
      → w.panel.changed_ms < 2 ^ 32
      → quiet_ms ≤ elapsed
      → elapsed < 2 ^ 31
      → (act (frame (add32 w.panel.changed_ms elapsed) quiet_ms) w).panel.unsaved ≡ false
  unfolding act commit fired
  quiet_asks w elapsed quiet_ms c low high =
      let since = sub32-add32 w.panel.changed_ms elapsed c (omega (arith, high)) in
      let fires : leb_ℤ (signed quiet_ms) (signed elapsed) ≡ true = ground (arith, low, high) in
      fired_unsaved w.panel
        (leb_ℤ (signed quiet_ms)
          (signed (sub32 (add32 w.panel.changed_ms elapsed) w.panel.changed_ms)))
        w.panel.unsaved (ap (λ d. leb_ℤ (signed quiet_ms) (signed d)) since ∙ fires) refl

  levels_kept :
      (s : Levels) (f : Saved)
      → let s' = (settings_persist true true (s, f)).0 in
        (s'.volume ≡ s.volume) × (s'.gain_want ≡ s.gain_want)
  unfolding settings_persist persist_volume mic_gain_save
  levels_kept s f = ground arith

  worker_levels :
      (w : Desk) (asked : Bool)
      → 6 ≤ default_db
      → default_db ≤ 30
      → IsTracked w
      → w.panel.unsaved ≡ false
      → w.asked ≡ asked
      → let (s, f) = settings_persist true true (w.levels, w.saved) in
        let w' = if asked then record w { levels = s; saved = f; asked = false } else w in
        (levels_init default default_db w'.saved ≡ w'.levels)
        × ((w'.levels.volume ≡ w.levels.volume) × (w'.levels.gain_want ≡ w.levels.gain_want))
  worker_levels w true low high t u a =
      let (k, (d, e)) =
        settings_persist-IsKept default default_db w.levels w.saved low high t.kept in
      let (s, f) = settings_persist true true (w.levels, w.saved) in
      (init_same default default_db s f k d e, levels_kept w.levels w.saved)
  worker_levels w false low high t u a =
      let clean : (d : Bool)
          → (d ≡ false) ⊎ ((w.panel.unsaved ≡ true) ⊎ (w.asked ≡ true))
          → d ≡ false =
        λ d c. elim c [ inl h ↦ h | inr h ↦ elim h [ inl x ↦ cc (x, u) | inr x ↦ cc (x, a) ] ] in
      (
        init_same default default_db w.levels w.saved t.kept
            (clean w.levels.volume_dirty t.volume_tracked)
            (clean w.levels.gain_dirty t.gain_tracked),
        (refl, refl),
      )

  -- From any boot, whatever was saved before, through any steps of the volume and of the gain on
  -- the panel, accepted by the codec or not, any frames with any waits, and any turns of the
  -- worker: a frame that comes, within 2^31 ms, at least its wait after the last change, and then a
  -- turn of the worker, leave the volume and the gain as they are, and the next boot starts with
  -- them; every save succeeding, and the built-in gain being from 6 to 30 dB.
  pub commit-levels_init :
      (f : Saved) (acts : List Act) (elapsed quiet_ms : ℕ)
      → 6 ≤ default_db
      → default_db ≤ 30
      → quiet_ms ≤ elapsed
      → elapsed < 2 ^ 31
      → let w = act_all acts (boot f) in
        let w' = act worker (act (frame (add32 w.panel.changed_ms elapsed) quiet_ms) w) in
        (levels_init default default_db w'.saved ≡ w'.levels)
        × ((w'.levels.volume ≡ w.levels.volume) × (w'.levels.gain_want ≡ w.levels.gain_want))
  commit-levels_init f acts elapsed quiet_ms low high wait soon =
      let w = act_all acts (boot f) in
      let t = act_all-IsTracked acts (boot f) low high (boot-IsTracked f) in
      let a = frame (add32 w.panel.changed_ms elapsed) quiet_ms in
      let t' = act-IsTracked a w low high t in
      let u = quiet_asks w elapsed quiet_ms t.stamp wait soon in
      unfold act in worker_levels (act a w) (act a w).asked low high t' u refl
