-- ===== src/Clock/Zone/Reboot.antt =====
-- The zone and the format across a boot (main/clock.c).
use esp32_deepgram_voice_age.Common.{
  ℕ, ◌<◌, ◌≡◌, refl, sym, ap, subst, ◌⊎◌, inl, inr, Bool, true, false, not, ◌&&◌, Option, none,
  some, List, [], ◌∷◌, arith, ltb, leb, ◌==◌, if◌then◌else◌, length, u8,
}
use esp32_deepgram_voice_age.Common.Int.{ℤ, pos, eqb_ℤ}
use esp32_deepgram_voice_age.Common.Bytes.{snprintf}
use esp32_deepgram_voice_age.Common.Cuts.{length-take}
use esp32_deepgram_voice_age.Clock.Zone.{
  Entry, Zone, Kept, Reply, tz_name_max, fmt_12, fmt_24, tz_default_12h, settled, tz_apply, tz_load,
  fmt_load, clock_start, tick_zone, tick_fmt, clock_tick, clock_12h, clock_set_12h, set_clock,
  is_none, named_zone, good_zone, good_hours, with_zone, with_hours,
}

-- The agent's tool, the panel's toggle, and a pass of the main loop.
pub data Ask : Type 0 where
  ask_clock : Option (List ℕ) → Option ℤ → Ask
  ask_12h : Bool → Ask
  loop_pass : Ask

-- Every save succeeds.
unfoldable pub run : List Entry → List Ask → Zone × Kept → Zone × Kept
unfolding set_clock clock_set_12h clock_tick
run zones [] w = w
run zones (ask_clock asked hours ∷ asks) (z, f) =
    run zones asks ((set_clock zones asked hours z).1, f)
run zones (ask_12h h12 ∷ asks) (z, f) = run zones asks (clock_set_12h h12 z, f)
run zones (loop_pass ∷ asks) w = run zones asks (clock_tick true true zones w)

module _ (zones : List Entry) (default : List ℕ) where
  -- The zone in force is the saved one, and what is pending can be saved.
  record IsHeld (z : Zone) (f : Kept) : Type 0 where
    name_held : z.tz_name ≡ (clock_start zones default f).tz_name
    rule_held : z.rule ≡ (clock_start zones default f).rule
    h12_held : z.zone_h12 ≡ (clock_start zones default f).zone_h12
    mode_held : z.fmt_mode ≡ (clock_start zones default f).fmt_mode
    pending_fits : (z.tz_dirty ≡ false) ⊎ (length z.tz_pending < tz_name_max)
    fmt_fits :
        (z.fmt_pending ≡ none) ⊎ ((z.fmt_pending ≡ some fmt_12) ⊎ (z.fmt_pending ≡ some fmt_24))

  start-IsHeld : (f : Kept) → IsHeld (clock_start zones default f) f
  unfolding clock_start
  start-IsHeld f = record {
    name_held = refl;
    rule_held = refl;
    h12_held = refl;
    mode_held = refl;
    pending_fits = inl refl;
    fmt_fits = inl refl;
  }

  -- Another format is asked for.
  pending-IsHeld :
      (z : Zone) (f : Kept) (h12 : Bool)
      → IsHeld z f
      → IsHeld (record z { fmt_pending = some (if h12 then fmt_12 else fmt_24) }) f
  pending-IsHeld z f h12 k = record {
    name_held = k.name_held;
    rule_held = k.rule_held;
    h12_held = k.h12_held;
    mode_held = k.mode_held;
    pending_fits = k.pending_fits;
    fmt_fits = inr (either h12);
  }
    where
      either :
          (b : Bool)
          → (some (if b then fmt_12 else fmt_24) ≡ some fmt_12)
            ⊎ (some (if b then fmt_12 else fmt_24) ≡ some fmt_24)
      either true = inl refl
      either false = inr refl

  cut_name : (name : List ℕ) → length (snprintf tz_name_max name) < tz_name_max
  cut_name name = omega (arith, length-take 47 name)

  zone-IsHeld :
      (asked : Option (List ℕ)) (z : Zone) (f : Kept) → IsHeld z f → IsHeld (with_zone asked z) f
  zone-IsHeld none z f k = k
  zone-IsHeld (some name) z f k = record {
    name_held = k.name_held;
    rule_held = k.rule_held;
    h12_held = k.h12_held;
    mode_held = k.mode_held;
    pending_fits = inr (cut_name name);
    fmt_fits = k.fmt_fits;
  }

  hours-IsHeld :
      (hours : Option ℤ) (z : Zone) (f : Kept) → IsHeld z f → IsHeld (with_hours hours z) f
  hours-IsHeld none z f k = k
  hours-IsHeld (some h) z f k = pending-IsHeld z f (eqb_ℤ h (pos 12)) k

  asked_by :
      (nothing unknown bad : Bool) (z z' : Zone) (f : Kept)
      → IsHeld z f
      → IsHeld z' f
      → let r : Reply × Zone =
          if nothing
          then (Reply.pass_one, z)
          else if unknown
          then (Reply.unknown_zone, z)
          else if bad
          then (Reply.bad_hours, z)
          else (Reply.done, z') in
        IsHeld r.1 f
  asked_by true unknown bad z z' f k k' = k
  asked_by false true bad z z' f k k' = k
  asked_by false false true z z' f k k' = k
  asked_by false false false z z' f k k' = k'

  ask-IsHeld :
      (asked : Option (List ℕ)) (hours : Option ℤ) (z : Zone) (f : Kept)
      → IsHeld z f
      → IsHeld (set_clock zones asked hours z).1 f
  unfolding set_clock
  ask-IsHeld asked hours z f k =
      let new = named_zone asked in
      asked_by (is_none new && is_none hours) (not (good_zone zones new)) (not (good_hours hours)) z
        (with_hours hours (with_zone new z)) f k
        (hours-IsHeld hours (with_zone new z) f (zone-IsHeld new z f k))

  load-save :
      (f : Kept) (name : List ℕ)
      → snprintf tz_name_max name
        ≡ tz_load default (record f { tz = some (snprintf tz_name_max name) })
  unfolding tz_load
  load-save f name =
      let fits : ltb (length (snprintf tz_name_max name)) tz_name_max ≡ true =
        ground (arith, cut_name name) in
      rw fits refl

  zone_by :
      (z : Zone) (f : Kept) (dirty : Bool)
      → z.tz_dirty ≡ dirty
      → IsHeld z f
      → let name = snprintf tz_name_max z.tz_pending in
        let (z', f') : Zone × Kept =
          if dirty
          then (tz_apply zones name (record z { tz_dirty = false }), record f { tz = some name })
          else (z, f) in
        IsHeld z' f' × (z'.tz_dirty ≡ false)
  unfolding tz_apply clock_start fmt_load
  zone_by z f true e k =
      let saved = load-save f z.tz_pending in
      (
        record {
          name_held = ap (λ n. snprintf tz_name_max (settled zones n).0) saved;
          rule_held = ap (λ n. (settled zones n).1) saved;
          h12_held = ap (λ n. tz_default_12h zones (settled zones n).0) saved;
          mode_held = k.mode_held;
          pending_fits = inl refl;
          fmt_fits = k.fmt_fits;
        },
        refl,
      )
  zone_by z f false e k = (k, e)

  tick_zone-IsHeld :
      (z : Zone) (f : Kept)
      → IsHeld z f
      → let (z', f') = tick_zone true zones (z, f) in IsHeld z' f' × (z'.tz_dirty ≡ false)
  unfolding tick_zone
  tick_zone-IsHeld z f k = zone_by z f z.tz_dirty refl k

  mode_saved :
      (f : Kept) (p : Option ℕ) (mode : ℕ)
      → p ≡ some mode
      → (p ≡ none) ⊎ ((p ≡ some fmt_12) ⊎ (p ≡ some fmt_24))
      → u8 mode ≡ fmt_load (record f { clk12 = some (u8 mode) })
  unfolding fmt_load
  mode_saved f p mode e (inl n) = cc (e, n)
  mode_saved f p mode e (inr (inl h)) =
      let same : fmt_12 ≡ mode = cc (e, h) in
      subst (λ m. u8 m ≡ (if leb (u8 m) fmt_24 then u8 m else 0)) same refl
  mode_saved f p mode e (inr (inr h)) =
      let same : fmt_24 ≡ mode = cc (e, h) in
      subst (λ m. u8 m ≡ (if leb (u8 m) fmt_24 then u8 m else 0)) same refl

  fmt_by :
      (z : Zone) (f : Kept) (p : Option ℕ)
      → z.fmt_pending ≡ p
      → IsHeld z f
      → z.tz_dirty ≡ false
      → let (z', f') : Zone × Kept = elim p [
        | none ↦ (z, f)
        | some mode ↦ (
          record z { fmt_mode = u8 mode; fmt_pending = none },
          record f { clk12 = some (u8 mode) },
        )
      ] in
        IsHeld z' f' × ((z'.tz_dirty ≡ false) × (z'.fmt_pending ≡ none))
  unfolding clock_start tz_apply tz_load
  fmt_by z f none e k d = (k, (d, e))
  fmt_by z f (some mode) e k d = (
    record {
      name_held = k.name_held;
      rule_held = k.rule_held;
      h12_held = k.h12_held;
      mode_held = mode_saved f z.fmt_pending mode e k.fmt_fits;
      pending_fits = k.pending_fits;
      fmt_fits = inl refl;
    },
    (d, refl),
  )

  clock_tick-IsHeld :
      (z : Zone) (f : Kept)
      → IsHeld z f
      → let (z', f') = clock_tick true true zones (z, f) in
        IsHeld z' f' × ((z'.tz_dirty ≡ false) × (z'.fmt_pending ≡ none))
  unfolding clock_tick tick_fmt
  clock_tick-IsHeld z f k =
      let (k', d) = tick_zone-IsHeld z f k in
      let (z', f') = tick_zone true zones (z, f) in fmt_by z' f' z'.fmt_pending refl k' d

  run-IsHeld :
      (asks : List Ask) (z : Zone) (f : Kept)
      → IsHeld z f
      → let (z', f') = run zones asks (z, f) in IsHeld z' f'
  unfolding run clock_set_12h
  run-IsHeld [] z f k = k
  run-IsHeld (ask_clock asked hours ∷ asks) z f k =
      run-IsHeld asks (set_clock zones asked hours z).1 f (ask-IsHeld asked hours z f k)
  run-IsHeld (ask_12h h12 ∷ asks) z f k =
      run-IsHeld asks (clock_set_12h h12 z) f (pending-IsHeld z f h12 k)
  run-IsHeld (loop_pass ∷ asks) z f k =
      let (z', f') = clock_tick true true zones (z, f) in
      run-IsHeld asks z' f' (clock_tick-IsHeld z f k).0

  -- The answer of `clock_12h` by what it shown.
  shown : Option ℕ → ℕ → Bool → Bool
  shown p mode h12 =
      let m : ℕ = elim p [ none ↦ mode | some n ↦ n ] in
      if m == fmt_12 then true else if m == fmt_24 then false else h12

  -- From any boot, whatever was saved before, through any calls of the agent's tool, with any
  -- arguments, any presses of the panel's toggle and any passes of the main loop: once a pass of
  -- the loop has run, the next boot has the zone's name and its rule that are in force, and shows
  -- the time in the same format; every save succeeding.
  pub clock_start-clock_tick :
      (f : Kept) (asks : List Ask)
      → let (z, f') =
          clock_tick true true zones (run zones asks (clock_start zones default f, f)) in
        let z' = clock_start zones default f' in
        (z'.tz_name ≡ z.tz_name) × ((z'.rule ≡ z.rule) × (clock_12h z' ≡ clock_12h z))
  unfolding clock_12h shown clock_start
  clock_start-clock_tick f asks =
      let boot = clock_start zones default f in
      let w = run zones asks (boot, f) in
      let (k, (d, p)) = clock_tick-IsHeld w.0 w.1 (run-IsHeld asks boot f (start-IsHeld f)) in
      (
        sym k.name_held,
        (sym k.rule_held, λ i. shown (sym p i) (sym k.mode_held i) (sym k.h12_held i)),
      )
