-- ===== src/Clock/Zone/Asking.antt =====
-- What the agent's tool asks of the clock, and what the main loop makes of it (main/clock.c).
use esp32_deepgram_voice_age.Common.{
  ℕ, ◌≤◌, ◌≡◌, refl, sym, ap, ◌∙◌, subst, ◌⊎◌, inl, inr, Bool, true, false, not, ◌&&◌, Option, none,
  some, List, [], ◌∷◌, arith, leb, ◌==◌, if◌then◌else◌, Bool-cases, length, u8,
}
use esp32_deepgram_voice_age.Common.Int.{ℤ, pos, eqb_ℤ}
use esp32_deepgram_voice_age.Common.Bytes.{snprintf}
use esp32_deepgram_voice_age.Common.Cuts.{take_whole}
use esp32_deepgram_voice_age.Clock.Zone.{
  Entry, Zone, Kept, Reply, tz_name_max, fmt_12, fmt_24, tz_resolve, settled, tz_apply, tick_zone,
  tick_fmt, clock_tick, clock_12h, set_clock, good_zone, good_hours, with_zone, with_hours,
}

whole_name :
    (name : List ℕ) → leb tz_name_max (length name) ≡ false → snprintf tz_name_max name ≡ name
whole_name name h = let low : length name ≤ 47 = ground (arith, h) in take_whole 47 name low

module _ (zones : List Entry) (c : ℕ) (cs : List ℕ) (h : ℤ) where
  -- A call with a zone that is refused, or with hours that are.
  abbrev pub IsRefused : Type 0
  IsRefused = ((good_zone zones (some (c ∷ cs)) ≡ false) ⊎ (good_hours (some h) ≡ false))

  asked_for : Zone → Zone
  asked_for z = with_hours (some h) (with_zone (some (c ∷ cs)) z)

  outcome :
      (z : Zone)
      → ((set_clock zones (some (c ∷ cs)) (some h) z ≡ (Reply.done, asked_for z))
          × ((good_zone zones (some (c ∷ cs)) ≡ true) × (good_hours (some h) ≡ true)))
        ⊎ (((set_clock zones (some (c ∷ cs)) (some h) z).1 ≡ z) × IsRefused)
  unfolding set_clock asked_for
  outcome z = elim (Bool-cases (good_zone zones (some (c ∷ cs)))) [
    | inr e ↦ inr (λ i. (asked_by (not (e i)) (not (good_hours (some h)))).1, inl e)
    | inl e ↦ elim (Bool-cases (good_hours (some h))) [
      | inr e' ↦ inr (λ i. (asked_by (not (e i)) (not (e' i))).1, inr e')
      | inl e' ↦ inl (λ i. asked_by (not (e i)) (not (e' i)), (e, e'))
    ]
  ]
    where
      asked_by : Bool → Bool → Reply × Zone
      asked_by unknown bad =
          if unknown
          then (Reply.unknown_zone, z)
          else if bad
          then (Reply.bad_hours, z)
          else (Reply.done, with_hours (some h) (with_zone (some (c ∷ cs)) z))

  good_by :
      (long : Bool) (o : Option (List ℕ))
      → not long && (elim o [ none ↦ false | some _ ↦ true ]) ≡ true
      → (long ≡ false) × ((rule : List ℕ) × (o ≡ some rule))
  good_by true o g = cc g
  good_by false none g = cc g
  good_by false (some rule) g = (refl, (rule, refl))

  settled_as :
      (rule : List ℕ)
      → tz_resolve zones tz_name_max (c ∷ cs) ≡ some rule
      → settled zones (c ∷ cs) ≡ (c ∷ cs, rule)
  unfolding settled
  settled_as rule r =
      ap
        (λ (o : Option (List ℕ)).
          let s : List ℕ × List ℕ = elim o [
            | none ↦ settled zones []
            | some rule' ↦ (c ∷ cs, rule')
          ] in
          s)
        r

  shows : (mode : ℕ) (h12 : Bool) → Bool
  shows mode h12 = if mode == fmt_12 then true else if mode == fmt_24 then false else h12

  shows_asked : (twelve h12 : Bool) → shows (u8 (if twelve then fmt_12 else fmt_24)) h12 ≡ twelve
  unfolding shows
  shows_asked true h12 = refl
  shows_asked false h12 = refl

  -- The zone and the format that a call asked for.
  abbrev pub IsInForce : Zone → Type 0
  IsInForce z =
      (z.tz_name ≡ c ∷ cs)
      × ((tz_resolve zones tz_name_max (c ∷ cs) ≡ some z.rule) × (clock_12h z ≡ eqb_ℤ h (pos 12)))

  tick-IsInForce :
      (z : Zone) (f : Kept) (ok ok' : Bool)
      → good_zone zones (some (c ∷ cs)) ≡ true
      → IsInForce (clock_tick ok ok' zones (asked_for z, f)).0
  unfolding clock_tick tick_zone tick_fmt clock_12h shows asked_for tz_apply
  tick-IsInForce z f ok ok' g =
      let o = tz_resolve zones tz_name_max (c ∷ cs) in
      let (short, (rule, r)) = good_by (leb tz_name_max (length (c ∷ cs))) o g in
      let whole = whole_name (c ∷ cs) short in
      let twice = ap (snprintf tz_name_max) whole ∙ whole in
      let s = ap (settled zones) twice ∙ settled_as rule r in
      (
        ap (λ p. snprintf tz_name_max p.0) s ∙ whole,
        (
          r ∙ ap (λ p. some p.1) (sym s),
          shows_asked (eqb_ℤ h (pos 12)) (clock_tick ok ok' zones (asked_for z, f)).0.zone_h12,
        ),
      )

  -- A call of the agent's tool with a zone that is not empty and with hours, and then a pass of the
  -- main loop, its saves succeeding or not: either the call is answered as done, and then the
  -- zone's name, the rule that tz_resolve gives for it, and the 12-hour format exactly if 12 hours
  -- were asked for are in force; or the call changes nothing, and the zone is too long or not
  -- known, or the hours are neither 12 nor 24.
  pub set_clock-clock_tick :
      (z : Zone) (f : Kept) (ok ok' : Bool)
      → let (reply, z') = set_clock zones (some (c ∷ cs)) (some h) z in
        ((reply ≡ Reply.done) × IsInForce (clock_tick ok ok' zones (z', f)).0)
        ⊎ ((z' ≡ z) × IsRefused)
  set_clock-clock_tick z f ok ok' = elim (outcome z) [
    | inr r ↦ inr r
    | inl (q, (g, _)) ↦ inl (
      ap (λ r. r.0) q,
      subst (λ z'. IsInForce (clock_tick ok ok' zones (z', f)).0) (sym (ap (λ r. r.1) q))
          (tick-IsInForce z f ok ok' g),
    )
  ]
