-- ===== src/Alarm/Calendar/Minutes.antt =====
-- The search of `alarm_next_local` within a day: resolve_exact and resolve_wall of
-- main/alarm_sched.c, over what the C library documents of localtime_r and mktime.
use esp32_deepgram_voice_age.Common.{
  ℕ, zero, suc, ◌+◌, ◌/◌, ◌%◌, ◌≤◌, ◌<◌, ◌≡◌, refl, subst, ◌⊎◌, inl, inr, Bool, true, false, ◌&&◌,
  Option, none, some, arith, ◌==◌, ==_iff, Bool-cases, Option-cases,
}
use esp32_deepgram_voice_age.Common.Int.{ℤ, pos, negsuc, ◌≤ℤ◌, ◌<ℤ◌}
use esp32_deepgram_voice_age.Alarm.Calendar.{
  Tm, Zone, wall, reads, try_dst, resolve_exact, resolve_from,
}

-- The broken-down time has the given date, hour and minute.
abbrev pub has_time : Option Tm → ℕ → ℕ → ℕ → ℕ → ℕ → Bool
has_time none y mon mday hh mm = false
has_time (some b) y mon mday hh mm =
    b.year == y && (b.mon == mon && (b.mday == mday && (b.hour == hh && b.min == mm)))

-- And it has the given daylight-saving flag.
abbrev pub has_time_in : Option Tm → ℕ → ℕ → ℕ → ℕ → ℕ → ℕ → Bool
has_time_in none y mon mday hh mm dst = false
has_time_in (some b) y mon mday hh mm dst = reads b y mon mday hh mm dst

-- What a zone's functions keep to. `tm_isdst` of a local time is 0 or 1. From 1971 on, mktime finds
-- a wall minute under a given flag if some instant shows it under that flag, and answers the minute's
-- first second; its answers are not before 1970; and its date is not in an earlier year than the one
-- it was given.
pub record Laws (z : Zone) : Type 0 where
  pub flagged : (t : ℤ) (b : Tm) → z.localtime t ≡ some b → (b.isdst ≡ some 0) ⊎ (b.isdst ≡ some 1)
  pub inverse :
      (u : ℤ) (y mon mday hh mm dst : ℕ)
      → 71 ≤ y
      → pos 0 ≤ℤ u
      → has_time_in (z.localtime u) y mon mday hh mm dst ≡ true
      → (w : ℤ) × (b : Tm) × (z.mktime (wall y mon mday hh mm (some dst)) ≡ some (w, b))
        × (w ≤ℤ u)
        × (has_time_in (z.localtime w) y mon mday hh mm dst ≡ true)
  pub not_before :
      (y mon mday hh mm : ℕ) (dst : Option ℕ) (w : ℤ) (b : Tm)
      → 71 ≤ y
      → z.mktime (wall y mon mday hh mm dst) ≡ some (w, b)
      → (pos 0 ≤ℤ w) × (71 ≤ b.year)

module _ (z : Zone) where
  open z use {localtime, mktime}

  -- Local time at `t` reads the given date, hour and minute.
  abbrev pub Shows : ℤ → ℕ → ℕ → ℕ → ℕ → ℕ → Type 0
  Shows t y mon mday hh mm = has_time (localtime t) y mon mday hh mm ≡ true

  -- No instant reads it: the minute does not exist in local time.
  abbrev pub Missing : ℕ → ℕ → ℕ → ℕ → ℕ → Type 0
  Missing y mon mday hh mm = (u : ℤ) → pos 0 ≤ℤ u → has_time (localtime u) y mon mday hh mm ≡ false

  try_dst-Shows :
      (y mon mday hh mm dst : ℕ) (best : ℤ)
      → (pos 0 ≤ℤ best → Shows best y mon mday hh mm)
      → pos 0 ≤ℤ try_dst z y mon mday hh mm dst best
      → Shows (try_dst z y mon mday hh mm dst best) y mon mday hh mm
  unfolding try_dst reads
  try_dst-Shows y mon mday hh mm dst best h p = ground arith

  resolve_exact-Shows :
      (y mon mday hh mm : ℕ)
      → pos 0 ≤ℤ resolve_exact z y mon mday hh mm
      → Shows (resolve_exact z y mon mday hh mm) y mon mday hh mm
  unfolding resolve_exact
  resolve_exact-Shows y mon mday hh mm p =
      try_dst-Shows y mon mday hh mm 1 _
        (try_dst-Shows y mon mday hh mm 0 (negsuc 0) (λ q. absurd (omega arith))) p

  module _ (law : Laws z) where
    try_dst-found :
        (u : ℤ) (y mon mday hh mm dst : ℕ) (best : ℤ)
        → 71 ≤ y
        → pos 0 ≤ℤ u
        → has_time_in (localtime u) y mon mday hh mm dst ≡ true
        → let r = try_dst z y mon mday hh mm dst best in (pos 0 ≤ℤ r) × (r ≤ℤ u)
    unfolding try_dst
    try_dst-found u y mon mday hh mm dst best h p e =
        let (w, b, m, le, rd) = law.inverse u y mon mday hh mm dst h p e in
        let (q, _) = law.not_before y mon mday hh mm (some dst) w b h m in ground arith

    try_dst_keeps :
        (y mon mday hh mm dst : ℕ) (best : ℤ)
        → 71 ≤ y
        → pos 0 ≤ℤ best
        → let r = try_dst z y mon mday hh mm dst best in (pos 0 ≤ℤ r) × (r ≤ℤ best)
    unfolding try_dst
    try_dst_keeps y mon mday hh mm dst best h p =
        elim (Option-cases (mktime (wall y mon mday hh mm (some dst)))) [
          | inl m ↦ ground arith
          | inr ((w, b), m) ↦
              let (q, _) = law.not_before y mon mday hh mm (some dst) w b h m in ground arith
        ]

    -- An instant that shows the minute does so under one of the two flags.
    shown_flag :
        (o : Option Tm) (y mon mday hh mm : ℕ)
        → ((b : Tm) → o ≡ some b → (b.isdst ≡ some 0) ⊎ (b.isdst ≡ some 1))
        → has_time o y mon mday hh mm ≡ true
        → (has_time_in o y mon mday hh mm 0 ≡ true) ⊎ (has_time_in o y mon mday hh mm 1 ≡ true)
    unfolding reads
    shown_flag none y mon mday hh mm f s = absurd (ground arith)
    shown_flag (some b) y mon mday hh mm f s = elim (f b refl) [
      | inl e ↦ inl (ground arith)
      | inr e ↦ inr (ground arith)
    ]

    resolve_exact_least :
        (y mon mday hh mm : ℕ) (u : ℤ)
        → 71 ≤ y
        → pos 0 ≤ℤ u
        → Shows u y mon mday hh mm
        → let r = resolve_exact z y mon mday hh mm in (pos 0 ≤ℤ r) × (r ≤ℤ u)
    unfolding resolve_exact
    resolve_exact_least y mon mday hh mm u h p s =
        let first = try_dst z y mon mday hh mm 0 (negsuc 0) in
        elim (shown_flag (localtime u) y mon mday hh mm (law.flagged u) s) [
          | inl e ↦
              let (a, b) = try_dst-found u y mon mday hh mm 0 (negsuc 0) h p e in
              let (c, d) = try_dst_keeps y mon mday hh mm 1 first h a in (c, omega arith)
          | inr e ↦ try_dst-found u y mon mday hh mm 1 first h p e
        ]

    resolve_exact-Missing :
        (y mon mday hh mm : ℕ)
        → 71 ≤ y
        → resolve_exact z y mon mday hh mm <ℤ pos 0
        → Missing y mon mday hh mm
    resolve_exact-Missing y mon mday hh mm h n u p =
        elim (Bool-cases (has_time (localtime u) y mon mday hh mm)) [
          | inl s ↦
              let (q, _) = resolve_exact_least y mon mday hh mm u h p s in absurd (omega arith)
          | inr s ↦ s
        ]

  -- Minute `k` of a day is the first from `m` on that exists in local time, and `t` is the first
  -- instant that shows it.
  pub record FirstMinute (y mon mday m : ℕ) (t : ℤ) (k : ℕ) : Type 0 where
    pub from_start : m ≤ k
    pub in_day : k < 1440
    pub shows : Shows t y mon mday (k / 60) (k % 60)
    pub first_instant : (u : ℤ) → pos 0 ≤ℤ u → Shows u y mon mday (k / 60) (k % 60) → t ≤ℤ u
    pub none_before : (j : ℕ) → m ≤ j → j < k → Missing y mon mday (j / 60) (j % 60)

  -- None of the minutes of a day from `m` on and below `n` exists.
  pub record NoMinute (y mon mday m n : ℕ) : Type 0 where
    pub none_there : (j : ℕ) → m ≤ j → j < n → j < 1440 → Missing y mon mday (j / 60) (j % 60)

  resolve_from_cases :
      (y mon mday left m : ℕ)
      → let r = resolve_from z y mon mday (suc left) m in
        let t = resolve_exact z y mon mday (m / 60) (m % 60) in
        ((1440 ≤ m) × (r ≡ negsuc 0))
        ⊎ ((m < 1440)
            × (((pos 0 ≤ℤ t) × (r ≡ t))
                ⊎ ((t <ℤ pos 0) × (r ≡ resolve_from z y mon mday left (m + 1)))))
  unfolding resolve_from
  resolve_from_cases y mon mday left m = ground arith

  first_too :
      (y mon mday m : ℕ) (P : ℕ → Type 0)
      → Missing y mon mday (m / 60) (m % 60)
      → ((j : ℕ) → m + 1 ≤ j → P j → Missing y mon mday (j / 60) (j % 60))
      → (j : ℕ) → m ≤ j
      → P j
      → Missing y mon mday (j / 60) (j % 60)
  first_too y mon mday m P gap later j h l = elim (Bool-cases (m == j)) [
    | inl e ↦ subst (λ (i : ℕ). Missing y mon mday (i / 60) (i % 60)) ((==_iff m j).0 e) gap
    | inr e ↦ later j (ground arith) l
  ]

  -- What the search from minute `m` on, for `left` minutes, finds.
  abbrev pub Found : ℕ → ℕ → ℕ → ℕ → ℕ → ℤ → Type 0
  Found y mon mday m n r =
      ((r <ℤ pos 0) × NoMinute y mon mday m n)
      ⊎ ((pos 0 ≤ℤ r) × ((k : ℕ) × (k < n) × FirstMinute y mon mday m r k))

  next_minutes :
      (y mon mday left m : ℕ) (r : ℤ)
      → Missing y mon mday (m / 60) (m % 60)
      → Found y mon mday (m + 1) (m + 1 + left) r
      → Found y mon mday m (m + suc left) r
  next_minutes y mon mday left m r gap (inl (n, none_later)) = inl (
    n,
    record {
      none_there = λ j a b c.
          first_too y mon mday m (λ j. (j < m + suc left) × (j < 1440)) gap
            (λ j a (b, c). none_later.none_there j a (omega arith) c) j a (b, c);
    },
  )
  next_minutes y mon mday left m r gap (inr (p, (k, bound, f))) = inr (
    p,
    (
      k,
      omega arith,
      record {
        from_start = omega (arith, f.from_start);
        in_day = f.in_day;
        shows = f.shows;
        first_instant = f.first_instant;
        none_before = first_too y mon mday m (λ j. j < k) gap f.none_before;
      },
    ),
  )

  pub resolve_from-Found :
      (law : Laws z) (y mon mday left m : ℕ)
      → 71 ≤ y
      → Found y mon mday m (m + left) (resolve_from z y mon mday left m)
  resolve_from-Found law y mon mday zero m h =
      inl (
        unfold resolve_from in omega arith,
        record { none_there = λ j a b c. absurd (omega arith) },
      )
  resolve_from-Found law y mon mday (suc left) m h = elim (resolve_from_cases y mon mday left m) [
    | inl (late, r) ↦
        rw r (inl (omega arith, record { none_there = λ j a b c. absurd (omega arith) }))
    | inr (early, inl (found, r)) ↦ rw r (
        inr (
          found,
          (
            m,
            omega arith,
            record {
              from_start = omega arith;
              in_day = early;
              shows = resolve_exact-Shows y mon mday (m / 60) (m % 60) found;
              first_instant =
                  λ u p s. (resolve_exact_least law y mon mday (m / 60) (m % 60) u h p s).1;
              none_before = λ j a b. absurd (omega arith);
            },
          ),
        ))
    | inr (early, inr (missing, r)) ↦ rw r (
        next_minutes y mon mday left m _
          (resolve_exact-Missing law y mon mday (m / 60) (m % 60) h missing)
          (resolve_from-Found law y mon mday left (m + 1) h))
  ]
