-- ===== src/Battery/Settling.antt =====
-- A reading that holds still: the deadband does not keep the indicator off it.
use esp32_deepgram_voice_age.Common.{
  ℕ, zero, suc, ◌+◌, ◌-◌, ◌*◌, ◌≤◌, ◌<◌, ◌≡◌, refl, sym, ap, ◌∙◌, subst, ◌⊎◌, inl, inr, true, false,
  Option, none, some, List, [], ◌∷◌, arith, ltb, if◌then◌else◌, length, take, All,
}
use esp32_deepgram_voice_age.Battery.{
  median_n, settled_samples, median_of, Reading, Battery, settle, report, power_read, gauged,
  sample,
}
use esp32_deepgram_voice_age.Battery.Median.{count_le, count_ge, median_of-IsMedian}

count_le-most : (m : ℕ) (xs : List ℕ) → count_le m xs ≤ length xs
count_le-most m [] = omega arith
count_le-most m (x ∷ xs) = ground (arith, count_le-most m xs)

count_ge-most : (m : ℕ) (xs : List ℕ) → count_ge m xs ≤ length xs
count_ge-most m [] = omega arith
count_ge-most m (x ∷ xs) = ground (arith, count_ge-most m xs)

outvoted :
    (g m : ℕ) (xs : List ℕ)
    → length xs ≤ 2
    → length (g ∷ g ∷ g ∷ xs) < 2 * count_le m (g ∷ g ∷ g ∷ xs)
    → length (g ∷ g ∷ g ∷ xs) ≤ 2 * count_ge m (g ∷ g ∷ g ∷ xs)
    → count_le m xs ≤ length xs
    → count_ge m xs ≤ length xs
    → m ≡ g
outvoted g m xs h a b c d = ground (arith, h, a, b, c, d)

-- Three samples of at most five outvote the others.
three_alike : (g : ℕ) (xs : List ℕ) → length xs ≤ 2 → median_of (g ∷ g ∷ g ∷ xs) ≡ g
three_alike g xs h =
    let m = median_of (g ∷ g ∷ g ∷ xs) in
    let v = median_of-IsMedian (g ∷ g ∷ g ∷ xs) (omega arith) in
    outvoted g m xs h v.below v.above (count_le-most m xs) (count_ge-most m xs)

sample-gauged :
    (low_pct : ℕ) (r : Reading) (b : Battery)
    → r.gauge ≤ 100
    → sample low_pct (some r) b ≡ gauged low_pct r (power_read r b)
unfolding sample
sample-gauged low_pct r b h =
    let known : ltb 100 r.gauge ≡ false = ground (arith, h) in rw known refl

-- The indicator after these readings, one each pass.
unfoldable pub samples : ℕ → List Reading → Battery → Battery
samples low_pct [] b = b
samples low_pct (r ∷ rs) b = samples low_pct rs (sample low_pct (some r) b)

-- The gauge was read as `g` by the last passes: their number, up to three.
IsRepeated : ℕ → ℕ → Battery → Type 0
IsRepeated g zero b = Unit
IsRepeated g (suc zero) b = (1 ≤ b.filled) × ((xs : List ℕ) × (b.history ≡ g ∷ xs))
IsRepeated g (suc (suc n)) b = (2 ≤ b.filled) × ((xs : List ℕ) × (b.history ≡ g ∷ g ∷ xs))

-- The median has been `g` for `k` passes.
IsHeld : ℕ → ℕ → Battery → Type 0
IsHeld g k b = IsRepeated g 2 b × ((b.prev_pct ≡ some g) × (k ≤ b.settled))

length-take : (n : ℕ) (xs : List ℕ) → length (take n xs) ≤ n
length-take zero xs = omega arith
length-take (suc n) [] = omega arith
length-take (suc n) (x ∷ xs) = omega (arith, length-take n xs)

three_taken : (g n : ℕ) (xs : List ℕ) → 3 ≤ n → n ≤ 5 → median_of (take n (g ∷ g ∷ g ∷ xs)) ≡ g
three_taken g zero xs h l = absurd (omega arith)
three_taken g (suc zero) xs h l = absurd (omega arith)
three_taken g (suc (suc zero)) xs h l = absurd (omega arith)
three_taken g (suc (suc (suc n))) xs h l =
    three_alike g (take n xs) (omega (arith, length-take n xs))

-- The passes up to the second.
sample_first :
    (low_pct g : ℕ) (r : Reading) (b : Battery)
    → r.gauge ≡ g
    → g ≤ 100
    → b.filled ≤ median_n
    → IsRepeated g 1 (sample low_pct (some r) b) × ((sample low_pct (some r) b).filled ≤ median_n)
unfolding IsRepeated gauged
sample_first low_pct g r b e h f = rw (sample-gauged low_pct r b (omega (arith, e, h))) (
  (
    ground (arith, f),
    (take (median_n - 1) b.history, ap (λ x. x ∷ take (median_n - 1) b.history) e),
  ),
  ground (arith, f),
)

sample_second :
    (low_pct g : ℕ) (r : Reading) (b : Battery)
    → r.gauge ≡ g
    → g ≤ 100
    → b.filled ≤ median_n
    → IsRepeated g 1 b
    → IsRepeated g 2 (sample low_pct (some r) b) × ((sample low_pct (some r) b).filled ≤ median_n)
unfolding IsRepeated gauged
sample_second low_pct g r b e h f (l, (xs, is)) =
    rw (sample-gauged low_pct r b (omega (arith, e, h))) (
      (ground (arith, f, l), (take 3 xs, (λ i. e i ∷ take (median_n - 1) (is i)))),
      ground (arith, f),
    )

-- The count of passes goes on, up to three.
settle-held :
    (g k j s : ℕ) (prev : Option ℕ)
    → (k ≡ 0) ⊎ ((prev ≡ some g) × (k ≤ s))
    → j ≤ k + 1
    → j ≤ settled_samples
    → j ≤ settle g prev s
unfolding settle
settle-held g k j s none (inl e) h l = omega arith
settle-held g k j s none (inr (e, m)) h l = cc e
settle-held g k j s (some p) (inl e) h l = ground (arith, e, h)
settle-held g k j s (some p) (inr (e, m)) h l =
    let same : p ≡ g = cc e in ground (arith, same, m, h, l)

report-held : (pct s : ℕ) (was : Option ℕ) → settled_samples ≤ s → report pct was s ≡ pct
unfolding report
report-held pct s none h = refl
report-held pct s (some w) h = ground (arith, h)

-- A later pass.
sample_later :
    (low_pct g k j : ℕ) (r : Reading) (b : Battery)
    → r.gauge ≡ g
    → g ≤ 100
    → b.filled ≤ median_n
    → IsRepeated g 2 b
    → (k ≡ 0) ⊎ ((b.prev_pct ≡ some g) × (k ≤ b.settled))
    → j ≤ k + 1
    → j ≤ settled_samples
    → let c = sample low_pct (some r) b in
      IsHeld g j c
      × ((c.filled ≤ median_n) × ((j ≡ settled_samples) → (c.valid ≡ true) × (c.percent ≡ g)))
unfolding IsHeld IsRepeated gauged
sample_later low_pct g k j r b e h f (l, (xs, is)) v hj lj =
    let filled = if ltb b.filled median_n then b.filled + 1 else b.filled in
    let few : (3 ≤ filled) × (filled ≤ 5) = ground (arith, f, l) in
    let window : r.gauge ∷ take (median_n - 1) b.history ≡ g ∷ g ∷ g ∷ take 2 xs =
      λ i. e i ∷ take (median_n - 1) (is i) in
    let pct : median_of (take filled (r.gauge ∷ take (median_n - 1) b.history)) ≡ g =
      ap (λ w. median_of (take filled w)) window ∙ three_taken g filled (take 2 xs) few.0 few.1 in
    let held : j ≤ settle g b.prev_pct b.settled = settle-held g k j b.settled b.prev_pct v hj lj in
    rw (sample-gauged low_pct r b (omega (arith, e, h))) (
      (
        (omega (arith, few.0), (g ∷ take 2 xs, window)),
        (ap (λ p. some p) pct, subst (λ p. j ≤ settle p b.prev_pct b.settled) (sym pct) held),
      ),
      (
        few.1,
        λ full. (
          refl,
          ap (λ p. report p b.reported (settle p b.prev_pct b.settled)) pct
              ∙ report-held g (settle g b.prev_pct b.settled) b.reported
                  (omega (arith, held, full)),
        ),
      ),
    )

samples-steady :
    (low_pct g : ℕ) (rs : List Reading) (b : Battery)
    → All (λ r. r.gauge ≡ g) rs
    → g ≤ 100
    → b.filled ≤ median_n
    → IsHeld g 3 b
    → (b.valid ≡ true) × (b.percent ≡ g)
    → let c = samples low_pct rs b in (c.valid ≡ true) × (c.percent ≡ g)
unfolding samples IsHeld
samples-steady low_pct g [] b es h f v p = p
samples-steady low_pct g (r ∷ rs) b (e, es) h f (two, held) p =
    let (next, (few, shows)) =
      sample_later low_pct g 3 3 r b e h f two (inr held) (omega arith) (omega arith) in
    samples-steady low_pct g rs (sample low_pct (some r) b) es h few next (shows refl)

-- Once the gauge is read as the same valid percentage by five passes in a row, the indicator shows
-- exactly that, as valid, and goes on to while the gauge does, whatever it was read as before. The
-- count of the filter's samples is at most five to begin with.
samples-settled :
    (low_pct g : ℕ) (rs : List Reading) (b : Battery)
    → All (λ r. r.gauge ≡ g) rs
    → 5 ≤ length rs
    → g ≤ 100
    → b.filled ≤ median_n
    → let c = samples low_pct rs b in (c.valid ≡ true) × (c.percent ≡ g)
unfolding samples IsHeld
samples-settled low_pct g [] b es n h f = absurd (omega arith)
samples-settled low_pct g (_ ∷ []) b es n h f = absurd (omega arith)
samples-settled low_pct g (_ ∷ _ ∷ []) b es n h f = absurd (omega arith)
samples-settled low_pct g (_ ∷ _ ∷ _ ∷ []) b es n h f = absurd (omega arith)
samples-settled low_pct g (_ ∷ _ ∷ _ ∷ _ ∷ []) b es n h f = absurd (omega arith)
samples-settled low_pct g (r ∷ s ∷ t ∷ u ∷ w ∷ rs) b (e1, (e2, (e3, (e4, (e5, es))))) n h f =
    let b1 = sample low_pct (some r) b in
    let b2 = sample low_pct (some s) b1 in
    let b3 = sample low_pct (some t) b2 in
    let b4 = sample low_pct (some u) b3 in
    let b5 = sample low_pct (some w) b4 in
    let (one, f1) = sample_first low_pct g r b e1 h f in
    let (two, f2) = sample_second low_pct g s b1 e2 h f1 one in
    let (three, (f3, z3)) =
      sample_later low_pct g 0 1 t b2 e3 h f2 two (inl refl) (omega arith) (omega arith) in
    let (four, (f4, z4)) =
      sample_later low_pct g 1 2 u b3 e4 h f3 three.0 (inr three.1) (omega arith) (omega arith) in
    let (five, (f5, shows)) =
      sample_later low_pct g 2 3 w b4 e5 h f4 four.0 (inr four.1) (omega arith) (omega arith) in
    samples-steady low_pct g rs b5 es h f5 five (shows refl)
