-- ===== src/History/Newest.antt =====
-- Which record `history_store_load` takes.
use esp32_deepgram_voice_age.Common.{
  ℕ, zero, suc, ◌+◌, ◌-◌, ◌*◌, ◌%◌, ◌^◌, ◌≤◌, ◌<◌, ◌≡◌, refl, ap, ◌∙◌, subst, ◌⊎◌, inl, inr, true,
  false, Option, none, some, List, arith, Bool-cases, Option-cases, sub32,
}
use esp32_deepgram_voice_age.History.{
  span, Partition, slot_size, header_size, slots, Header, Known, is_newer, better, scan, ok,
  store_load, taken,
}
use esp32_deepgram_voice_age.History.Flash.{record_at, payload_of-span, slot_valid-record_at}

-- Slot `s` holds the newest record, `h`; the record of any other slot was written as many saves
-- before it as the slot lies behind `s` in the ring. `view` says what each slot holds.
pub record IsNewest (view : ℕ → Option Header) (s : ℕ) (h : Header) : Type 0 where
  pub in_range : s < slots
  pub held : view s ≡ some h
  pub behind :
      (i : ℕ) (r : Header)
      → i < slots
      → view i ≡ some r
      → (r.seq < 2 ^ 32) × (sub32 h.seq r.seq ≡ (s + 8 - i) % 8)

is_newer-ahead : (a b d : ℕ) → sub32 a b ≡ d → 0 < d → d < 8 → is_newer a b ≡ true
is_newer-ahead a b d e l k = rw e (ground arith)

is_newer-behind :
    (a b d : ℕ) → a < 2 ^ 32 → b < 2 ^ 32 → sub32 a b ≡ d → 0 < d → d < 8 → is_newer b a ≡ false
is_newer-behind a b d ha hb e l k =
    let back : sub32 b a ≡ 4294967296 - d = omega arith in rw back (ground arith)

leb-cases : (i s : ℕ) → i ≤ s → (i < s) ⊎ (i ≡ s)
leb-cases i s l = ground arith

module _ (view : ℕ → Option Header) (s : ℕ) (h : Header) (v : IsNewest view s h) where
  -- What the scan has before slot `i`: nothing, or the record of an earlier slot.
  unfoldable pub IsSoFar : ℕ → Option (ℕ × Header) → Type 0
  IsSoFar i best =
      (best ≡ none) ⊎ ((b : ℕ) × (r : Header) × (best ≡ some (b, r)) × (b < i) × (view b ≡ some r))

  better-some :
      (i : ℕ) (r : Header) (best : Option (ℕ × Header))
      → view i ≡ some r
      → IsSoFar i best
      → IsSoFar (i + 1) (better best i (some r))
  unfolding IsSoFar
  better-some i r best at (inl e) = rw e (inr (i, r, refl, omega arith, at))
  better-some i r best at (inr (b, q, e, l, was)) = elim (Bool-cases (is_newer r.seq q.seq)) [
    | inl n ↦ rw (e, n) (inr (i, r, refl, omega arith, at))
    | inr n ↦ rw (e, n) (inr (b, q, refl, omega arith, was))
  ]

  better-none : (i : ℕ) (best : Option (ℕ × Header)) → IsSoFar i best → IsSoFar (i + 1) best
  unfolding IsSoFar
  better-none i best (inl e) = inl e
  better-none i best (inr (b, q, e, l, was)) = inr (b, q, e, omega arith, was)

  better-older :
      (i : ℕ) (best : Option (ℕ × Header))
      → IsSoFar i best
      → IsSoFar (i + 1) (better best i (view i))
  better-older i best so = elim (Option-cases (view i)) [
    | inl e ↦ rw e (better-none i best so)
    | inr (r, at) ↦ rw at (better-some i r best at so)
  ]

  better-newest :
      (best : Option (ℕ × Header)) → IsSoFar s best → better best s (view s) ≡ some (s, h)
  unfolding IsSoFar
  better-newest best (inl e) = rw (e, v.held) refl
  better-newest best (inr (b, r, e, l, at)) =
      let (w, d) = v.behind b r (omega (arith, v.in_range)) at in
      let hw = (v.behind s h v.in_range v.held).0 in
      let newer : is_newer h.seq r.seq ≡ true =
        is_newer-ahead h.seq r.seq ((s + 8 - b) % 8) d (omega (arith, v.in_range)) (omega arith) in
      rw (e, v.held, newer) refl

  better-past : (i : ℕ) → s < i → i < slots → better (some (s, h)) i (view i) ≡ some (s, h)
  better-past i l k = elim (Option-cases (view i)) [
    | inl e ↦ rw e refl
    | inr (r, at) ↦
        let (w, d) = v.behind i r k at in
        let hw = (v.behind s h v.in_range v.held).0 in
        let older : is_newer r.seq h.seq ≡ false =
          is_newer-behind h.seq r.seq ((s + 8 - i) % 8) hw w d (omega (arith, v.in_range))
            (omega arith) in
        rw (at, older) refl
  ]

module _ (P : Partition) (crc32 : List ℕ → ℕ)
    (reads : (f : P.Flash) (off n : ℕ) → P.read f off n ≡ some (span (P.byte f) off n))
    (f : P.Flash) (size s : ℕ) (h : Header)
    (v : IsNewest (record_at crc32 (P.byte f) size) s h) where
  scan_past :
      (i n : ℕ) → s < i → i + n ≡ slots → scan P crc32 f size i n (some (s, h)) ≡ some (s, h)
  unfolding scan
  scan_past i zero l e = refl
  scan_past i (suc n) l e =
      rw
        (
          slot_valid-record_at P crc32 reads f size i,
          better-past (record_at crc32 (P.byte f) size) s h v i l (omega arith),
        )
        (scan_past (i + 1) n (omega arith) (omega arith))

  pub scan-newest :
      (i n : ℕ) (best : Option (ℕ × Header))
      → i ≤ s
      → i + n ≡ slots
      → IsSoFar (record_at crc32 (P.byte f) size) s h v i best
      → scan P crc32 f size i n best ≡ some (s, h)
  unfolding scan
  scan-newest i zero best l e so = absurd (omega (arith, v.in_range))
  scan-newest i (suc n) best l e so = elim (leb-cases i s l) [
    | inl below ↦
        let next = better-older (record_at crc32 (P.byte f) size) s h v i best so in
        rw (slot_valid-record_at P crc32 reads f size i) (
          scan-newest (i + 1) n (better best i (record_at crc32 (P.byte f) size i)) (omega arith)
            (omega arith) next)
    | inr here ↦
        let it : better best i (record_at crc32 (P.byte f) size i) ≡ some (s, h) =
          ap (λ j. better best j (record_at crc32 (P.byte f) size j)) here
          ∙ better-newest (record_at crc32 (P.byte f) size) s h v best
              (subst (λ j. IsSoFar (record_at crc32 (P.byte f) size) s h v j best) here so) in
        rw (slot_valid-record_at P crc32 reads f size i, it)
          (scan_past (i + 1) n (omega arith) (omega arith))
  ]

  taken-payload :
      (k : Known)
      → taken P crc32 f k (some (s, h)) ≡ (
        ok,
        (
          span (P.byte f) (s * slot_size + header_size) h.len,
          record { slot = some s; seq = h.seq },
        ),
      )
  taken-payload k = rw (taken, payload_of-span P crc32 reads f s h) refl

  -- The load takes the newest record, and its slot and sequence number are known then.
  pub store_load-newest :
      (k : Known)
      → store_load P crc32 f size k ≡ (
        ok,
        (
          span (P.byte f) (s * slot_size + header_size) h.len,
          record { slot = some s; seq = h.seq },
        ),
      )
  unfolding store_load IsSoFar
  store_load-newest k =
      ap (taken P crc32 f k) (scan-newest 0 8 none (omega arith) (omega arith) (inl refl))
      ∙ taken-payload k
