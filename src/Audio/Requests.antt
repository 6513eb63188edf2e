-- ===== src/Audio/Requests.antt =====
-- A tone of main/audio_io.c from audio_io_tone to the playback task, which may be late.
use esp32_deepgram_voice_age.Common.{
  ℕ, zero, suc, ◌+◌, ◌-◌, ◌*◌, ◌/◌, ◌%◌, ◌^◌, ◌≤◌, ◌<◌, min, bit_and, bit_or, ◌≡◌, refl, ap, ◌∙◌,
  ◌≢◌, ◌⊎◌, inl, inr, true, false, List, [], ◌∷◌, ◌++◌, arith, ltb, ◌==◌, if◌then◌else◌, Bool-cases,
  length, u8, u32,
}
use esp32_deepgram_voice_age.Common.Bits.{bit_or-power, bit_and-ones}
use esp32_deepgram_voice_age.Audio.Tune.{tone_field, tone, Tone, take_request}

-- The number that follows.
abbrev next_seq : ℕ → ℕ
next_seq seq = let next = u8 (seq + 1) in if next == 0 then 1 else next

abbrev clipped : ℕ → ℕ
clipped n = if ltb tone_field n then tone_field else n

-- The three fields of the word.
tone-fields :
    (hz ms seq : ℕ)
    → (tone hz ms seq).1 ≡ next_seq seq * 2 ^ 24 + (clipped ms * 2 ^ 12 + clipped hz)
unfolding tone
tone-fields hz ms seq =
    let s = next_seq seq in
    let m = clipped ms in
    let h = clipped hz in
    let hm : m ≤ 4095 = ground arith in
    let hh : h ≤ 4095 = ground arith in
    let hs : s ≤ 255 = ground arith in
    let es : u32 (s * 2 ^ 24) ≡ s * 2 ^ 24 = omega (arith, hs) in
    let em : u32 (m * 2 ^ 12) ≡ m * 2 ^ 12 = omega (arith, hm) in
    let upper = bit_or-power 24 s (m * 2 ^ 12) (omega (arith, hm)) in
    let all = bit_or-power 12 (s * 2 ^ 12 + m) h (omega (arith, hh)) in
    let joined : s * 2 ^ 24 + m * 2 ^ 12 ≡ (s * 2 ^ 12 + m) * 2 ^ 12 = omega arith in
    ap (λ k. bit_or k h) ((λ i. bit_or (es i) (em i)) ∙ upper ∙ joined) ∙ all ∙ (omega arith)

again : (rate req : ℕ) (t : Tone) → req / 2 ^ 24 ≡ t.seen → take_request rate req t ≡ t
unfolding take_request
again rate req t h = let seen : req / 2 ^ 24 == t.seen ≡ true = ground (arith, h) in rw seen refl

seen-take_request : (rate req : ℕ) (t : Tone) → req / 2 ^ 24 ≡ (take_request rate req t).seen
unfolding take_request
seen-take_request rate req t = elim (Bool-cases (req / 2 ^ 24 == t.seen)) [
  | inl e ↦ rw e (ground (arith, e))
  | inr e ↦ rw e refl
]

take_request-tone :
    (rate hz ms seq : ℕ) (t : Tone)
    → t.seen ≢ next_seq seq
    → take_request rate (tone hz ms seq).1 t ≡ record {
      seen = next_seq seq;
      hz = clipped hz;
      pos = 0;
      len = u32 (rate * clipped ms) / 1000;
    }
unfolding take_request
take_request-tone rate hz ms seq t new =
    let s = next_seq seq in
    let m = clipped ms in
    let h = clipped hz in
    let hm : m ≤ 4095 = ground arith in
    let hh : h ≤ 4095 = ground arith in
    let req : ℕ = s * 2 ^ 24 + (m * 2 ^ 12 + h) in
    let seen : req / 2 ^ 24 ≡ s = omega (arith, hm, hh) in
    let pitch : bit_and req tone_field ≡ h = bit_and-ones 12 req ∙ (omega (arith, hh)) in
    let length_ms : bit_and (req / 2 ^ 12) tone_field ≡ m =
      bit_and-ones 12 (req / 2 ^ 12) ∙ (omega (arith, hm, hh)) in
    let fresh : s == t.seen ≡ false = ground (arith, new) in
    rw (tone-fields hz ms seq, seen, fresh, pitch, length_ms) refl

-- audio_io_tone again and again: its `seq`, and s_tone_req.
abbrev pub tones : List (ℕ × ℕ) → ℕ × ℕ → ℕ × ℕ
tones [] s = s
tones ((hz, ms) ∷ rs) (seq, req) = tones rs (tone hz ms seq)

walk : ℕ → ℕ → ℕ
walk zero seq = seq
walk (suc k) seq = walk k (next_seq seq)

walk_lem : (k s : ℕ) → 1 ≤ s → s ≤ 255 → walk k s ≡ (s - 1 + k) % 255 + 1
unfolding walk
walk_lem zero s h l = omega arith
walk_lem (suc k) s h l =
    let next : ((s ≡ 255) × (next_seq s ≡ 1)) ⊎ ((s < 255) × (next_seq s ≡ s + 1)) = ground arith in
    elim next [
      | inl (e, n) ↦
          omega (arith, n, e, walk_lem k (next_seq s) (omega (arith, n)) (omega (arith, n)))
      | inr (e, n) ↦
          omega (arith, n, e, walk_lem k (next_seq s) (omega (arith, n)) (omega (arith, n)))
    ]

next_seq-other : (k s : ℕ) → k ≤ 253 → s ≤ 255 → s ≢ next_seq (walk k s)
next_seq-other k zero h l = ground arith
next_seq-other k (suc s) h l =
    let w = walk_lem k (suc s) (omega arith) l in
    let v = walk k (suc s) in
    let next : ((v ≡ 255) × (next_seq v ≡ 1)) ⊎ ((v < 255) × (next_seq v ≡ v + 1)) =
      ground (arith, w) in
    elim next [
      | inl (e, n) ↦ λ same. omega (arith, w, e, n, same, h)
      | inr (e, n) ↦ λ same. omega (arith, w, e, n, same, h)
    ]

seq-tone : (hz ms seq : ℕ) → (tone hz ms seq).0 ≡ next_seq seq
unfolding tone
seq-tone hz ms seq = refl

tones-append :
    (rs : List (ℕ × ℕ)) (hz ms : ℕ) (s : ℕ × ℕ)
    → tones (rs ++ (hz, ms) ∷ []) s ≡ tone hz ms (walk (length rs) s.0)
unfolding walk
tones-append [] hz ms s = refl
tones-append ((h, m) ∷ rs) hz ms (seq, req) =
    tones-append rs hz ms (tone h m seq)
    ∙ ap (λ k. tone hz ms (walk (length rs) k)) (seq-tone h m seq)

-- However late the playback task looks: of up to 254 tones asked for since the request that it saw
-- last, it takes the last one as it was asked for, pitch and milliseconds cut to 4095, from its
-- beginning; and it takes it only once.
pub tones-take_request :
    (rate hz ms req : ℕ) (rs : List (ℕ × ℕ)) (t : Tone)
    → t.seen ≤ 255
    → length rs ≤ 253
    → let r = (tones (rs ++ (hz, ms) ∷ []) (t.seen, req)).1 in
      let t' = take_request rate r t in
      ((t'.hz ≡ min hz 4095) × ((t'.len ≡ u32 (rate * min ms 4095) / 1000) × (t'.pos ≡ 0)))
      × (take_request rate r t' ≡ t')
tones-take_request rate hz ms req rs t l h =
    let last = walk (length rs) t.seen in
    let r = (tones (rs ++ (hz, ms) ∷ []) (t.seen, req)).1 in
    let is : r ≡ (tone hz ms last).1 = ap (λ s. s.1) (tones-append rs hz ms (t.seen, req)) in
    let new = next_seq-other (length rs) t.seen h l in
    let taken = ap (λ k. take_request rate k t) is ∙ take_request-tone rate hz ms last t new in
    let cut : (n : ℕ) → clipped n ≡ min n 4095 = λ n. ground arith in
    (
      (
        ap (λ q. q.hz) taken ∙ cut hz,
        (ap (λ q. q.len) taken ∙ ap (λ n. u32 (rate * n) / 1000) (cut ms), ap (λ q. q.pos) taken),
      ),
      again rate r (take_request rate r t) (seen-take_request rate r t),
    )
