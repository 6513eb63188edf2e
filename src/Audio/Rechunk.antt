-- ===== src/Audio/Rechunk.antt =====
-- The noise suppressor's blocks against its engine run on the whole stream (main/audio_io.c).
use esp32_deepgram_voice_age.Common.{
  ℕ, zero, suc, ◌+◌, ◌%◌, ◌≤◌, ◌<◌, ◌≡◌, refl, sym, ap, ◌∙◌, inl, inr, true, false, List, [], ◌++◌,
  arith, ltb, leb, leb→le, Bool-cases, length, take, drop, length-append,
}
use mathlib.Core.List.{append_assoc, append-nil}
use esp32_deepgram_voice_age.Common.Cuts.{
  length-take, length-drop, take-append_less, drop-append_less,
}
use esp32_deepgram_voice_age.Audio.Denoise.{ns_chunk, Engine, ns_loop, chunks}

not_leb : (a b : ℕ) → leb a b ≡ false → b < a
not_leb a b h = ground (arith, h)

module _ (N : Engine) where
  pub chunks-length :
      (fuel : ℕ) (e : N.Memory) (xs : List ℕ)
      → length xs ≤ fuel
      → let (done, (e', rest)) = chunks N fuel e xs in
        (length done + length rest ≡ length xs) × (length rest ≡ length xs % ns_chunk)
  unfolding chunks
  chunks-length zero e xs h = (omega arith, omega (arith, h))
  chunks-length (suc fuel) e xs h =
      let len = length-drop ns_chunk xs in
      elim (Bool-cases (leb ns_chunk (length xs))) [
        | inl l ↦
            let big : ns_chunk ≤ length xs = leb→le ns_chunk (length xs) l in
            let e' = (N.process e (take ns_chunk xs)).1 in
            let done = (N.process e (take ns_chunk xs)).0 in
            let (a, b) = chunks-length fuel e' (drop ns_chunk xs) (omega (arith, big, len, h)) in
            let r = chunks N fuel e' (drop ns_chunk xs) in
            let one = N.length-process e (take ns_chunk xs) ∙ length-take ns_chunk xs in
            rw l
              (omega (arith, a, one, len, big, length-append done r.0), omega (arith, b, len, big))
        | inr l ↦ rw l (omega arith, omega (arith, not_leb ns_chunk (length xs) l))
      ]

  -- More fuel than samples makes no difference.
  chunks_fuel :
      (j k : ℕ) (e : N.Memory) (xs : List ℕ)
      → length xs ≤ j
      → length xs ≤ k
      → chunks N j e xs ≡ chunks N k e xs
  unfolding chunks
  chunks_fuel zero zero e xs s t = refl
  chunks_fuel zero (suc k) e xs s t =
      let small : leb ns_chunk (length xs) ≡ false = ground (arith, s) in rw small refl
  chunks_fuel (suc j) zero e xs s t =
      let small : leb ns_chunk (length xs) ≡ false = ground (arith, t) in rw small refl
  chunks_fuel (suc j) (suc k) e xs s t =
      let len = length-drop ns_chunk xs in
      elim (Bool-cases (leb ns_chunk (length xs))) [
        | inl l ↦
            let big : ns_chunk ≤ length xs = leb→le ns_chunk (length xs) l in
            let e' = (N.process e (take ns_chunk xs)).1 in
            let done = (N.process e (take ns_chunk xs)).0 in
            let same =
              chunks_fuel j k e' (drop ns_chunk xs) (omega (arith, big, len, s))
                (omega (arith, big, len, t)) in
            rw l (ap (λ r. (done ++ r.0, r.1)) same)
        | inr l ↦ rw l refl
      ]

  -- The stream goes on where it was cut.
  pub chunks-append :
      (f j : ℕ) (e : N.Memory) (xs ys : List ℕ)
      → length xs ≤ f
      → length (xs ++ ys) ≤ j
      → let (done, (e', rest)) = chunks N f e xs in
        let (more, last) = chunks N (length (rest ++ ys)) e' (rest ++ ys) in
        chunks N j e (xs ++ ys) ≡ (done ++ more, last)
  unfolding chunks
  chunks-append zero j e xs ys s t = chunks_fuel j (length (xs ++ ys)) e (xs ++ ys) t (omega arith)
  chunks-append (suc f) zero e xs ys s t =
      let small : leb ns_chunk (length xs) ≡ false = ground (arith, t, length-append xs ys) in
      rw small (chunks_fuel zero (length (xs ++ ys)) e (xs ++ ys) t (omega arith))
  chunks-append (suc f) (suc j) e xs ys s t = elim (Bool-cases (leb ns_chunk (length xs))) [
    | inl l ↦
        let big = leb→le ns_chunk (length xs) l in
        let len = length-append xs ys in
        let all : leb ns_chunk (length (xs ++ ys)) ≡ true = ground (arith, big, len) in
        let (done, e') = N.process e (take ns_chunk xs) in
        let len' = length-drop ns_chunk xs in
        let len'' = length-append (drop ns_chunk xs) ys in
        let ih =
          chunks-append f j e' (drop ns_chunk xs) ys (omega (arith, len', s, big))
            (omega (arith, len', len'', len, t, big)) in
        let r = chunks N f e' (drop ns_chunk xs) in
        let next = chunks N (length (r.1.1 ++ ys)) r.1.0 (r.1.1 ++ ys) in
        rw (l, all, take-append_less ns_chunk xs ys big, drop-append_less ns_chunk xs ys big, ih)
          (λ i. (sym (append_assoc done r.0 next.0) i, next.1))
    | inr l ↦ rw l (chunks_fuel (suc j) (length (xs ++ ys)) e (xs ++ ys) t (omega arith))
  ]

  pub chunks_short :
      (fuel : ℕ) (e : N.Memory) (xs : List ℕ) → length xs < ns_chunk → (chunks N fuel e xs).0 ≡ []
  unfolding chunks
  chunks_short zero e xs h = refl
  chunks_short (suc fuel) e xs h =
      let small : leb ns_chunk (length xs) ≡ false = ground (arith, h) in rw small refl

  -- With room for what there is, the loop never stops early.
  pub ns_loop-chunks :
      (cap fuel : ℕ) (input out : List ℕ) (e : N.Memory)
      → length out + length input ≤ cap
      → let (done, (e', rest)) = chunks N fuel e input in
        ns_loop N cap fuel input out e ≡ (rest, (out ++ done, e'))
  unfolding chunks ns_loop
  ns_loop-chunks cap zero input out e h = λ i. (input, (sym (append-nil out) i, e))
  ns_loop-chunks cap (suc fuel) input out e h = elim (Bool-cases (leb ns_chunk (length input))) [
    | inl l ↦
        let big = leb→le ns_chunk (length input) l in
        let room : ltb cap (length out + ns_chunk) ≡ false = ground (arith, big, h) in
        let (done, e') = N.process e (take ns_chunk input) in
        let one = N.length-process e (take ns_chunk input) ∙ length-take ns_chunk input in
        let r = chunks N fuel e' (drop ns_chunk input) in
        rw (l, room)
          (ns_loop-chunks cap fuel (drop ns_chunk input) (out ++ done) e'
              (omega (arith, h, big, one, length-append out done, length-drop ns_chunk input))
            ∙ (λ i. (r.1.1, (append_assoc out done r.0 i, r.1.0))))
    | inr l ↦ rw l (λ i. (input, (sym (append-nil out) i, e)))
  ]
