-- ===== src/Audio/Carry.antt =====
-- The byte that audio_io_play carries over from one chunk to the next, and its counts
-- (main/audio_io.c).
use esp32_deepgram_voice_age.Common.{
  ℕ, ◌-◌, ◌%◌, ◌^◌, ◌<◌, ◌≡◌, refl, sym, inl, inr, true, false, List, [], ◌∷◌, arith, ltb, ◌==◌,
  if◌then◌else◌, Bool-cases, length, drop, add32,
}
use esp32_deepgram_voice_age.Common.Cuts.{drop_last, drop_whole}
use esp32_deepgram_voice_age.Audio.Play.{
  Err, esp_ok, esp_no_mem, Player, even_part, carry_over, count_played,
}

-- The byte that waits for the rest of its sample.
abbrev pub pending : Player → List ℕ
pending p = if p.in_carry_valid then p.in_carry ∷ [] else []

pub carry_over-pending :
    (head rest : List ℕ) (p : Player)
    → (0 == length head ≡ true → p.in_carry_valid ≡ false)
    → pending (carry_over head rest p) ≡ drop (even_part (length rest)) rest
unfolding carry_over
carry_over-pending head rest p h =
    let m = even_part (length rest) in
    elim (Bool-cases (length rest % 2 == 1)) [
      | inl e ↦ rw e (sym (drop_last m rest 0 (ground (arith, e))))
      | inr e ↦
          let gone : drop m rest ≡ [] = drop_whole m rest (ground (arith, e)) in
          rw (e, gone)
            (elim (Bool-cases (0 == length head)) [
              | inl e' ↦ rw (e', h e') refl
              | inr e' ↦ rw e' refl
            ])
    ]

-- `xs` came in, after what was pending: `n` bytes of it are queued.
pub record IsStreamed (n : ℕ) (xs : List ℕ) (p : Player) (e : Err) (q : Player) : Type 0 where
  pub answer : e ≡ (if ltb n (even_part (length xs)) then esp_no_mem else esp_ok)
  pub waiting : pending q ≡ drop (even_part (length xs)) xs
  pub played_is : q.played ≡ add32 p.played n
  pub dropped_is : q.dropped ≡ add32 p.dropped (even_part (length xs) - n)
  pub same_gap : q.gap ≡ p.gap
  pub same_mute : q.muted ≡ p.muted
  pub same_flush : q.flush_pending ≡ p.flush_pending

-- The counts are 32-bit words.
pub record HasWords (p : Player) : Type 0 where
  pub played_word : p.played < 2 ^ 32
  pub dropped_word : p.dropped < 2 ^ 32

pub carry_over-kept :
    (head rest : List ℕ) (p : Player)
    → let q = carry_over head rest p in
      (q.played ≡ p.played)
      × ((q.dropped ≡ p.dropped)
          × ((q.gap ≡ p.gap) × ((q.muted ≡ p.muted) × (q.flush_pending ≡ p.flush_pending))))
unfolding carry_over
carry_over-kept head rest p = elim (Bool-cases (length rest % 2 == 1)) [
  | inl e ↦ rw e (elim (Bool-cases (0 == length head)) [
    | inl e' ↦ rw e' (refl, (refl, (refl, (refl, refl))))
    | inr e' ↦ rw e' (refl, (refl, (refl, (refl, refl))))
  ])
  | inr e ↦ rw e (elim (Bool-cases (0 == length head)) [
    | inl e' ↦ rw e' (refl, (refl, (refl, (refl, refl))))
    | inr e' ↦ rw e' (refl, (refl, (refl, (refl, refl))))
  ])
]

pub count_played-IsStreamed :
    (n sent lost : ℕ) (xs : List ℕ) (p q : Player)
    → HasWords p
    → pending q ≡ drop (even_part (length xs)) xs
    → (q.played ≡ p.played)
      × ((q.dropped ≡ p.dropped)
          × ((q.gap ≡ p.gap) × ((q.muted ≡ p.muted) × (q.flush_pending ≡ p.flush_pending))))
    → sent ≡ n
    → lost ≡ even_part (length xs) - n
    → let (e, q') = count_played sent lost q in IsStreamed n xs p e q'
count_played-IsStreamed n sent lost xs p q v w (a, (b, (c, (d, l')))) s l =
    elim (Bool-cases (ltb 0 lost)) [
      | inl e ↦
          let more : ltb n (even_part (length xs)) ≡ true = ground (arith, l, e) in
          rw e (record {
            answer = rw more refl;
            waiting = w;
            played_is = (λ i. add32 (a i) (s i));
            dropped_is = (λ i. add32 (b i) (l i));
            same_gap = c;
            same_mute = d;
            same_flush = l';
          })
      | inr e ↦
          let more : ltb n (even_part (length xs)) ≡ false = ground (arith, l, e) in
          rw e (record {
            answer = rw more refl;
            waiting = w;
            played_is = (λ i. add32 (a i) (s i));
            dropped_is = ground (arith, b, l, e, v.dropped_word);
            same_gap = c;
            same_mute = d;
            same_flush = l';
          })
    ]
