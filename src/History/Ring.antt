-- ===== src/History/Ring.antt =====
-- The ring of records before and after a save.
use esp32_deepgram_voice_age.Common.{
  ℕ, ◌+◌, ◌-◌, ◌%◌, ◌^◌, ◌<◌, ◌≡◌, sym, ap, ◌∙◌, ◌≢◌, ◌⊎◌, inl, inr, Option, none, some, arith,
  sub32, add32,
}
use esp32_deepgram_voice_age.History.{slots, Header}
use esp32_deepgram_voice_age.History.Newest.{IsNewest}

abbrev pub after : ℕ → ℕ
after s = (s + 1) % slots

either_slot : (i n : ℕ) → (i ≡ n) ⊎ (i ≢ n)
either_slot i n = ground arith

-- The sequence number of the record that a slot holds.
abbrev seq_of : Option Header → ℕ
seq_of none = 0
seq_of (some h) = h.seq

-- The ring keeps its newest record when the next slot is as it was, or emptied.
pub kept :
    (view now : ℕ → Option Header) (s : ℕ) (h : Header)
    → IsNewest view s h
    → ((i : ℕ) → i < slots → i ≢ after s → now i ≡ view i)
    → (now (after s) ≡ none) ⊎ (now (after s) ≡ view (after s))
    → IsNewest now s h
kept view now s h v same at = record {
  in_range = v.in_range;
  held = same s v.in_range (λ e. absurd (omega (arith, v.in_range, e))) ∙ v.held;
  behind = λ i r l e. elim (either_slot i (after s)) [
    | inr d ↦ v.behind i r l (sym (same i l d) ∙ e)
    | inl d ↦ elim at [
      | inl gone ↦
          let bad : ◌≡◌ {A = Option Header} none (some r) = sym gone ∙ ap now (sym d) ∙ e in
          absurd (cc bad)
      | inr there ↦ v.behind i r l (ap view d ∙ sym there ∙ ap now (sym d) ∙ e)
    ]
  ];
}

-- One save later, every slot but the new one lies one further behind.
number :
    (s i a b c : ℕ)
    → s < slots
    → i < slots
    → i ≢ after s
    → a < 2 ^ 32
    → b < 2 ^ 32
    → sub32 a b ≡ (s + 8 - i) % 8
    → c ≡ add32 a 1
    → sub32 c b ≡ (after s + 8 - i) % 8
number s i a b c hs hi d ha hb e c_is =
    let further : (after s + 8 - i) % 8 ≡ (s + 8 - i) % 8 + 1 = omega (arith, d) in
    let one_more : sub32 c b ≡ sub32 a b + 1 = omega arith in
    one_more ∙ ap (λ k. k + 1) e ∙ sym further

-- A new record in the next slot is the newest.
pub moved :
    (view now : ℕ → Option Header) (s : ℕ) (h new : Header)
    → IsNewest view s h
    → ((i : ℕ) → i < slots → i ≢ after s → now i ≡ view i)
    → now (after s) ≡ some new
    → new.seq ≡ add32 h.seq 1
    → IsNewest now (after s) new
moved view now s h new v same at e = record {
  in_range = omega arith;
  held = at;
  behind = λ i r l is. elim (either_slot i (after s)) [
    | inl d ↦
        let same_seq : r.seq ≡ new.seq = ap seq_of (sym is ∙ ap now d ∙ at) in
        (omega (arith, e, same_seq), omega (arith, e, same_seq, d))
    | inr d ↦
        let (w, k) = v.behind i r l (sym (same i l d) ∙ is) in
        let (hw, z) = v.behind s h v.in_range v.held in
        (w, number s i h.seq r.seq new.seq v.in_range l d hw w k e)
  ];
}
