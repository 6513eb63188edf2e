-- ===== src/Controls/Dealing.antt =====
-- The deck of callout shapes (main/controls.c).
use esp32_deepgram_voice_age.Common.{
  ℕ, zero, suc, ◌+◌, ◌-◌, ◌%◌, ◌≤◌, ◌<◌, ◌≡◌, refl, sym, ap, ◌∙◌, subst, inl, inr, true, false,
  List, [], ◌∷◌, ◌++◌, arith, ◌==◌, ==_iff, Bool-cases, length, get_or, set, take, length-set,
  get_or-set_self, get_or-set_ne,
}
use mathlib.Core.List.{Perm, perm_middle, append-nil}
use mathlib.Core.List.Perm
use esp32_deepgram_voice_age.Common.Cuts.{take_whole}
use esp32_deepgram_voice_age.Controls.{Deck, callout_shapes_n, places, swap, shuffle, deal_shape}

-- The shapes of so many deals; `randoms n` is what esp_random answers when n more follow.
unfoldable pub deals : (ℕ → ℕ → ℕ) → ℕ → Deck → List ℕ × Deck
unfolding deal_shape
deals randoms zero d = ([], d)
deals randoms (suc n) d =
    let (shape, d') = deal_shape (randoms n) d in
    let (shapes, d'') = deals randoms n d' in (shape ∷ shapes, d'')

-- A card put in the place of another.
set-perm : (d : List ℕ) (i v : ℕ) → i < length d → Perm (get_or d i 0 ∷ set d i v) (v ∷ d)
set-perm [] i v h = absurd (omega arith)
set-perm (x ∷ d) zero v h = Perm.swap v x d
set-perm (x ∷ d) (suc i) v h =
    Perm.trans (Perm.swap x (get_or d i 0) (set d i v))
      (Perm.trans (Perm.cons x (set-perm d i v (omega arith))) (Perm.swap v x d))

get_or-set_copied :
    (d : List ℕ) (i j : ℕ) → j < length d → get_or (set d i (get_or d j 0)) j 0 ≡ get_or d j 0
get_or-set_copied d i j h = elim (Bool-cases (i == j)) [
  | inl e ↦
      let same = (==_iff i j).0 e in
      ap (λ k. get_or (set d k (get_or d j 0)) j 0) same ∙ get_or-set_self d j (get_or d j 0) 0 h
  | inr e ↦ get_or-set_ne d i j (get_or d j 0) 0 (λ same. ground (arith, e, same))
]

swap-perm : (d : List ℕ) (i j : ℕ) → i < length d → j < length d → Perm (swap d i j) d
unfolding swap
swap-perm d i j h l =
    let e = set d i (get_or d j 0) in
    let room : j < length e = omega (arith, l, length-set d i (get_or d j 0)) in
    let back =
      subst (λ v. Perm (v ∷ set e j (get_or d i 0)) (get_or d i 0 ∷ e)) (get_or-set_copied d i j l)
        (set-perm e j (get_or d i 0) room) in
    Perm.cons_inv (Perm.trans back (set-perm d i (get_or d j 0) h))

length-shuffle : (random : ℕ → ℕ) (i : ℕ) (d : List ℕ) → length (shuffle random i d) ≡ length d
unfolding shuffle swap
length-shuffle random zero d = refl
length-shuffle random (suc i) d =
    let j = random (suc i) % (suc i + 1) in
    length-shuffle random i (swap d (suc i) j)
    ∙ length-set (set d (suc i) (get_or d j 0)) j (get_or d (suc i) 0)
    ∙ length-set d (suc i) (get_or d j 0)

shuffle-perm : (random : ℕ → ℕ) (i : ℕ) (d : List ℕ) → i < length d → Perm (shuffle random i d) d
unfolding shuffle
shuffle-perm random zero d h = Perm.refl d
shuffle-perm random (suc i) d h =
    let j = random (suc i) % (suc i + 1) in
    let low : j < suc i + 1 = grind arith in
    let kept : length (swap d (suc i) j) ≡ length d =
      unfold swap in
      length-set (set d (suc i) (get_or d j 0)) j (get_or d (suc i) 0)
      ∙ length-set d (suc i) (get_or d j 0) in
    Perm.trans (shuffle-perm random i (swap d (suc i) j) (omega (arith, h, kept)))
      (swap-perm d (suc i) j h (omega (arith, low, h)))

take_next : (n : ℕ) (d : List ℕ) → n < length d → take (suc n) d ≡ take n d ++ get_or d n 0 ∷ []
take_next n [] h = absurd (omega arith)
take_next zero (x ∷ d) h = refl
take_next (suc n) (x ∷ d) h = ap (◌∷◌ x) (take_next n d (omega arith))

deal_next :
    (random : ℕ → ℕ) (n : ℕ) (d : List ℕ)
    → deal_shape random (record { deck = d; left = suc n })
      ≡ (get_or d n 0, record { deck = d; left = n })
unfolding deal_shape
deal_next random n d =
    let less : suc n - 1 ≡ n = omega arith in
    let more : suc n == 0 ≡ false = ground arith in rw (more, less) refl

-- A deal `q`, and so many after it.
abbrev IsDealt : (ℕ → ℕ → ℕ) → ℕ → List ℕ → ℕ × Deck → Type 0
IsDealt randoms n cards q = let r = deals randoms n q.1 in Perm (q.0 ∷ r.0) cards × (r.1.left ≡ 0)

-- Deals from a deck that is not used up.
deals-take :
    (randoms : ℕ → ℕ → ℕ) (n : ℕ) (d : List ℕ)
    → n ≤ length d
    → let (shapes, d') = deals randoms n (record { deck = d; left = n }) in
      Perm shapes (take n d) × (d'.left ≡ 0)
unfolding deals
deals-take randoms zero d h = (Perm.refl [], refl)
deals-take randoms (suc n) d h =
    let (p, e) = deals-take randoms n d (omega (arith, h)) in
    let shapes = (deals randoms n (record { deck = d; left = n })).0 in
    let last = rw (append-nil (take n d)) at (perm_middle {a = get_or d n 0} (take n d) []) in
    let whole : Perm (get_or d n 0 ∷ shapes) (take (suc n) d) =
      subst (λ l. Perm (get_or d n 0 ∷ shapes) l) (sym (take_next n d (omega (arith, h))))
        (Perm.trans (Perm.cons (get_or d n 0) p) (Perm.symm last)) in
    subst (λ (q : ℕ × Deck). IsDealt randoms n (take (suc n) d) q) (sym (deal_next (randoms n) n d))
      (whole, e)

-- A deck that is used up is made anew.
deal_anew :
    (random : ℕ → ℕ) (d : Deck)
    → d.left ≡ 0
    → deal_shape random d
      ≡ deal_shape random
          (record { deck = shuffle random 9 (places 0 callout_shapes_n); left = callout_shapes_n })
unfolding deal_shape
deal_anew random d h = let used : d.left == 0 ≡ true = ground (arith, h) in rw used refl

-- Whatever esp_random answers and whatever is in a deck that is used up: the next ten callouts have
-- the ten shapes, each of them once, in some order; and the deck is then used up again.
pub deals-perm :
    (randoms : ℕ → ℕ → ℕ) (d : Deck)
    → d.left ≡ 0
    → let (shapes, d') = deals randoms callout_shapes_n d in
      Perm shapes (places 0 callout_shapes_n) × (d'.left ≡ 0)
unfolding deals
deals-perm randoms d h =
    let cards = shuffle (randoms 9) 9 (places 0 callout_shapes_n) in
    let full : length cards ≡ 10 = length-shuffle (randoms 9) 9 (places 0 callout_shapes_n) in
    let (p, e) = deals-take randoms callout_shapes_n cards (omega (arith, full)) in
    let all : take 10 cards ≡ cards = take_whole 10 cards (omega (arith, full)) in
    let mixed = shuffle-perm (randoms 9) 9 (places 0 callout_shapes_n) (omega arith) in
    let shapes = (deals randoms 10 (record { deck = cards; left = 10 })).0 in
    subst (λ (q : ℕ × Deck). IsDealt randoms 9 (places 0 callout_shapes_n) q)
      (sym (deal_anew (randoms 9) d h)) (Perm.trans (subst (λ l. Perm shapes l) all p) mixed, e)
