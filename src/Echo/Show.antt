-- ===== src/Echo/Show.antt =====
-- The sequence as it plays, tick by tick.
use esp32_deepgram_voice_age.Common.{
  ℕ, zero, suc, ◌+◌, ◌-◌, ◌*◌, ◌/◌, ◌^◌, ◌≤◌, ◌<◌, ◌≡◌, refl, ap, ◌∙◌, subst, ◌⊎◌, inl, inr, false,
  Option, none, some, List, [], ◌∷◌, arith, length, get_or, drop, All, map, ◌++◌, sub32, add32,
}
use mathlib.Core.List.{Sublist, nil-sublist, sublist_of_cons-sublist}
use mathlib.Core.List.Sublist
use esp32_deepgram_voice_age.Echo.{
  State, speak, show, input, Echo, echo_lead_ms, echo_step_ms, Tick, echo_tick,
}
use esp32_deepgram_voice_age.Echo.Invariant.{Inv, echo_tick-Inv}

-- Ticks at the given times, with the agent silent: the game after them, and what each one sounded.
pub run_ticks : Echo → List ℕ → Echo × List (Option ℕ)
run_ticks g [] = (g, [])
run_ticks g (t ∷ ts) =
    let r = echo_tick g t false in let (g', rest) = run_ticks r.game ts in (g', r.tone ∷ rest)

-- The quarters that were sounded.
abbrev pub heard : List (Option ℕ) → List ℕ
heard [] = []
heard (none ∷ r) = heard r
heard (some k ∷ r) = k ∷ heard r

-- `offset` ms into step i.
abbrev pub moment : ℕ → ℕ → ℕ → ℕ
moment since i offset = add32 since (echo_lead_ms + i * 600 + offset)

-- The moments of the first tick of step i and of the further ones, of the same for step i + 1, and
-- so on.
pub step_times : ℕ → ℕ → List (ℕ × List ℕ) → List ℕ
step_times since i [] = []
step_times since i ((offset, more) ∷ rest) =
    moment since i offset ∷ (map (moment since i) more ++ step_times since (i + 1) rest)

-- Steps i, i + 1, ... of a sequence, `n` of them.
abbrev pub steps : List ℕ → ℕ → ℕ → List ℕ
steps xs i zero = []
steps xs i (suc n) = get_or xs i 0 ∷ steps xs (i + 1) n

-- The first tick of a step falls in its lit part, and each further one in the step.
abbrev pub InStep : ℕ × List ℕ → Type 0
InStep (offset, more) = (offset < echo_step_ms) × All (λ o. o < 600) more

tick_sounds :
    (g : Echo) (i offset : ℕ)
    → Inv g
    → g.state ≡ show
    → g.position ≡ i
    → i < g.len
    → g.since_ms < 2 ^ 32
    → offset < echo_step_ms
    → echo_tick g (add32 g.since_ms (echo_lead_ms + i * 600 + offset)) false ≡ record {
      game = record g { position = i + 1 };
      lit = some (get_or g.seq i 0);
      tone = some (get_or g.seq i 0);
    }
unfolding echo_tick
tick_sounds g i offset v e p h s o =
    let d : i ≡ (i * 600 + offset) / 600 = omega arith in
    let w : sub32 (add32 g.since_ms (echo_lead_ms + i * 600 + offset)) g.since_ms
        ≡ echo_lead_ms + i * 600 + offset =
      omega (arith, v.len_capped) in
    ground arith

tick_turns :
    (g : Echo) (d : ℕ)
    → g.state ≡ show
    → g.since_ms < 2 ^ 32
    → d < 2 ^ 32
    → echo_lead_ms + g.len * 600 ≤ d
    → ((echo_tick g (add32 g.since_ms d) false).game.state ≡ input)
      × ((echo_tick g (add32 g.since_ms d) false).game.position ≡ 0)
      × ((echo_tick g (add32 g.since_ms d) false).tone ≡ none)
unfolding echo_tick
tick_turns g d e s u h = ground arith

-- A tick that changes nothing and sounds nothing.
IsIdle : Echo → ℕ → Type 0
IsIdle g t = (echo_tick g t false).game ≡ g × (echo_tick g t false).tone ≡ none

tick_again :
    (g : Echo) (i offset : ℕ)
    → Inv g
    → g.state ≡ show
    → g.position ≡ i + 1
    → i < g.len
    → g.since_ms < 2 ^ 32
    → offset < 600
    → IsIdle g (moment g.since_ms i offset)
unfolding echo_tick IsIdle
tick_again g i offset v e p h s o =
    let d : i ≡ (i * 600 + offset) / 600 = omega arith in
    let w : sub32 (moment g.since_ms i offset) g.since_ms ≡ echo_lead_ms + i * 600 + offset =
      omega (arith, v.len_capped) in
    ground arith

tick_leads :
    (g : Echo) (d : ℕ)
    → g.state ≡ show
    → g.since_ms < 2 ^ 32
    → d < echo_lead_ms
    → IsIdle g (add32 g.since_ms d)
unfolding echo_tick IsIdle
tick_leads g d e s h = ground arith

IsIdle-map :
    (g : Echo) (f : ℕ → ℕ) (bound : ℕ) (os : List ℕ)
    → ((o : ℕ) → o < bound → IsIdle g (f o))
    → All (λ o. o < bound) os
    → All (IsIdle g) (map f os)
IsIdle-map g f bound [] h a = tt
IsIdle-map g f bound (o ∷ os) h (b, a) = (h o b, IsIdle-map g f bound os h a)

-- Idle ticks may be left out.
run_ticks_idle :
    (g : Echo) (us ts : List ℕ)
    → All (IsIdle g) us
    → let r = run_ticks g (us ++ ts) in
      let r' = run_ticks g ts in (r.0 ≡ r'.0) × (heard r.1 ≡ heard r'.1)
unfolding run_ticks IsIdle
run_ticks_idle g [] ts a = (refl, refl)
run_ticks_idle g (u ∷ us) ts ((same, quiet), a) =
    let (game, tones) = run_ticks_idle g us ts a in
    let rest = run_ticks (echo_tick g u false).game (us ++ ts) in
    (
      ap (λ x. (run_ticks x (us ++ ts)).0) same ∙ game,
      ap (λ o. heard (o ∷ rest.1)) quiet
          ∙ (ap (λ x. heard (run_ticks x (us ++ ts)).1) same ∙ tones),
    )

-- What the ticks of the steps from `i` on lead to.
record Sounded (g : Echo) (i n : ℕ) (r : Echo × List (Option ℕ)) : Type 0 where
  tones : heard r.1 ≡ steps g.seq i n
  still_show : r.0.state ≡ show
  same_since : r.0.since_ms ≡ g.since_ms
  same_len : r.0.len ≡ g.len

run_ticks-Sounded :
    (g : Echo) (i : ℕ) (os : List (ℕ × List ℕ))
    → Inv g
    → g.state ≡ show
    → g.position ≡ i
    → i + length os ≤ g.len
    → g.since_ms < 2 ^ 32
    → All InStep os
    → Sounded g i (length os) (run_ticks g (step_times g.since_ms i os))
unfolding run_ticks step_times
run_ticks-Sounded g i [] v e p h s o = record {
  tones = refl;
  still_show = e;
  same_since = refl;
  same_len = refl;
}
run_ticks-Sounded g i ((offset, more) ∷ os) v e p h s ((o, m), a) =
    let t : ℕ = moment g.since_ms i offset in
    let q = tick_sounds g i offset v e p (omega arith) s o in
    let v' = subst (λ (r : Tick). Inv r.game) q (echo_tick-Inv g t false v) in
    let g' : Echo = record g { position = i + 1 } in
    let idle =
      IsIdle-map g' (moment g.since_ms i) 600 more
        (λ w b. tick_again g' i w v' e refl (omega arith) s b) m in
    let (game, quiet) =
      run_ticks_idle g' (map (moment g.since_ms i) more) (step_times g.since_ms (i + 1) os) idle in
    let r = run_ticks-Sounded g' (i + 1) os v' e refl (omega arith) s a in
    rw q (record {
      tones = ap (λ xs. get_or g.seq i 0 ∷ xs) (quiet ∙ r.tones);
      still_show = ap (λ (x : Echo). x.state) game ∙ r.still_show;
      same_since = ap (λ (x : Echo). x.since_ms) game ∙ r.same_since;
      same_len = ap (λ (x : Echo). x.len) game ∙ r.same_len;
    })

-- With the agent silent, after any ticks in the 600 ms of lead, and with ticks in each step of 600
-- ms of which the first falls in the 420 ms for which it is lit, however many follow it in the step:
-- a round sounds its whole sequence, each step once and in order; the first tick after the last step
-- sounds nothing and hands the turn to the player, from the first step. All this across a wrap of
-- the 32-bit clock.
pub show_plays-All :
    (g : Echo) (lead : List ℕ) (os : List (ℕ × List ℕ)) (d : ℕ)
    → Inv g
    → g.state ≡ show
    → g.position ≡ 0
    → length os ≡ g.len
    → g.since_ms < 2 ^ 32
    → All (λ o. o < echo_lead_ms) lead
    → All InStep os
    → echo_lead_ms + g.len * 600 ≤ d
    → d < 2 ^ 32
    → let r = run_ticks g (map (add32 g.since_ms) lead ++ step_times g.since_ms 0 os) in
      let last = echo_tick r.0 (add32 g.since_ms d) false in
      (heard r.1 ≡ steps g.seq 0 g.len)
      × (last.tone ≡ none)
      × (last.game.state ≡ input)
      × (last.game.position ≡ 0)
show_plays-All g lead os d v e p n s l o lo hi =
    let waits = map (add32 g.since_ms) lead in
    let idle = IsIdle-map g (add32 g.since_ms) echo_lead_ms lead (λ w b. tick_leads g w e s b) l in
    let (game, quiet) = run_ticks_idle g waits (step_times g.since_ms 0 os) idle in
    let r = run_ticks-Sounded g 0 os v e p (omega arith) s o in
    let played = run_ticks g (waits ++ step_times g.since_ms 0 os) in
    let since = ap (λ (x : Echo). x.since_ms) game ∙ r.same_since in
    let len = ap (λ (x : Echo). x.len) game ∙ r.same_len in
    let shows = ap (λ (x : Echo). x.state) game ∙ r.still_show in
    let turn = tick_turns played.0 d shows (rw since s) hi (rw len lo) in
    (quiet ∙ (r.tones ∙ ap (steps g.seq 0) n), ground arith, ground arith, ground arith)

-- The steps that the ticks of this round may still sound.
abbrev pub to_come : State → Echo → List ℕ
to_come speak g = g.seq
to_come show g = drop g.position g.seq
to_come _ g = []

-- The tick went past step `i`.
record Passed (g : Echo) (r : Tick) (i : ℕ) : Type 0 where
  showing : g.state ≡ show
  still : r.game.state ≡ show
  same_seq : r.game.seq ≡ g.seq
  moved : r.game.position ≡ suc i
  ahead : g.position ≤ i
  within : i < g.len
  sounds_it : (r.tone ≡ none) ⊎ (r.tone ≡ some (get_or g.seq i 0))

tick_cases :
    (g : Echo) (t : ℕ)
    → Inv g
    → let r = echo_tick g t false in
      ((r.tone ≡ none) × (to_come r.game.state r.game ≡ to_come g.state g))
      ⊎ (((r.tone ≡ none) × (to_come r.game.state r.game ≡ [])) ⊎ Passed g r (r.game.position - 1))
unfolding echo_tick
tick_cases g t v = ground arith

sublist-drop-cons :
    (xs zs : List ℕ) (p i : ℕ)
    → p ≤ i
    → i < length xs
    → Sublist zs (drop (suc i) xs)
    → Sublist (get_or xs i 0 ∷ zs) (drop p xs)
sublist-drop-cons [] zs p i h l s = absurd (omega arith)
sublist-drop-cons (x ∷ xs) zs zero zero h l s = Sublist.cons-cons x s
sublist-drop-cons (x ∷ xs) zs zero (suc i) h l s =
    Sublist.cons x (sublist-drop-cons xs zs zero i (omega arith) (omega arith) s)
sublist-drop-cons (x ∷ xs) zs (suc p) zero h l s = absurd (omega arith)
sublist-drop-cons (x ∷ xs) zs (suc p) (suc i) h l s =
    sublist-drop-cons xs zs p i (omega arith) (omega arith) s

Passed-sublist :
    (g : Echo) (r : Tick) (i : ℕ) (tail : List (Option ℕ))
    → Inv g
    → Passed g r i
    → Sublist (heard tail) (to_come r.game.state r.game)
    → Sublist (heard (r.tone ∷ tail)) (to_come g.state g)
Passed-sublist g r i tail v p s =
    let s' : Sublist (heard tail) (drop (suc i) g.seq) = rw (p.still, p.moved, p.same_seq) at s in
    let joined : Sublist (get_or g.seq i 0 ∷ heard tail) (drop g.position g.seq) =
      sublist-drop-cons g.seq (heard tail) g.position i p.ahead
        (omega (arith, p.within, v.len_capped, v.seq_size)) s' in
    rw p.showing (elim p.sounds_it [
      | inl silent ↦ rw silent (sublist_of_cons-sublist joined)
      | inr sounded ↦ rw sounded joined
    ])

-- However the frames fall, while the agent is silent the quarters sounded are steps of the sequence
-- that were still to come, each at most once and in order.
pub heard-sublist :
    (g : Echo) (ts : List ℕ) → Inv g → Sublist (heard (run_ticks g ts).1) (to_come g.state g)
unfolding run_ticks
heard-sublist g [] v = nil-sublist _
heard-sublist g (t ∷ ts) v =
    let r = echo_tick g t false in
    let rest = heard-sublist r.game ts (echo_tick-Inv g t false v) in
    elim (tick_cases g t v) [
      | inl same ↦ rw same.0 (rw same.1 at rest)
      | inr (inl ended) ↦ rw ended.0 (Sublist.trans (rw ended.1 at rest) (nil-sublist _))
      | inr (inr p) ↦ Passed-sublist g r _ (run_ticks r.game ts).1 v p rest
    ]
