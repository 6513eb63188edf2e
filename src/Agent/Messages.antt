-- ===== src/Agent/Messages.antt =====
-- Whole messages of the agent service (main/dg_agent.c).
use esp32_deepgram_voice_age.Common.{
  ℕ, ◌+◌, ◌≡◌, refl, sym, ap, ◌∙◌, inl, inr, Bool, true, false, List, [], ◌∷◌, ◌++◌, arith, ltb,
  leb, if◌then◌else◌, Bool-cases, length, length-append,
}
use mathlib.Core.List.{append_assoc, append-nil}
use esp32_deepgram_voice_age.Agent.{Piece, Reassembly, starts, ends, keep, fresh, accumulate_json}

unfoldable pub accumulate : ℕ → List Piece → Reassembly → Reassembly × List (List ℕ)
accumulate json_max [] r = (r, [])
accumulate json_max (ev ∷ evs) r =
    let (r', done) = accumulate_json json_max ev r in
    let (r'', more) = accumulate json_max evs r' in (r'', done ++ more)

-- The pieces of a message behind its first: the last one ends it, and no other does.
abbrev pub IsRest : List Piece → Type 0
IsRest [] = true ≡ false
IsRest (ev ∷ []) = (starts ev ≡ false) × (ends ev ≡ true)
IsRest (ev ∷ ev' ∷ evs) = (starts ev ≡ false) × ((ends ev ≡ false) × IsRest (ev' ∷ evs))

abbrev pub IsMessage : List Piece → Type 0
IsMessage [] = true ≡ false
IsMessage (ev ∷ []) = (starts ev ≡ true) × (ends ev ≡ true)
IsMessage (ev ∷ ev' ∷ evs) = (starts ev ≡ true) × ((ends ev ≡ false) × IsRest (ev' ∷ evs))

abbrev pub text_of : List Piece → List ℕ
text_of [] = []
text_of (ev ∷ evs) = ev.bytes ++ text_of evs

-- What is kept of the bytes so far.
so_far : ℕ → List ℕ → Reassembly
so_far json_max t =
    if leb (length t) json_max
    then record { json = t; dropping = false }
    else record { json = []; dropping = true }

keep-so_far :
    (json_max : ℕ) (bytes t : List ℕ)
    → keep json_max bytes (so_far json_max t) ≡ so_far json_max (t ++ bytes)
unfolding keep so_far
keep-so_far json_max bytes t =
    let len = length-append t bytes in
    elim (Bool-cases (leb (length t) json_max)) [
      | inl e ↦ elim (Bool-cases (leb (length (t ++ bytes)) json_max)) [
        | inl e' ↦
            let fits : ltb json_max (length t + length bytes) ≡ false = ground (arith, e', len) in
            rw (e, e', fits) refl
        | inr e' ↦
            let over : ltb json_max (length t + length bytes) ≡ true = ground (arith, e', len) in
            rw (e, e', over) refl
      ]
      | inr e ↦
          let over : leb (length (t ++ bytes)) json_max ≡ false = ground (arith, e, len) in
          rw (e, over) refl
    ]

-- The end of a message.
abbrev handled : ℕ → List ℕ → List (List ℕ)
handled json_max t = if leb (length t) json_max then t ∷ [] else []

last_piece :
    (json_max : ℕ) (t : List ℕ)
    → (if (so_far json_max t).dropping then [] else (so_far json_max t).json ∷ [])
      ≡ handled json_max t
unfolding so_far
last_piece json_max t = elim (Bool-cases (leb (length t) json_max)) [
  | inl e ↦ rw e refl
  | inr e ↦ rw e refl
]

-- A piece, by whether it starts and ends its message.
piece_by : ℕ → Piece → Reassembly → Bool → Bool → Reassembly × List (List ℕ)
piece_by json_max ev r s e =
    let r' = keep json_max ev.bytes (if s then fresh else r) in
    if e then (fresh, (if r'.dropping then [] else r'.json ∷ [])) else (r', [])

piece_is :
    (json_max : ℕ) (ev : Piece) (r : Reassembly)
    → accumulate_json json_max ev r ≡ piece_by json_max ev r (starts ev) (ends ev)
unfolding accumulate_json piece_by
piece_is json_max ev r = refl

fresh-so_far : (json_max : ℕ) → fresh ≡ so_far json_max []
unfolding so_far
fresh-so_far json_max = let fits : leb 0 json_max ≡ true = ground arith in rw fits refl

-- `t` is what the piece finds, once the start of a message has cleared it.
inner_piece :
    (json_max : ℕ) (ev : Piece) (r : Reassembly) (s : Bool) (t : List ℕ)
    → starts ev ≡ s
    → (if s then fresh else r) ≡ so_far json_max t
    → ends ev ≡ false
    → accumulate_json json_max ev r ≡ (so_far json_max (t ++ ev.bytes), [])
unfolding piece_by
inner_piece json_max ev r s t h k e =
    piece_is json_max ev r
    ∙ (λ i. piece_by json_max ev r (h i) (e i))
    ∙ ap (λ r'. (keep json_max ev.bytes r', [])) k
    ∙ ap (λ r'. (r', [])) (keep-so_far json_max ev.bytes t)

end_piece :
    (json_max : ℕ) (ev : Piece) (r : Reassembly) (s : Bool) (t : List ℕ)
    → starts ev ≡ s
    → (if s then fresh else r) ≡ so_far json_max t
    → ends ev ≡ true
    → accumulate_json json_max ev r ≡ (fresh, handled json_max (t ++ ev.bytes))
unfolding piece_by
end_piece json_max ev r s t h k e =
    let out : Reassembly → List (List ℕ) = λ r'. if r'.dropping then [] else r'.json ∷ [] in
    piece_is json_max ev r
    ∙ (λ i. piece_by json_max ev r (h i) (e i))
    ∙ ap (λ r'. (fresh, out (keep json_max ev.bytes r'))) k
    ∙ ap (λ r'. (fresh, out r')) (keep-so_far json_max ev.bytes t)
    ∙ ap (λ l. (fresh, l)) (last_piece json_max (t ++ ev.bytes))

accumulate-rest :
    (json_max : ℕ) (evs : List Piece) (t : List ℕ)
    → IsRest evs
    → accumulate json_max evs (so_far json_max t) ≡ (fresh, handled json_max (t ++ text_of evs))
unfolding accumulate
accumulate-rest json_max [] t h = cc h
accumulate-rest json_max (ev ∷ []) t (s, e) =
    ap (λ r. (r.0, r.1 ++ [])) (end_piece json_max ev (so_far json_max t) false t s refl e)
    ∙ ap (λ l. (fresh, l)) (append-nil (handled json_max (t ++ ev.bytes)))
    ∙ ap (λ l. (fresh, handled json_max (t ++ l))) (sym (append-nil ev.bytes))
accumulate-rest json_max (ev ∷ ev' ∷ evs) t (s, (e, h)) =
    let step : Reassembly × List (List ℕ) → Reassembly × List (List ℕ) =
      λ r. let r' = accumulate json_max (ev' ∷ evs) r.0 in (r'.0, r.1 ++ r'.1) in
    ap step (inner_piece json_max ev (so_far json_max t) false t s refl e)
    ∙ accumulate-rest json_max (ev' ∷ evs) (t ++ ev.bytes) h
    ∙ ap (λ l. (fresh, handled json_max l)) (append_assoc t ev.bytes (text_of (ev' ∷ evs)))

-- Whatever was left of a message before, a whole message, in any pieces: the first one starts it,
-- the last one and no other ends it. `handle_json` is called once, with its bytes put together, if
-- they fit, and not at all if they do not; and nothing of it is left for the next message.
pub accumulate-message :
    (json_max : ℕ) (evs : List Piece) (r : Reassembly)
    → IsMessage evs
    → accumulate json_max evs r
      ≡ (fresh, (if leb (length (text_of evs)) json_max then text_of evs ∷ [] else []))
unfolding accumulate
accumulate-message json_max [] r h = cc h
accumulate-message json_max (ev ∷ []) r (s, e) =
    ap (λ q. (q.0, q.1 ++ [])) (end_piece json_max ev r true [] s (fresh-so_far json_max) e)
    ∙ ap (λ l. (fresh, l)) (append-nil (handled json_max ev.bytes))
    ∙ ap (λ l. (fresh, handled json_max l)) (sym (append-nil ev.bytes))
accumulate-message json_max (ev ∷ ev' ∷ evs) r (s, (e, h)) =
    let step : Reassembly × List (List ℕ) → Reassembly × List (List ℕ) =
      λ q. let r' = accumulate json_max (ev' ∷ evs) q.0 in (r'.0, q.1 ++ r'.1) in
    ap step (inner_piece json_max ev r true [] s (fresh-so_far json_max) e)
    ∙ accumulate-rest json_max (ev' ∷ evs) ev.bytes h
