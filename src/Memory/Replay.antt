-- ===== src/Memory/Replay.antt =====
-- Which turns a new session is given: `history_to_json`.
use esp32_deepgram_voice_age.Common.{
  ℕ, ◌+◌, ◌-◌, ◌≤◌, ◌<◌, ◌≡◌, refl, sym, ap, ◌∙◌, subst, ◌⊎◌, inl, inr, true, false, List, [], ◌∷◌,
  ◌++◌, arith, ltb, leb, ◌==◌, Bool-cases, length, drop, length-append,
}
use mathlib.Core.List.{reverse, reverse-cons, reverse-append, reverse-reverse, append-nil}
use esp32_deepgram_voice_age.Memory.{
  history_replay_bytes, history_replay_max_turns, turn_json_overhead, Idx, replay_count, replayed,
}
use esp32_deepgram_voice_age.Memory.Turns.{drop-append}

-- What these turns take of the send budget.
abbrev pub cost : List Idx → ℕ
cost [] = 0
cost (t ∷ ts) = t.len + turn_json_overhead + cost ts

-- `sent` is the end of the index: six turns at most, within the budget or one alone, and as many
-- as that allows.
pub record IsReplay (idx sent : List Idx) : Type 0 where
  pub older : List Idx
  pub split : idx ≡ older ++ sent
  pub few : length sent ≤ history_replay_max_turns
  pub some_sent : (length idx ≡ 0) ⊎ (1 ≤ length sent)
  pub cheap : (cost sent ≤ history_replay_bytes) ⊎ (length sent ≡ 1)
  pub most :
      (older ≡ [])
      ⊎ ((os : List Idx) × (t : Idx) × (older ≡ os ++ (t ∷ []))
          × ((length sent ≡ history_replay_max_turns) ⊎ (history_replay_bytes < cost (t ∷ sent))))

-- The same of the walk over the turns newest first.
record Walk (turns : List Idx) (budget taken n : ℕ) : Type 0 where
  newer : List Idx
  older : List Idx
  split : turns ≡ newer ++ older
  count : n ≡ taken + length newer
  few : n ≤ history_replay_max_turns
  cheap : cost newer ≤ budget
  ends :
      (older ≡ [])
      ⊎ ((t : Idx) × (os : List Idx) × (older ≡ t ∷ os)
          × ((n ≡ history_replay_max_turns) ⊎ (budget < t.len + turn_json_overhead + cost newer)))

walk_on :
    (t : Idx) (ts : List Idx) (budget taken n : ℕ)
    → t.len + turn_json_overhead ≤ budget
    → Walk ts (budget - (t.len + turn_json_overhead)) (taken + 1) n
    → Walk (t ∷ ts) budget taken n
walk_on t ts budget taken n h w = record {
  newer = t ∷ w.newer;
  older = w.older;
  split = ap (λ r. t ∷ r) w.split;
  count = omega (arith, w.count);
  few = w.few;
  cheap = omega (arith, w.cheap);
  ends = elim w.ends [
    | inl e ↦ inl e
    | inr (u, us, is, inl full) ↦ inr (u, us, is, inl full)
    | inr (u, us, is, inr dear) ↦ inr (u, us, is, inr (omega arith))
  ];
}

stop :
    (turns : List Idx) (budget taken : ℕ)
    → taken ≤ history_replay_max_turns
    → (turns ≡ [])
      ⊎ ((t : Idx) × (os : List Idx) × (turns ≡ t ∷ os)
          × ((taken ≡ history_replay_max_turns) ⊎ (budget < t.len + turn_json_overhead + 0)))
    → Walk turns budget taken taken
stop turns budget taken h e = record {
  newer = [];
  older = turns;
  split = refl;
  count = omega arith;
  few = h;
  cheap = omega arith;
  ends = e;
}

replay_count-Walk :
    (turns : List Idx) (budget taken : ℕ)
    → taken ≤ history_replay_max_turns
    → Walk turns budget taken (replay_count turns budget taken)
unfolding replay_count
replay_count-Walk [] budget taken h = stop [] budget taken h (inl refl)
replay_count-Walk (t ∷ ts) budget taken h =
    let price = t.len + turn_json_overhead in
    elim (Bool-cases (ltb taken history_replay_max_turns)) [
      | inr e ↦ rw e (stop (t ∷ ts) budget taken h (inr (t, ts, refl, inl (ground arith))))
      | inl e ↦ elim (Bool-cases (leb price budget)) [
        | inr d ↦ rw (e, d) (stop (t ∷ ts) budget taken h (inr (t, ts, refl, inr (ground arith))))
        | inl d ↦
            rw (e, d)
              (walk_on t ts budget taken (replay_count ts (budget - price) (taken + 1))
                (ground arith) (replay_count-Walk ts (budget - price) (taken + 1) (ground arith)))
      ]
    ]

length-reverse : (xs : List Idx) → length (reverse xs) ≡ length xs
length-reverse [] = refl
length-reverse (x ∷ xs) =
    rw (reverse-cons x xs) (omega (arith, length-append (reverse xs) (x ∷ []), length-reverse xs))

cost-append : (xs ys : List Idx) → cost (xs ++ ys) ≡ cost xs + cost ys
cost-append [] ys = omega arith
cost-append (x ∷ xs) ys = omega (arith, cost-append xs ys)

cost-reverse : (xs : List Idx) → cost (reverse xs) ≡ cost xs
cost-reverse [] = refl
cost-reverse (x ∷ xs) =
    rw (reverse-cons x xs) (omega (arith, cost-append (reverse xs) (x ∷ []), cost-reverse xs))

-- The index, cut where the walk over it newest first ended.
unreverse :
    (idx newer older : List Idx)
    → reverse idx ≡ newer ++ older
    → idx ≡ reverse older ++ reverse newer
unreverse idx newer older e = sym (reverse-reverse idx) ∙ ap reverse e ∙ reverse-append newer older

drop_to :
    (idx older sent : List Idx) (n : ℕ)
    → idx ≡ older ++ sent
    → n ≡ length sent
    → drop (length idx - n) idx ≡ sent
drop_to idx older sent n e h =
    rw e (
      drop-append (length (older ++ sent) - n) older sent (omega (arith, length-append older sent)))

ends-reverse :
    (older sent : List Idx)
    → (older ≡ [])
      ⊎ ((t : Idx) × (os : List Idx) × (older ≡ t ∷ os)
          × ((length sent ≡ history_replay_max_turns) ⊎ (history_replay_bytes < cost (t ∷ sent))))
    → (reverse older ≡ [])
      ⊎ ((os : List Idx) × (t : Idx) × (reverse older ≡ os ++ (t ∷ []))
          × ((length sent ≡ history_replay_max_turns) ⊎ (history_replay_bytes < cost (t ∷ sent))))
ends-reverse older sent (inl e) = inl (ap reverse e)
ends-reverse older sent (inr (t, os, is, limit)) =
    inr (reverse os, t, ap reverse is ∙ reverse-cons t os, limit)

replayed_some :
    (idx : List Idx)
    → let n = replay_count (reverse idx) history_replay_bytes 0 in
      Walk (reverse idx) history_replay_bytes 0 n → (n == 0) ≡ false → IsReplay idx (replayed idx)
unfolding replayed
replayed_some idx w e =
    let n = replay_count (reverse idx) history_replay_bytes 0 in
    let parts = unreverse idx w.newer w.older w.split in
    let len = length-reverse w.newer in
    let count : n ≡ length (reverse w.newer) = omega (arith, len, w.count) in
    let paid = cost-reverse w.newer in
    let is = drop_to idx (reverse w.older) (reverse w.newer) n parts count in
    rw (e, is)
      (record {
        older = reverse w.older;
        split = parts;
        few = omega (arith, count, w.few);
        some_sent = inr (ground arith);
        cheap = inl (omega (arith, paid, w.cheap));
        most = ends-reverse w.older (reverse w.newer) (elim w.ends [
          | inl none_left ↦ inl none_left
          | inr (t, os, at, inl full) ↦ inr (t, os, at, inl (omega arith))
          | inr (t, os, at, inr dear) ↦ inr (t, os, at, inr (omega arith))
        ]);
      })

alone :
    (t : Idx) (os idx : List Idx)
    → idx ≡ reverse os ++ (t ∷ [])
    → history_replay_bytes < cost (t ∷ [])
    → IsReplay idx (t ∷ [])
alone t os idx e dear = record {
  older = reverse os;
  split = e;
  few = omega arith;
  some_sent = inr (omega arith);
  cheap = inr refl;
  most = ends-reverse os (t ∷ []) (dearer os);
}
  where
    dearer :
        (us : List Idx)
        → (us ≡ [])
          ⊎ ((u : Idx) × (vs : List Idx) × (us ≡ u ∷ vs)
              × ((1 ≡ history_replay_max_turns) ⊎ (history_replay_bytes < cost (u ∷ t ∷ []))))
    dearer [] = inl refl
    dearer (u ∷ us) = inr (u, us, refl, inr (omega arith))

length-zero : (xs : List Idx) → length xs ≡ 0 → xs ≡ []
length-zero [] e = refl
length-zero (x ∷ xs) e = absurd (omega arith)

replayed_one :
    (idx : List Idx)
    → let n = replay_count (reverse idx) history_replay_bytes 0 in
      Walk (reverse idx) history_replay_bytes 0 n → (n == 0) ≡ true → IsReplay idx (replayed idx)
unfolding replayed
replayed_one idx w e =
    let n = replay_count (reverse idx) history_replay_bytes 0 in
    let parts = unreverse idx w.newer w.older w.split in
    let none_new = length-zero w.newer (ground (arith, w.count)) in
    let whole : idx ≡ reverse w.older =
      parts ∙ ap (λ r. reverse w.older ++ reverse r) none_new ∙ append-nil (reverse w.older) in
    rw e (elim w.ends [
      | inl o ↦
          subst (λ i. IsReplay i (drop (length i - 1) i)) (sym (whole ∙ ap reverse o))
            (record {
              older = [];
              split = refl;
              few = omega arith;
              some_sent = inl refl;
              cheap = inl (omega arith);
              most = inl refl;
            })
      | inr (t, os, is, inl full) ↦ absurd (ground arith)
      | inr (t, os, is, inr dear) ↦
          let newest_last : idx ≡ reverse os ++ (t ∷ []) =
            whole ∙ ap reverse is ∙ reverse-cons t os in
          let alone_dear : history_replay_bytes < cost (t ∷ []) =
            omega (arith, dear, ap cost none_new) in
          rw (drop_to idx (reverse os) (t ∷ []) 1 newest_last refl)
            (alone t os idx newest_last alone_dear)
    ])

-- A new session is given the newest turns: at most six, and of a cost within the budget or one
-- turn alone; at least one where there is any; and one turn more would pass one of the limits.
pub replayed-IsReplay : (idx : List Idx) → IsReplay idx (replayed idx)
replayed-IsReplay idx =
    let n = replay_count (reverse idx) history_replay_bytes 0 in
    let w = replay_count-Walk (reverse idx) history_replay_bytes 0 (omega arith) in
    elim (Bool-cases (n == 0)) [ inl e ↦ replayed_one idx w e | inr e ↦ replayed_some idx w e ]
