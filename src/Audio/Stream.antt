-- ===== src/Audio/Stream.antt =====
-- A chunk of the agent's speech that audio_io_play is given (main/audio_io.c).
use esp32_deepgram_voice_age.Common.{
  ℕ, suc, ◌+◌, ◌≤◌, min, ◌≡◌, refl, sym, ap, ◌∙◌, subst, inl, inr, Bool, true, false, ◌&&◌, Option,
  some, List, [], ◌∷◌, ◌++◌, arith, ltb, ◌==◌, if◌then◌else◌, Bool-cases, length, take, drop,
}
use native.Mathlib.Decide.{dec_lt}
use mathlib.Core.List.{append-nil}
use esp32_deepgram_voice_age.Common.Cuts.{length-take, take_within}
use esp32_deepgram_voice_age.Audio.Buffer.{StreamBuffer}
use esp32_deepgram_voice_age.Audio.Play.{
  Err, esp_ok, Player, even_part, carry_over, after_gap, enqueue, play_parts, play_unmuted, play,
}
use esp32_deepgram_voice_age.Audio.Queued.{IsQueued, enqueue_body, enqueue_room, enqueue_full}
use esp32_deepgram_voice_age.Audio.Carry.{
  pending, carry_over-pending, IsStreamed, HasWords, carry_over-kept, count_played-IsStreamed,
}

module _ (B : StreamBuffer) where
  -- The chunk is queued behind what was pending, as far as there is room.
  abbrev pub IsAccepted : List ℕ → B.Buffer → Player → Err × (B.Buffer × Player) → Type 0
  IsAccepted xs b p (e, (b', q)) =
      let n = min (even_part (B.spaces b)) (even_part (length xs)) in
      (B.contents b' ≡ B.contents b ++ take n xs) × IsStreamed n xs p e q

  play_parts-IsAccepted :
      (head rest xs : List ℕ) (b : B.Buffer) (p : Player)
      → HasWords p
      → (0 == length head ≡ true → p.in_carry_valid ≡ false)
      → IsQueued B
          (take (even_part (length xs)) xs)
          (min (even_part (B.spaces b)) (even_part (length xs)))
          b
          (enqueue B head (take (even_part (length rest)) rest) b)
      → drop (even_part (length rest)) rest ≡ drop (even_part (length xs)) xs
      → length head + even_part (length rest) ≡ even_part (length xs)
      → IsAccepted xs b p (play_parts B head rest b p)
  unfolding play_parts
  play_parts-IsAccepted head rest xs b p v h (c, (s, l)) w len =
      let whole = even_part (length xs) in
      let n = min (even_part (B.spaces b)) whole in
      let body = take (even_part (length rest)) rest in
      let p' = carry_over head rest p in
      let waiting : pending p' ≡ drop whole xs = carry_over-pending head rest p h ∙ w in
      let taken : take n (take whole xs) ≡ take n xs = take_within whole n xs (omega arith) in
      let cut : length (take whole xs) ≡ whole = length-take whole xs ∙ (omega arith) in
      let cut' : length body ≡ even_part (length rest) =
        length-take (even_part (length rest)) rest ∙ (omega arith) in
      elim (Bool-cases (0 == length head && 0 == length body)) [
        | inl e ↦
            let z : whole ≡ 0 = ground (arith, e, len, cut') in
            let (a, (d, (g, (m, l')))) = carry_over-kept head rest p in
            let z' : n ≡ 0 = omega (arith, z) in
            let none_lost : ltb n whole ≡ false = ground (arith, z) in
            rw e (
              rw z' (sym (append-nil (B.contents b))),
              record {
                answer = rw none_lost refl;
                waiting = waiting;
                played_is = ground (arith, a, z, z', v.played_word);
                dropped_is = ground (arith, d, z, z', v.dropped_word);
                same_gap = g;
                same_mute = m;
                same_flush = l';
              },
            )
        | inr e ↦ rw e (
          c ∙ ap (λ k. B.contents b ++ k) taken,
          count_played-IsStreamed n (enqueue B head body b).0 (enqueue B head body b).1.0 xs p p' v
              waiting (carry_over-kept head rest p) s (omega (arith, l, cut)),
        )
      ]

  IsAccepted-requeued :
      (now_ms : ℕ) (xs : List ℕ) (b : B.Buffer) (p : Player) (r : Err × (B.Buffer × Player))
      → IsAccepted xs b (record p { queue_ms = now_ms }) r
      → IsAccepted xs b p r
  IsAccepted-requeued now_ms xs b p r (c, s) = (
    c,
    record {
      answer = s.answer;
      waiting = s.waiting;
      played_is = s.played_is;
      dropped_is = s.dropped_is;
      same_gap = s.same_gap;
      same_mute = s.same_mute;
      same_flush = s.same_flush;
    },
  )

  -- By whether an odd byte was carried over.
  joined-IsAccepted :
      (v : Bool) (now_ms c : ℕ) (cs : List ℕ) (b : B.Buffer) (p : Player)
      → HasWords p
      → p.in_carry_valid ≡ v
      → let parts : List ℕ × List ℕ = if v then (p.in_carry ∷ c ∷ [], cs) else ([], c ∷ cs) in
        IsAccepted
          ((if v then p.in_carry ∷ [] else []) ++ (c ∷ cs))
          b
          p
          (play_parts B parts.0 parts.1 b (record p { queue_ms = now_ms }))
  joined-IsAccepted true now_ms c cs b p w e =
      let p' : Player = record p { queue_ms = now_ms } in
      let w' : HasWords p' = record {
        played_word = w.played_word;
        dropped_word = w.dropped_word;
      } in
      let whole : even_part (length (p.in_carry ∷ c ∷ cs)) ≡ suc (suc (even_part (length cs))) =
        omega arith in
      let cut : take (even_part (length (p.in_carry ∷ c ∷ cs))) (p.in_carry ∷ c ∷ cs)
          ≡ p.in_carry ∷ c ∷ take (even_part (length cs)) cs =
        rw whole refl in
      let body = take (even_part (length cs)) cs in
      let cut' : length body ≡ even_part (length cs) =
        length-take (even_part (length cs)) cs ∙ (omega arith) in
      let full : length (p.in_carry ∷ c ∷ body) ≡ even_part (length (p.in_carry ∷ c ∷ cs)) =
        omega (arith, cut', whole) in
      let queued : IsQueued B (p.in_carry ∷ c ∷ body)
          (min (even_part (B.spaces b)) (length (p.in_carry ∷ c ∷ body))) b
          (enqueue B (p.in_carry ∷ c ∷ []) body b) =
        elim (dec_lt (even_part (B.spaces b)) 2) [
          | yes l ↦ enqueue_full B p.in_carry c body b l
          | no l ↦ enqueue_room B p.in_carry c body b (omega (arith, l))
        ] in
      IsAccepted-requeued now_ms (p.in_carry ∷ c ∷ cs) b p
        (play_parts B (p.in_carry ∷ c ∷ []) cs b p')
        (play_parts-IsAccepted (p.in_carry ∷ c ∷ []) cs (p.in_carry ∷ c ∷ cs) b p' w' (λ h. cc h)
          (subst
            (λ n.
              IsQueued B (take (even_part (length (p.in_carry ∷ c ∷ cs))) (p.in_carry ∷ c ∷ cs))
                (min (even_part (B.spaces b)) n) b (enqueue B (p.in_carry ∷ c ∷ []) body b))
            full
            (subst
              (λ xs.
                IsQueued B xs (min (even_part (B.spaces b)) (length (p.in_carry ∷ c ∷ body))) b
                  (enqueue B (p.in_carry ∷ c ∷ []) body b))
              (sym cut) queued))
          (rw whole refl) (omega arith))
  joined-IsAccepted false now_ms c cs b p w e =
      let p' : Player = record p { queue_ms = now_ms } in
      let w' : HasWords p' = record {
        played_word = w.played_word;
        dropped_word = w.dropped_word;
      } in
      let body = take (even_part (length (c ∷ cs))) (c ∷ cs) in
      let full : length body ≡ even_part (length (c ∷ cs)) =
        length-take (even_part (length (c ∷ cs))) (c ∷ cs) ∙ (omega arith) in
      IsAccepted-requeued now_ms (c ∷ cs) b p (play_parts B [] (c ∷ cs) b p') (
        play_parts-IsAccepted [] (c ∷ cs) (c ∷ cs) b p' w' (λ h. e)
          (subst (λ n. IsQueued B body (min (even_part (B.spaces b)) n) b (enqueue B [] body b))
            full (enqueue_body B body b))
          refl (omega arith))

  -- An empty chunk.
  empty-IsAccepted :
      (v : Bool) (now_ms : ℕ) (b : B.Buffer) (p : Player)
      → HasWords p
      → p.in_carry_valid ≡ v
      → IsAccepted
          ((if v then p.in_carry ∷ [] else []) ++ [])
          b
          p
          (esp_ok, (b, record p { queue_ms = now_ms }))
  empty-IsAccepted v now_ms b p w e =
      let xs : List ℕ = (if v then p.in_carry ∷ [] else []) ++ [] in
      let short : length xs ≤ 1 =
        elim v as (λ k. length ((if k then p.in_carry ∷ [] else []) ++ []) ≤ 1) [
          | true ↦ omega arith
          | false ↦ omega arith
        ] in
      let z : even_part (length xs) ≡ 0 = omega (arith, short) in
      let z' : min (even_part (B.spaces b)) (even_part (length xs)) ≡ 0 = omega (arith, z) in
      rw z' (
        sym (append-nil (B.contents b)),
        record {
          answer = rw z refl;
          waiting = rw z (
              ap (λ k. if k then p.in_carry ∷ [] else []) e
              ∙ sym (append-nil (if v then p.in_carry ∷ [] else [])));
          played_is = omega (arith, w.played_word);
          dropped_is = omega (arith, z, w.dropped_word);
          same_gap = refl;
          same_mute = refl;
          same_flush = refl;
        },
      )

  play_unmuted-IsAccepted :
      (now_ms : ℕ) (pcm : List ℕ) (b : B.Buffer) (p : Player)
      → HasWords p
      → IsAccepted (pending p ++ pcm) b p (play_unmuted B now_ms pcm b p)
  unfolding play_unmuted play_parts carry_over
  play_unmuted-IsAccepted now_ms [] b p w = empty-IsAccepted p.in_carry_valid now_ms b p w refl
  play_unmuted-IsAccepted now_ms (c ∷ cs) b p w =
      joined-IsAccepted p.in_carry_valid now_ms c cs b p w refl

unmuted-IsAccepted :
    (B : StreamBuffer) (now_ms : ℕ) (pcm : List ℕ) (b : B.Buffer) (p : Player)
    → HasWords p
    → p.muted ≡ false
    → let r : Err × (B.Buffer × Player) = play_unmuted B now_ms pcm b p in
      let (e, (o, q)) : Err × (Option B.Buffer × Player) =
        if p.muted then (esp_ok, (some b, p)) else (r.0, (some r.1.0, r.1.1)) in
      (b' : B.Buffer) × ((o ≡ some b') × IsAccepted B (pending p ++ pcm) b p (e, (b', q)))
unmuted-IsAccepted B now_ms pcm b p w m =
    let r : Err × (B.Buffer × Player) = play_unmuted B now_ms pcm b p in
    let t : Bool → Err × (Option B.Buffer × Player) =
      λ k. if k then (esp_ok, (some b, p)) else (r.0, (some r.1.0, r.1.1)) in
    subst
      (λ k.
        (b' : B.Buffer) × (((t k).1.0 ≡ some b')
          × IsAccepted B (pending p ++ pcm) b p ((t k).0, (b', (t k).1.1))))
      (sym m) (r.1.0, (refl, play_unmuted-IsAccepted B now_ms pcm b p w))

-- `audio_io_play` of a chunk, with a buffer, when playback is not muted: of the bytes of the
-- stream, the one that waited first (it is forgotten at a gap), as many whole samples are queued as
-- there is room for, and the others are dropped, in which case the answer is ESP_ERR_NO_MEM, and
-- else ESP_OK; an odd last byte waits for the next chunk; the counts of bytes played and dropped
-- are kept modulo 2 ^ 32.
pub play-IsAccepted :
    (B : StreamBuffer) (now_ms : ℕ) (pcm : List ℕ) (b : B.Buffer) (p : Player)
    → HasWords p
    → p.muted ≡ false
    → let (e, (o, q)) = play B now_ms pcm (some b) p in
      (b' : B.Buffer) × ((o ≡ some b')
        × IsAccepted B ((if p.gap then [] else pending p) ++ pcm) b (after_gap p) (e, (b', q)))
unfolding play after_gap
play-IsAccepted B now_ms pcm b p w m = played p.gap refl
  where
    played :
        (g : Bool)
        → p.gap ≡ g
        → let p' : Player = if g then record p { gap = false; in_carry_valid = false } else p in
          let r : Err × (B.Buffer × Player) = play_unmuted B now_ms pcm b p' in
          let (e, (o, q)) : Err × (Option B.Buffer × Player) =
            if p'.muted then (esp_ok, (some b, p')) else (r.0, (some r.1.0, r.1.1)) in
          (b' : B.Buffer) × ((o ≡ some b')
            × IsAccepted B ((if g then [] else pending p) ++ pcm) b p' (e, (b', q)))
    played true e =
        let p' : Player = record p { gap = false; in_carry_valid = false } in
        let w' : HasWords p' = record {
          played_word = w.played_word;
          dropped_word = w.dropped_word;
        } in
        unmuted-IsAccepted B now_ms pcm b p' w' m
    played false e = unmuted-IsAccepted B now_ms pcm b p w m
