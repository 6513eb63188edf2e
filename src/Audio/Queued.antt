-- ===== src/Audio/Queued.antt =====
-- What audio_io_play puts into the buffer, and what of it finds no room.
use esp32_deepgram_voice_age.Common.{
  ℕ, ◌+◌, ◌-◌, ◌≤◌, ◌<◌, min, ◌≡◌, refl, sym, ap, ◌∙◌, inl, inr, true, false, List, [], ◌∷◌, ◌++◌,
  arith, ltb, leb, ◌==◌, if◌then◌else◌, Bool-cases, length, take,
}
use mathlib.Core.List.{append_assoc, append-nil}
use esp32_deepgram_voice_age.Common.Cuts.{length-take, take-take, take-append_more, take_whole}
use esp32_deepgram_voice_age.Audio.Buffer.{StreamBuffer}
use esp32_deepgram_voice_age.Audio.Play.{even_part, send_head, send_body, enqueue}

module _ (B : StreamBuffer) where
  -- `n` of these bytes are queued, behind those that are there; the others are dropped.
  abbrev pub IsQueued : List ℕ → ℕ → B.Buffer → ℕ × (ℕ × B.Buffer) → Type 0
  IsQueued xs n b (sent, (lost, b')) =
      (B.contents b' ≡ B.contents b ++ take n xs) × ((sent ≡ n) × (lost ≡ length xs - n))

  send_body-IsQueued :
      (space : ℕ) (body : List ℕ) (b : B.Buffer)
      → space ≤ B.spaces b
      → IsQueued body (min space (length body)) b (send_body B space body b)
  unfolding send_body
  send_body-IsQueued space body b h =
      let n = min space (length body) in
      let to_send : (if ltb (length body) space then length body else space) ≡ n = ground arith in
      let none_taken : (n ≡ 0) → B.contents b ≡ B.contents b ++ take n body =
        λ z. rw z (sym (append-nil (B.contents b))) in
      rw to_send (elim (Bool-cases (0 == length body)) [
        | inl e ↦
            let z : length body ≡ 0 = ground (arith, e) in
            rw e (none_taken (omega (arith, z)), (omega (arith, z), omega (arith, z)))
        | inr e ↦ rw e (elim (Bool-cases (0 == n)) [
          | inl e' ↦
              let z : n ≡ 0 = ground (arith, e') in
              rw e' (none_taken z, (omega (arith, z), omega (arith, z)))
          | inr e' ↦
              let fits = take-take (B.spaces b) n body (omega (arith, h)) in
              rw e' (
                B.contents-send b (take n body) ∙ ap (λ l. B.contents b ++ l) fits,
                (
                  B.count-send b (take n body)
                      ∙ ap length fits
                      ∙ length-take n body
                      ∙ (omega arith),
                  refl,
                ),
              )
        ])
      ])

  pub enqueue_body :
      (body : List ℕ) (b : B.Buffer)
      → IsQueued body (min (even_part (B.spaces b)) (length body)) b (enqueue B [] body b)
  unfolding enqueue send_head
  enqueue_body body b =
      let (c, (s, l)) = send_body-IsQueued (even_part (B.spaces b)) body b (omega arith) in
      (c, (omega (arith, s), omega (arith, l)))

  pub enqueue_room :
      (x y : ℕ) (body : List ℕ) (b : B.Buffer)
      → 2 ≤ even_part (B.spaces b)
      → IsQueued
          (x ∷ y ∷ body)
          (min (even_part (B.spaces b)) (length (x ∷ y ∷ body)))
          b
          (enqueue B (x ∷ y ∷ []) body b)
  unfolding enqueue send_head
  enqueue_room x y body b h =
      let room : leb 2 (even_part (B.spaces b)) ≡ true = ground (arith, h) in
      let whole : take (B.spaces b) (x ∷ y ∷ []) ≡ x ∷ y ∷ [] =
        take_whole (B.spaces b) (x ∷ y ∷ []) (omega (arith, h)) in
      let b' = (B.send b (x ∷ y ∷ [])).1 in
      let left : B.spaces b' ≡ B.spaces b - 2 =
        B.spaces-send b (x ∷ y ∷ []) ∙ ap (λ l. B.spaces b - length l) whole in
      let (c, (s, l)) =
        send_body-IsQueued (even_part (B.spaces b) - 2) body b' (omega (arith, left)) in
      let n = min (even_part (B.spaces b) - 2) (length body) in
      let both : min (even_part (B.spaces b)) (length (x ∷ y ∷ body)) ≡ 2 + n = omega (arith, h) in
      let sent : (B.send b (x ∷ y ∷ [])).0 ≡ 2 = B.count-send b (x ∷ y ∷ []) ∙ ap length whole in
      rw (room, both)
        (
          c
              ∙ ap (λ k. k ++ take n body)
                  (B.contents-send b (x ∷ y ∷ []) ∙ ap (λ k. B.contents b ++ k) whole)
              ∙ append_assoc (B.contents b) (x ∷ y ∷ []) (take n body)
              ∙ ap (λ k. B.contents b ++ k) (sym (take-append_more n (x ∷ y ∷ []) body)),
          (omega (arith, s, sent), omega (arith, l)),
        )

  pub enqueue_full :
      (x y : ℕ) (body : List ℕ) (b : B.Buffer)
      → even_part (B.spaces b) < 2
      → IsQueued
          (x ∷ y ∷ body)
          (min (even_part (B.spaces b)) (length (x ∷ y ∷ body)))
          b
          (enqueue B (x ∷ y ∷ []) body b)
  unfolding enqueue send_head
  enqueue_full x y body b h =
      let full : leb 2 (even_part (B.spaces b)) ≡ false = ground (arith, h) in
      let (c, (s, l)) = send_body-IsQueued (even_part (B.spaces b)) body b (omega arith) in
      let n : min (even_part (B.spaces b)) (length body) ≡ 0 = omega (arith, h) in
      let n' : min (even_part (B.spaces b)) (length (x ∷ y ∷ body)) ≡ 0 = omega (arith, h) in
      rw (full, n')
        (c ∙ ap (λ k. B.contents b ++ take k body) n, (omega (arith, s, n), omega (arith, l, n)))
