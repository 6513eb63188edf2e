-- ===== src/Audio/Blocks.antt =====
-- The microphone's blocks through the noise suppressor, one after another (main/audio_io.c).
use esp32_deepgram_voice_age.Common.{
  ℕ, ◌+◌, ◌*◌, ◌≤◌, ◌<◌, ◌≡◌, refl, sym, ap, ◌∙◌, subst, true, false, not, List, [], ◌∷◌, ◌++◌,
  arith, leb, if◌then◌else◌, length, All, length-append,
}
use mathlib.Core.List.{append_assoc, append-nil}
use esp32_deepgram_voice_age.Common.Cuts.{length-take, length-drop, take-append-drop}
use esp32_deepgram_voice_age.Audio.Denoise.{
  ns_chunk, Engine, Staging, denoise, turned, denoise_block, chunks,
}
use esp32_deepgram_voice_age.Audio.Rechunk.{
  chunks-length, chunks-append, chunks_short, ns_loop-chunks,
}

abbrev pub concat : List (List ℕ) → List ℕ
concat [] = []
concat (b ∷ bs) = b ++ concat bs

le→leb : (a b : ℕ) → a ≤ b → leb a b ≡ true
le→leb a b h = ground arith

module _ (N : Engine) where
  -- The blocks that go out, with the suppressor on.
  unfoldable pub denoise_blocks : ℕ → List (List ℕ) → Staging N.Memory → List ℕ × Staging N.Memory
  denoise_blocks cap [] s = ([], s)
  denoise_blocks cap (b ∷ bs) s =
      let (mono, s') = denoise_block N cap true true b s in
      let (more, s'') = denoise_blocks cap bs s' in (mono ++ more, s'')

  -- Between blocks of so many samples: less than a chunk waits to go in, and with what waits to go
  -- out it makes up a block.
  pub record IsSteady (frames : ℕ) (s : Staging N.Memory) : Type 0 where
    pub short : length s.held < ns_chunk
    pub level : length s.held + length s.out ≡ frames
    pub running : s.was_running ≡ true

  turned-running :
      (s : Staging N.Memory)
      → s.was_running ≡ true
      → turned N true s ≡ record s { was_running = true }
  unfolding turned
  turned-running s h =
      ap
        (λ v.
          if not v
          then record s { held = []; out = []; was_running = true }
          else record s { was_running = true })
        h

  pub turned-fresh :
      (s : Staging N.Memory)
      → s.was_running ≡ false
      → turned N true s ≡ record s { held = []; out = []; was_running = true }
  unfolding turned
  turned-fresh s h =
      ap
        (λ v.
          if not v
          then record s { held = []; out = []; was_running = true }
          else record s { was_running = true })
        h

  -- A block through the engine.
  abbrev Denoised : ℕ → List ℕ → Staging N.Memory → List ℕ × Staging N.Memory → Type 0
  Denoised frames mono s (reply, s') =
      let input = s.held ++ mono in
      let (done, (e', rest)) = chunks N (length input) s.memory input in
      (reply ++ s'.out ≡ s.out ++ done)
      × ((s'.held ≡ rest) × ((s'.memory ≡ e') × (IsSteady frames s' × (length reply ≡ frames))))

  denoise-steady :
      (cap frames : ℕ) (mono : List ℕ) (s : Staging N.Memory)
      → ns_chunk ≤ frames
      → 2 * frames ≤ cap
      → length mono ≡ frames
      → IsSteady frames s
      → Denoised frames mono s (denoise N cap mono s)
  unfolding denoise
  denoise-steady cap frames mono s big room len v =
      let input = s.held ++ mono in
      let both = length-append s.held mono in
      let (done, (e', rest)) = chunks N (length input) s.memory input in
      let (a, b) = chunks-length N (length input) s.memory input (omega arith) in
      let out' = s.out ++ done in
      let is =
        ns_loop-chunks N cap (length input) input s.out s.memory
          (omega (arith, both, len, room, v.level)) in
      let made = length-append s.out done in
      let enough : leb (length mono) (length out') ≡ true =
        le→leb (length mono) (length out')
          (omega (arith, a, b, both, made, len, v.level, v.short, big)) in
      rw (is, enough)
        (
          take-append-drop (length mono) out',
          (
            refl,
            (
              refl,
              (
                record {
                  short = omega (arith, b);
                  level =
                      omega (arith, a, both, made, len, v.level, length-drop (length mono) out');
                  running = v.running;
                },
                omega (
                  arith,
                  a,
                  b,
                  both,
                  made,
                  len,
                  v.level,
                  v.short,
                  big,
                  length-take (length mono) out',
                ),
              ),
            ),
          ),
        )

  -- Any blocks, behind the first.
  abbrev pub Followed : ℕ → List (List ℕ) → Staging N.Memory → List ℕ × Staging N.Memory → Type 0
  Followed frames bs s (sent, s') =
      let input = s.held ++ concat bs in
      (sent ++ s'.out ≡ s.out ++ (chunks N (length input) s.memory input).0)
      × (IsSteady frames s' × (length sent ≡ length (concat bs)))

  -- The next block, then those behind it.
  next-Followed :
      (frames : ℕ) (b : List ℕ) (bs : List (List ℕ)) (s : Staging N.Memory)
      (r r' : List ℕ × Staging N.Memory)
      → length b ≡ frames
      → Denoised frames b s r
      → Followed frames bs r.1 r'
      → Followed frames (b ∷ bs) s (r.0 ++ r'.0, r'.1)
  next-Followed frames b bs s r r' len (a, (h, (m, (v, l)))) (a', (v', l')) =
      let input = s.held ++ b in
      let (done, (e', rest)) = chunks N (length input) s.memory input in
      let more =
        λ (e : N.Memory) (x : List ℕ). (chunks N (length (x ++ concat bs)) e (x ++ concat bs)).0 in
      let all = input ++ concat bs in
      let cut =
        chunks-append N (length input) (length all) s.memory input (concat bs) (omega arith)
          (omega arith) in
      (
        append_assoc r.0 r'.0 r'.1.out
            ∙ ap (λ k. r.0 ++ k) a'
            ∙ sym (append_assoc r.0 r.1.out (more r.1.memory r.1.held))
            ∙ (λ i. a i ++ more (m i) (h i))
            ∙ append_assoc s.out done (more e' rest)
            ∙ ap (λ k. s.out ++ k.0) (sym cut)
            ∙ ap (λ k. s.out ++ (chunks N (length k) s.memory k).0)
                (append_assoc s.held b (concat bs)),
        (v', omega (arith, length-append r.0 r'.0, l, l', len, length-append b (concat bs))),
      )

  pub blocks-Followed :
      (cap frames : ℕ) (bs : List (List ℕ)) (s : Staging N.Memory)
      → ns_chunk ≤ frames
      → 2 * frames ≤ cap
      → All (λ b. length b ≡ frames) bs
      → IsSteady frames s
      → Followed frames bs s (denoise_blocks cap bs s)
  unfolding denoise_blocks denoise_block
  blocks-Followed cap frames [] s big room h v =
      let none =
        chunks_short N (length (s.held ++ [])) s.memory (s.held ++ [])
          (omega (arith, length-append s.held [], v.short)) in
      (sym (append-nil s.out) ∙ ap (λ k. s.out ++ k) (sym none), (v, refl))
  blocks-Followed cap frames (b ∷ bs) s big room (len, h) v =
      let s' : Staging N.Memory = record s { was_running = true } in
      let v' : IsSteady frames s' = record { short = v.short; level = v.level; running = refl } in
      let d = denoise-steady cap frames b s' big room len v' in
      let r = denoise N cap b s' in
      let f = blocks-Followed cap frames bs r.1 big room h d.1.1.1.0 in
      let is = turned-running s v.running in
      subst
        (λ t. Followed frames (b ∷ bs) s (
          (denoise N cap b t).0 ++ (denoise_blocks cap bs (denoise N cap b t).1).0,
          (denoise_blocks cap bs (denoise N cap b t).1).1,
        ))
        (sym is) (next-Followed frames b bs s r (denoise_blocks cap bs r.1) len d f)
