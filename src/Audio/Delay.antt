-- ===== src/Audio/Delay.antt =====
-- What goes up once the noise suppressor is turned on (main/audio_io.c).
use esp32_deepgram_voice_age.Common.{
  ℕ, ◌+◌, ◌*◌, ◌%◌, ◌≤◌, ◌<◌, ◌≡◌, refl, sym, ap, ◌∙◌, subst, ◌≢◌, true, false, List, [], ◌∷◌, ◌++◌,
  arith, leb, length, replicate, All, length-append, length-replicate,
}
use mathlib.Core.List.{append_assoc}
use esp32_deepgram_voice_age.Audio.Denoise.{
  ns_chunk, Engine, Staging, denoise, turned, denoise_block, chunks,
}
use esp32_deepgram_voice_age.Audio.Rechunk.{chunks-length, chunks-append, ns_loop-chunks}
use esp32_deepgram_voice_age.Audio.Blocks.{
  concat, denoise_blocks, IsSteady, turned-fresh, blocks-Followed,
}

lt→not_leb : (a b : ℕ) → b < a → leb a b ≡ false
lt→not_leb a b h = ground arith

module _ (N : Engine) where
  -- The first block is short of a block.
  denoise-first :
      (cap frames : ℕ) (mono : List ℕ) (e : N.Memory)
      → ns_chunk ≤ frames
      → 2 * frames ≤ cap
      → frames % ns_chunk ≢ 0
      → length mono ≡ frames
      → let (done, (e', rest)) = chunks N (length mono) e mono in
        (denoise N cap mono (record { held = []; out = []; memory = e; was_running = true }) ≡ (
          replicate frames 0,
          record { held = rest; out = done; memory = e'; was_running = true },
        ))
        × IsSteady N frames (record { held = rest; out = done; memory = e'; was_running = true })
  unfolding denoise
  denoise-first cap frames mono e big room odd len =
      let (a, b) = chunks-length N (length mono) e mono (omega arith) in
      let is = ns_loop-chunks N cap (length mono) mono [] e (omega (arith, len, room)) in
      let done = (chunks N (length mono) e mono).0 in
      let rest_some : 0 < length mono % ns_chunk = omega (arith, len, odd) in
      let few : leb (length mono) (length done) ≡ false =
        lt→not_leb (length mono) (length done) (omega (arith, a, b, rest_some)) in
      (
        rw (is, few)
            (λ i. (replicate (len i) 0, (denoised_rest done (chunks N (length mono) e mono).1))),
        record { short = omega (arith, b); level = omega (arith, a, len); running = refl },
      )
    where
      denoised_rest : List ℕ → N.Memory × List ℕ → Staging N.Memory
      denoised_rest done (e', rest) = record {
        held = rest;
        out = done;
        memory = e';
        was_running = true;
      }

  -- Turned on, with the room that s_ns_out has, for blocks of one size that is not a whole number
  -- of chunks of 160 and at least one: what goes up is one block of silence and then the stream as
  -- the engine makes it of the whole, chunk by chunk, whatever its blocks; at most a block of it is
  -- still to come, and as many samples go up as came in.
  pub denoise_blocks-delayed :
      (frames : ℕ) (b : List ℕ) (bs : List (List ℕ)) (s : Staging N.Memory)
      → ns_chunk ≤ frames
      → frames % ns_chunk ≢ 0
      → length b ≡ frames
      → All (λ c. length c ≡ frames) bs
      → s.was_running ≡ false
      → let (sent, s') = denoise_blocks N (2 * frames + 2 * ns_chunk) (b ∷ bs) s in
        let stream = concat (b ∷ bs) in
        (sent ++ s'.out ≡ replicate frames 0 ++ (chunks N (length stream) s.memory stream).0)
        × ((length s'.out ≤ frames) × (length sent ≡ length stream))
  unfolding denoise_blocks denoise_block
  denoise_blocks-delayed frames b bs s big odd len h was =
      let cap = 2 * frames + 2 * ns_chunk in
      let fresh : Staging N.Memory = record s { held = []; out = []; was_running = true } in
      let r = chunks N (length b) s.memory b in
      let s1 : Staging N.Memory = record {
        held = r.1.1;
        out = r.0;
        memory = r.1.0;
        was_running = true;
      } in
      let (first, v) = denoise-first cap frames b s.memory big (omega arith) odd len in
      let (f, (v', l)) = blocks-Followed N cap frames bs s1 big (omega arith) h v in
      let is : denoise N cap b (turned N true s) ≡ (replicate frames 0, s1) =
        ap (denoise N cap b) (turned-fresh N s was) ∙ first in
      let rest = denoise_blocks N cap bs s1 in
      let stream = b ++ concat bs in
      let cut =
        chunks-append N (length b) (length stream) s.memory b (concat bs) (omega arith)
          (omega arith) in
      subst
        (λ t.
          let r' = denoise_blocks N cap bs t.1 in
          ((t.0 ++ r'.0) ++ r'.1.out
            ≡ replicate frames 0 ++ (chunks N (length stream) s.memory stream).0)
          × ((length r'.1.out ≤ frames) × (length (t.0 ++ r'.0) ≡ length stream)))
        (sym is)
        (
          append_assoc (replicate frames 0) rest.0 rest.1.out
              ∙ ap (λ k. replicate frames 0 ++ k) (f ∙ ap (λ c. c.0) (sym cut)),
          (
            omega (arith, v'.level),
            omega (
              arith,
              length-append (replicate frames 0) rest.0,
              length-replicate {A = ℕ} frames 0,
              l,
              len,
              length-append b (concat bs),
            ),
          ),
        )
