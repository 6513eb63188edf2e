-- ===== src/Audio/Denoise.antt =====
-- The noise suppressor of main/audio_io.c's capture task: blocks of one size in and out, an engine
-- that takes samples by 160 between them. Samples are only moved here; the engine of esp-sr is an
-- argument.
use esp32_deepgram_voice_age.Common.{
  ℕ, zero, suc, ◌+◌, ◌≡◌, Bool, not, ◌&&◌, List, [], ◌++◌, ltb, leb, if◌then◌else◌, length, take,
  drop, replicate,
}

abbrev pub ns_chunk : ℕ
ns_chunk = 160

-- ns_process, with what the engine remembers: as many samples out as in.
pub record Engine : Type 1 where
  pub Memory : Type 0
  pub process : Memory → List ℕ → List ℕ × Memory
  pub length-process : (e : Memory) (xs : List ℕ) → length (process e xs).0 ≡ length xs

-- The first s_ns_carry samples of s_ns_in, the first s_ns_have of s_ns_out, the engine, and the
-- task's ns_was_running.
pub record Staging (Memory : Type 0) : Type 0 where
  pub held : List ℕ
  pub out : List ℕ
  pub memory : Memory
  pub was_running : Bool

module _ (N : Engine) where
  -- The `while`, which stops early where `cap` samples are out; `fuel` is one for each sample.
  unfoldable pub ns_loop : ℕ → ℕ → List ℕ → List ℕ → N.Memory → List ℕ × (List ℕ × N.Memory)
  ns_loop cap zero input out e = (input, (out, e))
  ns_loop cap (suc fuel) input out e =
      let (done, e') = N.process e (take ns_chunk input) in
      let rest = ns_loop cap fuel (drop ns_chunk input) (out ++ done) e' in
      if not (leb ns_chunk (length input))
      then (input, (out, e))
      else if ltb cap (length out + ns_chunk)
      then (input, (out, e))
      else rest

  -- A block of the microphone through the engine; `cap` is s_ns_out_cap. Silence where too little
  -- is out.
  unfoldable pub denoise : ℕ → List ℕ → Staging N.Memory → List ℕ × Staging N.Memory
  denoise cap mono s =
      let frames = length mono in
      let input = s.held ++ mono in
      let (held, (out, e)) = ns_loop cap (length input) input s.out s.memory in
      if leb frames (length out)
      then (take frames out, record s { held = held; out = drop frames out; memory = e })
      else (replicate frames 0, record s { held = held; out = out; memory = e })

  -- Where the suppressor has just been turned on, what was staged is stale.
  unfoldable pub turned : Bool → Staging N.Memory → Staging N.Memory
  turned ns_run s =
      if ns_run && not s.was_running
      then record s { held = []; out = []; was_running = ns_run }
      else record s { was_running = ns_run }

  unfoldable pub denoise_block :
      ℕ → Bool → Bool → List ℕ → Staging N.Memory → List ℕ × Staging N.Memory
  denoise_block cap ns_on ns_run mono s =
      if ns_on && ns_run then denoise cap mono (turned ns_run s) else (mono, turned ns_run s)

  -- The engine on a stretch of samples, by whole chunks: what comes out, its memory, the rest.
  unfoldable pub chunks : ℕ → N.Memory → List ℕ → List ℕ × (N.Memory × List ℕ)
  chunks zero e xs = ([], (e, xs))
  chunks (suc fuel) e xs =
      let (done, e') = N.process e (take ns_chunk xs) in
      let (more, last) = chunks fuel e' (drop ns_chunk xs) in
      if leb ns_chunk (length xs) then (done ++ more, last) else ([], (e, xs))
