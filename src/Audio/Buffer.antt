-- ===== src/Audio/Buffer.antt =====
-- What main/audio_io.c relies on of the FreeRTOS stream buffer that holds the speaker's bytes.
use esp32_deepgram_voice_age.Common.{
  ℕ, ◌-◌, ◌≡◌, refl, List, ◌++◌, arith, length, take, drop, length-append,
}

-- `contents` are the bytes that wait, oldest first. With no time to wait, `send`
-- (xStreamBufferSend) takes what fits, and `receive` (xStreamBufferReceive) what there is.
pub record StreamBuffer : Type 1 where
  pub Buffer : Type 0
  pub contents : Buffer → List ℕ
  pub spaces : Buffer → ℕ
  pub send : Buffer → List ℕ → ℕ × Buffer
  pub receive : Buffer → ℕ → List ℕ × Buffer
  pub contents-send :
      (b : Buffer) (xs : List ℕ) → contents (send b xs).1 ≡ contents b ++ take (spaces b) xs
  pub count-send : (b : Buffer) (xs : List ℕ) → (send b xs).0 ≡ length (take (spaces b) xs)
  pub spaces-send :
      (b : Buffer) (xs : List ℕ) → spaces (send b xs).1 ≡ spaces b - length (take (spaces b) xs)
  pub read-receive : (b : Buffer) (n : ℕ) → (receive b n).0 ≡ take n (contents b)
  pub contents-receive : (b : Buffer) (n : ℕ) → contents (receive b n).1 ≡ drop n (contents b)

-- A buffer of `room` bytes as the list of those it holds.
abbrev pub bounded : ℕ → StreamBuffer
bounded room = record {
  Buffer = List ℕ;
  contents = λ b. b;
  spaces = λ b. room - length b;
  send = λ b xs. (length (take (room - length b) xs), b ++ take (room - length b) xs);
  receive = λ b n. (take n b, drop n b);
  contents-send = λ b xs. refl;
  count-send = λ b xs. refl;
  spaces-send = λ b xs. omega (arith, length-append b (take (room - length b) xs));
  read-receive = λ b n. refl;
  contents-receive = λ b n. refl;
}
