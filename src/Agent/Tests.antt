-- ===== src/Agent/Tests.antt =====
-- A message in pieces, and the theorem at it.
use esp32_deepgram_voice_age.Common.{◌≡◌, refl, true, false, List, [], ◌∷◌}
use esp32_deepgram_voice_age.Agent.{Piece, Reassembly, fresh}
use esp32_deepgram_voice_age.Agent.Messages.{accumulate, accumulate-message}

-- Two slices of a first frame, and a last frame.
abbrev pieces : List Piece
pieces =
    record { op_text = true; payload_offset = 0; payload_len = 3; fin = false; bytes = 1 ∷ 2 ∷ [] }
    ∷ record { op_text = true; payload_offset = 2; payload_len = 3; fin = false; bytes = 3 ∷ [] }
    ∷ record { op_text = false; payload_offset = 0; payload_len = 1; fin = true; bytes = 4 ∷ [] }
    ∷ []

abbrev broken : Reassembly
broken = record { json = 9 ∷ []; dropping = true }

accumulate-message_example : accumulate 8192 pieces broken ≡ (fresh, (1 ∷ 2 ∷ 3 ∷ 4 ∷ []) ∷ [])
accumulate-message_example =
    accumulate-message 8192 pieces broken (refl, (refl, (refl, (refl, (refl, refl)))))
