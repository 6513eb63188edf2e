-- ===== src/Agent.antt =====
-- main/dg_agent.c: the messages of the agent service put together from the pieces that the
-- WebSocket client hands over. What is done with a message is not modelled.
pub mod Messages
mod Tests
use esp32_deepgram_voice_age.Common.{
  ℕ, ◌+◌, Bool, true, false, ◌&&◌, List, [], ◌∷◌, ◌++◌, ltb, leb, ◌==◌, if◌then◌else◌, length,
}

-- esp_websocket_event_data_t: `op_text` is the opcode WS_OPCODE_TEXT, and `bytes` are data_ptr and
-- data_len.
pub record Piece : Type 0 where
  pub op_text : Bool
  pub payload_offset : ℕ
  pub payload_len : ℕ
  pub fin : Bool
  pub bytes : List ℕ

-- s_json up to s_json_len, and s_json_dropping.
pub record Reassembly : Type 0 where
  pub json : List ℕ
  pub dropping : Bool

abbrev pub starts : Piece → Bool
starts ev = ev.op_text && ev.payload_offset == 0

abbrev pub ends : Piece → Bool
ends ev = ev.fin && leb ev.payload_len (ev.payload_offset + length ev.bytes)

-- The bytes are kept, or the message is given up where it passes JSON_REASSEMBLY_MAX.
unfoldable pub keep : ℕ → List ℕ → Reassembly → Reassembly
keep json_max bytes r =
    if r.dropping
    then r
    else if ltb json_max (length r.json + length bytes)
    then record { json = []; dropping = true }
    else record r { json = r.json ++ bytes }

abbrev pub fresh : Reassembly
fresh = record { json = []; dropping = false }

-- `accumulate_json`; the messages that `handle_json` is called with.
unfoldable pub accumulate_json : ℕ → Piece → Reassembly → Reassembly × List (List ℕ)
accumulate_json json_max ev r =
    let r' = keep json_max ev.bytes (if starts ev then fresh else r) in
    if ends ev then (fresh, (if r'.dropping then [] else r'.json ∷ [])) else (r', [])
