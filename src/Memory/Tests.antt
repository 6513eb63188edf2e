-- ===== src/Memory/Tests.antt =====
-- Runs of the conversation memory on small inputs.
use esp32_deepgram_voice_age.Common.{ℕ, ◌≡◌, refl, false, none, some, List, [], ◌∷◌, arith, true}
use esp32_deepgram_voice_age.Common.Bytes.{codes}
use esp32_deepgram_voice_age.History.{Fate}
use esp32_deepgram_voice_age.History.Plain.{
  plain, sum_check, sum_check-word, first_saved, first_known, first_saved-Stores, plain_cut,
}
use esp32_deepgram_voice_age.Memory.Schedule.{saver_start, mark_dirty, defer}
use esp32_deepgram_voice_age.Memory.Debounce.{IsDeferred, turns, turns-IsDeferred}
use esp32_deepgram_voice_age.Memory.Unsaved.{
  Act, spoke, forgot, ran_out, flushed, act, IsTended, act-IsTended,
}
use esp32_deepgram_voice_age.Memory.Restart.{started, flush_to, Survives, flush_to-Survives}
use esp32_deepgram_voice_age.Memory.{
  Memory, blank, turn_len, back_off, replayed, replay_count, history_load, read_idx, tile_from,
}
use esp32_deepgram_voice_age.Memory.Turns.{Turn, Holds}
use esp32_deepgram_voice_age.Memory.Adding.{newest}
use esp32_deepgram_voice_age.Memory.Runs.{Event, said, forget, live, run, remember, run-Holds}
use esp32_deepgram_voice_age.Memory.Replay.{IsReplay, replayed-IsReplay}
use esp32_deepgram_voice_age.Memory.Saved.{history_load-Holds}

abbrev two_turns : List Turn
two_turns = (0, codes "hi") ∷ (1, codes "ok") ∷ []

abbrev two_held : Memory
two_held = record {
  arena = 104 ∷ 105 ∷ 0 ∷ 111 ∷ 107 ∷ 0 ∷ [];
  idx = record { off = 0; len = 2; role = 0 } ∷ record { off = 3; len = 2; role = 1 } ∷ [];
  frozen = false;
}

two_held-Holds : Holds two_held two_turns
two_held-Holds = ground arith

abbrev day : List Event
day =
    said (codes "user") (codes "hi")
    ∷ forget
    ∷ said (codes "user") (codes "lost")
    ∷ live
    ∷ said (codes "assistant") (codes "ok")
    ∷ []

run-Holds_example : (r : Memory) × (run day blank ≡ some r) × Holds r (remember day false [])
run-Holds_example = run-Holds day

-- What is said between a forget and the next session is not remembered.
day_remembered : remember day false [] ≡ (1, codes "ok") ∷ []
unfolding remember newest turn_len back_off
day_remembered = refl

replayed-IsReplay_example : IsReplay two_held.idx (replayed two_held.idx)
replayed-IsReplay_example = replayed-IsReplay two_held.idx

-- Of two long turns only the newest is replayed.
replayed_one_long :
    replayed
      (record { off = 0; len = 512; role = 0 } ∷ record { off = 513; len = 1200; role = 1 } ∷ [])
    ≡ record { off = 513; len = 1200; role = 1 } ∷ []
unfolding replayed replay_count
replayed_one_long = refl

abbrev stored : List ℕ
stored = 1 ∷ 0 ∷ 0 ∷ 0 ∷ 1 ∷ 0 ∷ 1 ∷ 0xFF ∷ 65 ∷ 0 ∷ []

abbrev loaded : Memory
loaded = record {
  arena = 65 ∷ 0 ∷ [];
  idx = record { off = 0; len = 1; role = 1 } ∷ [];
  frozen = false;
}

stored_loads : history_load stored ≡ some loaded
unfolding history_load read_idx tile_from
stored_loads = refl

history_load-Holds_example : (loaded.frozen ≡ false) × ((ts : List Turn) × Holds loaded ts)
history_load-Holds_example = history_load-Holds stored loaded stored_loads

-- A record of no turns over a byte is discarded.
stray_byte : history_load (0 ∷ 0 ∷ 65 ∷ []) ≡ none
unfolding history_load read_idx tile_from
stray_byte = refl

-- Turns a second apart, until the cap holds the deadline.
abbrev talk : List ℕ
talk = 8000 ∷ 9000 ∷ 10000 ∷ 11000 ∷ 11900 ∷ []

turns-IsDeferred_example : IsDeferred 7000 (turns (7000 ∷ talk) saver_start)
turns-IsDeferred_example = turns-IsDeferred 7000 talk saver_start refl refl (ground arith)

talk_deadline : (turns (7000 ∷ talk) saver_start).timer ≡ some 12000
unfolding turns mark_dirty defer
talk_deadline = refl

-- Three saves fail, a turn is not written, and a forget starts over.
abbrev trouble : List Act
trouble =
    spoke 100
    ∷ ran_out
    ∷ flushed false 1700
    ∷ flushed false 3300
    ∷ flushed false 4900
    ∷ spoke 5000
    ∷ flushed true 5100
    ∷ forgot 6000
    ∷ flushed true 6050
    ∷ []

act-IsTended_example : IsTended (act trouble (false, saver_start))
act-IsTended_example = act-IsTended trouble

abbrev cut_at_header : Fate
cut_at_header = record { erases = true; payload = 20; header = 9 }

flush_to-Survives_example :
    Survives plain sum_check
      (started (history_load (7 ∷ 8 ∷ [])))
      (record two_held { frozen = false })
      (flush_to plain sum_check cut_at_header 0xFF two_held (first_known, first_saved))
flush_to-Survives_example =
    flush_to-Survives plain sum_check (λ f off n. refl) sum_check-word first_saved first_known
      (7 ∷ 8 ∷ []) first_saved-Stores plain_cut cut_at_header 0xFF two_held two_turns two_held-Holds
