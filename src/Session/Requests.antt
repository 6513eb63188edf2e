-- ===== src/Session/Requests.antt =====
-- The requests of main/session_ctl.c, and the FreeRTOS task notification that carries them.
use esp32_deepgram_voice_age.Common.{◌≡◌, refl, Option, none, some}

pub data Request : Type 0 where
  start toggle restart reload stop reload_soon start_soon : Request

-- What the worker relies on of FreeRTOS: `post` is xTaskNotify with eSetValueWithOverwrite, `poke`
-- is xTaskNotify with eNoAction, and `take` is xTaskNotifyWait with every bit cleared on exit,
-- which leaves `empty`. `none` from `take` is a wait that blocks; `some none` is a wakeup of value
-- 0.
pub record Mailbox : Type 1 where
  pub Box : Type 0
  pub empty : Box
  pub post : Box → Request → Box
  pub poke : Box → Box
  pub take : Box → Option (Option Request)
  pub take-empty : take empty ≡ none
  pub take-post : (b : Box) (r : Request) → take (post b r) ≡ some (some r)
  pub take-poke_some : (b : Box) (v : Option Request) → take b ≡ some v → take (poke b) ≡ some v
  pub take-poke_none : (b : Box) → take b ≡ none → take (poke b) ≡ some none

abbrev pub slot_poke : Option (Option Request) → Option (Option Request)
slot_poke none = some none
slot_poke (some v) = some v

pub slot_poke-some :
    (b : Option (Option Request)) (v : Option Request) → b ≡ some v → slot_poke b ≡ some v
slot_poke-some b v h = rw h

pub slot_poke-none : (b : Option (Option Request)) → b ≡ none → slot_poke b ≡ some none
slot_poke-none b h = rw h

-- One pending value: the notification of a task.
abbrev pub slot : Mailbox
slot = record {
  Box = Option (Option Request);
  empty = none;
  post = λ b r. some (some r);
  poke = slot_poke;
  take = λ b. b;
  take-empty = refl;
  take-post = λ b r. refl;
  take-poke_some = slot_poke-some;
  take-poke_none = slot_poke-none;
}
