-- ===== src/Button.antt =====
-- The BOOT button's callbacks: main/boot_button.c. What they call is a list, in the order of the
-- calls. The callbacks run one after another, on the task of the button component.
pub mod Swallow
mod Tests
use esp32_deepgram_voice_age.Common.{
  ℕ, ◌+◌, Bool, true, false, not, ◌&&◌, ◌||◌, List, [], ◌∷◌, ◌++◌, leb, if◌then◌else◌, sub32,
}

abbrev pub swallow_ms : ℕ
swallow_ms = 1500

-- `s_swallow`, `s_dismiss_ms` and `s_forgetting`.
pub record Button : Type 0 where
  pub swallow : Bool
  pub dismiss_ms : ℕ
  pub forgetting : Bool

-- The calls that the callbacks make.
pub data Call : Type 0 where
  alarm_dismiss show_forgetting mark_stopped wifi_erase restart_later restart_now : Call
  ns_unavailable ns_save session_toggle : Call
  ns_set ns_notice : Bool → Call

-- `on_press_down`, with the answer of `alarms_ringing`.
pub on_press_down : Bool → ℕ → Button → Button × List Call
on_press_down ringing now_ms b =
    if ringing
    then (record b { swallow = true; dismiss_ms = now_ms }, alarm_dismiss ∷ [])
    else if b.swallow && leb swallow_ms (sub32 now_ms b.dismiss_ms)
    then (record b { swallow = false }, [])
    else (b, [])

-- `on_forget_wifi`; `timer_ok` says whether the restart's timer could be made.
pub on_forget_wifi : Bool → Button → Button × List Call
on_forget_wifi timer_ok b = if b.forgetting || b.swallow then (b, []) else (
  record b { forgetting = true },
  show_forgetting
      ∷ mark_stopped
      ∷ wifi_erase
      ∷ (if timer_ok then restart_later else restart_now)
      ∷ [],
)

-- `on_toggle_ns`, with the denoiser's two answers.
pub on_toggle_ns : Bool → Bool → Button → Button × List Call
on_toggle_ns available enabled b =
    if b.swallow
    then (b, [])
    else if not available
    then (b, ns_unavailable ∷ [])
    else (b, ns_set (not enabled) ∷ ns_save ∷ ns_notice (not enabled) ∷ [])

-- `on_click`.
pub on_click : Button → Button × List Call
on_click b = if b.swallow then (b, []) else (b, session_toggle ∷ [])

-- What the button component reports, with what the callback reads.
pub data Event : Type 0 where
  press_down : Bool → ℕ → Event
  hold : Bool → Event
  double_click : Bool → Bool → Event
  click : Event

pub on_event : Event → Button → Button × List Call
unfolding on_press_down on_forget_wifi on_toggle_ns on_click
on_event (press_down ringing now_ms) b = on_press_down ringing now_ms b
on_event (hold timer_ok) b = on_forget_wifi timer_ok b
on_event (double_click available enabled) b = on_toggle_ns available enabled b
on_event click b = on_click b

unfoldable pub run : List Event → Button → Button × List Call
unfolding on_event
run [] b = (b, [])
run (e ∷ es) b = let (b1, calls) = on_event e b in let (b2, more) = run es b1 in (b2, calls ++ more)

abbrev pub pressed : Button
pressed = record { swallow = false; dismiss_ms = 0; forgetting = false }
