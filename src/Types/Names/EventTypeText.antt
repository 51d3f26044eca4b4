-- ===== src/Types/Names/EventTypeText.antt =====
-- `EventType::as_str` and its `FromStr` (src/types.rs).
use zincir.Prelude.{◌≡◌, refl, String, arith, ◌↔◌, str_eq, str_eq_iff, if◌then◌else◌}
use zincir.Types.{
  EventType, llm_call, tool_call, tool_result, state_transition, checkpoint_proposed,
  checkpoint_accepted, checkpoint_rejected, Result, ok, err, invalid_state, unknown_event_type,
}

unfoldable pub as_str : EventType → String
as_str llm_call = "llm_call"
as_str tool_call = "tool_call"
as_str tool_result = "tool_result"
as_str state_transition = "state_transition"
as_str checkpoint_proposed = "checkpoint_proposed"
as_str checkpoint_accepted = "checkpoint_accepted"
as_str checkpoint_rejected = "checkpoint_rejected"

unfoldable pub from_str : String → Result EventType
from_str s =
    if str_eq s "llm_call"
    then ok llm_call
    else if str_eq s "tool_call"
    then ok tool_call
    else if str_eq s "tool_result"
    then ok tool_result
    else if str_eq s "state_transition"
    then ok state_transition
    else if str_eq s "checkpoint_proposed"
    then ok checkpoint_proposed
    else if str_eq s "checkpoint_accepted"
    then ok checkpoint_accepted
    else if str_eq s "checkpoint_rejected"
    then ok checkpoint_rejected
    else err (invalid_state (unknown_event_type s))

from_str-as_str : (t : EventType) → from_str (as_str t) ≡ ok t
unfolding as_str from_str
from_str-as_str llm_call = refl
from_str-as_str tool_call = refl
from_str-as_str tool_result = refl
from_str-as_str state_transition = refl
from_str-as_str checkpoint_proposed = refl
from_str-as_str checkpoint_accepted = refl
from_str-as_str checkpoint_rejected = refl

-- The test of the fifth branch on, as `from_str` falls through to it.
from_str-ok : (s : String) (t : EventType) → from_str s ≡ ok t → as_str t ≡ s
unfolding as_str from_str
from_str-ok s t h = ground (
  arith,
  str_eq_iff s "llm_call",
  str_eq_iff s "tool_call",
  str_eq_iff s "tool_result",
  str_eq_iff s "state_transition",
  str_eq_iff s "checkpoint_proposed",
  str_eq_iff s "checkpoint_accepted",
  str_eq_iff s "checkpoint_rejected",
)

-- A text decodes to an event type exactly when it is the text that the type is stored as, so
-- writing an event type and reading it back gives the type, and no other text reads as it.
pub event_type-from_str_iff : (s : String) (t : EventType) → (from_str s ≡ ok t) ↔ (s ≡ as_str t)
event_type-from_str_iff s t = (λ h. cc (from_str-ok s t h), λ e. cc (from_str-as_str t))
