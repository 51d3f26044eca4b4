-- ===== src/Types/Names/RunStatusText.antt =====
-- `RunStatus::as_str` and its `FromStr` (src/types.rs).
use zincir.Prelude.{◌≡◌, refl, String, arith, ◌↔◌, str_eq, str_eq_iff, if◌then◌else◌}
use zincir.Types.{
  RunStatus, pending, running, completed, failed, Result, ok, err, invalid_state,
  unknown_run_status,
}

unfoldable pub as_str : RunStatus → String
as_str pending = "pending"
as_str running = "running"
as_str completed = "completed"
as_str failed = "failed"

unfoldable pub from_str : String → Result RunStatus
from_str s =
    if str_eq s "pending"
    then ok pending
    else if str_eq s "running"
    then ok running
    else if str_eq s "completed"
    then ok completed
    else if str_eq s "failed"
    then ok failed
    else err (invalid_state (unknown_run_status s))

from_str-as_str : (r : RunStatus) → from_str (as_str r) ≡ ok r
unfolding as_str from_str
from_str-as_str pending = refl
from_str-as_str running = refl
from_str-as_str completed = refl
from_str-as_str failed = refl

from_str-ok : (s : String) (r : RunStatus) → from_str s ≡ ok r → as_str r ≡ s
unfolding as_str from_str
from_str-ok s pending h = ground (
  arith,
  str_eq_iff s "pending",
  str_eq_iff s "running",
  str_eq_iff s "completed",
  str_eq_iff s "failed",
)
from_str-ok s running h = ground (
  arith,
  str_eq_iff s "pending",
  str_eq_iff s "running",
  str_eq_iff s "completed",
  str_eq_iff s "failed",
)
from_str-ok s completed h = ground (
  arith,
  str_eq_iff s "pending",
  str_eq_iff s "running",
  str_eq_iff s "completed",
  str_eq_iff s "failed",
)
from_str-ok s failed h = ground (
  arith,
  str_eq_iff s "pending",
  str_eq_iff s "running",
  str_eq_iff s "completed",
  str_eq_iff s "failed",
)

-- A text decodes to a run status exactly when it is the text that the status is stored as, so
-- writing a status and reading it back gives the status, and no other text reads as it.
pub run_status-from_str_iff : (s : String) (r : RunStatus) → (from_str s ≡ ok r) ↔ (s ≡ as_str r)
run_status-from_str_iff s r = (λ h. cc (from_str-ok s r h), λ e. cc (from_str-as_str r))
