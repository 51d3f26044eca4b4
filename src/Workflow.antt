-- ===== src/Workflow.antt =====
-- `WorkflowContext` of src/workflow.rs. The pool is the database that the calls pass on; `operation`,
-- the conversions of its result by serde and tokio's sleep are parameters.
pub mod Names
pub mod Sleeps
pub mod Steps
use Prim.Native.String.{len}
use zincir.Prelude.{ℕ, ◌-◌, Bool, ◌&&◌, Option, none, some, String, ltb, leb, if◌then◌else◌}
use zincir.Json.{Value}
use zincir.Types.{Uuid, Result, ok, err, invalid_state, bad_step_name}
use zincir.Tables.{Clock, Tx, pure, lift, ◌>>=◌, ◌>>◌}
use zincir.Lease.Durations.{Duration}
use zincir.Steps.{claim_step, complete_step, recover_steps}
use zincir.Timers.{schedule_timer, complete_timer}

pub record WorkflowContext : Type 0 where
  pub run_id : Uuid
  pub owner_id : Uuid

-- `new`; the owner is a fresh UUID.
abbrev pub new_context : Uuid → Uuid → WorkflowContext
new_context run_id owner_id = record { run_id = run_id; owner_id = owner_id }

-- `!name.is_empty() && name.len() <= 255`, in bytes.
abbrev pub is_name : String → Bool
is_name name = ltb 0 (len name) && leb (len name) 255

unfoldable pub validate_name : String → Result (Unit {0})
validate_name name = if is_name name then ok tt else err (invalid_state bad_step_name)

unfoldable pub recover : WorkflowContext → Clock → Tx (Unit {0})
unfolding recover_steps
recover ctx now = recover_steps ctx.run_id now

-- The time when the wait is over: `saturating_sub`, and a sleep if anything remains.
abbrev pub wait_until : (ℕ → Clock → Clock) → ℕ → Clock → Clock
wait_until sleep_ms wake_at_ms now =
    let remaining_ms = wake_at_ms - now.utc_millis in
    if ltb 0 remaining_ms then sleep_ms remaining_ms now else now

-- `scheduled` is the time of the first call, `checked` of the second look at the clock.
unfoldable pub sleep :
    (ℕ → Clock → Clock) → WorkflowContext → String → Duration → Clock → Clock → Tx (Unit {0})
unfolding validate_name schedule_timer complete_timer
sleep sleep_ms ctx name delay scheduled checked = do
  lift (validate_name name)
  wake_at_ms ← schedule_timer ctx.run_id name delay scheduled
  complete_timer ctx.run_id name (wait_until sleep_ms wake_at_ms checked)

module _ {T : Type 0} (to_value : T → Result Value) (from_value : Value → Result T) where
  -- What `step` does with the answer of `claim_step`.
  abbrev pub run_or_reuse : WorkflowContext → String → Tx T → Clock → Option Value → Tx T
  run_or_reuse ctx name operation finished (some result) = lift (from_value result)
  run_or_reuse ctx name operation finished none = do
    value ← operation
    payload ← lift (to_value value)
    complete_step ctx.run_id name ctx.owner_id payload finished
    pure value

  unfoldable pub step : WorkflowContext → String → Tx T → Clock → Clock → Tx T
  unfolding validate_name claim_step
  step ctx name operation started finished = do
    lift (validate_name name)
    saved ← claim_step ctx.run_id name ctx.owner_id started
    run_or_reuse ctx name operation finished saved
