-- ===== src/Examples/Agents.antt =====
-- Contexts, payloads, workers and pages on concrete values.
use zincir.Prelude.{◌≡◌, refl, ◌≤◌, ◌^◌, ◌-◌, true, false, List, [], ◌∷◌, length}
use zincir.Json.{null, num}
use zincir.Types.{Event, ToolCall, CheckpointState, invalid_state, other_reason}
use zincir.Tables.{Clock, Db}
use zincir.Sql.{exists}
use zincir.Checkpoints.{state_to_value}
use zincir.Agent.{AgentContext, from_lease}
use zincir.Agent.Payload.{Verification, tool_call_payload}
use zincir.Agent.Session.{
  Act, pure, raise, record_response, pending_tool_calls, record_tool_result, checkpoint,
  pending_checkpoint, verify_checkpoint, renew_lease, close, complete,
}
use zincir.Agent.Session.Fenced.{IsRefused, fenced_methods}
use zincir.Worker.{Wake, tick, shutdown, task_ended, turns, start, new_worker}
use zincir.Worker.Bounds.{turns-bound}
use zincir.Ui.{escape, has_markup, has_markup-escape}
use zincir.Examples.{noon, evening, one_second, claimed_db, call_event, lease_1, lease_2}
use zincir.Examples.Workflows.{open_checkpoint}

abbrev write_call : ToolCall
write_call = record { id = "a"; name = "write"; args = num 3 }

abbrev progress : CheckpointState
progress = record {
  completed = "parse" ∷ [];
  remaining = "print" ∷ [];
  artifacts = [];
  failed_attempts = [];
  evidence = [];
}

abbrev fenced_context : AgentContext
fenced_context = from_lease lease_1 one_second

-- A verifier that must not run.
abbrev no_verifier : CheckpointState → Act Verification
no_verifier s = raise (invalid_state (other_reason "verified"))

fenced_methods_example :
    IsRefused
      (record_response null (write_call ∷ []) "tool_use" noon noon)
      (fenced_context, claimed_db)
    × IsRefused (pending_tool_calls noon noon) (fenced_context, claimed_db)
    × IsRefused (record_tool_result "a" null noon noon) (fenced_context, claimed_db)
    × IsRefused
        (checkpoint "a" progress no_verifier noon noon noon noon noon noon)
        (fenced_context, claimed_db)
    × IsRefused (pending_checkpoint noon noon) (fenced_context, claimed_db)
    × IsRefused
        (verify_checkpoint open_checkpoint no_verifier noon noon noon noon)
        (fenced_context, claimed_db)
    × IsRefused (renew_lease noon) (fenced_context, claimed_db)
    × IsRefused (close noon) (fenced_context, claimed_db)
    × IsRefused (complete noon noon noon) (fenced_context, claimed_db)
unfolding exists
fenced_methods_example =
    fenced_methods fenced_context claimed_db refl null (write_call ∷ []) "tool_use" "a"
      open_checkpoint progress no_verifier noon noon noon noon noon noon

abbrev submit_event : Event
submit_event = record call_event {
  payload =
      tool_call_payload 1
        (record { id = "a"; name = "submit_checkpoint"; args = state_to_value progress });
}

abbrev submitted_db : Db
submitted_db = record claimed_db { events = submit_event ∷ [] }

abbrev submitting : AgentContext
submitting = from_lease lease_2 one_second

-- Two verifiers that agree on `progress`, which has something left to do.
abbrev strict : CheckpointState → Act Verification
strict s = pure (record { passed = false; evidence = null })

abbrev lenient : CheckpointState → Act Verification
lenient s =
    pure (record { passed = elim s.remaining [ [] ↦ true | x ∷ xs ↦ false ]; evidence = null })

abbrev wakes : List Wake
wakes = tick (λ n. (9, evening)) ∷ task_ended 0 ∷ tick (λ n. (9, evening)) ∷ shutdown ∷ []

turns-bound_example : length (turns (new_worker one_second) (start, claimed_db) wakes).0.tasks ≤ 1
turns-bound_example = turns-bound (new_worker one_second) claimed_db wakes

-- A lease from this time on ends past the largest `i64`.
abbrev doomsday : Clock
doomsday = record { utc_millis = 2 ^ 63 - 1; current_timestamp = 9 }

has_markup-escape_example : has_markup (escape "<b>&") ≡ false
has_markup-escape_example = has_markup-escape "<b>&"
