-- ===== src/Examples/Workflows.antt =====
-- Steps, timers and checkpoints on concrete databases.
use zincir.Prelude.{decimal, ℕ, ◌≡◌, refl, ◌↔◌, ◌+◌, true, false, none, some, List, [], ◌∷◌}
use zincir.Json.{Value, null, num}
use zincir.Types.{ok, Result, active, candidate, CheckpointRecord, invalid_state, other_reason}
use zincir.Sql.{max_of, first, exists, select, update, count}
use zincir.Sql.Laws.{holds}
use zincir.Tables.{StepRow, Db, Clock, Tx, raise, find_run, has_run}
use zincir.Store.{
  current_status, next_event_seq, insert_event, validate_run_lease, validate_writable_run_lease,
  max_seq, decode_i32, seq_taken, key_taken,
}
use zincir.Events.{add_one}
use zincir.Checkpoints.{
  decide_checkpoint_with_lease, decide_row, find_candidate, write_decision, write_verdict,
  update_candidate,
}
use zincir.Calls.Decisions.{decide_checkpoint-once}
use zincir.Lease.Refusals.{Refused}
use zincir.Steps.{find_step, complete_step, claim_step, is_claimed_by, update_steps, fits_check}
use zincir.Steps.Once.{complete_step_iff}
use zincir.Lease.Durations.{duration_to_millis}
use zincir.Timers.{schedule_timer, insert_timer, find_timer}
use zincir.Calls
use zincir.Calls.{Call, run_calls}
use zincir.Calls.Memo.{complete_step-claim_step, schedule_timer-twice}
use zincir.Workflow
use zincir.Workflow.{validate_name}
use zincir.Workflow.Names.{validate_name-fits_check, begins_with_nul}
use zincir.Workflow.Steps.{complete_step-step}
use zincir.Examples.{noon, evening, one_second, claimed_run, claimed_db, lease_2}

abbrev pub report_step : StepRow
report_step = record {
  run_id = 1;
  step = record {
    name = "report";
    status = active;
    owner_id = some 4;
    result = none;
    started_at = 1;
    completed_at = none;
  };
}

abbrev pub working_db : Db
working_db = record claimed_db { steps = report_step ∷ [] }

abbrev later_calls : List (Clock × Call)
later_calls =
    (evening, Calls.recover_steps 1) ∷ (evening, Calls.complete_step 1 "report" 4 null) ∷ []

complete_step_iff_example :
    ((complete_step 1 "report" 4 (num 7) noon working_db).0 ≡ ok tt)
    ↔ (holds (is_claimed_by 4) (find_step 1 "report" working_db) ≡ true)
unfolding exists
complete_step_iff_example = complete_step_iff 1 "report" 4 (num 7) noon working_db ((λ _. refl), tt)

complete_step-claim_step_example :
    claim_step 1 "report" 5 evening
      (run_calls (complete_step 1 "report" 4 (num 7) noon working_db).1 later_calls)
    ≡ (
      ok (some (num 7)),
      run_calls (complete_step 1 "report" 4 (num 7) noon working_db).1 later_calls,
    )
unfolding exists find_run first complete_step update_steps count update
complete_step-claim_step_example =
    complete_step-claim_step 1 "report" 4 5 (num 7) noon evening working_db claimed_run later_calls
      ((λ _. refl), tt) refl refl

schedule_timer-twice_example :
    schedule_timer 1 "nap" one_second evening
      (run_calls (schedule_timer 1 "nap" one_second noon claimed_db).1 later_calls)
    ≡ (ok 2000, run_calls (schedule_timer 1 "nap" one_second noon claimed_db).1 later_calls)
unfolding schedule_timer insert_timer find_timer current_status find_run first duration_to_millis
    fits_check
schedule_timer-twice_example =
    schedule_timer-twice 1 "nap" one_second one_second noon evening claimed_db
      (schedule_timer 1 "nap" one_second noon claimed_db).1 2000 1000 6000 later_calls refl refl
      refl

validate_name-fits_check_example : (fits_check "report" ≡ true) ↔ (begins_with_nul "report" ≡ false)
unfolding validate_name
validate_name-fits_check_example = validate_name-fits_check "report" refl

-- An operation that must not run.
abbrev failing : Tx ℕ
failing = raise (invalid_state (other_reason "ran again"))

abbrev from_num : Value → Result ℕ
from_num (num n) = ok n
from_num _ = ok 0

complete_step-step_example :
    Workflow.step
      (λ n. ok (num n))
      from_num
      (record { run_id = 1; owner_id = 5 })
      "report"
      failing
      evening
      evening
      (run_calls (complete_step 1 "report" 4 (num 7) noon working_db).1 later_calls)
    ≡ (ok 7, run_calls (complete_step 1 "report" 4 (num 7) noon working_db).1 later_calls)
unfolding exists find_run first complete_step update_steps count update validate_name
complete_step-step_example =
    complete_step-step (λ n. ok (num n)) from_num (record { run_id = 1; owner_id = 5 }) "report"
      failing 4 (num 7) noon evening evening working_db claimed_run later_calls refl
      ((λ _. refl), tt) refl refl

-- A sleep that lasts as long as it is asked to.
abbrev slept : ℕ → Clock → Clock
slept ms c = record { utc_millis = c.utc_millis + ms; current_timestamp = c.current_timestamp }

abbrev napping : Db
napping = (schedule_timer 1 "nap" one_second noon claimed_db).1

abbrev pub open_checkpoint : CheckpointRecord
open_checkpoint = record {
  id = 3;
  run_id = 1;
  round = 1;
  tool_call_id = "a";
  based_on_event_seq = 0;
  decision_event_seq = none;
  status = candidate;
  state = null;
  verification = none;
  created_at = 1;
  decided_at = none;
}

abbrev deciding_db : Db
deciding_db = record claimed_db { checkpoints = open_checkpoint ∷ [] }

abbrev accepted_checkpoint : CheckpointRecord
accepted_checkpoint = decide_row true null 1 noon open_checkpoint

decide_checkpoint-once_example :
    Refused
      (decide_checkpoint_with_lease lease_2 3 false null noon)
      (run_calls (decide_checkpoint_with_lease lease_2 3 true null noon deciding_db).1 later_calls)
unfolding decide_checkpoint_with_lease validate_writable_run_lease validate_run_lease current_status
    find_candidate write_decision write_verdict update_candidate next_event_seq max_seq decode_i32
    insert_event seq_taken key_taken has_run find_run add_one first exists select update max_of
    decimal
decide_checkpoint-once_example =
    decide_checkpoint-once lease_2 lease_2 3 true false null null noon noon deciding_db
      (decide_checkpoint_with_lease lease_2 3 true null noon deciding_db).1 accepted_checkpoint
      later_calls refl
