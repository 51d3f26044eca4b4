-- ===== src/Examples/Leases.antt =====
-- Leases, decisions and failures on concrete databases.
use zincir.Prelude.{◌≡◌, refl, ◌↔◌, ◌≤◌, ◌<◌, ◌+◌, ◌*◌, ◌^◌, true, none, List, [], ◌∷◌}
use zincir.Json.{str}
use zincir.Types.{AgentRun, completed, llm_call, ok, invalid_state, lease_inactive}
use zincir.Sql.{count, max_of, first, exists, select, update}
use zincir.Tables.{Clock, has_run, find_run, update_runs, update_run_returning}
use zincir.Store.{
  next_event_seq, insert_event, max_seq, decode_i32, seq_taken, key_taken, current_status,
  validate_run_lease, validate_writable_run_lease,
}
use zincir.Types.Names.RunStatusText.{as_str}
use zincir.Calls.Completed.{complete_run-stays}
use zincir.Runs.{get_run}
use zincir.Lease.{
  complete_run_with_lease, record_transition, claim_run_lease, grant_lease, lease_of,
  claim_next_recoverable_run,
}
use zincir.Lease.Durations.{duration_to_millis, as_nanos, duration_to_millis_iff}
use zincir.Lease.Refusals.{Refused}
use zincir.Lease.Exclusion.{holds_lease_unique}
use zincir.Lease.Grants.{Granted, claim_run_lease-Granted}
use zincir.Calls
use zincir.Calls.{Call, execute, run_calls}
use zincir.Calls.Fencing.{claim_run_lease-fences}
use zincir.Calls.Atomic.{execute_err}
use zincir.Events.{append_event_with_lease}
use zincir.Examples.{noon, evening, one_second, claimed_db, lease_1, lease_2}

claim_run_lease-fences_example :
    Refused
      (execute (Calls.append_event_with_lease lease_2 llm_call (str "x") none) evening)
      (run_calls (claim_run_lease 1 9 one_second true evening claimed_db).1 [])
unfolding find_run first exists claim_run_lease grant_lease current_status update_run_returning
    update duration_to_millis
claim_run_lease-fences_example =
    claim_run_lease-fences lease_2 (lease_of 1 9 3 6000) 9 one_second true noon evening evening
      claimed_db (claim_run_lease 1 9 one_second true evening claimed_db).1 []
      (Calls.append_event_with_lease lease_2 llm_call (str "x") none) (refl, tt) refl refl refl

claim_run_lease-Granted_example :
    Granted 1 9 one_second true evening claimed_db
      (lease_of 1 9 3 6000)
      (claim_run_lease 1 9 one_second true evening claimed_db).1
unfolding find_run first exists claim_run_lease grant_lease current_status update_run_returning
    update duration_to_millis
claim_run_lease-Granted_example =
    claim_run_lease-Granted 1 9 one_second true evening claimed_db
      (claim_run_lease 1 9 one_second true evening claimed_db).1 (lease_of 1 9 3 6000) (refl, tt)
      refl

holds_lease_unique_example : (lease_2.owner_id ≡ lease_2.owner_id) × (lease_2.epoch ≡ lease_2.epoch)
unfolding exists
holds_lease_unique_example =
    holds_lease_unique lease_2 lease_2 noon noon claimed_db (refl, tt) refl refl refl

duration_to_millis_example : (duration_to_millis one_second ≡ ok 1000) ↔ (
    (as_nanos one_second ≤ 1000 * 1000000)
    × (1000 * 1000000 < as_nanos one_second + 1000000)
    × (1000 < 2 ^ 63))
duration_to_millis_example = duration_to_millis_iff one_second 1000

execute_err_example :
    (execute (Calls.append_event_with_lease lease_1 llm_call (str "x") none) noon claimed_db).1
    ≡ claimed_db
unfolding execute append_event_with_lease validate_writable_run_lease validate_run_lease exists
execute_err_example =
    execute_err (Calls.append_event_with_lease lease_1 llm_call (str "x") none) noon claimed_db
      (invalid_state (lease_inactive 1 1)) (refl, tt) refl

abbrev claims : List (Clock × Call)
claims =
    (evening, Calls.claim_next_recoverable_run 9 one_second)
    ∷ (evening, Calls.acquire_run_lease 1 9 one_second)
    ∷ []

complete_run-stays_example :
    (run : AgentRun) × ((get_run 1
        (run_calls (complete_run_with_lease lease_2 noon claimed_db).1 claims)).0
      ≡ ok run)
    × (run.status ≡ completed)
    × Refused
        (execute (Calls.recover_run_lease 1 9 one_second) evening)
        (run_calls (complete_run_with_lease lease_2 noon claimed_db).1 claims)
unfolding complete_run_with_lease validate_writable_run_lease validate_run_lease current_status
    find_run record_transition next_event_seq max_seq decode_i32 insert_event seq_taken key_taken
    has_run update_runs first exists select update count max_of as_str
complete_run-stays_example =
    complete_run-stays lease_2 noon evening claimed_db
      (complete_run_with_lease lease_2 noon claimed_db).1 claims
      (Calls.recover_run_lease 1 9 one_second) (refl, tt) refl refl
