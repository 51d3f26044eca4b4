-- ===== src/Examples/Claims.antt =====
-- Claims of steps and of lost runs on concrete databases.
use zincir.Prelude.{ℕ, ◌+◌, ◌≡◌, refl, true, some, List, [], ◌∷◌, arith}
use zincir.Json.{null}
use zincir.Types.{ok, err, invalid_state, step_running, AgentRun, completed}
use zincir.Sql.{exists, first, select, order_by, limit_one, insert_by, max_of}
use zincir.Tables.{Db, Clock, find_run}
use zincir.Steps.{find_step, claim_step}
use zincir.Lease.{next_candidate, claim_next_recoverable_run, lease_of}
use zincir.Lease.Durations.{duration_to_millis}
use zincir.Lease.Refusals.{holds_lease}
use zincir.Lease.Recovery.{claim_next-recovers}
use zincir.Store.{max_seq}
use zincir.Runs.{get_run}
use zincir.Agent.{validate_lease_ttl}
use zincir.AutomaticResume.{resume_next}
use zincir.AutomaticResume.Completes.{resume_next-completes}
use zincir.Calls
use zincir.Calls.{Call, run_calls}
use zincir.Calls.Claims.{claim_step-exclusive}
use zincir.Calls.Invariant.{IsValid, run_calls-IsValid}
use zincir.Examples.{noon, evening, one_second, claimed_run, claimed_db}
use zincir.Examples.Workflows.{report_step, working_db, open_checkpoint}

-- Another workflow claims the step, and a stranger completes it.
abbrev intrusions : List (Clock × Call)
intrusions =
    (noon, Calls.claim_step 1 "report" 9)
    ∷ (evening, Calls.complete_step 1 "report" 9 null)
    ∷ (evening, Calls.recover_steps 2)
    ∷ (evening, Calls.recover_run_lease 1 9 one_second)
    ∷ []

claim_step-exclusive_example :
    claim_step 1 "report" 9 evening (run_calls working_db intrusions)
    ≡ (err (invalid_state (step_running "report" 1)), run_calls working_db intrusions)
unfolding find_run find_step first exists
claim_step-exclusive_example =
    claim_step-exclusive 1 "report" 4 9 evening working_db claimed_run report_step intrusions
      ((λ _. refl), tt) refl refl refl (refl, (refl, (refl, (refl, tt))))

claim_next-recovers_example :
    (after : Db) × (claim_next_recoverable_run 9 one_second evening claimed_db
      ≡ (ok (some (lease_of 1 9 3 6000)), after))
    × (holds_lease (lease_of 1 9 3 6000) evening after ≡ true)
unfolding next_candidate duration_to_millis select order_by limit_one insert_by exists
claim_next-recovers_example =
    claim_next-recovers 9 one_second evening claimed_db claimed_run 1000 6000 (refl, tt) refl refl
      refl refl (omega arith)

abbrev half_past : ℕ → Clock
half_past ms = record { utc_millis = 5500 + ms; current_timestamp = 5 }

resume_next-completes_example :
    (run : AgentRun) × ((resume_next 9 one_second evening
        (half_past 0, half_past 500, half_past 600)
        claimed_db).0
      ≡ ok tt)
    × ((get_run 1
          (resume_next 9 one_second evening
            (half_past 0, half_past 500, half_past 600)
            claimed_db).1).0
        ≡ ok run)
    × (run.status ≡ completed)
unfolding next_candidate duration_to_millis select order_by limit_one insert_by exists
    validate_lease_ttl max_seq max_of
resume_next-completes_example =
    resume_next-completes 9 one_second evening (half_past 0) (half_past 500) (half_past 600)
      claimed_db claimed_run 1000 6000 6500 (refl, tt) refl refl refl refl refl refl (omega arith)
      (omega arith) refl

abbrev busy_db : Db
busy_db = record working_db { checkpoints = open_checkpoint ∷ [] }

busy_db-IsValid : IsValid busy_db
unfolding exists
busy_db-IsValid = record {
  runs = (refl, tt);
  steps = record { at = λ i n. ((λ _. refl), tt) };
  timers = record { at = λ i n. tt };
  checkpoints = record { at = λ i. ((λ _. refl), tt) };
}

run_calls-IsValid_example : IsValid (run_calls busy_db intrusions)
run_calls-IsValid_example = run_calls-IsValid busy_db intrusions busy_db-IsValid
