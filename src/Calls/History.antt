-- ===== src/Calls/History.antt =====
-- What every call keeps, over whole histories.
use zincir.Prelude.{List, [], ◌∷◌}
use zincir.Tables.{Db, Clock}
use zincir.Tables.Along.{Along, along_rules}
use zincir.Calls.{Call, create_run, execute, step, run_calls}
use zincir.Grows.Rows.{Grows, grows}
use zincir.Grows.Runs.{
  create_run-Grows, acquire_run_lease-Grows, recover_run_lease-Grows,
  claim_next_recoverable_run-Grows, renew_run_lease-Grows, release_run_lease-Grows,
  complete_run_with_lease-Grows, update_run_status_with_lease-Grows,
}
use zincir.Grows.Leased.{
  append_event_with_lease-Grows, append_llm_call-Grows, record_tool_result-Grows,
  propose_checkpoint-Grows, decide_checkpoint-Grows,
}
use zincir.Grows.Workflow.{
  claim_step-Grows, complete_step-Grows, recover_steps-Grows, schedule_timer-Grows,
  complete_timer-Grows,
}

ruleset call_rules = (
  along_rules, grows, create_run-Grows, acquire_run_lease-Grows, recover_run_lease-Grows,
  claim_next_recoverable_run-Grows, renew_run_lease-Grows, release_run_lease-Grows,
  complete_run_with_lease-Grows, update_run_status_with_lease-Grows, append_event_with_lease-Grows,
  append_llm_call-Grows, record_tool_result-Grows, propose_checkpoint-Grows,
  decide_checkpoint-Grows, claim_step-Grows, complete_step-Grows, recover_steps-Grows,
  schedule_timer-Grows, complete_timer-Grows,
)

execute-Grows : (c : Call) (now : Clock) → Along Grows (execute c now)
unfolding execute
execute-Grows (create_run id parent role provider config) now = search call_rules
execute-Grows _ now = search call_rules

-- Whatever calls follow, with whatever arguments and times, every event stays in the log where it
-- was, no run goes away and no lease epoch falls, and completed steps, the wake times of timers and
-- decided checkpoints stay as they are.
pub run_calls-Grows : (db : Db) (cs : List (Clock × Call)) → Grows db (run_calls db cs)
unfolding run_calls step
run_calls-Grows db [] = grows.reflexive db
run_calls-Grows db ((now, c) ∷ cs) =
    grows.transitive db _ _ ((execute-Grows c now).at db) (run_calls-Grows (step db (now, c)) cs)
