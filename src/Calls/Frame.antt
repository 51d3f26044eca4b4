-- ===== src/Calls/Frame.antt =====
-- What a call of src/db.rs leaves as it is: any part of the database that the tables it writes are no
-- part of.
pub mod Parts
pub mod Writes
use zincir.Prelude.{◌≡◌}
use zincir.Tables.{Db, Clock}
use zincir.Tables.Along.{Along}
use zincir.Runs.{create_run}
use zincir.Lease.{
  claim_run_lease, grant_lease, acquire_run_lease, recover_run_lease, claim_next_recoverable_run,
  renew_run_lease, release_run_lease, complete_run_with_lease, update_run_status_with_lease,
  change_status,
}
use zincir.Events.{
  append_event_with_lease, append_llm_call_with_tool_intents_with_lease,
  record_tool_result_with_lease,
}
use zincir.Checkpoints.{propose_checkpoint_with_lease, decide_checkpoint_with_lease}
use zincir.Steps.{claim_step, complete_step, recover_steps}
use zincir.Timers.{schedule_timer}
use zincir.Calls
use zincir.Calls.{Call, execute}
use zincir.Calls.Frame.Writes.{
  NotRuns, NotEvents, NotCheckpoints, NotSteps, NotTimers, Same, write_rules,
}
use zincir.Calls.Frame.Parts.{
  insert_event-Same, append_next-Same, record_transition-Same, insert_intents-Same,
  is_checkpoint_tool-Same, record_for-Same, write_proposal-Same, write_decision-Same,
  claim_row-Same, saved_or_new-Same, claim_found-Same,
}

-- The tables that a call may write are no part of this part.
abbrev pub Spares : {T : Type 0} → (Db → T) → Call → Type 0
Spares part (Calls.create_run _ _ _ _ _) = NotRuns part
Spares part (Calls.acquire_run_lease _ _ _) = NotRuns part
Spares part (Calls.recover_run_lease _ _ _) = NotRuns part
Spares part (Calls.renew_run_lease _ _) = NotRuns part
Spares part (Calls.release_run_lease _) = NotRuns part
Spares part (Calls.claim_next_recoverable_run _ _) = NotRuns part × NotEvents part
Spares part (Calls.complete_run_with_lease _) = NotRuns part × NotEvents part
Spares part (Calls.update_run_status_with_lease _) = NotRuns part × NotEvents part
Spares part (Calls.append_event_with_lease _ _ _ _) = NotEvents part
Spares part (Calls.append_llm_call_with_tool_intents_with_lease _ _ _) = NotEvents part
Spares part (Calls.record_tool_result_with_lease _ _ _) = NotEvents part
Spares part (Calls.propose_checkpoint_with_lease _ _ _) = NotEvents part × NotCheckpoints part
Spares part (Calls.decide_checkpoint_with_lease _ _ _ _) = NotEvents part × NotCheckpoints part
Spares part (Calls.claim_step _ _ _) = NotSteps part
Spares part (Calls.complete_step _ _ _ _) = NotSteps part
Spares part (Calls.recover_steps _) = NotSteps part
Spares part (Calls.schedule_timer _ _ _) = NotTimers part
Spares part (Calls.complete_timer _ _) = NotTimers part

ruleset frame_rules = (
  write_rules, insert_event-Same, append_next-Same, record_transition-Same, insert_intents-Same,
  is_checkpoint_tool-Same, record_for-Same, write_proposal-Same, write_decision-Same,
  claim_row-Same, saved_or_new-Same, claim_found-Same,
)

module _ {T : Type 0} (part : Db → T) where
  pub execute-Same : (c : Call) (now : Clock) → Spares part c → Along (Same part) (execute c now)
  unfolding execute create_run claim_run_lease grant_lease acquire_run_lease recover_run_lease
      claim_next_recoverable_run renew_run_lease release_run_lease complete_run_with_lease
      update_run_status_with_lease change_status append_event_with_lease
      append_llm_call_with_tool_intents_with_lease record_tool_result_with_lease
      propose_checkpoint_with_lease decide_checkpoint_with_lease claim_step complete_step
      recover_steps schedule_timer
  execute-Same (Calls.create_run _ _ _ _ _) now h = search frame_rules depth 16
  execute-Same (Calls.acquire_run_lease _ _ _) now h = search frame_rules depth 16
  execute-Same (Calls.recover_run_lease _ _ _) now h = search frame_rules depth 16
  execute-Same (Calls.renew_run_lease _ _) now h = search frame_rules depth 16
  execute-Same (Calls.release_run_lease _) now h = search frame_rules depth 16
  execute-Same (Calls.claim_next_recoverable_run _ _) now (hr, he) = search frame_rules depth 16
  execute-Same (Calls.complete_run_with_lease _) now (hr, he) = search frame_rules depth 16
  execute-Same (Calls.update_run_status_with_lease _) now (hr, he) = search frame_rules depth 16
  execute-Same (Calls.propose_checkpoint_with_lease _ _ _) now (he, hc) =
      search frame_rules depth 16
  execute-Same (Calls.decide_checkpoint_with_lease _ _ _ _) now (he, hc) =
      search frame_rules depth 16
  execute-Same _ now h = search frame_rules depth 16
