-- ===== src/Lease/Refusals.antt =====
-- A call under a lease that the database no longer holds fails and changes nothing.
use zincir.Prelude.{◌≡◌, Bool, false, Option, String, List, ◌&&◌, ◌==◌, ℕ}
use zincir.Json.{Value}
use zincir.Types.{
  RunStatus, EventType, RunLease, CheckpointState, err, Error, invalid_state, lease_inactive,
}
use zincir.Sql.{exists}
use zincir.Tables.{Db, Clock, Tx}
use zincir.Tables.Stops.{Stops, stop_rules}
use zincir.Store.{validate_run_lease, validate_writable_run_lease, is_leased}
use zincir.Lease.{is_owned, update_run_status_with_lease, complete_run_with_lease}
use zincir.Events.{
  append_event_with_lease, append_llm_call_with_tool_intents_with_lease,
  record_tool_result_with_lease,
}
use zincir.Checkpoints.{propose_checkpoint_with_lease, decide_checkpoint_with_lease}

-- Some run is leased under this lease, which has not expired.
abbrev pub holds_lease : RunLease → Clock → Db → Bool
holds_lease lease now db =
    exists (λ r. r.id == lease.run_id && is_leased lease now.utc_millis r) db.agent_runs

-- Some run has the owner and the epoch of this lease, expired or not.
abbrev pub owns_run : RunLease → Db → Bool
owns_run lease db = exists (λ r. r.id == lease.run_id && is_owned lease r) db.agent_runs

-- The call fails and leaves the database as it was.
abbrev pub Refused : {A : Type 0} → Tx A → Db → Type 0
Refused m db = (e : Error) × (m db ≡ (err e, db))

module _ (lease : RunLease) (now : Clock) (db : Db) (lost : holds_lease lease now db ≡ false) where
  abbrev pub inactive : Error
  inactive = invalid_state (lease_inactive lease.run_id lease.epoch)

  validate-Stops : Stops db inactive (validate_run_lease lease now)
  unfolding validate_run_lease
  validate-Stops = record { at = rw lost }

  writable-Stops : Stops db inactive (validate_writable_run_lease lease now)
  unfolding validate_writable_run_lease
  writable-Stops = search (stop_rules, validate-Stops)

  pub update_status-Stops :
      (status : RunStatus) → Stops db inactive (update_run_status_with_lease lease status now)
  unfolding update_run_status_with_lease
  update_status-Stops status = search (stop_rules, validate-Stops)

  pub complete-Stops : Stops db inactive (complete_run_with_lease lease now)
  unfolding complete_run_with_lease
  complete-Stops = search (stop_rules, writable-Stops)

  pub append_event-Stops :
      (t : EventType) (payload : Value) (key : Option String)
      → Stops db inactive (append_event_with_lease lease t payload key now)
  unfolding append_event_with_lease
  append_event-Stops t payload key = search (stop_rules, writable-Stops)

  pub append_llm_call-Stops :
      (payload : Value) (intents : List (Value × String))
      → Stops db inactive (append_llm_call_with_tool_intents_with_lease lease payload intents now)
  unfolding append_llm_call_with_tool_intents_with_lease
  append_llm_call-Stops payload intents = search (stop_rules, writable-Stops)

  pub record_tool_result-Stops :
      (call_id : String) (content : Value)
      → Stops db inactive (record_tool_result_with_lease lease call_id content now)
  unfolding record_tool_result_with_lease
  record_tool_result-Stops call_id content = search (stop_rules, writable-Stops)

  pub propose-Stops :
      (call_id : String) (state : CheckpointState)
      → Stops db inactive (propose_checkpoint_with_lease lease call_id state now)
  unfolding propose_checkpoint_with_lease
  propose-Stops call_id state = search (stop_rules, writable-Stops)

  pub decide-Stops :
      (id : ℕ) (a : Bool) (v : Value)
      → Stops db inactive (decide_checkpoint_with_lease lease id a v now)
  unfolding decide_checkpoint_with_lease
  decide-Stops id a v = search (stop_rules, writable-Stops)
