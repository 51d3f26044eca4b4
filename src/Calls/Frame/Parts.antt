-- ===== src/Calls/Frame/Parts.antt =====
-- The parts of the calls of src/db.rs, each with the tables that it writes.
use zincir.Prelude.{ℕ, Bool, Option, none, some, List, [], ◌∷◌, String}
use zincir.Json.{Value, SqlValue, text, json}
use zincir.Types.{
  Uuid, Event, EventType, RunStatus, RunLease, CheckpointRecord, StepStatus, done, active,
}
use zincir.Tables.{RunRow, StepRow, TimerRow, Db, Clock}
use zincir.Tables.Along.{Along, Along-bind, Along-then}
use zincir.Store.{insert_event}
use zincir.Calls.Frame.Writes.{
  NotRuns, NotEvents, NotCheckpoints, NotSteps, NotTimers, Same, same, write_rules,
}
use zincir.Lease.{record_transition, claim_found, claim_candidate, note_start}
use zincir.Events.{
  append_next, insert_intents, add_one, settle_result, is_checkpoint_tool, record_for,
}
use zincir.Checkpoints.{
  insert_checkpoint, read_round, write_verdict, write_proposal, write_decision,
}
use zincir.Steps.{restart_step, claim_existing, insert_step, claim_row}
use zincir.Timers.{insert_timer, saved_or_new}

module _ {T : Type 0} (part : Db → T) where
  pub insert_event-Same :
      (run_id : Uuid) (seq : ℕ) (t : EventType) (payload : Value) (key : Option String)
      (now : Clock)
      → NotEvents part
      → Along (Same part) (insert_event run_id seq t payload key now)
  unfolding insert_event
  insert_event-Same run_id seq t payload key now ne = search write_rules depth 12

  pub append_next-Same :
      (run_id : Uuid) (t : EventType) (payload : Value) (key : Option String) (now : Clock)
      → NotEvents part
      → Along (Same part) (append_next run_id t payload key now)
  unfolding append_next
  append_next-Same run_id t payload key now ne = search (write_rules, insert_event-Same)

  pub record_transition-Same :
      (run_id : Uuid) (from to : RunStatus) (now : Clock)
      → NotEvents part
      → Along (Same part) (record_transition run_id from to now)
  unfolding record_transition
  record_transition-Same run_id from to now ne = search (write_rules, insert_event-Same)

  pub add_one-Same : (n : ℕ) → Along (Same part) (add_one n)
  unfolding add_one
  add_one-Same n = search write_rules

  pub insert_intents-Same :
      (run_id : Uuid) (seq : ℕ) (intents : List (Value × String)) (now : Clock)
      → NotEvents part
      → Along (Same part) (insert_intents run_id seq intents now)
  unfolding insert_intents
  insert_intents-Same run_id seq [] now ne = search write_rules
  insert_intents-Same run_id seq ((payload, call_id) ∷ rest) now ne =
      Along-bind (same part) (add_one seq) _ (add_one-Same seq) λ n.
        Along-then (same part) _ _ (insert_event-Same run_id n _ payload _ now ne)
          (insert_intents-Same run_id n rest now ne)

  pub settle_result-Same :
      (lease : RunLease) (call_id : String) (payload : Value) (n : ℕ) (e : Option Event)
      (now : Clock)
      → NotEvents part
      → Along (Same part) (settle_result lease call_id payload n e now)
  unfolding settle_result
  settle_result-Same lease call_id payload n (some e) now ne = search write_rules
  settle_result-Same lease call_id payload n none now ne = search (write_rules, append_next-Same)

  pub is_checkpoint_tool-Same : (v : SqlValue) → Along (Same part) (is_checkpoint_tool v)
  is_checkpoint_tool-Same (text name) = search write_rules
  is_checkpoint_tool-Same (json v) = search write_rules
  is_checkpoint_tool-Same _ = search write_rules

  pub insert_checkpoint-Same :
      (run_id : Uuid) (round : ℕ) (call : String) (based : ℕ) (state : Value) (now : Clock)
      → NotCheckpoints part
      → Along (Same part) (insert_checkpoint run_id round call based state now)
  unfolding insert_checkpoint
  insert_checkpoint-Same run_id round call based state now nc = search write_rules depth 12

  pub ruleset part_rules = (
    write_rules, insert_event-Same, append_next-Same, add_one-Same, insert_intents-Same,
    settle_result-Same, is_checkpoint_tool-Same, insert_checkpoint-Same,
  )

  pub record_for-Same :
      (lease : RunLease) (call_id : String) (content : Value) (e : Event) (now : Clock)
      → NotEvents part
      → Along (Same part) (record_for lease call_id content e now)
  unfolding record_for
  record_for-Same lease call_id content e now ne = search part_rules depth 8

  pub read_round-Same : (run_id : Uuid) → Along (Same part) (read_round run_id)
  unfolding read_round
  read_round-Same run_id = search part_rules

  pub write_verdict-Same :
      (run_id : Uuid) (n : ℕ) (call : String) (id : ℕ) (a : Bool) (v : Value) (now : Clock)
      → NotEvents part
      → Along (Same part) (write_verdict run_id n call id a v now)
  unfolding write_verdict
  write_verdict-Same run_id n call id a v now ne = search part_rules

  pub write_proposal-Same :
      (run_id : Uuid) (call : String) (state : Value) (now : Clock)
      → NotEvents part
      → NotCheckpoints part
      → Along (Same part) (write_proposal run_id call state now)
  unfolding write_proposal
  write_proposal-Same run_id call state now ne nc = search (part_rules, read_round-Same) depth 12

  pub write_decision-Same :
      (run_id : Uuid) (c : CheckpointRecord) (id : ℕ) (a : Bool) (v : Value) (now : Clock)
      → NotEvents part
      → NotCheckpoints part
      → Along (Same part) (write_decision run_id c id a v now)
  unfolding write_decision
  write_decision-Same run_id c id a v now ne nc = search (part_rules, write_verdict-Same) depth 16

  pub claim_existing-Same :
      (run_id : Uuid) (name : String) (owner_id : Uuid) (now : Clock) (s : StepStatus)
      (v : Option Value)
      → NotSteps part
      → Along (Same part) (claim_existing run_id name owner_id now s v)
  unfolding claim_existing restart_step
  claim_existing-Same run_id name owner_id now done (some v) ns = search part_rules
  claim_existing-Same run_id name owner_id now active v ns = search part_rules
  claim_existing-Same run_id name owner_id now _ _ ns = search part_rules

  pub claim_row-Same :
      (run_id : Uuid) (name : String) (owner_id : Uuid) (now : Clock) (o : Option StepRow)
      → NotSteps part
      → Along (Same part) (claim_row run_id name owner_id now o)
  unfolding insert_step
  claim_row-Same run_id name owner_id now none ns = search part_rules
  claim_row-Same run_id name owner_id now (some s) ns =
      claim_existing-Same run_id name owner_id now s.status s.result ns

  pub saved_or_new-Same :
      (run_id : Uuid) (name : String) (w : ℕ) (o : Option TimerRow)
      → NotTimers part
      → Along (Same part) (saved_or_new run_id name w o)
  unfolding insert_timer
  saved_or_new-Same run_id name w none nt = search part_rules
  saved_or_new-Same run_id name w (some t) nt = search part_rules

  pub claim_found-Same :
      (owner_id ttl_ms : ℕ) (now : Clock) (o : Option RunRow)
      → NotRuns part
      → NotEvents part
      → Along (Same part) (claim_found owner_id ttl_ms now o)
  unfolding claim_candidate note_start
  claim_found-Same owner_id ttl_ms now none nr ne = search write_rules
  claim_found-Same owner_id ttl_ms now (some c) nr ne =
      search (write_rules, record_transition-Same) depth 16
