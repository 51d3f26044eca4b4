-- ===== src/Valid/Log/Kept.antt =====
-- Every call of src/db.rs keeps the log numbered.
use zincir.Prelude.{ℕ, Bool, Option, none, some, String, List, ◌∷◌, true, false}
use zincir.Json.{Value, SqlValue, text, json}
use zincir.Types.{Uuid, RunStatus, EventType, Event, RunLease, CheckpointRecord}
use zincir.Tables.{RunRow, StepRow, TimerRow, Clock, update_runs, update_run_returning, modify}
use zincir.Tables.Along.{Preorder, Along}
use zincir.Tables.Yields.{
  Yields, Keeps, keeps, yields_bind, yields_then, yields_along, kept_bind, kept_then, yields_seq,
  yields_after, yields_if, transaction-Keeps,
}
use zincir.Store.Reads.{read_rules, Along-validate_writable}
use zincir.Runs.{create_run}
use zincir.Lease.{
  claim_run_lease, grant_lease, acquire_run_lease, recover_run_lease, note_start, claim_candidate,
  claim_found, claim_next_recoverable_run, renew_run_lease, release_run_lease, change_status,
  update_run_status_with_lease, complete_run_with_lease,
}
use zincir.Lease.Durations.{Duration}
use zincir.Events.{
  append_event_with_lease, append_llm_call_with_tool_intents_with_lease, is_checkpoint_tool,
  record_for, record_tool_result_with_lease,
}
use zincir.Steps.{update_steps}
use zincir.Valid.Log.Numbering.{
  LogNumbered, Next, next_event_seq-Next, insert_event-Next, add_one-Next, append_next-Numbered,
  numbered_after, record_transition-Numbered, insert_intents-Numbered, settle_result-Numbered,
}

pub Keeps-log : Preorder (Keeps LogNumbered)
Keeps-log = keeps LogNumbered

-- A call that writes other tables only.
pub update_runs-Log :
    (p : RunRow → Bool) (f : RunRow → RunRow) → Along (Keeps LogNumbered) (update_runs p f)
unfolding update_runs
update_runs-Log p f = record { at = λ db h. h }

pub update_run_returning-Log :
    (p : RunRow → Bool) (f : RunRow → RunRow) → Along (Keeps LogNumbered) (update_run_returning p f)
unfolding update_run_returning
update_run_returning-Log p f = record { at = λ db h. h }

pub update_steps-Log :
    (p : StepRow → Bool) (f : StepRow → StepRow) → Along (Keeps LogNumbered) (update_steps p f)
unfolding update_steps
update_steps-Log p f = record { at = λ db h. h }

pub push_run-Log :
    (r : RunRow)
    → Along (Keeps LogNumbered) (modify (λ db. record db { agent_runs = r ∷ db.agent_runs }))
push_run-Log r = record { at = λ db h. h }

pub push_checkpoint-Log :
    (c : CheckpointRecord)
    → Along (Keeps LogNumbered) (modify (λ db. record db { checkpoints = c ∷ db.checkpoints }))
push_checkpoint-Log c = record { at = λ db h. h }

pub push_step-Log :
    (s : StepRow) → Along (Keeps LogNumbered) (modify (λ db. record db { steps = s ∷ db.steps }))
push_step-Log s = record { at = λ db h. h }

pub push_timer-Log :
    (t : TimerRow) → Along (Keeps LogNumbered) (modify (λ db. record db { timers = t ∷ db.timers }))
push_timer-Log t = record { at = λ db h. h }

pub ruleset other_tables = (
  read_rules, Keeps-log, update_runs-Log, update_run_returning-Log, update_steps-Log, push_run-Log,
  push_checkpoint-Log, push_step-Log, push_timer-Log,
)

pub ruleset yields_rules = (
  other_tables, transaction-Keeps, kept_bind, kept_then, append_next-Numbered,
  record_transition-Numbered, settle_result-Numbered, yields_seq, yields_after, yields_if,
  yields_along,
)

pub create_run-Log :
    (id : Uuid) (parent : Option Uuid) (role provider : String) (config : Value) (now : Clock)
    → Along (Keeps LogNumbered) (create_run id parent role provider config now)
unfolding create_run
create_run-Log id parent role provider config now = search other_tables depth 10

claim_run_lease-Log :
    (run_id owner_id : Uuid) (ttl : Duration) (recover : Bool) (now : Clock)
    → Along (Keeps LogNumbered) (claim_run_lease run_id owner_id ttl recover now)
unfolding claim_run_lease grant_lease
claim_run_lease-Log run_id owner_id ttl recover now = search other_tables depth 12

pub acquire_run_lease-Log :
    (run_id owner_id : Uuid) (ttl : Duration) (now : Clock)
    → Along (Keeps LogNumbered) (acquire_run_lease run_id owner_id ttl now)
unfolding acquire_run_lease
acquire_run_lease-Log run_id owner_id ttl now = claim_run_lease-Log run_id owner_id ttl false now

pub recover_run_lease-Log :
    (run_id owner_id : Uuid) (ttl : Duration) (now : Clock)
    → Along (Keeps LogNumbered) (recover_run_lease run_id owner_id ttl now)
unfolding recover_run_lease
recover_run_lease-Log run_id owner_id ttl now = claim_run_lease-Log run_id owner_id ttl true now

note_start-Log :
    (c : RunRow) (now : Clock) → Yields LogNumbered (note_start c now) (λ _. LogNumbered)
unfolding note_start
note_start-Log c now = search yields_rules depth 6

claim_candidate-Log :
    (owner_id ttl_ms : ℕ) (now : Clock) (c : RunRow)
    → Yields LogNumbered (claim_candidate owner_id ttl_ms now c) (λ _. LogNumbered)
unfolding claim_candidate
claim_candidate-Log owner_id ttl_ms now c = search (yields_rules, note_start-Log) depth 10

claim_found-Log :
    (owner_id ttl_ms : ℕ) (now : Clock) (c : Option RunRow)
    → Yields LogNumbered (claim_found owner_id ttl_ms now c) (λ _. LogNumbered)
claim_found-Log owner_id ttl_ms now none = search yields_rules
claim_found-Log owner_id ttl_ms now (some c) = claim_candidate-Log owner_id ttl_ms now c

pub claim_next_recoverable_run-Log :
    (owner_id : Uuid) (ttl : Duration) (now : Clock)
    → Along (Keeps LogNumbered) (claim_next_recoverable_run owner_id ttl now)
unfolding claim_next_recoverable_run
claim_next_recoverable_run-Log owner_id ttl now = search (yields_rules, claim_found-Log) depth 10

pub renew_run_lease-Log :
    (lease : RunLease) (ttl : Duration) (now : Clock)
    → Along (Keeps LogNumbered) (renew_run_lease lease ttl now)
unfolding renew_run_lease
renew_run_lease-Log lease ttl now = search other_tables depth 12

pub release_run_lease-Log :
    (lease : RunLease) (now : Clock) → Along (Keeps LogNumbered) (release_run_lease lease now)
unfolding release_run_lease
release_run_lease-Log lease now = search other_tables depth 8

change_status-Log :
    (run_id : Uuid) (current status : RunStatus) (now : Clock)
    → Yields LogNumbered (change_status run_id current status now) (λ _. LogNumbered)
unfolding change_status
change_status-Log run_id current status now = search yields_rules depth 8

pub update_run_status_with_lease-Log :
    (lease : RunLease) (status : RunStatus) (now : Clock)
    → Along (Keeps LogNumbered) (update_run_status_with_lease lease status now)
unfolding update_run_status_with_lease
update_run_status_with_lease-Log lease status now = search (yields_rules, change_status-Log) depth 8

pub complete_run_with_lease-Log :
    (lease : RunLease) (now : Clock) → Along (Keeps LogNumbered) (complete_run_with_lease lease now)
unfolding complete_run_with_lease
complete_run_with_lease-Log lease now = search yields_rules depth 10

pub append_event_with_lease-Log :
    (lease : RunLease) (t : EventType) (payload : Value) (key : Option String) (now : Clock)
    → Along (Keeps LogNumbered) (append_event_with_lease lease t payload key now)
unfolding append_event_with_lease
append_event_with_lease-Log lease t payload key now = search yields_rules depth 8

pub append_llm_call-Log :
    (lease : RunLease) (payload : Value) (intents : List (Value × String)) (now : Clock)
    → Along
        (Keeps LogNumbered)
        (append_llm_call_with_tool_intents_with_lease lease payload intents now)
unfolding append_llm_call_with_tool_intents_with_lease
append_llm_call-Log lease payload intents now = transaction-Keeps _ (
    kept_then _ _ (Along-validate_writable Keeps-log lease now) (
      yields_bind _ _ (next_event_seq-Next lease.run_id) λ n.
        yields_then _ _ (insert_event-Next lease.run_id n _ payload none now)
          λ _. insert_intents-Numbered lease.run_id n intents now))

is_checkpoint_tool-Log : (v : SqlValue) → Along (Keeps LogNumbered) (is_checkpoint_tool v)
is_checkpoint_tool-Log (text name) = search other_tables
is_checkpoint_tool-Log (json v) = search other_tables
is_checkpoint_tool-Log _ = search other_tables

record_for-Log :
    (lease : RunLease) (call_id : String) (content : Value) (e : Event) (now : Clock)
    → Yields LogNumbered (record_for lease call_id content e now) (λ _. LogNumbered)
unfolding record_for
record_for-Log lease call_id content e now = search (yields_rules, is_checkpoint_tool-Log) depth 8

pub record_tool_result-Log :
    (lease : RunLease) (call_id : String) (content : Value) (now : Clock)
    → Along (Keeps LogNumbered) (record_tool_result_with_lease lease call_id content now)
unfolding record_tool_result_with_lease
record_tool_result-Log lease call_id content now = search (yields_rules, record_for-Log) depth 8
