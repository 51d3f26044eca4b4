-- ===== src/Calls.antt =====
-- The calls of src/db.rs that write, as data, and histories of them. SQLite admits one writer at a
-- time (`BEGIN IMMEDIATE`), so any interleaving of processes is a list of calls, each with its time.
pub mod Atomic
pub mod Ended
pub mod Fencing
pub mod Final
pub mod Frame
pub mod Claims
pub mod Completed
pub mod Completion
pub mod Decisions
pub mod History
pub mod Invariant
pub mod Memo
pub mod Numbering
pub mod Results
use zincir.Prelude.{ℕ, Bool, Option, String, List, [], ◌∷◌}
use zincir.Json.{Value}
use zincir.Types.{Uuid, running, EventType, RunLease, CheckpointState}
use zincir.Tables.{Db, Clock, Tx, pure, ◌>>◌}
use zincir.Runs
use zincir.Lease
use zincir.Lease.Durations.{Duration}
use zincir.Events
use zincir.Checkpoints
use zincir.Steps
use zincir.Timers

pub data Call : Type 0 where
  create_run : Uuid → Option Uuid → String → String → Value → Call
  acquire_run_lease recover_run_lease : Uuid → Uuid → Duration → Call
  claim_next_recoverable_run : Uuid → Duration → Call
  renew_run_lease : RunLease → Duration → Call
  release_run_lease complete_run_with_lease : RunLease → Call
  -- The crate calls it with `RunStatus::Running` only.
  update_run_status_with_lease : RunLease → Call
  append_event_with_lease : RunLease → EventType → Value → Option String → Call
  append_llm_call_with_tool_intents_with_lease : RunLease → Value → List (Value × String) → Call
  record_tool_result_with_lease : RunLease → String → Value → Call
  propose_checkpoint_with_lease : RunLease → String → CheckpointState → Call
  decide_checkpoint_with_lease : RunLease → ℕ → Bool → Value → Call
  claim_step : Uuid → String → Uuid → Call
  complete_step : Uuid → String → Uuid → Value → Call
  recover_steps : Uuid → Call
  schedule_timer : Uuid → String → Duration → Call
  complete_timer : Uuid → String → Call

-- The call with its value left out.
abbrev pub effect : {A : Type 0} → Tx A → Tx (Unit {0})
effect m = m >> pure tt

unfoldable pub execute : Call → Clock → Tx (Unit {0})
execute (create_run id parent role provider config) now =
    effect (Runs.create_run id parent role provider config now)
execute (acquire_run_lease run_id owner_id ttl) now =
    effect (Lease.acquire_run_lease run_id owner_id ttl now)
execute (recover_run_lease run_id owner_id ttl) now =
    effect (Lease.recover_run_lease run_id owner_id ttl now)
execute (claim_next_recoverable_run owner_id ttl) now =
    effect (Lease.claim_next_recoverable_run owner_id ttl now)
execute (renew_run_lease lease ttl) now = effect (Lease.renew_run_lease lease ttl now)
execute (release_run_lease lease) now = Lease.release_run_lease lease now
execute (complete_run_with_lease lease) now = Lease.complete_run_with_lease lease now
execute (update_run_status_with_lease lease) now =
    Lease.update_run_status_with_lease lease running now
execute (append_event_with_lease lease t payload key) now =
    effect (Events.append_event_with_lease lease t payload key now)
execute (append_llm_call_with_tool_intents_with_lease lease payload intents) now =
    Events.append_llm_call_with_tool_intents_with_lease lease payload intents now
execute (record_tool_result_with_lease lease call_id content) now =
    effect (Events.record_tool_result_with_lease lease call_id content now)
execute (propose_checkpoint_with_lease lease call_id state) now =
    effect (Checkpoints.propose_checkpoint_with_lease lease call_id state now)
execute (decide_checkpoint_with_lease lease id a verification) now =
    effect (Checkpoints.decide_checkpoint_with_lease lease id a verification now)
execute (claim_step run_id name owner_id) now = effect (Steps.claim_step run_id name owner_id now)
execute (complete_step run_id name owner_id value) now =
    Steps.complete_step run_id name owner_id value now
execute (recover_steps run_id) now = Steps.recover_steps run_id now
execute (schedule_timer run_id name delay) now =
    effect (Timers.schedule_timer run_id name delay now)
execute (complete_timer run_id name) now = Timers.complete_timer run_id name now

unfoldable pub step : Db → Clock × Call → Db
unfolding execute
step db (now, call) = (execute call now db).1

unfoldable pub run_calls : Db → List (Clock × Call) → Db
unfolding step
run_calls db [] = db
run_calls db (c ∷ cs) = run_calls (step db c) cs

unfoldable pub empty_db : Db
empty_db = record { agent_runs = []; events = []; checkpoints = []; steps = []; timers = [] }
