-- ===== src/DurableAgent.antt =====
-- The agent of examples/durable_agent.rs: `run_agent`, which picks up where an earlier process stopped.
pub mod Tool
pub mod Verdicts
pub mod Verified
pub mod Process
use zincir.Prelude.{
  ℕ, ◌+◌, Bool, true, false, not, ◌&&◌, ◌||◌, Option, none, some, String, List, [], ◌∷◌, ◌==◌,
  str_eq, if◌then◌else◌,
}
use zincir.Json.{Value, str, bool, obj, field, end, get}
use zincir.Types.{
  Uuid, Event, ToolCall, CheckpointRecord, CheckpointState, tool_result, same_type, Error, Result,
  ok, err, io,
}
use zincir.Sql.{exists}
use zincir.Tables.{Db, Clock}
use zincir.Checkpoints.{is_accepted, state_to_value}
use zincir.Agent
use zincir.Agent.{AgentContext, AgentState}
use zincir.Agent.Payload.{Verification, PendingToolCall, state_from_value}
use zincir.Agent.Session
use zincir.Agent.Session.{Act}
use zincir.DurableAgent.Process.{World, Run, pure, lift, ◌>>=◌, ◌>>◌, file_of, is_some, is_empty}
use zincir.DurableAgent.Tool.{Phase, opening, returned, run_alone}

-- `checkpoint_is_complete`
unfoldable pub checkpoint_is_complete : CheckpointRecord → Result Bool
unfolding state_from_value
checkpoint_is_complete c = elim (state_from_value c.state) [
  | err e ↦ err e
  | ok state ↦ ok (is_accepted c.status && is_empty state.remaining)
]

-- What a lone process leaves: the file of the call, and what it returned.
abbrev pub tool_outcome :
    String → List (String × Value) → Option Value × Phase → Result Value × List (String × Value)
tool_outcome id files (some v, returned r) =
    (r, if is_some (file_of id files) then files else (id, v) ∷ files)
tool_outcome id files (none, returned r) = (r, files)
tool_outcome id files (file, phase) = (err io, files)

-- No other process runs the tool here; five actions are enough.
unfoldable pub execute_write_file : ToolCall → Run Value
unfolding run_alone
execute_write_file call w =
    let (r, files) =
      tool_outcome call.id w.files (run_alone call (file_of call.id w.files) opening 5) in
    (r, record w { files = files })

-- `verify`: the artifact is the file `call_1.json` of the output directory.
unfoldable pub verify : String → List (String × Value) → CheckpointState → Verification
verify artifact files state =
    let exists = is_some (file_of "call_1" files) in
    record {
      passed = exists && is_empty state.remaining;
      evidence = obj (field "artifact" (str artifact) (field "exists" (bool exists) end));
    }

-- `clock` gives the readings of the clock in turn, and `artifact` is the path of the artifact.
module _ (clock : ℕ → Clock) (artifact : String) where
  -- A method of the context, which reads the clock `n` times.
  abbrev pub method : {A : Type 0} → ℕ → ((ℕ → Clock) → Act A) → Run A
  method n act w =
      let (r, after) = act (λ i. clock (w.readings + i)) (w.context, w.db) in
      (r, record w { context = after.0; db = after.1; readings = w.readings + n })

  abbrev pub context_state : Run AgentState
  context_state w = ((Agent.state w.context.run_id w.db).0, w)

  unfoldable pub create_checkpoint : String → CheckpointState → Run CheckpointRecord
  unfolding verify
  create_checkpoint call_id state w =
      method 6
        (λ t.
          Session.checkpoint call_id state (λ s. Session.pure (verify artifact w.files s)) (t 0)
            (t 1) (t 2) (t 3) (t 4) (t 5))
        w

  unfoldable pub verify_candidate : CheckpointRecord → Run CheckpointRecord
  unfolding verify
  verify_candidate candidate w =
      method 4
        (λ t.
          Session.verify_checkpoint candidate (λ s. Session.pure (verify artifact w.files s)) (t 0)
            (t 1) (t 2) (t 3))
        w

  abbrev pub complete : Run (Unit {0})
  complete = method 3 (λ t. Session.complete (t 0) (t 1) (t 2))

  abbrev pub is_done : Option CheckpointRecord → Run Bool
  is_done none = pure false
  is_done (some c) = lift (checkpoint_is_complete c)

  -- A candidate that an earlier process left.
  abbrev pub settle_candidate : Option CheckpointRecord → Run Bool
  settle_candidate none = pure false
  settle_candidate (some candidate) =
      verify_candidate candidate >>= λ c. lift (checkpoint_is_complete c)

  -- The loop over the pending calls, up to a checkpoint that completes the work.
  unfoldable pub resume_calls : List PendingToolCall → Run Bool
  unfolding execute_write_file create_checkpoint checkpoint_is_complete
  resume_calls [] = pure false
  resume_calls (p ∷ ps) =
      let rest = resume_calls ps in
      if str_eq p.call.name "write_file"
      then (do
        result ← execute_write_file p.call
        method 2 (λ t. Session.record_tool_result p.call.id result (t 0) (t 1))
        rest)
      else if str_eq p.call.name "submit_checkpoint" && p.response_tool_count == 1
      then (do
        state ← lift (state_from_value p.call.args)
        c ← create_checkpoint p.call.id state
        done ← lift (checkpoint_is_complete c)
        if done then pure true else rest)
      else rest

  -- `event.payload["call_id"] == "call_1"` on a result.
  abbrev pub is_first_result : Event → Bool
  is_first_result e =
      same_type e.event_type tool_result
      && elim (get "call_id" e.payload) [ some (str id) ↦ str_eq id "call_1" | _ ↦ false ]

  abbrev pub write_call : ToolCall
  write_call = record {
    id = "call_1";
    name = "write_file";
    args = obj (field "content" (str "hello") end);
  }

  unfoldable pub write_the_file : Run (Unit {0})
  unfolding execute_write_file
  write_the_file = do
    method 2 (λ t.
        Session.record_response (str "I'll write the file.") (write_call ∷ []) "tool_use" (t 0)
          (t 1))
    result ← execute_write_file write_call
    method 2 (λ t. Session.record_tool_result "call_1" result (t 0) (t 1))

  abbrev pub final_state : CheckpointState
  final_state = record {
    completed = "Wrote the requested file" ∷ [];
    remaining = [];
    artifacts = artifact ∷ [];
    failed_attempts = [];
    evidence = "write_file returned ok" ∷ [];
  }

  abbrev pub checkpoint_call : ToolCall
  checkpoint_call = record {
    id = "checkpoint_1";
    name = "submit_checkpoint";
    args = state_to_value final_state;
  }

  unfoldable pub submit : Run (Unit {0})
  unfolding create_checkpoint checkpoint_is_complete
  submit = do
    method 2 (λ t.
        Session.record_response (str "The requested work is complete.") (checkpoint_call ∷ [])
          "tool_use" (t 0) (t 1))
    c ← create_checkpoint "checkpoint_1" final_state
    done ← lift (checkpoint_is_complete c)
    if done then complete else method 1 (λ t. Session.close (t 0))

  -- From the question on whether the file was written.
  unfoldable pub work : Run (Unit {0})
  unfolding write_the_file submit exists
  work = do
    durable ← context_state
    if exists is_first_result durable.events then pure tt else write_the_file
    submit

  -- What is pending in the context of an earlier process.
  unfoldable pub resume : Run Bool
  unfolding resume_calls
  resume = do pending ← method 2 (λ t. Session.pending_tool_calls (t 0) (t 1)); resume_calls pending

  unfoldable pub settle : Run Bool
  unfolding verify_candidate checkpoint_is_complete
  settle = do
    candidate ← method 2 (λ t. Session.pending_checkpoint (t 0) (t 1))
    settle_candidate candidate

  unfoldable pub run_agent : Run (Unit {0})
  unfolding work resume settle
  run_agent = do
    durable ← context_state
    finished ← is_done durable.checkpoint
    if finished then complete else (do
      settled ← settle
      if settled then complete else (do resumed ← resume; if resumed then complete else work))
