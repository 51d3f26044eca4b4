-- ===== src/Agent/Session.antt =====
-- The methods of `AgentContext` in src/agent.rs that change it. A method takes the context and the
-- database to a result and to both as it leaves them; the renewed lease stays when a later part fails.
-- The heartbeat's mutex makes each method and each beat one step, so a beat is a step of its own.
pub mod Fenced
pub mod Proposal
use zincir.Prelude.{
  ℕ, Bool, true, false, Option, none, some, String, List, [], ◌∷◌, map, length, if◌then◌else◌,
}
use zincir.Json.{Value}
use zincir.Types.{
  Uuid, ToolCall, Event, CheckpointRecord, CheckpointState, RunLease, Error, Result, ok, err,
  invalid_state, heartbeat_failed,
}
use zincir.Tables.{Db, Clock, Tx}
use zincir.Lease.{renew_run_lease, release_run_lease, complete_run_with_lease}
use zincir.Lease.Durations.{Duration}
use zincir.Events.{
  append_llm_call_with_tool_intents_with_lease, find_pending_tool_calls_with_lease,
  record_tool_result_with_lease,
}
use zincir.Checkpoints.{
  propose_checkpoint_with_lease, decide_checkpoint_with_lease, get_checkpoint_candidate_with_lease,
  get_pending_checkpoint_with_lease,
}
use zincir.Agent.{AgentContext}
use zincir.Agent.Payload.{
  Verification, PendingToolCall, verification_to_value, llm_call_payload, tool_call_payload,
  pending_call, state_from_value,
}

abbrev pub Act : Type 0 → Type 0
Act A = AgentContext × Db → Result A × (AgentContext × Db)

module _ {A : Type 0} where
  abbrev pub pure : A → Act A
  pure a s = (ok a, s)

  abbrev pub raise : Error → Act A
  raise e s = (err e, s)

  abbrev pub lift : Result A → Act A
  lift r s = (r, s)

  -- A call of src/db.rs under the lease of the context.
  abbrev pub with_lease : (RunLease → Tx A) → Act A
  with_lease call (ctx, db) = let (r, after) = call ctx.lease db in (r, (ctx, after))

infixl 5 ◌>>=◌ ◌>>◌
abbrev pub ◌>>=◌ : {A B : Type 0} → Act A → (A → Act B) → Act B
◌>>=◌ m f s = let (r, after) = m s in elim r [ ok a ↦ f a after | err e ↦ (err e, after) ]

abbrev pub ◌>>◌ : {A B : Type 0} → Act A → Act B → Act B
m >> n = m >>= λ _. n

-- The heartbeat's failure, if any.
unfoldable pub ensure_healthy : AgentContext → Result (Unit {0})
ensure_healthy ctx = elim ctx.failure [
  | none ↦ ok tt
  | some message ↦ err (invalid_state (heartbeat_failed message))
]

abbrev pub healthy : Act (Unit {0})
healthy (ctx, db) = (ensure_healthy ctx, (ctx, db))

abbrev pub renewed :
    AgentContext × Db → Result RunLease × Db → Result (Unit {0}) × (AgentContext × Db)
renewed (ctx, db) (ok lease, after) = (ok tt, (record ctx { lease = lease }, after))
renewed (ctx, db) (err e, after) = (err e, (ctx, after))

-- `self.lease = db::renew_run_lease(…)?`
unfoldable pub renew : Clock → Act (Unit {0})
unfolding renew_run_lease
renew now (ctx, db) = renewed (ctx, db) (renew_run_lease ctx.lease ctx.lease_ttl now db)

unfoldable pub prepare_lease_operation : Clock → Act (Unit {0})
unfolding ensure_healthy renew
prepare_lease_operation now = healthy >> renew now

abbrev beaten : (Error → String) → AgentContext → Result RunLease × Db → AgentContext × Db
beaten to_string ctx (ok lease, after) = (ctx, after)
beaten to_string ctx (err e, after) = (record ctx { failure = some (to_string e) }, after)

-- One beat of the heartbeat's task, which goes on as long as no beat has failed; `to_string` is the
-- `Display` of the error.
unfoldable pub beat : (Error → String) → Clock → AgentContext × Db → AgentContext × Db
unfolding renew_run_lease
beat to_string now (ctx, db) = elim ctx.failure [
  | none ↦ beaten to_string ctx (renew_run_lease ctx.lease ctx.lease_ttl now db)
  | some message ↦ (ctx, db)
]

unfoldable pub record_response : Value → List ToolCall → String → Clock → Clock → Act (Unit {0})
unfolding prepare_lease_operation append_llm_call_with_tool_intents_with_lease
record_response content tool_calls stop_reason prepared written = do
  prepare_lease_operation prepared
  with_lease (λ lease.
      append_llm_call_with_tool_intents_with_lease lease
        (llm_call_payload content tool_calls stop_reason)
        (map (λ call. (tool_call_payload (length tool_calls) call, call.id)) tool_calls) written)

-- `collect` of results: the first error, or all values.
abbrev pub collect : List Event → Result (List PendingToolCall)
collect [] = ok []
collect (e ∷ es) = elim (pending_call e.payload) [
  | err x ↦ err x
  | ok call ↦ elim (collect es) [ err x ↦ err x | ok calls ↦ ok (call ∷ calls) ]
]

unfoldable pub pending_tool_calls : Clock → Clock → Act (List PendingToolCall)
unfolding prepare_lease_operation find_pending_tool_calls_with_lease pending_call
pending_tool_calls prepared read = do
  prepare_lease_operation prepared
  events ← with_lease (λ lease. find_pending_tool_calls_with_lease lease read)
  lift (collect events)

unfoldable pub record_tool_result : String → Value → Clock → Clock → Act (Unit {0})
unfolding prepare_lease_operation record_tool_result_with_lease
record_tool_result call_id content prepared written = do
  prepare_lease_operation prepared
  with_lease (λ lease. record_tool_result_with_lease lease call_id content written)
  pure tt

unfoldable pub pending_checkpoint : Clock → Clock → Act (Option CheckpointRecord)
unfolding prepare_lease_operation get_pending_checkpoint_with_lease
pending_checkpoint prepared read = do
  prepare_lease_operation prepared
  with_lease (λ lease. get_pending_checkpoint_with_lease lease read)

-- The verifier is the application's; the times are those of the two calls before it and after it.
unfoldable pub verify_checkpoint :
    CheckpointRecord
    → (CheckpointState → Act Verification)
    → Clock
    → Clock
    → Clock
    → Clock
    → Act CheckpointRecord
unfolding prepare_lease_operation get_checkpoint_candidate_with_lease decide_checkpoint_with_lease
    state_from_value
verify_checkpoint proposed verifier prepared read again decided = do
  prepare_lease_operation prepared
  candidate ← with_lease (λ lease. get_checkpoint_candidate_with_lease lease proposed.id read)
  state ← lift (state_from_value candidate.state)
  verification ← verifier state
  prepare_lease_operation again
  with_lease (λ lease.
      decide_checkpoint_with_lease lease candidate.id verification.passed
        (verification_to_value verification) decided)

unfoldable pub checkpoint :
    String
    → CheckpointState
    → (CheckpointState → Act Verification)
    → Clock
    → Clock
    → Clock
    → Clock
    → Clock
    → Clock
    → Act CheckpointRecord
unfolding prepare_lease_operation propose_checkpoint_with_lease verify_checkpoint
checkpoint tool_call_id state verifier t0 t1 t2 t3 t4 t5 = do
  prepare_lease_operation t0
  candidate ← with_lease (λ lease. propose_checkpoint_with_lease lease tool_call_id state t1)
  verify_checkpoint candidate verifier t2 t3 t4 t5

unfoldable pub renew_lease : Clock → Act (Unit {0})
unfolding prepare_lease_operation
renew_lease now = prepare_lease_operation now

-- `heartbeat.and(release)`
abbrev pub and_then : Result (Unit {0}) → Result (Unit {0}) → Result (Unit {0})
and_then (ok u) r = r
and_then (err e) r = err e

-- `close` releases the lease also when the heartbeat had failed.
unfoldable pub close : Clock → Act (Unit {0})
unfolding ensure_healthy release_run_lease
close now (ctx, db) =
    let (release, after) = release_run_lease ctx.lease now db in
    (and_then (ensure_healthy ctx) release, (ctx, after))

abbrev pub or_release :
    Clock → Result (Unit {0}) × (AgentContext × Db) → Result (Unit {0}) × (AgentContext × Db)
or_release now (ok u, s) = (ok u, s)
or_release now (err e, (ctx, db)) = (err e, (ctx, (release_run_lease ctx.lease now db).1))

unfoldable pub complete : Clock → Clock → Clock → Act (Unit {0})
unfolding prepare_lease_operation ensure_healthy renew complete_run_with_lease release_run_lease
complete prepared completed released s = or_release released (
    (healthy >> (renew prepared >> with_lease (λ lease. complete_run_with_lease lease completed)))
      s)
