-- ===== src/Checkpoints.antt =====
-- The checkpoints in src/db.rs: proposal, decision and the lookups.
pub mod Proposed
pub mod Settled
use Prim.Native.String.{◌++◌}
use zincir.Prelude.{
  ℕ, ◌-◌, Bool, true, false, not, ◌&&◌, ◌||◌, Option, none, some, String, List, [], ◌∷◌, leb, ◌==◌,
  str_eq, if◌then◌else◌, decimal,
}
use zincir.Json.{
  Value, Elements, bool, num, obj, arr, str, no_element, element, field, end, json_extract, is_text,
  is_integer, coalesce,
}
use zincir.Types.{
  Uuid, EventType, tool_call, tool_result, checkpoint_proposed, checkpoint_accepted,
  checkpoint_rejected, Event, RunLease, CheckpointStatus, candidate, accepted, rejected,
  CheckpointState, CheckpointRecord, db_error, unique_violation, foreign_key_violation,
  row_not_found, invalid_state, not_standalone, ok, has_candidate, not_candidate, same_type,
}
use zincir.Sql.{exists, select, first, update, max_of, order_by, limit_one}
use zincir.Tables.{
  Clock, Tx, pure, query, or_raise, ◌>>=◌, ◌>>◌, modify, require, transaction, has_run,
}
use zincir.Store.{validate_writable_run_lease, next_event_seq, insert_event, decode_i32, next_id}
use zincir.Events.{is_resolved, add_one}

-- `serde_json::to_value` of the state: its keys in order.
abbrev pub texts : List String → Elements
texts [] = no_element
texts (s ∷ ss) = element (str s) (texts ss)

abbrev pub state_to_value : CheckpointState → Value
state_to_value s = obj (
    field "artifacts" (arr (texts s.artifacts)) (
      field "completed" (arr (texts s.completed)) (
        field "evidence" (arr (texts s.evidence)) (
          field "failed_attempts" (arr (texts s.failed_attempts))
            (field "remaining" (arr (texts s.remaining)) end)))))

abbrev pub is_candidate : CheckpointStatus → Bool
is_candidate candidate = true
is_candidate accepted = false
is_candidate rejected = false

abbrev pub is_accepted : CheckpointStatus → Bool
is_accepted candidate = false
is_accepted accepted = true
is_accepted rejected = false

-- A `submit_checkpoint` intent that stands alone in its response and has no result yet.
abbrev pub is_standalone : Uuid → String → List Event → Event → Bool
is_standalone run_id tool_call_id events intent =
    intent.run_id == run_id
    && (same_type intent.event_type tool_call
        && (is_text (json_extract intent.payload "call_id") tool_call_id
            && (is_text (json_extract intent.payload "name") "submit_checkpoint"
                && (is_integer (coalesce (json_extract intent.payload "response_tool_count") 1) 1
                    && not (is_resolved events intent)))))

unfoldable pub has_pending_intent : Uuid → String → List Event → Bool
unfolding exists
has_pending_intent run_id tool_call_id events =
    exists (is_standalone run_id tool_call_id events) events

unfoldable pub has_open_candidate : Uuid → List CheckpointRecord → Bool
unfolding exists
has_open_candidate run_id = exists (λ c. c.run_id == run_id && is_candidate c.status)

-- `COALESCE(MAX(round), 0) + 1`
unfoldable pub next_round : Uuid → List CheckpointRecord → ℕ
unfolding max_of select
next_round run_id cs = next_id (max_of (λ c. c.round) (select (λ c. c.run_id == run_id) cs))

-- UNIQUE(run_id, round) and UNIQUE(run_id, tool_call_id)
unfoldable pub checkpoint_taken : Uuid → ℕ → String → List CheckpointRecord → Bool
unfolding exists
checkpoint_taken run_id round tool_call_id =
    exists (λ c. c.run_id == run_id && (c.round == round || str_eq c.tool_call_id tool_call_id))

abbrev pub new_checkpoint :
    List CheckpointRecord → Uuid → ℕ → String → ℕ → Value → Clock → CheckpointRecord
new_checkpoint cs run_id round tool_call_id based_on state now = record {
  id = next_id (max_of (λ c. c.id) cs);
  run_id = run_id;
  round = round;
  tool_call_id = tool_call_id;
  based_on_event_seq = based_on;
  decision_event_seq = none;
  status = candidate;
  state = state;
  verification = none;
  created_at = now.current_timestamp;
  decided_at = none;
}

unfoldable pub insert_checkpoint : Uuid → ℕ → String → ℕ → Value → Clock → Tx CheckpointRecord
insert_checkpoint run_id round tool_call_id based_on state now = do
  cs ← query (λ db. db.checkpoints)
  require (not (checkpoint_taken run_id round tool_call_id cs)) (db_error unique_violation)
  require (← query (λ db. has_run run_id db)) (db_error foreign_key_violation)
  let c = new_checkpoint cs run_id round tool_call_id based_on state now
  modify (λ db. record db { checkpoints = c ∷ db.checkpoints })
  pure c

abbrev pub proposal_payload : ℕ → ℕ → Value → Value
proposal_payload id round state =
    obj (field "checkpoint_id" (num id) (field "round" (num round) (field "state" state end)))

abbrev pub checkpoint_key : ℕ → String → String
checkpoint_key id event = "checkpoint:" ++ decimal id ++ ":" ++ event

unfoldable pub read_round : Uuid → Tx ℕ
read_round run_id = do decode_i32 (← query (λ db. next_round run_id db.checkpoints))

-- The writes of a proposal. An intent stands in the log, so `proposed_event_seq` is at least 1.
unfoldable pub write_proposal : Uuid → String → Value → Clock → Tx CheckpointRecord
unfolding read_round
write_proposal run_id tool_call_id state now = do
  round ← read_round run_id
  proposed_event_seq ← next_event_seq run_id
  checkpoint ← insert_checkpoint run_id round tool_call_id (proposed_event_seq - 1) state now
  insert_event run_id proposed_event_seq checkpoint_proposed
      (proposal_payload checkpoint.id round state) (some (checkpoint_key checkpoint.id "proposed"))
      now
  pure checkpoint

unfoldable pub propose_checkpoint_with_lease :
    RunLease → String → CheckpointState → Clock → Tx CheckpointRecord
unfolding validate_writable_run_lease write_proposal
propose_checkpoint_with_lease lease tool_call_id state now = transaction (do
  validate_writable_run_lease lease now
  standalone ← query (λ db. has_pending_intent lease.run_id tool_call_id db.events)
  require standalone (invalid_state (not_standalone tool_call_id))
  pending ← query (λ db. has_open_candidate lease.run_id db.checkpoints)
  require (not pending) (invalid_state (has_candidate lease.run_id))
  write_proposal lease.run_id tool_call_id (state_to_value state) now)

-- `WHERE id = ? AND run_id = ? AND status = 'candidate'`
unfoldable pub find_candidate : Uuid → ℕ → List CheckpointRecord → Option CheckpointRecord
unfolding first
find_candidate run_id id = first (λ c. c.id == id && (c.run_id == run_id && is_candidate c.status))

abbrev pub decision_status : Bool → CheckpointStatus
decision_status a = if a then accepted else rejected

abbrev pub decision_event : Bool → EventType
decision_event a = if a then checkpoint_accepted else checkpoint_rejected

abbrev pub decision_name : Bool → String
decision_name a = if a then "accepted" else "rejected"

abbrev pub decide_row : Bool → Value → ℕ → Clock → CheckpointRecord → CheckpointRecord
decide_row a verification seq now c = record c {
  status = decision_status a;
  verification = some verification;
  decision_event_seq = some seq;
  decided_at = some (now.current_timestamp);
}

-- `UPDATE checkpoints … WHERE id = ? AND status = 'candidate' RETURNING *`
unfoldable pub update_candidate :
    ℕ → (CheckpointRecord → CheckpointRecord) → Tx (Option CheckpointRecord)
unfolding first update
update_candidate id f db = (
  ok (elim (first (λ c. c.id == id && is_candidate c.status) db.checkpoints) [
    | none ↦ none
    | some c ↦ some (f c)
  ]),
  record db { checkpoints = update (λ c. c.id == id && is_candidate c.status) f db.checkpoints },
)

abbrev pub decision_payload : ℕ → Value → Value
decision_payload id verification =
    obj (field "checkpoint_id" (num id) (field "verification" verification end))

abbrev pub verdict_payload : String → Bool → Value → Value
verdict_payload call_id a verification = obj (
    field "call_id" (str call_id) (
      field "content" (obj (field "accepted" (bool a) (field "verification" verification end)))
        end))

-- The result of the checkpoint's tool call, right after the decision.
unfoldable pub write_verdict : Uuid → ℕ → String → ℕ → Bool → Value → Clock → Tx Event
write_verdict run_id decision_event_seq call_id checkpoint_id a verification now = do
  result_seq ← add_one decision_event_seq
  insert_event run_id result_seq tool_result (verdict_payload call_id a verification)
      (some (checkpoint_key checkpoint_id "tool_result")) now

-- The writes of a decision on a candidate.
unfoldable pub write_decision :
    Uuid → CheckpointRecord → ℕ → Bool → Value → Clock → Tx CheckpointRecord
unfolding write_verdict
write_decision run_id c checkpoint_id a verification now = do
  decision_event_seq ← next_event_seq run_id
  updated ← update_candidate checkpoint_id (decide_row a verification decision_event_seq now)
  checkpoint ← or_raise updated (db_error row_not_found)
  insert_event run_id decision_event_seq (decision_event a)
      (decision_payload checkpoint_id verification)
      (some (checkpoint_key checkpoint_id (decision_name a))) now
  write_verdict run_id decision_event_seq c.tool_call_id checkpoint_id a verification now
  pure checkpoint

unfoldable pub decide_checkpoint_with_lease :
    RunLease → ℕ → Bool → Value → Clock → Tx CheckpointRecord
unfolding validate_writable_run_lease write_decision
decide_checkpoint_with_lease lease checkpoint_id a verification now = transaction (do
  validate_writable_run_lease lease now
  found ← query (λ db. find_candidate lease.run_id checkpoint_id db.checkpoints)
  c ← or_raise found (invalid_state (not_candidate checkpoint_id))
  write_decision lease.run_id c checkpoint_id a verification now)

unfoldable pub get_checkpoint_candidate_with_lease : RunLease → ℕ → Clock → Tx CheckpointRecord
unfolding validate_writable_run_lease
get_checkpoint_candidate_with_lease lease checkpoint_id now = transaction (do
  validate_writable_run_lease lease now
  found ← query (λ db. find_candidate lease.run_id checkpoint_id db.checkpoints)
  or_raise found (invalid_state (not_candidate checkpoint_id)))

abbrev pub later_round : CheckpointRecord → CheckpointRecord → Bool
later_round a b = leb b.round a.round

-- `WHERE run_id = ? AND status = … ORDER BY round DESC LIMIT 1`
unfoldable pub latest :
    (CheckpointStatus → Bool) → Uuid → List CheckpointRecord → Option CheckpointRecord
unfolding limit_one order_by select
latest p run_id cs =
    limit_one (order_by later_round (select (λ c. c.run_id == run_id && p c.status) cs))

unfoldable pub get_pending_checkpoint_with_lease : RunLease → Clock → Tx (Option CheckpointRecord)
unfolding latest validate_writable_run_lease
get_pending_checkpoint_with_lease lease now = transaction (do
  validate_writable_run_lease lease now
  query (λ db. latest is_candidate lease.run_id db.checkpoints))

unfoldable pub get_pending_checkpoint : Uuid → Tx (Option CheckpointRecord)
unfolding latest
get_pending_checkpoint run_id = query (λ db. latest is_candidate run_id db.checkpoints)

unfoldable pub get_latest_accepted_checkpoint : Uuid → Tx (Option CheckpointRecord)
unfolding latest
get_latest_accepted_checkpoint run_id = query (λ db. latest is_accepted run_id db.checkpoints)
