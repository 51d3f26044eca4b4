-- ===== src/Events.antt =====
-- The event log in src/db.rs: `append_event`, the responses of the model with their tool intents,
-- the tool results, and the queries for events and for pending tool calls.
pub mod Decoded
pub mod First
pub mod Resolved
pub mod Results
pub mod Settled
use Prim.Native.String.{◌++◌}
use zincir.Prelude.{
  ℕ, ◌+◌, Bool, false, not, ◌&&◌, ◌||◌, Option, none, some, String, List, [], ◌∷◌, ltb, leb, ◌==◌,
  str_eq,
}
use zincir.Json.{
  Value, SqlValue, text, json, obj, str, field, end, json_extract, is_text, sql_eq, value_eq,
}
use zincir.Types.{
  Uuid, EventType, llm_call, tool_call, tool_result, Event, RunLease, db_error, column_decode,
  invalid_state, no_intent, conflicting_result, checkpoint_result, same_type, panicked,
}
use zincir.Sql.{exists, select, order_by, limit_one}
use zincir.Tables.{Clock, Tx, pure, raise, query, or_raise, ◌>>=◌, ◌>>◌, require, transaction}
use zincir.Store.{
  current_status, validate_writable_run_lease, next_event_seq, insert_event, i32_limit,
}

abbrev pub by_seq : Event → Event → Bool
by_seq a b = leb a.seq b.seq

unfoldable pub events_of : Uuid → List Event → List Event
unfolding order_by select
events_of run_id events = order_by by_seq (select (λ e. e.run_id == run_id) events)

-- `seq` does not fit the field of `Event`, an `i32`.
abbrev pub is_too_large : Event → Bool
is_too_large e = not (ltb e.seq i32_limit)

-- Each row is decoded.
unfoldable pub get_events : Uuid → Tx (List Event)
unfolding events_of exists
get_events run_id = do
  rows ← query (λ db. events_of run_id db.events)
  require (not (exists is_too_large rows)) (db_error column_decode)
  pure rows

-- A result of the same run and call that comes later than the intent.
abbrev pub resolves : Event → Event → Bool
resolves intent e =
    e.run_id == intent.run_id
    && (same_type e.event_type tool_result
        && (ltb intent.seq e.seq
            && sql_eq (json_extract e.payload "call_id") (json_extract intent.payload "call_id")))

-- The `EXISTS` under `NOT` in the queries for pending intents.
unfoldable pub is_resolved : List Event → Event → Bool
unfolding exists
is_resolved events intent = exists (resolves intent) events

abbrev pub is_pending : Uuid → List Event → Event → Bool
is_pending run_id events e =
    e.run_id == run_id && (same_type e.event_type tool_call && not (is_resolved events e))

unfoldable pub pending_of : Uuid → List Event → List Event
unfolding order_by select
pending_of run_id events = order_by by_seq (select (is_pending run_id events) events)

unfoldable pub find_pending_tool_calls : Uuid → Tx (List Event)
unfolding pending_of
find_pending_tool_calls run_id = query (λ db. pending_of run_id db.events)

unfoldable pub find_pending_tool_calls_with_lease : RunLease → Clock → Tx (List Event)
unfolding pending_of validate_writable_run_lease
find_pending_tool_calls_with_lease lease now =
    transaction
      (do validate_writable_run_lease lease now; query (λ db. pending_of lease.run_id db.events))

-- The event at the next sequence number.
unfoldable pub append_next : Uuid → EventType → Value → Option String → Clock → Tx Event
append_next run_id event_type payload key now = do
  seq ← next_event_seq run_id
  insert_event run_id seq event_type payload key now

-- The test-only `append_event`.
unfoldable pub append_event : Uuid → EventType → Value → Option String → Clock → Tx Event
unfolding append_next current_status
append_event run_id event_type payload key now =
    transaction (do current_status run_id; append_next run_id event_type payload key now)

unfoldable pub append_event_with_lease :
    RunLease → EventType → Value → Option String → Clock → Tx Event
unfolding append_next validate_writable_run_lease
append_event_with_lease lease event_type payload key now =
    transaction (do
      validate_writable_run_lease lease now
      append_next lease.run_id event_type payload key now)

-- `seq + 1` on an `i32`.
unfoldable pub add_one : ℕ → Tx ℕ
add_one seq = do require (ltb (seq + 1) i32_limit) panicked; pure (seq + 1)

abbrev pub tool_call_key : String → String
tool_call_key call_id = "tool_call:" ++ call_id

-- The loop over `tool_intents`; `seq` is the number of the event before.
unfoldable pub insert_intents : Uuid → ℕ → List (Value × String) → Clock → Tx (Unit {0})
unfolding add_one
insert_intents run_id seq [] now = pure tt
insert_intents run_id seq ((payload, call_id) ∷ rest) now = do
  next ← add_one seq
  insert_event run_id next tool_call payload (some (tool_call_key call_id)) now
  insert_intents run_id next rest now

unfoldable pub append_llm_call_with_tool_intents_with_lease :
    RunLease → Value → List (Value × String) → Clock → Tx (Unit {0})
unfolding insert_intents validate_writable_run_lease
append_llm_call_with_tool_intents_with_lease lease llm_payload tool_intents now = transaction (do
  validate_writable_run_lease lease now
  seq ← next_event_seq lease.run_id
  insert_event lease.run_id seq llm_call llm_payload none now
  insert_intents lease.run_id seq tool_intents now)

-- An event of the run, of a type, whose payload carries the call id.
abbrev pub has_call : Uuid → EventType → String → Event → Bool
has_call run_id event_type call_id e =
    e.run_id == run_id
    && (same_type e.event_type event_type && is_text (json_extract e.payload "call_id") call_id)

-- The first event of a call, in the order of the index on (run_id, seq).
unfoldable pub first_call : Uuid → EventType → String → List Event → Option Event
unfolding order_by select limit_one
first_call run_id event_type call_id events =
    limit_one (order_by by_seq (select (has_call run_id event_type call_id) events))

-- Is the tool's name, read as a `String`, `submit_checkpoint`?
abbrev pub is_checkpoint_tool : SqlValue → Tx Bool
is_checkpoint_tool (text name) = pure (str_eq name "submit_checkpoint")
is_checkpoint_tool (json v) = pure false
is_checkpoint_tool _ = raise (db_error column_decode)

abbrev pub result_payload : String → Value → Value
result_payload call_id content = obj (field "call_id" (str call_id) (field "content" content end))

abbrev pub tool_result_key : String → String
tool_result_key call_id = "tool_result:" ++ call_id

-- What `record_tool_result_with_lease` does once it has looked for an earlier result.
unfoldable pub settle_result : RunLease → String → Value → ℕ → Option Event → Clock → Tx Event
unfolding append_next
settle_result lease call_id payload intent_seq (some e) now = do
  require (not (leb e.seq intent_seq || not (value_eq e.payload payload)))
      (invalid_state (conflicting_result call_id))
  pure e
settle_result lease call_id payload intent_seq none now =
    append_next lease.run_id tool_result payload (some (tool_result_key call_id)) now

-- From the durable intent on.
unfoldable pub record_for : RunLease → String → Value → Event → Clock → Tx Event
unfolding settle_result
record_for lease call_id content intent now = do
  checkpoint ← is_checkpoint_tool (json_extract intent.payload "name")
  require (not checkpoint) (invalid_state checkpoint_result)
  existing ← query (λ db. first_call lease.run_id tool_result call_id db.events)
  settle_result lease call_id (result_payload call_id content) (intent.seq) existing now

unfoldable pub record_tool_result_with_lease : RunLease → String → Value → Clock → Tx Event
unfolding record_for validate_writable_run_lease
record_tool_result_with_lease lease call_id content now = transaction (do
  validate_writable_run_lease lease now
  found ← query (λ db. first_call lease.run_id tool_call call_id db.events)
  intent ← or_raise found (invalid_state (no_intent call_id))
  record_for lease call_id content intent now)
