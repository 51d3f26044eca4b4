-- ===== src/Examples/ToolResults.antt =====
-- A tool result that is reported twice.
use zincir.Prelude.{none, false, All, List, ◌≡◌, refl, some, [], ◌∷◌, if◌then◌else◌}
use zincir.Json.{str, num, value_eq}
use zincir.Types.{llm_call, ok, err, Event, tool_result, invalid_state, conflicting_result}
use zincir.Sql.{first, exists, select, order_by, limit_one, insert_by, max_of}
use zincir.Tables.{Clock, has_run, find_run}
use zincir.Store.{
  next_event_seq, insert_event, max_seq, decode_i32, seq_taken, key_taken, current_status,
  validate_run_lease, validate_writable_run_lease, new_event,
}
use zincir.Events.{
  find_pending_tool_calls, record_tool_result_with_lease, record_for, settle_result, append_next,
  first_call, result_payload, tool_result_key,
}
use zincir.Calls
use zincir.Calls.{Call, run_calls}
use zincir.Calls.Results.{record_tool_result-find_pending}
use zincir.Events.Resolved.{is_older}
use zincir.Events.Results.{record_tool_result-again}
use zincir.Examples.{evening, one_second, noon, claimed_db, lease_2, call_event}

abbrev result_event : Event
result_event =
    new_event (call_event ∷ []) 1 1 tool_result (result_payload "a" (num 3))
      (some (tool_result_key "a")) noon

record_tool_result-again_example :
    record_tool_result_with_lease lease_2 "a"
      (num 4)
      noon
      (record_tool_result_with_lease lease_2 "a" (num 3) noon claimed_db).1
    ≡ (
      if value_eq (num 4) (num 3)
          then ok result_event
          else err (invalid_state (conflicting_result "a")),
      (record_tool_result_with_lease lease_2 "a" (num 3) noon claimed_db).1,
    )
unfolding first exists select order_by limit_one insert_by max_of has_run find_run next_event_seq
    insert_event max_seq decode_i32 seq_taken key_taken current_status validate_run_lease
    validate_writable_run_lease record_tool_result_with_lease record_for settle_result append_next
    first_call
record_tool_result-again_example =
    record_tool_result-again lease_2 "a" (num 3) (num 4) noon noon claimed_db
      (record_tool_result_with_lease lease_2 "a" (num 3) noon claimed_db).1 result_event refl refl
      refl

abbrev later_calls : List (Clock × Call)
later_calls =
    (evening, Calls.append_event_with_lease lease_2 llm_call (str "x") none)
    ∷ (evening, Calls.recover_run_lease 1 9 one_second)
    ∷ []

record_tool_result-find_pending_example :
    (pending : List Event) × (find_pending_tool_calls 1 (
        run_calls (record_tool_result_with_lease lease_2 "a" (num 3) noon claimed_db).1 later_calls)
      ≡ (
        ok pending,
        run_calls (record_tool_result_with_lease lease_2 "a" (num 3) noon claimed_db).1 later_calls,
      ))
    × All (λ x. is_older 1 "a" result_event x ≡ false) pending
unfolding first exists select order_by limit_one insert_by max_of has_run find_run next_event_seq
    insert_event max_seq decode_i32 seq_taken key_taken current_status validate_run_lease
    validate_writable_run_lease record_tool_result_with_lease record_for settle_result append_next
    first_call
record_tool_result-find_pending_example =
    record_tool_result-find_pending lease_2 "a" (num 3) noon claimed_db
      (record_tool_result_with_lease lease_2 "a" (num 3) noon claimed_db).1 result_event later_calls
      refl
