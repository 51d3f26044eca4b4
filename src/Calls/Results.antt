-- ===== src/Calls/Results.antt =====
-- Tool results of src/db.rs over whole histories.
use zincir.Prelude.{◌≡◌, refl, subst, sym, true, false, List, String, All}
use zincir.Json.{Value}
use zincir.Types.{Uuid, Event, RunLease, ok}
use zincir.Tables.{Db, Clock}
use zincir.Tables.Yields.{Post}
use zincir.Sql.{exists}
use zincir.Events.{record_tool_result_with_lease, find_pending_tool_calls, pending_of}
use zincir.Events.Settled.{Settled, record_tool_result-IsSettled}
use zincir.Events.Resolved.{
  IsResult, is_older, first_call-IsResult, added-exists, pending-not_older,
}
use zincir.Grows.Rows.{Extends}
use zincir.Calls.{Call, run_calls}
use zincir.Calls.History.{run_calls-Grows}

kept_result :
    (run_id : Uuid) (call_id : String) (e : Event) (es later : List Event)
    → Extends es later
    → IsResult run_id call_id es e
    → IsResult run_id call_id later e
kept_result run_id call_id e es later (new, eq) r = record {
  result = r.result;
  stored = λ q k. subst (λ xs. exists q xs ≡ true) (sym eq) (added-exists q new es (r.stored q k));
}

-- Once a tool result has been recorded, whatever calls come afterwards, the pending tool calls of the
-- run include no intent of that call that is older than the result.
pub record_tool_result-find_pending :
    (lease : RunLease) (call_id : String) (content : Value) (now : Clock) (db after : Db)
    (e : Event) (cs : List (Clock × Call))
    → record_tool_result_with_lease lease call_id content now db ≡ (ok e, after)
    → (pending : List Event) × (find_pending_tool_calls lease.run_id (run_calls after cs)
        ≡ (ok pending, run_calls after cs))
      × All (λ x. is_older lease.run_id call_id e x ≡ false) pending
unfolding find_pending_tool_calls
record_tool_result-find_pending lease call_id content now db after e cs h =
    let s =
      subst (Post (Settled lease call_id content)) h
        ((record_tool_result-IsSettled lease call_id content now).at db tt) in
    (
      pending_of lease.run_id (run_calls after cs).events,
      refl,
      pending-not_older lease.run_id call_id (run_calls after cs).events e (
          kept_result lease.run_id call_id e after.events (run_calls after cs).events
            (run_calls-Grows after cs).log
            (first_call-IsResult lease.run_id call_id after.events e s.found)),
    )
