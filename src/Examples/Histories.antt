-- ===== src/Examples/Histories.antt =====
-- Runs of calls on concrete databases.
use zincir.Prelude.{some, ◌≡◌, refl, ◌↔◌, none, List, [], ◌∷◌, map, arith}
use zincir.Json.{null, str}
use zincir.Types.{completed, running, llm_call, tool_call, ok, Event}
use zincir.Sql.{first, exists}
use zincir.Tables.{RunRow, Db, Clock, find_run}
use zincir.Events.{get_events}
use zincir.Types.Names.RunStatusText
use zincir.Types.Names.EventTypeText
use zincir.Lease.Refusals.{Refused}
use zincir.Valid.Log.{count_events}
use zincir.Grows.Rows.{Grows}
use zincir.Calls
use zincir.Calls.{Call, execute, run_calls, empty_db}
use zincir.Lease.{complete_row}
use zincir.Calls.Ended.{ended_run-stays, ended_run-Refused}
use zincir.Calls.History.{run_calls-Grows}
use zincir.Calls.Numbering.{upto, get_events-numbered}
use zincir.Calls.Fencing.{stale_lease-Refused}
use zincir.Examples.{noon, evening, one_second, claimed_run, claimed_db, lease_1}

abbrev history : List (Clock × Call)
history =
    (noon, Calls.create_run 1 none "coder" "stub" null)
    ∷ (noon, Calls.acquire_run_lease 1 7 one_second)
    ∷ (noon, Calls.update_run_status_with_lease lease_1)
    ∷ (noon, Calls.append_event_with_lease lease_1 llm_call (str "x") none)
    ∷ (evening, Calls.recover_run_lease 1 8 one_second)
    ∷ []

run_calls-Grows_example : Grows claimed_db (run_calls claimed_db history)
run_calls-Grows_example = run_calls-Grows claimed_db history

get_events-numbered_example :
    (es : List Event) × (get_events 1 (run_calls empty_db history)
      ≡ (ok es, run_calls empty_db history))
    × (map (λ e. e.seq) es ≡ upto (count_events 1 (run_calls empty_db history).events))
get_events-numbered_example = get_events-numbered 1 history

stale_lease-Refused_example :
    Refused
      (execute (Calls.append_event_with_lease lease_1 llm_call (str "x") none) evening)
      (run_calls claimed_db history)
unfolding find_run first exists
stale_lease-Refused_example =
    stale_lease-Refused lease_1 claimed_run claimed_db history
      (Calls.append_event_with_lease lease_1 llm_call (str "x") none) evening (refl, tt) refl
      (omega arith) refl

run_status-from_str_example :
    (RunStatusText.from_str "running" ≡ ok running) ↔ ("running" ≡ RunStatusText.as_str running)
run_status-from_str_example = RunStatusText.run_status-from_str_iff "running" running

event_type-from_str_example :
    (EventTypeText.from_str "tool_call" ≡ ok tool_call)
    ↔ ("tool_call" ≡ EventTypeText.as_str tool_call)
event_type-from_str_example = EventTypeText.event_type-from_str_iff "tool_call" tool_call

-- Run 1 has ended, and nobody holds it.
abbrev ended_run : RunRow
ended_run = complete_row noon claimed_run

abbrev ended_db : Db
ended_db = record claimed_db { agent_runs = ended_run ∷ [] }

ended_run-stays_example :
    (r : RunRow) × (find_run 1 (run_calls ended_db history) ≡ some r)
    × (r.status ≡ completed)
    × (r.lease_owner ≡ none)
unfolding find_run first exists
ended_run-stays_example = ended_run-stays 1 ended_run ended_db history (refl, tt) refl refl refl

ended_run-Refused_example :
    Refused (execute (Calls.recover_run_lease 1 9 one_second) evening) (run_calls ended_db history)
unfolding find_run first exists
ended_run-Refused_example =
    ended_run-Refused 1 ended_run ended_db history (Calls.recover_run_lease 1 9 one_second) evening
      (refl, tt) refl refl refl refl
