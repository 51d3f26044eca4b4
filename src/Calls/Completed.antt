-- ===== src/Calls/Completed.antt =====
-- A run that `complete_run_with_lease` of src/db.rs has completed, over whole histories.
use zincir.Prelude.{
  ◌≡◌, refl, ap, ◌∙◌, subst, true, false, Option, none, some, List, [], ◌∷◌, ◌==◌, arith,
}
use zincir.Types.{RunLease, AgentRun, ok, completed}
use zincir.Sql.{first}
use zincir.Sql.Laws.{first-none-exists, exists-and_false}
use zincir.Tables.{RunRow, Db, Clock, find_run}
use zincir.Tables.Yields.{Post}
use zincir.Store.{is_leased}
use zincir.Runs.{get_run}
use zincir.Lease.{complete_run_with_lease, is_terminal}
use zincir.Lease.Refusals.{Refused, holds_lease, complete-Stops}
use zincir.Valid.Runs.{Distinct}
use zincir.Grows.Rows.{Grows}
use zincir.Calls
use zincir.Calls.{Call, execute, run_calls, step, effect}
use zincir.Calls.History.{run_calls-Grows}
use zincir.Calls.Completion.{IsCompleted, complete_run-IsCompleted}
use zincir.Calls.Ended.{works_on, ended_run-stays, ended_run-Refused}

-- The run of a lease has ended in a database.
record Ends (lease : RunLease) (db : Db) : Type 0 where
  distinct : Distinct db.agent_runs
  row : RunRow
  known : find_run lease.run_id db ≡ some row
  status : row.status ≡ completed
  free : row.lease_owner ≡ none

module _ (lease : RunLease) (now : Clock) (db after : Db)
    (h : complete_run_with_lease lease now db ≡ (ok tt, after)) where
  -- The run was there.
  stored :
      (o : Option RunRow)
      → find_run lease.run_id db ≡ o
      → (r : RunRow) × (find_run lease.run_id db ≡ some r)
  unfolding find_run
  stored (some r) e = (r, e)
  stored none e =
      let lost : holds_lease lease now db ≡ false =
        exists-and_false (λ r. r.id == lease.run_id) (is_leased lease now.utc_millis) db.agent_runs
          (first-none-exists (λ r. r.id == lease.run_id) db.agent_runs e) in
      absurd (cc (h, (complete-Stops lease now db lost).at))

  as_call : run_calls db ((now, Calls.complete_run_with_lease lease) ∷ []) ≡ after
  unfolding run_calls step execute
  as_call = ground (arith, h)

  ended : Distinct db.agent_runs → Ends lease after
  unfolding find_run first
  ended d =
      let g =
        subst (Grows db) as_call
          (run_calls-Grows db ((now, Calls.complete_run_with_lease lease) ∷ [])) in
      let (r, known) = stored (find_run lease.run_id db) refl in
      let (row, known', _) = g.runs lease.run_id r known in
      let over : IsCompleted lease.run_id after =
        subst (Post (λ _. IsCompleted lease.run_id)) h
          ((complete_run-IsCompleted lease now).at db tt) in
      record {
        distinct = g.distinct d;
        row = row;
        known = known';
        status = (over row known').0;
        free = (over row known').1;
      }

-- When a run has been completed, on a database whose runs have distinct ids, then after any calls
-- `get_run` answers it as completed, and every call that claims it, by recovery too, or that shows a
-- lease of it fails and changes nothing, at any time.
pub complete_run-stays :
    (lease : RunLease) (now later : Clock) (db after : Db) (cs : List (Clock × Call)) (c : Call)
    → Distinct db.agent_runs
    → complete_run_with_lease lease now db ≡ (ok tt, after)
    → works_on lease.run_id c ≡ true
    → (run : AgentRun) × ((get_run lease.run_id (run_calls after cs)).0 ≡ ok run)
      × (run.status ≡ completed)
      × Refused (execute c later) (run_calls after cs)
unfolding get_run
complete_run-stays lease now later db after cs c d h w =
    let e = ended lease now db after h d in
    let over : is_terminal e.row.status ≡ true = ap is_terminal e.status in
    let (row, known, same, _) =
      ended_run-stays lease.run_id e.row after cs e.distinct e.known over e.free in
    (
      row.run,
      ground (arith, known),
      same ∙ e.status,
      ended_run-Refused lease.run_id e.row after cs c later e.distinct e.known over e.free w,
    )
