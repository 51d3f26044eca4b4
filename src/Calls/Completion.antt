-- ===== src/Calls/Completion.antt =====
-- `complete_run_with_lease` of src/db.rs, and what it closes.
use zincir.Prelude.{◌≡◌, refl, sym, ◌∙◌, true, Option, none, some, ◌==◌, arith}
use zincir.Types.{Uuid, RunLease, running, completed}
use zincir.Sql.{first}
use zincir.Sql.Laws.{first-update, set_found, first_passes}
use zincir.Tables.{RunRow, Db, Clock, pure, find_run, update_runs, ◌>>◌}
use zincir.Tables.Yields.{Always, always, Yields, Yields-transaction, yields_then}
use zincir.Store.{validate_writable_run_lease}
use zincir.Lease.{complete_run_with_lease, complete_row, record_transition}

-- The row of the run, if it is there, is completed and has no owner.
abbrev pub IsCompleted : Uuid → Db → Type 0
IsCompleted run_id db =
    (r : RunRow) → find_run run_id db ≡ some r → (r.status ≡ completed) × (r.lease_owner ≡ none)

module _ (run_id : Uuid) (now : Clock) where
  completed_found :
      (o : Option RunRow) (r : RunRow)
      → ((x : RunRow) → o ≡ some x → (x.id == run_id) ≡ true)
      → set_found (λ x. x.id == run_id) (complete_row now) o ≡ some r
      → (r.status ≡ completed) × (r.lease_owner ≡ none)
  completed_found none r k e = absurd cc
  completed_found (some x) r k e = (ground (arith, k x refl, e), ground (arith, k x refl, e))

  IsCompleted-rows :
      Yields Always (update_runs (λ x. x.id == run_id) (complete_row now)) (λ _. IsCompleted run_id)
  unfolding update_runs find_run
  IsCompleted-rows = record {
    at = λ db _ r e.
        completed_found (first (λ x. x.id == run_id) db.agent_runs) r
          (first_passes (λ x. x.id == run_id) db.agent_runs)
          (sym (
              first-update (λ x. x.id == run_id) (λ x. x.id == run_id) (complete_row now)
                db.agent_runs (λ x. ground arith))
            ∙ e);
  }

pub complete_run-IsCompleted :
    (lease : RunLease) (now : Clock)
    → Yields Always (complete_run_with_lease lease now) (λ _. IsCompleted lease.run_id)
unfolding complete_run_with_lease
complete_run-IsCompleted lease now = Yields-transaction _ (
    yields_then (validate_writable_run_lease lease now)
      (record_transition lease.run_id running completed now
        >> (update_runs (λ r. r.id == lease.run_id) (complete_row now) >> pure tt))
      (always _)
      λ _.
        yields_then (record_transition lease.run_id running completed now)
          (update_runs (λ r. r.id == lease.run_id) (complete_row now) >> pure tt) (always _)
          λ _.
            yields_then (update_runs (λ r. r.id == lease.run_id) (complete_row now)) (pure tt)
              (IsCompleted-rows lease.run_id now) λ _. record { at = λ db h. h })
