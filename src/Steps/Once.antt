-- ===== src/Steps/Once.antt =====
-- The named steps of src/db.rs: who may run a step, and that its result is kept.
use zincir.Prelude.{
  ◌↔◌, ◌≡◌, refl, sym, ap, ◌∙◌, true, Option, none, some, ◌&&◌, arith, String, if◌then◌else◌,
}
use zincir.Json.{Value}
use zincir.Types.{Uuid, ok, err, active, invalid_state, step_running}
use zincir.Sql.{count}
use zincir.Sql.Laws.{Unique, first-update, holds, count-Unique, first_passes}
use zincir.Tables.{RunRow, StepRow, Db, Clock, find_run}
use zincir.Store.{current_status}
use zincir.Steps.{
  is_step, find_step, is_claimed_by, finish_step, update_steps, complete_step, claim_step,
  claim_existing,
}

module _ (run_id : Uuid) (name : String) (owner_id : Uuid) (value : Value) (now : Clock) (db : Db)
    (u : Unique (is_step run_id name) db.steps) where
  claimed_count :
      count (λ s. is_step run_id name s && is_claimed_by owner_id s) db.steps
      ≡ (if holds (is_claimed_by owner_id) (find_step run_id name db) then 1 else 0)
  unfolding find_step
  claimed_count = count-Unique (is_step run_id name) (is_claimed_by owner_id) db.steps u

  finished_row :
      (s : StepRow)
      → find_step run_id name db ≡ some s
      → is_claimed_by owner_id s ≡ true
      → find_step run_id name (complete_step run_id name owner_id value now db).1
        ≡ some (finish_step value now s)
  unfolding find_step complete_step update_steps
  finished_row s e c = ground (
    arith,
    claimed_count,
    e,
    c,
    first-update (is_step run_id name) (λ s. is_step run_id name s && is_claimed_by owner_id s)
        (finish_step value now) db.steps (λ x. ground arith),
    first_passes (is_step run_id name) db.steps s e,
  )

  -- `complete_step` succeeds exactly for the owner of a running step, where the key (run, name) is
  -- unique in the table; so a worker whose claim was recovered cannot complete the step.
  pub complete_step_iff :
      ((complete_step run_id name owner_id value now db).0 ≡ ok tt)
      ↔ (holds (is_claimed_by owner_id) (find_step run_id name db) ≡ true)
  unfolding complete_step update_steps
  complete_step_iff = (λ h. ground (arith, claimed_count, h), λ h. ground (arith, claimed_count, h))

  -- The row of a step that has been completed.
  pub completed_row :
      (complete_step run_id name owner_id value now db).0 ≡ ok tt
      → (s : StepRow) × (find_step run_id name (complete_step run_id name owner_id value now db).1
          ≡ some (finish_step value now s))
  completed_row h = from_row (find_step run_id name db) refl
    where
      from_row :
          (o : Option StepRow)
          → find_step run_id name db ≡ o
          → (s : StepRow) × (find_step run_id name
                (complete_step run_id name owner_id value now db).1
              ≡ some (finish_step value now s))
      from_row none e = absurd (cc (complete_step_iff.0 h))
      from_row (some s) e = (
        s,
        finished_row s e (sym (ap (holds (is_claimed_by owner_id)) e) ∙ complete_step_iff.0 h),
      )

module _ (run_id : Uuid) (name : String) (db : Db) (r : RunRow)
    (known : find_run run_id db ≡ some r) where
  -- A completed step answers its result to any claim and changes nothing.
  pub claim_completed :
      (s : StepRow) (value : Value) (now now' : Clock) (owner_id : Uuid)
      → find_step run_id name db ≡ some (finish_step value now s)
      → claim_step run_id name owner_id now' db ≡ (ok (some value), db)
  unfolding claim_step current_status claim_existing
  claim_completed s value now now' owner_id e = ground (arith, known, e)

  pub claim_running :
      (s : StepRow) (now : Clock) (owner_id : Uuid)
      → find_step run_id name db ≡ some s
      → s.status ≡ active
      → claim_step run_id name owner_id now db
        ≡ (err (invalid_state (step_running name run_id)), db)
  unfolding claim_step current_status claim_existing
  claim_running s now owner_id e a = ground (arith, known, e, a)
