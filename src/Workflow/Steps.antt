-- ===== src/Workflow/Steps.antt =====
-- `WorkflowContext::step` of src/workflow.rs over whole histories.
use zincir.Prelude.{◌≡◌, some, List, String, arith}
use zincir.Json.{Value}
use zincir.Types.{Uuid, ok, Result}
use zincir.Sql.Laws.{Unique}
use zincir.Tables.{RunRow, Db, Clock, Tx, find_run}
use zincir.Steps.{is_step, complete_step}
use zincir.Workflow.{WorkflowContext, validate_name, step}
use zincir.Calls.{Call, run_calls}
use zincir.Calls.Memo.{complete_step-claim_step}

-- A step that has been completed under a valid name answers the value that it was completed with, read
-- back as its type, to every later `step` of that name in that run, which changes nothing: its
-- operation, whatever it is, does not run, whatever workflow asks and whatever calls come between,
-- where the key (run, name) was unique and the run was stored.
pub complete_step-step :
    {T : Type 0} (to_value : T → Result Value) (from_value : Value → Result T)
    (ctx : WorkflowContext) (name : String) (operation : Tx T) (owner_id : Uuid) (value : Value)
    (now started finished : Clock) (db : Db) (r : RunRow) (cs : List (Clock × Call))
    → validate_name name ≡ ok tt
    → Unique (is_step ctx.run_id name) db.steps
    → find_run ctx.run_id db ≡ some r
    → (complete_step ctx.run_id name owner_id value now db).0 ≡ ok tt
    → step to_value from_value ctx name operation started finished
        (run_calls (complete_step ctx.run_id name owner_id value now db).1 cs)
      ≡ (from_value value, run_calls (complete_step ctx.run_id name owner_id value now db).1 cs)
unfolding step
complete_step-step to_value from_value ctx name operation owner_id value now started finished db r
      cs valid u known h =
    ground (
      arith,
      valid,
      complete_step-claim_step ctx.run_id name owner_id ctx.owner_id value now started db r cs u
          known h,
    )
