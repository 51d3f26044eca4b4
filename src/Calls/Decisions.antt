-- ===== src/Calls/Decisions.antt =====
-- A checkpoint of src/db.rs is decided once, over whole histories.
use zincir.Prelude.{ℕ, ◌≡◌, Bool, List, subst}
use zincir.Json.{Value}
use zincir.Types.{RunLease, CheckpointRecord, ok}
use zincir.Tables.{Db, Clock}
use zincir.Tables.Yields.{Post}
use zincir.Lease.Refusals.{Refused}
use zincir.Grows.Rows.{Closed}
use zincir.Checkpoints.{decide_checkpoint_with_lease}
use zincir.Checkpoints.Settled.{decide_checkpoint-Closed, decide_closed-Refused}
use zincir.Calls.{Call, run_calls}
use zincir.Calls.History.{run_calls-Grows}

-- Once a checkpoint has been accepted or rejected, every later decision on it fails and changes
-- nothing, whatever lease, verdict and time it has and whatever calls come between.
pub decide_checkpoint-once :
    (lease other : RunLease) (id : ℕ) (accepted again : Bool) (verification verification' : Value)
    (now later : Clock) (db after : Db) (c : CheckpointRecord) (cs : List (Clock × Call))
    → decide_checkpoint_with_lease lease id accepted verification now db ≡ (ok c, after)
    → Refused (decide_checkpoint_with_lease other id again verification' later) (run_calls after cs)
decide_checkpoint-once lease other id accepted again verification verification' now later db after c
      cs h =
    let closed : Closed id after.checkpoints =
      subst (Post (λ _ x. Closed id x.checkpoints)) h
        ((decide_checkpoint-Closed id lease accepted verification now).at db tt) in
    decide_closed-Refused other id again verification' later (run_calls after cs)
      ((run_calls-Grows after cs).closed id closed)
