-- ===== src/AutomaticResume.antt =====
-- The program of examples/automatic_resume.rs: a worker takes over a run whose process is gone, and its
-- handler completes it.
pub mod Completes
use zincir.Prelude.{ℕ, Option, none, some}
use zincir.Types.{Uuid, Result, ok, err}
use zincir.Tables.{Db, Clock}
use zincir.Lease.Durations.{Duration}
use zincir.Agent
use zincir.Agent.{AgentContext, AgentState, claim_next_recoverable}
use zincir.Agent.Session.{Act, ◌>>=◌, ◌>>◌, complete}

-- `ctx.state()`
abbrev pub read_state : Act AgentState
read_state (ctx, db) = ((Agent.state ctx.run_id db).0, (ctx, db))

-- The handler, up to the message that ends the worker.
unfoldable pub handler : Clock → Clock → Clock → Act (Unit {0})
unfolding complete
handler prepared completed released = do read_state; complete prepared completed released

abbrev pub handled :
    (Clock × Clock × Clock) → Result (Option AgentContext) × Db → Result (Unit {0}) × Db
handled (prepared, completed, released) (ok (some ctx), db) =
    let (r, after) = handler prepared completed released (ctx, db) in (r, after.1)
handled times (ok none, db) = (ok tt, db)
handled times (err e, db) = (err e, db)

-- A claim of the worker, and the handler of what it claimed.
unfoldable pub resume_next :
    Uuid → Duration → Clock → (Clock × Clock × Clock) → Db → Result (Unit {0}) × Db
unfolding handler claim_next_recoverable
resume_next owner_id lease_ttl now times db =
    handled times (claim_next_recoverable owner_id lease_ttl now db)
