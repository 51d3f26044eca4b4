-- ===== src/Worker/Bounds.antt =====
-- The bound on the active handlers in src/worker.rs.
use zincir.Prelude.{
  ℕ, zero, suc, ◌+◌, ◌-◌, ◌≤◌, ◌≡◌, Bool, true, false, Option, none, some, List, [], ◌∷◌, length,
  arith, if◌then◌else◌,
}
use zincir.Types.{Uuid, Error, Result, ok, err}
use zincir.Tables.{Db, Clock}
use zincir.Lease.Durations.{Duration}
use zincir.Agent.{AgentContext, claim_next_recoverable}
use zincir.Worker.{
  ResumeWorker, Loop, Wake, shutdown, tick, task_ended, after_claim, fill, remove, turn, turns,
  start,
}

after_claim-bound :
    (rest : Loop × Db → Loop × Db) (free : ℕ) (l : Loop) (r : Result (Option AgentContext) × Db)
    → ((l' : Loop) (db : Db) → length (rest (l', db)).0.tasks ≤ length l'.tasks + free)
    → length (after_claim rest l r).0.tasks ≤ length l.tasks + suc free
after_claim-bound rest free l (ok (some context), db) h =
    omega (arith, h (record l { tasks = context ∷ l.tasks }) db)
after_claim-bound rest free l (ok none, db) h = omega arith
after_claim-bound rest free l (err e, db) h = omega arith

fill-bound :
    (ttl : Duration) (free : ℕ) (draws : ℕ → Uuid × Clock) (l : Loop) (db : Db)
    → length (fill ttl free draws (l, db)).0.tasks ≤ length l.tasks + free
unfolding fill
fill-bound ttl zero draws l db = omega arith
fill-bound ttl (suc free) draws l db =
    after_claim-bound (fill ttl free draws) free l
      (claim_next_recoverable (draws free).0 ttl (draws free).1 db) (fill-bound ttl free draws)

remove-bound : (n : ℕ) (ts : List AgentContext) → length (remove n ts) ≤ length ts
remove-bound n [] = omega arith
remove-bound zero (t ∷ ts) = omega arith
remove-bound (suc n) (t ∷ ts) = omega (arith, remove-bound n ts)

either-bound :
    (n : ℕ) (b : Bool) (x y : Loop × Db)
    → length x.0.tasks ≤ n
    → length y.0.tasks ≤ n
    → length (if b then x else y).0.tasks ≤ n
either-bound n true x y h k = h
either-bound n false x y h k = k

turn-bound :
    (w : ResumeWorker) (l : Loop) (db : Db) (x : Wake)
    → length l.tasks ≤ w.max_concurrency
    → length (turn w (l, db) x).0.tasks ≤ w.max_concurrency
unfolding turn
turn-bound w l db shutdown h = h
turn-bound w l db (task_ended n) h = omega (arith, h, remove-bound n l.tasks)
turn-bound w l db (tick draws) h =
    either-bound w.max_concurrency l.running _ (l, db)
      (omega (arith, h, fill-bound w.lease_ttl (w.max_concurrency - length l.tasks) draws l db)) h

bounded_from :
    (w : ResumeWorker) (xs : List Wake) (l : Loop) (db : Db)
    → length l.tasks ≤ w.max_concurrency
    → length (turns w (l, db) xs).0.tasks ≤ w.max_concurrency
unfolding turns
bounded_from w [] l db h = h
bounded_from w (x ∷ xs) l db h =
    bounded_from w xs (turn w (l, db) x).0 (turn w (l, db) x).1 (turn-bound w l db x h)

-- From its start the loop never has more active handlers than `max_concurrency`, whatever wakes it, in
-- whatever order, and whatever its claims answer.
pub turns-bound :
    (w : ResumeWorker) (db : Db) (xs : List Wake)
    → length (turns w (start, db) xs).0.tasks ≤ w.max_concurrency
turns-bound w db xs = bounded_from w xs start db (omega arith)

-- What ends the loop, and the failure that the worker then returns: the shutdown, or a tick whose first
-- claim fails, while there is a free place.
abbrev pub Ends : ResumeWorker → Loop → Db → Wake → Option Error → Type 0
Ends w l db shutdown failure = failure ≡ l.failure
Ends w l db (task_ended n) failure = ⊥
Ends w l db (tick draws) failure =
    (free : ℕ) × (e : Error) × (l.running ≡ true)
    × (w.max_concurrency - length l.tasks ≡ suc free)
    × ((claim_next_recoverable (draws free).0 w.lease_ttl (draws free).1 db).0 ≡ err e)
    × (failure ≡ some e)
