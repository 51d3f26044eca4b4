-- ===== src/Worker.antt =====
-- `ResumeWorker` of src/worker.rs: the loop as steps on what wakes its `select!`. Handlers run as tasks of
-- their own; of a task the worker sees only that it is spawned and that it ends.
pub mod Bounds
use zincir.Prelude.{
  ℕ, zero, suc, ◌+◌, ◌-◌, ◌*◌, Bool, true, false, Option, none, some, List, [], ◌∷◌, length, ltb,
  ◌==◌, if◌then◌else◌,
}
use zincir.Types.{Uuid, Error, Result, ok, err, invalid_state, poll_interval_zero, concurrency_zero}
use zincir.Tables.{Db, Clock}
use zincir.Lease.Durations.{Duration, as_nanos}
use zincir.Agent.{AgentContext, validate_lease_ttl, claim_next_recoverable}

pub record ResumeWorker : Type 0 where
  pub lease_ttl : Duration
  pub poll_interval : Duration
  pub max_concurrency : ℕ

-- `ResumeWorker::new`, with a poll interval of one second and one handler at a time.
abbrev pub new_worker : Duration → ResumeWorker
new_worker lease_ttl = record {
  lease_ttl = lease_ttl;
  poll_interval = record { secs = 1; nanos = 0 };
  max_concurrency = 1;
}

-- The loop's variables: the contexts of the active tasks, the failure, and whether the loop goes on.
pub record Loop : Type 0 where
  pub tasks : List AgentContext
  pub failure : Option Error
  pub running : Bool

-- What `select!` takes: the shutdown; a tick, with the owner ids and the times of the claims that it may
-- make, one for each; or the end of a task, by its place.
pub data Wake : Type 0 where
  shutdown : Wake
  tick : (ℕ → Uuid × Clock) → Wake
  task_ended : ℕ → Wake

-- The checks at the head of `run`.
unfoldable pub validate : ResumeWorker → Result (Unit {0})
unfolding validate_lease_ttl
validate w = elim (validate_lease_ttl w.lease_ttl) [
  | err e ↦ err e
  | ok u ↦
      if as_nanos w.poll_interval == 0
      then err (invalid_state poll_interval_zero)
      else if w.max_concurrency == 0
      then err (invalid_state concurrency_zero)
      else ok tt
]

-- What a claim within the `while` leads to: a task more and the rest of the claims, the end of the
-- claims, or the failure that ends the loop.
abbrev pub after_claim :
    (Loop × Db → Loop × Db) → Loop → Result (Option AgentContext) × Db → Loop × Db
after_claim rest l (ok (some context), db) = rest (record l { tasks = context ∷ l.tasks }, db)
after_claim rest l (ok none, db) = (l, db)
after_claim rest l (err e, db) = (record l { failure = some e; running = false }, db)

-- `while tasks.len() < self.max_concurrency`: at most as many claims as there are free places.
unfoldable pub fill : Duration → ℕ → (ℕ → Uuid × Clock) → Loop × Db → Loop × Db
unfolding claim_next_recoverable
fill ttl zero draws (l, db) = (l, db)
fill ttl (suc free) draws (l, db) =
    let (owner_id, now) = draws free in
    after_claim (fill ttl free draws) l (claim_next_recoverable owner_id ttl now db)

-- A task that is not there has not ended.
abbrev pub remove : ℕ → List AgentContext → List AgentContext
remove n [] = []
remove zero (t ∷ ts) = ts
remove (suc n) (t ∷ ts) = t ∷ remove n ts

-- One turn of the loop; after its end only the ends of tasks are waited for.
unfoldable pub turn : ResumeWorker → Loop × Db → Wake → Loop × Db
unfolding fill
turn w (l, db) shutdown = (record l { running = false }, db)
turn w (l, db) (task_ended n) = (record l { tasks = remove n l.tasks }, db)
turn w (l, db) (tick draws) =
    let filled = fill w.lease_ttl (w.max_concurrency - length l.tasks) draws (l, db) in
    if l.running then filled else (l, db)

unfoldable pub turns : ResumeWorker → Loop × Db → List Wake → Loop × Db
unfolding turn
turns w s [] = s
turns w s (x ∷ xs) = turns w (turn w s x) xs

abbrev pub start : Loop
start = record { tasks = []; failure = none; running = true }

-- The result of `run`, once the loop has ended and no task is active.
abbrev pub outcome : Option Error → Result (Unit {0})
outcome none = ok tt
outcome (some e) = err e
