-- ===== src/Calls/Invariant.antt =====
-- The database of src/db.rs is well formed after any history of calls.
use zincir.Prelude.{refl, sym, subst, List, [], ◌∷◌}
use zincir.Types.{CheckpointRecord}
use zincir.Sql.Laws.{Unique}
use zincir.Steps.{is_step}
use zincir.Timers.{is_timer}
use zincir.Tables.{StepRow, TimerRow, Db, Clock, Tx, pure}
use zincir.Tables.Along.{Along, Along-then, Along-pure}
use zincir.Tables.Yields.{Keeps, keeps}
use zincir.Valid.Runs.{Distinct}
use zincir.Valid.Keys.{
  StepKeys, TimerKeys, claim_step-StepKeys, complete_step-StepKeys, recover_steps-StepKeys,
  schedule_timer-TimerKeys, complete_timer-TimerKeys,
}
use zincir.Valid.Candidates.{OneOpen, AllOneOpen, propose-OneOpen, decide-OneOpen}
use zincir.Calls
use zincir.Calls.{Call, execute, step, run_calls, empty_db, effect}
use zincir.Calls.History.{run_calls-Grows}
use zincir.Calls.Frame.{execute-Same}
use zincir.Calls.Frame.Writes.{Same, NotRuns, NotEvents, NotCheckpoints, NotSteps, NotTimers}

-- Run ids are distinct; the keys of steps and of timers are unique; a run has at most one candidate.
pub record IsValid (db : Db) : Type 0 where
  pub runs : Distinct db.agent_runs
  pub steps : StepKeys db
  pub timers : TimerKeys db
  pub checkpoints : OneOpen db.checkpoints

abbrev pub all_steps : Db → List StepRow
all_steps db = db.steps

abbrev all_timers : Db → List TimerRow
all_timers db = db.timers

abbrev all_checkpoints : Db → List CheckpointRecord
all_checkpoints db = db.checkpoints

pub steps-NotRuns : NotRuns all_steps
steps-NotRuns = record { at = λ db xs. refl }

pub steps-NotEvents : NotEvents all_steps
steps-NotEvents = record { at = λ db xs. refl }

pub steps-NotCheckpoints : NotCheckpoints all_steps
steps-NotCheckpoints = record { at = λ db xs. refl }

pub steps-NotTimers : NotTimers all_steps
steps-NotTimers = record { at = λ db xs. refl }

timers-NotRuns : NotRuns all_timers
timers-NotRuns = record { at = λ db xs. refl }

timers-NotEvents : NotEvents all_timers
timers-NotEvents = record { at = λ db xs. refl }

timers-NotCheckpoints : NotCheckpoints all_timers
timers-NotCheckpoints = record { at = λ db xs. refl }

timers-NotSteps : NotSteps all_timers
timers-NotSteps = record { at = λ db xs. refl }

checkpoints-NotRuns : NotRuns all_checkpoints
checkpoints-NotRuns = record { at = λ db xs. refl }

checkpoints-NotEvents : NotEvents all_checkpoints
checkpoints-NotEvents = record { at = λ db xs. refl }

checkpoints-NotSteps : NotSteps all_checkpoints
checkpoints-NotSteps = record { at = λ db xs. refl }

checkpoints-NotTimers : NotTimers all_checkpoints
checkpoints-NotTimers = record { at = λ db xs. refl }

ruleset steps_apart = (steps-NotRuns, steps-NotEvents, steps-NotCheckpoints, steps-NotTimers)

ruleset timers_apart = (timers-NotRuns, timers-NotEvents, timers-NotCheckpoints, timers-NotSteps)

ruleset checkpoints_apart =
    (checkpoints-NotRuns, checkpoints-NotEvents, checkpoints-NotSteps, checkpoints-NotTimers)

pub effect-Keeps :
    {A : Type 0} (P : Db → Type 0) (m : Tx A) → Along (Keeps P) m → Along (Keeps P) (effect m)
effect-Keeps P m k = Along-then (keeps P) m (pure tt) k (Along-pure (keeps P) tt)

Same-StepKeys : {A : Type 0} (m : Tx A) → Along (Same all_steps) m → Along (Keeps StepKeys) m
Same-StepKeys m k = record {
  at = λ db u. record { at = λ i n. subst (Unique (is_step i n)) (sym (k.at db)) (u.at i n) };
}

Same-TimerKeys : {A : Type 0} (m : Tx A) → Along (Same all_timers) m → Along (Keeps TimerKeys) m
Same-TimerKeys m k = record {
  at = λ db u. record { at = λ i n. subst (Unique (is_timer i n)) (sym (k.at db)) (u.at i n) };
}

Same-OneOpen : {A : Type 0} (m : Tx A) → Along (Same all_checkpoints) m → Along (Keeps AllOneOpen) m
Same-OneOpen m k = record { at = λ db o. subst OneOpen (sym (k.at db)) o }

execute-StepKeys : (c : Call) (now : Clock) → Along (Keeps StepKeys) (execute c now)
unfolding execute
execute-StepKeys (Calls.claim_step run_id name owner_id) now =
    effect-Keeps StepKeys _ (claim_step-StepKeys run_id name owner_id now)
execute-StepKeys (Calls.complete_step run_id name owner_id v) now =
    complete_step-StepKeys run_id name owner_id v now
execute-StepKeys (Calls.recover_steps run_id) now = recover_steps-StepKeys run_id now
execute-StepKeys c now =
    Same-StepKeys (execute c now) (execute-Same all_steps c now (search steps_apart))

execute-TimerKeys : (c : Call) (now : Clock) → Along (Keeps TimerKeys) (execute c now)
unfolding execute
execute-TimerKeys (Calls.schedule_timer run_id name delay) now =
    effect-Keeps TimerKeys _ (schedule_timer-TimerKeys run_id name delay now)
execute-TimerKeys (Calls.complete_timer run_id name) now = complete_timer-TimerKeys run_id name now
execute-TimerKeys c now =
    Same-TimerKeys (execute c now) (execute-Same all_timers c now (search timers_apart))

execute-OneOpen : (c : Call) (now : Clock) → Along (Keeps AllOneOpen) (execute c now)
unfolding execute
execute-OneOpen (Calls.propose_checkpoint_with_lease lease call_id state) now =
    effect-Keeps AllOneOpen _ (propose-OneOpen lease call_id state now)
execute-OneOpen (Calls.decide_checkpoint_with_lease lease id a v) now =
    effect-Keeps AllOneOpen _ (decide-OneOpen lease id a v now)
execute-OneOpen c now =
    Same-OneOpen (execute c now) (execute-Same all_checkpoints c now (search checkpoints_apart))

module _ (P : Db → Type 0) (each : (c : Call) (now : Clock) → Along (Keeps P) (execute c now)) where
  run_calls-Keeps : (db : Db) (cs : List (Clock × Call)) → P db → P (run_calls db cs)
  unfolding run_calls step
  run_calls-Keeps db [] h = h
  run_calls-Keeps db ((now, c) ∷ cs) h =
      run_calls-Keeps (step db (now, c)) cs ((each c now).at db h)

-- After any calls, on a database that was so before, no two runs have one id, no two steps of a run and no
-- two timers of a run have one name, and no run has two checkpoints that are still candidates.
pub run_calls-IsValid :
    (db : Db) (cs : List (Clock × Call)) → IsValid db → IsValid (run_calls db cs)
run_calls-IsValid db cs v = record {
  runs = (run_calls-Grows db cs).distinct v.runs;
  steps = run_calls-Keeps StepKeys execute-StepKeys db cs v.steps;
  timers = run_calls-Keeps TimerKeys execute-TimerKeys db cs v.timers;
  checkpoints = run_calls-Keeps AllOneOpen execute-OneOpen db cs v.checkpoints;
}

-- A new database is so.
pub empty_db-IsValid : IsValid empty_db
unfolding empty_db
empty_db-IsValid = record {
  runs = tt;
  steps = record { at = λ i n. tt };
  timers = record { at = λ i n. tt };
  checkpoints = record { at = λ i. tt };
}
