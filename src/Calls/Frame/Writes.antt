-- ===== src/Calls/Frame/Writes.antt =====
-- The writes of src/db.rs to its tables, and what each leaves alone.
use zincir.Prelude.{ℕ, ◌≡◌, refl, ◌∙◌, Bool, List, ◌∷◌, String}
use zincir.Types.{Uuid, Event, CheckpointRecord}
use zincir.Tables.{RunRow, StepRow, TimerRow, Db, Clock, modify, update_runs, update_run_returning}
use zincir.Tables.Along.{Along, Preorder}
use zincir.Store.Reads.{read_rules}
use zincir.Checkpoints.{update_candidate}
use zincir.Steps.{update_steps}
use zincir.Timers.{complete_timer}

-- A part of the database that a table is no part of.
module _ {T : Type 0} (part : Db → T) where
  pub record NotRuns : Type 0 where
    pub at : (db : Db) (rs : List RunRow) → part (record db { agent_runs = rs }) ≡ part db

  pub record NotEvents : Type 0 where
    pub at : (db : Db) (es : List Event) → part (record db { events = es }) ≡ part db

  pub record NotCheckpoints : Type 0 where
    pub at :
        (db : Db) (cs : List CheckpointRecord) → part (record db { checkpoints = cs }) ≡ part db

  pub record NotSteps : Type 0 where
    pub at : (db : Db) (ss : List StepRow) → part (record db { steps = ss }) ≡ part db

  pub record NotTimers : Type 0 where
    pub at : (db : Db) (ts : List TimerRow) → part (record db { timers = ts }) ≡ part db

  abbrev pub Same : Db → Db → Type 0
  Same a b = part b ≡ part a

module _ {T : Type 0} (part : Db → T) where
  pub same : Preorder (Same part)
  same = record { reflexive = λ a. refl; transitive = λ a b c p q. q ∙ p }

  pub push_run :
      (r : RunRow)
      → NotRuns part
      → Along (Same part) (modify (λ db. record db { agent_runs = r ∷ db.agent_runs }))
  push_run r n = record { at = λ db. n.at db _ }

  pub change_runs :
      (p : RunRow → Bool) (f : RunRow → RunRow) → NotRuns part → Along (Same part) (update_runs p f)
  unfolding update_runs
  change_runs p f n = record { at = λ db. n.at db _ }

  pub change_returning :
      (p : RunRow → Bool) (f : RunRow → RunRow)
      → NotRuns part
      → Along (Same part) (update_run_returning p f)
  unfolding update_run_returning
  change_returning p f n = record { at = λ db. n.at db _ }

  pub push_event :
      (e : Event)
      → NotEvents part
      → Along (Same part) (modify (λ db. record db { events = e ∷ db.events }))
  push_event e n = record { at = λ db. n.at db _ }

  pub push_checkpoint :
      (c : CheckpointRecord)
      → NotCheckpoints part
      → Along (Same part) (modify (λ db. record db { checkpoints = c ∷ db.checkpoints }))
  push_checkpoint c n = record { at = λ db. n.at db _ }

  pub change_candidate :
      (id : ℕ) (f : CheckpointRecord → CheckpointRecord)
      → NotCheckpoints part
      → Along (Same part) (update_candidate id f)
  unfolding update_candidate
  change_candidate id f n = record { at = λ db. n.at db _ }

  pub push_step :
      (s : StepRow)
      → NotSteps part
      → Along (Same part) (modify (λ db. record db { steps = s ∷ db.steps }))
  push_step s n = record { at = λ db. n.at db _ }

  pub change_steps :
      (p : StepRow → Bool) (f : StepRow → StepRow)
      → NotSteps part
      → Along (Same part) (update_steps p f)
  unfolding update_steps
  change_steps p f n = record { at = λ db. n.at db _ }

  pub push_timer :
      (t : TimerRow)
      → NotTimers part
      → Along (Same part) (modify (λ db. record db { timers = t ∷ db.timers }))
  push_timer t n = record { at = λ db. n.at db _ }

  pub complete_timer-Same :
      (run_id : Uuid) (name : String) (now : Clock)
      → NotTimers part
      → Along (Same part) (complete_timer run_id name now)
  unfolding complete_timer
  complete_timer-Same run_id name now n = record { at = λ db. n.at db _ }

  pub ruleset write_rules = (
    read_rules, same, push_run, change_runs, change_returning, push_event, push_checkpoint,
    change_candidate, push_step, change_steps, push_timer, complete_timer-Same,
  )

-- The tables beside one another.
abbrev pub all_runs : Db → List RunRow
all_runs db = db.agent_runs

pub runs-NotEvents : NotEvents all_runs
runs-NotEvents = record { at = λ db es. refl }

pub runs-NotCheckpoints : NotCheckpoints all_runs
runs-NotCheckpoints = record { at = λ db cs. refl }

pub runs-NotSteps : NotSteps all_runs
runs-NotSteps = record { at = λ db ss. refl }

pub runs-NotTimers : NotTimers all_runs
runs-NotTimers = record { at = λ db ts. refl }
