-- ===== src/Grows/Workflow.antt =====
-- The calls on steps and timers: a completed step keeps its row, and a timer its wake time.
use zincir.Prelude.{
  ℕ, ◌≡◌, refl, ap, ◌∙◌, Bool, false, Option, none, some, List, ◌∷◌, String, ◌==◌, ◌&&◌, arith,
  str_eq, str_eq_iff, Bool-cases, inl, inr,
}
use zincir.Json.{Value}
use zincir.Types.{Uuid, StepStatus, active, done}
use zincir.Sql.{first, update, where_set}
use zincir.Sql.Laws.{first-update, set_found}
use zincir.Tables.{StepRow, TimerRow, Db, Clock, query, ◌>>=◌}
use zincir.Tables.Along.{Along, Along-transaction, Along-then, Along-ask}
use zincir.Store.{current_status}
use zincir.Store.Reads.{read_rules, Along-current_status}
use zincir.Lease.Durations.{Duration}
use zincir.Steps.{
  is_step, is_waiting, is_active, find_step, update_steps, start_step, new_step, restart_step,
  claim_existing, insert_step, claim_row, claim_step, finish_step, is_claimed_by, complete_step,
  free_step, recover_steps, fits_check,
}
use zincir.Timers.{
  is_timer, find_timer, new_timer, insert_timer, saved_or_new, schedule_timer, finish_timer,
  complete_timer,
}
use zincir.Grows.Rows.{
  Grows, StepsGrow, TimersGrow, grows, Extends-refl, RunsGrow-refl, TimersGrow-refl,
}

Grows-steps :
    (db : Db) (ss : List StepRow) → StepsGrow db.steps ss → Grows db (record db { steps = ss })
Grows-steps db ss x = record {
  log = Extends-refl db.events;
  runs = RunsGrow-refl db.agent_runs;
  steps = x;
  timers = TimersGrow-refl db.timers;
  decisions = λ id c e _. e;
  distinct = λ d. d;
  closed = λ k c. c;
}

Grows-timers :
    (db : Db) (ts : List TimerRow) → TimersGrow db.timers ts → Grows db (record db { timers = ts })
Grows-timers db ts x = record {
  log = Extends-refl db.events;
  runs = RunsGrow-refl db.agent_runs;
  steps = λ run_id name s e _. e;
  timers = x;
  decisions = λ id c e _. e;
  distinct = λ d. d;
  closed = λ k c. c;
}

-- A change of steps that keeps their keys and passes over the completed ones.
record IsOpenChange (p : StepRow → Bool) (f : StepRow → StepRow) : Type 0 where
  key :
      (run_id : Uuid) (name : String) (s : StepRow)
      → is_step run_id name (f s) ≡ is_step run_id name s
  spares : (s : StepRow) → s.status ≡ done → p s ≡ false

StepsGrow-update :
    (p : StepRow → Bool) (f : StepRow → StepRow) (ss : List StepRow)
    → IsOpenChange p f
    → StepsGrow ss (update p f ss)
StepsGrow-update p f ss o run_id name s e d =
    first-update (is_step run_id name) p f ss (λ x. ground (arith, o.key run_id name x))
    ∙ ap (set_found p f) e
    ∙ ground (arith, o.spares s d)

update_steps-Grows :
    (p : StepRow → Bool) (f : StepRow → StepRow) → IsOpenChange p f → Along Grows (update_steps p f)
unfolding update_steps
update_steps-Grows p f o = record { at = λ db. Grows-steps db _ (StepsGrow-update p f db.steps o) }

restart-IsOpenChange :
    (run_id : Uuid) (name : String) (owner_id : Uuid) (now : Clock)
    → IsOpenChange (λ s. is_step run_id name s && is_waiting s.status) (start_step owner_id now)
restart-IsOpenChange run_id name owner_id now = record {
  key = λ _ _ s. refl;
  spares = λ s d. ground arith;
}

finish-IsOpenChange :
    (run_id : Uuid) (name : String) (owner_id : Uuid) (v : Value) (now : Clock)
    → IsOpenChange (λ s. is_step run_id name s && is_claimed_by owner_id s) (finish_step v now)
finish-IsOpenChange run_id name owner_id v now = record {
  key = λ _ _ s. refl;
  spares = λ s d. ground arith;
}

free-IsOpenChange :
    (run_id : Uuid) → IsOpenChange (λ s. s.run_id == run_id && is_active s.status) free_step
free-IsOpenChange run_id = record { key = λ _ _ s. refl; spares = λ s d. ground arith }

ruleset step_rules = (
  read_rules, grows, update_steps-Grows, restart-IsOpenChange, finish-IsOpenChange,
  free-IsOpenChange,
)

restart_step-Grows :
    (run_id : Uuid) (name : String) (owner_id : Uuid) (now : Clock)
    → Along Grows (restart_step run_id name owner_id now)
unfolding restart_step
restart_step-Grows run_id name owner_id now = search step_rules

claim_existing-Grows :
    (run_id : Uuid) (name : String) (owner_id : Uuid) (now : Clock) (s : StepStatus)
    (v : Option Value)
    → Along Grows (claim_existing run_id name owner_id now s v)
unfolding claim_existing
claim_existing-Grows run_id name owner_id now done (some v) = search step_rules
claim_existing-Grows run_id name owner_id now active v = search step_rules
claim_existing-Grows run_id name owner_id now _ _ = search (step_rules, restart_step-Grows)

-- A row that is found by one key is not found by another.
keys_differ {ℓ} :
    {A : Type ℓ} (is : Uuid → String → A → Bool) (xs : List A) (i j : Uuid) (n m : String) (x : A)
    → first (is i n) xs ≡ none
    → first (is j m) xs ≡ some x
    → ((i == j) && str_eq n m) ≡ false
keys_differ is xs i j n m x free e =
    ground (arith, str_eq_iff n m, λ (p : i ≡ j) (q : n ≡ m). clash p q)
  where
    clash : i ≡ j → n ≡ m → ⊥
    clash p q = cc (ap (λ k. first (is k n) xs) p, ap (λ k. first (is j k) xs) q)

insert_step-StepsGrow :
    (ss : List StepRow) (run_id : Uuid) (name : String) (owner_id : Uuid) (now : Clock)
    → first (is_step run_id name) ss ≡ none
    → StepsGrow ss (new_step run_id name owner_id now ∷ ss)
unfolding first
insert_step-StepsGrow ss run_id name owner_id now free i n s e d =
    rw (keys_differ is_step ss run_id i name n s free e) e

insert_step-Grows :
    (run_id : Uuid) (name : String) (owner_id : Uuid) (now : Clock) (db : Db)
    → find_step run_id name db ≡ none
    → Grows db (insert_step run_id name owner_id now db).1
unfolding insert_step find_step
insert_step-Grows run_id name owner_id now db free = elim (Bool-cases (fits_check name)) [
  | inl fits ↦
      rw fits (Grows-steps db _ (insert_step-StepsGrow db.steps run_id name owner_id now free))
  | inr long ↦ rw long (grows.reflexive db)
]

claim_row-Grows :
    (run_id : Uuid) (name : String) (owner_id : Uuid) (now : Clock) (db : Db) (o : Option StepRow)
    → find_step run_id name db ≡ o
    → Grows db (claim_row run_id name owner_id now o db).1
claim_row-Grows run_id name owner_id now db none e = insert_step-Grows run_id name owner_id now db e
claim_row-Grows run_id name owner_id now db (some s) e =
    (claim_existing-Grows run_id name owner_id now s.status s.result).at db

pub claim_step-Grows :
    (run_id : Uuid) (name : String) (owner_id : Uuid) (now : Clock)
    → Along Grows (claim_step run_id name owner_id now)
unfolding claim_step
claim_step-Grows run_id name owner_id now = Along-transaction grows _ (
    Along-then grows (current_status run_id) _ (Along-current_status grows run_id) (
      Along-ask grows (find_step run_id name) (claim_row run_id name owner_id now)
        λ db. claim_row-Grows run_id name owner_id now db (find_step run_id name db) refl))

pub complete_step-Grows :
    (run_id : Uuid) (name : String) (owner_id : Uuid) (v : Value) (now : Clock)
    → Along Grows (complete_step run_id name owner_id v now)
unfolding complete_step
complete_step-Grows run_id name owner_id v now = search step_rules depth 8

pub recover_steps-Grows : (run_id : Uuid) (now : Clock) → Along Grows (recover_steps run_id now)
unfolding recover_steps
recover_steps-Grows run_id now = search step_rules depth 8

insert_timer-TimersGrow :
    (ts : List TimerRow) (run_id : Uuid) (name : String) (t : ℕ)
    → first (is_timer run_id name) ts ≡ none
    → TimersGrow ts (new_timer run_id name t ∷ ts)
unfolding first
insert_timer-TimersGrow ts run_id name w free i n t e =
    (t, rw (keys_differ is_timer ts run_id i name n t free e) e, refl)

saved_or_new-Grows :
    (run_id : Uuid) (name : String) (w : ℕ) (db : Db) (o : Option TimerRow)
    → find_timer run_id name db ≡ o
    → Grows db (saved_or_new run_id name w o db).1
unfolding insert_timer find_timer
saved_or_new-Grows run_id name w db none e = elim (Bool-cases (fits_check name)) [
  | inl fits ↦ rw fits (Grows-timers db _ (insert_timer-TimersGrow db.timers run_id name w e))
  | inr long ↦ rw long (grows.reflexive db)
]
saved_or_new-Grows run_id name w db (some t) e = grows.reflexive db

schedule-Grows :
    (run_id : Uuid) (name : String) (w : ℕ)
    → Along Grows (query (find_timer run_id name) >>= saved_or_new run_id name w)
schedule-Grows run_id name w =
    Along-ask grows (find_timer run_id name) (saved_or_new run_id name w)
      λ db. saved_or_new-Grows run_id name w db (find_timer run_id name db) refl

pub schedule_timer-Grows :
    (run_id : Uuid) (name : String) (delay : Duration) (now : Clock)
    → Along Grows (schedule_timer run_id name delay now)
unfolding schedule_timer
schedule_timer-Grows run_id name delay now = search (step_rules, schedule-Grows) depth 10

pub complete_timer-Grows :
    (run_id : Uuid) (name : String) (now : Clock) → Along Grows (complete_timer run_id name now)
unfolding complete_timer
complete_timer-Grows run_id name now = record {
  at = λ db. Grows-timers db _ λ i n t e. (
    where_set (is_timer run_id name) (finish_timer now) t,
    first-update (is_timer i n) (is_timer run_id name) (finish_timer now) db.timers
          (λ x. ground arith)
        ∙ ap (set_found (is_timer run_id name) (finish_timer now)) e,
    ground arith,
  );
}
