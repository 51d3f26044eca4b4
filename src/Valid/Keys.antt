-- ===== src/Valid/Keys.antt =====
-- The primary keys (run_id, name) of the tables `steps` and `timers` in migrations/: the calls of
-- src/db.rs look for a row before they insert one, so no key comes twice.
use zincir.Prelude.{
  ℕ, ◌≡◌, refl, subst, Bool, true, false, Option, none, some, List, ◌∷◌, String, str_eq_iff,
  nat_beq_iff, arith, Bool-cases, inl, inr,
}
use zincir.Json.{Value}
use zincir.Types.{Uuid, StepStatus, done, active}
use zincir.Sql.{exists, first}
use zincir.Sql.Laws.{first-none-exists, Unique, Unique-update}
use zincir.Tables.{StepRow, TimerRow, Db, Clock, query, ◌>>=◌}
use zincir.Tables.Along.{Along, Preorder, Along-transaction, Along-then, Along-ask}
use zincir.Tables.Yields.{Keeps, keeps}
use zincir.Store.{current_status}
use zincir.Store.Reads.{read_rules, Along-current_status}
use zincir.Lease.Durations.{Duration}
use zincir.Steps.{
  is_step, find_step, update_steps, start_step, new_step, restart_step, claim_existing, insert_step,
  claim_row, claim_step, finish_step, complete_step, free_step, recover_steps, fits_check,
}
use zincir.Timers.{
  is_timer, find_timer, new_timer, insert_timer, saved_or_new, schedule_timer, finish_timer,
  complete_timer,
}

-- A new row with a key that is not there keeps every key unique.
pushed :
    {A : Type 0} (is : Uuid → String → A → Bool) (i : Uuid) (n : String) (x : A) (xs : List A)
    → ((j : Uuid) (m : String) → is j m x ≡ true → (i ≡ j) × (n ≡ m))
    → first (is i n) xs ≡ none
    → ((j : Uuid) (m : String) → Unique (is j m) xs)
    → (j : Uuid) (m : String) → Unique (is j m) (x ∷ xs)
pushed is i n x xs own free u j m = (
  λ e.
      let (p, q) = own j m e in
      subst (λ k. exists (is k m) xs ≡ false) p
        (subst (λ k. exists (is i k) xs ≡ false) q (first-none-exists (is i n) xs free)),
  u j m,
)

pub record StepKeys (db : Db) : Type 0 where
  pub at : (run_id : Uuid) (name : String) → Unique (is_step run_id name) db.steps

pub record TimerKeys (db : Db) : Type 0 where
  pub at : (run_id : Uuid) (name : String) → Unique (is_timer run_id name) db.timers

Keeps-steps : Preorder (Keeps StepKeys)
Keeps-steps = keeps StepKeys

-- A change of steps that leaves their keys.
record IsKeyed (f : StepRow → StepRow) : Type 0 where
  key :
      (run_id : Uuid) (name : String) (s : StepRow)
      → is_step run_id name (f s) ≡ is_step run_id name s

change_steps-StepKeys :
    (p : StepRow → Bool) (f : StepRow → StepRow)
    → IsKeyed f
    → Along (Keeps StepKeys) (update_steps p f)
unfolding update_steps
change_steps-StepKeys p f k = record {
  at = λ db u. record {
    at = λ run_id name.
        Unique-update (is_step run_id name) p f db.steps (λ x. ground (arith, k.key run_id name x))
          (u.at run_id name);
  };
}

start-IsKeyed : (owner_id : Uuid) (now : Clock) → IsKeyed (start_step owner_id now)
start-IsKeyed owner_id now = record { key = λ _ _ s. refl }

finish-IsKeyed : (v : Value) (now : Clock) → IsKeyed (finish_step v now)
finish-IsKeyed v now = record { key = λ _ _ s. refl }

free-IsKeyed : IsKeyed free_step
free-IsKeyed = record { key = λ _ _ s. refl }

ruleset key_rules =
    (read_rules, Keeps-steps, change_steps-StepKeys, start-IsKeyed, finish-IsKeyed, free-IsKeyed)

claim_existing-StepKeys :
    (run_id : Uuid) (name : String) (owner_id : Uuid) (now : Clock) (s : StepStatus)
    (v : Option Value)
    → Along (Keeps StepKeys) (claim_existing run_id name owner_id now s v)
unfolding claim_existing restart_step
claim_existing-StepKeys run_id name owner_id now done (some v) = search key_rules
claim_existing-StepKeys run_id name owner_id now active v = search key_rules
claim_existing-StepKeys run_id name owner_id now _ _ = search key_rules

own_step :
    (i : Uuid) (n : String) (o : Uuid) (now : Clock) (j : Uuid) (m : String)
    → is_step j m (new_step i n o now) ≡ true
    → (i ≡ j) × (n ≡ m)
own_step i n o now j m e =
    ((nat_beq_iff i j).0 (ground (arith, e)), (str_eq_iff n m).0 (ground (arith, e)))

claim_row-StepKeys :
    (run_id : Uuid) (name : String) (owner_id : Uuid) (now : Clock) (db : Db) (o : Option StepRow)
    → find_step run_id name db ≡ o
    → StepKeys db
    → StepKeys (claim_row run_id name owner_id now o db).1
unfolding insert_step find_step
claim_row-StepKeys run_id name owner_id now db none e u = elim (Bool-cases (fits_check name)) [
  | inl fits ↦ rw fits (record {
    at =
        pushed is_step run_id name (new_step run_id name owner_id now) db.steps
          (own_step run_id name owner_id now) e u.at;
  })
  | inr long ↦ rw long u
]
claim_row-StepKeys run_id name owner_id now db (some s) e u =
    (claim_existing-StepKeys run_id name owner_id now s.status s.result).at db u

pub claim_step-StepKeys :
    (run_id : Uuid) (name : String) (owner_id : Uuid) (now : Clock)
    → Along (Keeps StepKeys) (claim_step run_id name owner_id now)
unfolding claim_step
claim_step-StepKeys run_id name owner_id now = Along-transaction Keeps-steps _ (
    Along-then Keeps-steps (current_status run_id) _ (Along-current_status Keeps-steps run_id) (
      Along-ask Keeps-steps (find_step run_id name) (claim_row run_id name owner_id now)
        λ db. claim_row-StepKeys run_id name owner_id now db (find_step run_id name db) refl))

pub complete_step-StepKeys :
    (run_id : Uuid) (name : String) (owner_id : Uuid) (v : Value) (now : Clock)
    → Along (Keeps StepKeys) (complete_step run_id name owner_id v now)
unfolding complete_step
complete_step-StepKeys run_id name owner_id v now = search key_rules depth 8

pub recover_steps-StepKeys :
    (run_id : Uuid) (now : Clock) → Along (Keeps StepKeys) (recover_steps run_id now)
unfolding recover_steps
recover_steps-StepKeys run_id now = search key_rules depth 8

Keeps-timers : Preorder (Keeps TimerKeys)
Keeps-timers = keeps TimerKeys

own_timer :
    (i : Uuid) (n : String) (w : ℕ) (j : Uuid) (m : String)
    → is_timer j m (new_timer i n w) ≡ true
    → (i ≡ j) × (n ≡ m)
own_timer i n w j m e =
    ((nat_beq_iff i j).0 (ground (arith, e)), (str_eq_iff n m).0 (ground (arith, e)))

saved_or_new-TimerKeys :
    (run_id : Uuid) (name : String) (w : ℕ) (db : Db) (o : Option TimerRow)
    → find_timer run_id name db ≡ o
    → TimerKeys db
    → TimerKeys (saved_or_new run_id name w o db).1
unfolding insert_timer find_timer
saved_or_new-TimerKeys run_id name w db none e u = elim (Bool-cases (fits_check name)) [
  | inl fits ↦ rw fits (record {
    at =
        pushed is_timer run_id name (new_timer run_id name w) db.timers (own_timer run_id name w) e
          u.at;
  })
  | inr long ↦ rw long u
]
saved_or_new-TimerKeys run_id name w db (some t) e u = u

schedule-TimerKeys :
    (run_id : Uuid) (name : String) (w : ℕ)
    → Along (Keeps TimerKeys) (query (find_timer run_id name) >>= saved_or_new run_id name w)
schedule-TimerKeys run_id name w =
    Along-ask Keeps-timers (find_timer run_id name) (saved_or_new run_id name w)
      λ db. saved_or_new-TimerKeys run_id name w db (find_timer run_id name db) refl

pub schedule_timer-TimerKeys :
    (run_id : Uuid) (name : String) (delay : Duration) (now : Clock)
    → Along (Keeps TimerKeys) (schedule_timer run_id name delay now)
unfolding schedule_timer
schedule_timer-TimerKeys run_id name delay now =
    search (read_rules, Keeps-timers, schedule-TimerKeys) depth 10

pub complete_timer-TimerKeys :
    (run_id : Uuid) (name : String) (now : Clock)
    → Along (Keeps TimerKeys) (complete_timer run_id name now)
unfolding complete_timer
complete_timer-TimerKeys run_id name now = record {
  at = λ db u. record {
    at = λ i n.
        Unique-update (is_timer i n) (is_timer run_id name) (finish_timer now) db.timers
          (λ x. ground arith) (u.at i n);
  };
}
