-- ===== src/Steps/Held.antt =====
-- A step of src/db.rs that an owner has claimed and not completed: what keeps the claim.
use zincir.Prelude.{
  ◌≡◌, refl, ap, ◌∙◌, Bool, true, false, not, ◌&&◌, Option, none, some, List, [], ◌∷◌, ◌==◌, String,
  str_eq, str_eq_iff, nat_beq_iff, arith, Bool-cases, inl, inr,
}
use zincir.Json.{Value}
use zincir.Types.{Uuid, StepStatus, done, active}
use zincir.Sql.{exists, first, where_set}
use zincir.Sql.Laws.{
  first-none-exists, exists-update, exists-update_none, exists-first, exists-Unique, Unique, holds,
}
use zincir.Tables.{StepRow, Db, Clock}
use zincir.Tables.Along.{Along, Preorder, Along-transaction, Along-then, Along-ask}
use zincir.Tables.Yields.{Keeps, keeps}
use zincir.Store.{current_status}
use zincir.Store.Reads.{read_rules, Along-current_status}
use zincir.Steps.{
  is_step, is_active, is_waiting, is_claimed_by, find_step, update_steps, start_step, new_step,
  restart_step, claim_existing, insert_step, claim_row, claim_step, finish_step, complete_step,
  free_step, recover_steps, fits_check,
}

module _ (run_id : Uuid) (name : String) (owner : Uuid) where
  -- A row of the step that the owner does not hold.
  abbrev pub strays : StepRow → Bool
  strays s = is_step run_id name s && not (is_claimed_by owner s)

  pub record IsHeld (db : Db) : Type 0 where
    pub stored : exists (is_step run_id name) db.steps ≡ true
    pub held : exists strays db.steps ≡ false

  -- A change of rows that takes the step from nobody.
  record IsSparing (p : StepRow → Bool) (f : StepRow → StepRow) : Type 0 where
    same_key : (s : StepRow) → is_step run_id name (where_set p f s) ≡ is_step run_id name s
    spares : (s : StepRow) → strays (where_set p f s) ≡ true → strays s ≡ true

  Keeps-IsHeld : Preorder (Keeps IsHeld)
  Keeps-IsHeld = keeps IsHeld

  change_steps-IsHeld :
      (p : StepRow → Bool) (f : StepRow → StepRow)
      → IsSparing p f
      → Along (Keeps IsHeld) (update_steps p f)
  unfolding update_steps
  change_steps-IsHeld p f k = record {
    at = λ db h. record {
      stored = exists-update (is_step run_id name) p f db.steps k.same_key ∙ h.stored;
      held = exists-update_none strays p f db.steps k.spares h.held;
    };
  }

  start-IsSparing :
      (i : Uuid) (n : String) (o : Uuid) (now : Clock)
      → IsSparing (λ s. is_step i n s && is_waiting s.status) (start_step o now)
  start-IsSparing i n o now = record { same_key = λ s. ground arith; spares = λ s h. ground arith }

  finish-IsSparing :
      (i : Uuid) (n : String) (o : Uuid) (v : Value) (now : Clock)
      → (i == run_id && (str_eq n name && o == owner)) ≡ false
      → IsSparing (λ s. is_step i n s && is_claimed_by o s) (finish_step v now)
  finish-IsSparing i n o v now other = record {
    same_key = λ s. ground arith;
    spares = λ s h.
        ground (arith, other, str_eq_iff n name, str_eq_iff s.name n, str_eq_iff s.name name);
  }

  free-IsSparing :
      (i : Uuid)
      → (i == run_id) ≡ false
      → IsSparing (λ s. s.run_id == i && is_active s.status) free_step
  free-IsSparing i other = record {
    same_key = λ s. ground arith;
    spares = λ s h. ground (arith, other);
  }

  inserted :
      (i : Uuid) (n : String) (o : Uuid) (now : Clock) (db : Db)
      → first (is_step i n) db.steps ≡ none
      → IsHeld db
      → IsHeld (record db { steps = new_step i n o now ∷ db.steps })
  unfolding exists
  inserted i n o now db free h = elim (Bool-cases (i == run_id && str_eq n name)) [
    | inl here ↦
        absurd
          (clash ((nat_beq_iff i run_id).0 (ground arith)) ((str_eq_iff n name).0 (ground arith)))
    | inr there ↦ record {
      stored = ground (arith, there, h.stored);
      held = ground (arith, there, h.held);
    }
  ]
    where
      clash : i ≡ run_id → n ≡ name → ⊥
      clash p q = cc (
        h.stored,
        ap (λ k. exists (is_step k n) db.steps) p,
        ap (λ k. exists (is_step run_id k) db.steps) q,
        first-none-exists (is_step i n) db.steps free,
      )

  claim_existing-IsHeld :
      (i : Uuid) (n : String) (o : Uuid) (now : Clock) (s : StepStatus) (v : Option Value)
      → Along (Keeps IsHeld) (claim_existing i n o now s v)
  unfolding claim_existing restart_step
  claim_existing-IsHeld i n o now done (some v) = search (read_rules, Keeps-IsHeld)
  claim_existing-IsHeld i n o now active v = search (read_rules, Keeps-IsHeld)
  claim_existing-IsHeld i n o now _ _ =
      search (read_rules, Keeps-IsHeld, change_steps-IsHeld, start-IsSparing)

  claim_row-IsHeld :
      (i : Uuid) (n : String) (o : Uuid) (now : Clock) (db : Db) (r : Option StepRow)
      → find_step i n db ≡ r
      → IsHeld db
      → IsHeld (claim_row i n o now r db).1
  unfolding insert_step find_step
  claim_row-IsHeld i n o now db none e h = elim (Bool-cases (fits_check n)) [
    | inl fits ↦ rw fits (inserted i n o now db e h)
    | inr long ↦ rw long h
  ]
  claim_row-IsHeld i n o now db (some s) e h =
      (claim_existing-IsHeld i n o now s.status s.result).at db h

  pub claim_step-IsHeld :
      (i : Uuid) (n : String) (o : Uuid) (now : Clock) → Along (Keeps IsHeld) (claim_step i n o now)
  unfolding claim_step
  claim_step-IsHeld i n o now = Along-transaction Keeps-IsHeld _ (
      Along-then Keeps-IsHeld (current_status i) _ (Along-current_status Keeps-IsHeld i) (
        Along-ask Keeps-IsHeld (find_step i n) (claim_row i n o now)
          λ db. claim_row-IsHeld i n o now db (find_step i n db) refl))

  pub complete_step-IsHeld :
      (i : Uuid) (n : String) (o : Uuid) (v : Value) (now : Clock)
      → (i == run_id && (str_eq n name && o == owner)) ≡ false
      → Along (Keeps IsHeld) (complete_step i n o v now)
  unfolding complete_step
  complete_step-IsHeld i n o v now other =
      search (read_rules, Keeps-IsHeld, change_steps-IsHeld, finish-IsSparing) depth 8

  pub recover_steps-IsHeld :
      (i : Uuid) (now : Clock) → (i == run_id) ≡ false → Along (Keeps IsHeld) (recover_steps i now)
  unfolding recover_steps
  recover_steps-IsHeld i now other =
      search (read_rules, Keeps-IsHeld, change_steps-IsHeld, free-IsSparing) depth 8

  -- The row of the step is held.
  held_row :
      (ss : List StepRow)
      → exists (is_step run_id name) ss ≡ true
      → exists strays ss ≡ false
      → (s : StepRow) × (first (is_step run_id name) ss ≡ some s) × (is_claimed_by owner s ≡ true)
  unfolding exists first
  held_row [] e h = cc
  held_row (s ∷ ss) e h = elim (Bool-cases (is_step run_id name s)) [
    | inl here ↦ (s, rw here, ground (arith, here, h))
    | inr there ↦ let (x, q, k) = held_row ss (rw there at e) (rw there at h) in (x, rw there q, k)
  ]

  pub found_held :
      (db : Db)
      → IsHeld db
      → (s : StepRow) × (find_step run_id name db ≡ some s) × (is_claimed_by owner s ≡ true)
  unfolding find_step
  found_held db h = held_row db.steps h.stored h.held

  -- With the key unique, a step that is found claimed is held.
  pub claimed-IsHeld :
      (db : Db) (s : StepRow)
      → Unique (is_step run_id name) db.steps
      → find_step run_id name db ≡ some s
      → is_claimed_by owner s ≡ true
      → IsHeld db
  unfolding find_step
  claimed-IsHeld db s u e c = record {
    stored = exists-first (is_step run_id name) db.steps s e;
    held =
        exists-Unique (is_step run_id name) (λ x. not (is_claimed_by owner x)) db.steps u
        ∙ ap (holds (λ x. not (is_claimed_by owner x))) e
        ∙ ground (arith, c);
  }
