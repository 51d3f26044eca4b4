-- ===== src/Calls/Claims.antt =====
-- The claims of named steps in src/db.rs, over whole histories.
use zincir.Prelude.{
  ◌≡◌, sym, subst, Bool, true, false, ◌&&◌, some, List, [], ◌∷◌, String, ◌==◌, str_eq, arith, All,
}
use zincir.Types.{Uuid, err, invalid_state, step_running}
use zincir.Tables.{RunRow, StepRow, Db, Clock, Tx, find_run}
use zincir.Tables.Along.{Along}
use zincir.Tables.Yields.{Keeps}
use zincir.Store.{current_status}
use zincir.Sql.{exists}
use zincir.Sql.Laws.{Unique}
use zincir.Steps.{is_step, find_step, claim_step, claim_existing, is_claimed_by}
use zincir.Steps.Held.{
  IsHeld, strays, claim_step-IsHeld, complete_step-IsHeld, recover_steps-IsHeld, found_held,
  claimed-IsHeld,
}
use zincir.Calls
use zincir.Calls.{Call, execute, step, run_calls}
use zincir.Calls.History.{run_calls-Grows}
use zincir.Calls.Invariant.{
  all_steps, effect-Keeps, steps-NotRuns, steps-NotEvents, steps-NotCheckpoints, steps-NotTimers,
}
use zincir.Calls.Frame.{execute-Same}
use zincir.Calls.Frame.Writes.{Same}

-- The calls that end a claim: its owner's completion of the step, and the recovery of the run's steps.
abbrev pub ends_claim : Uuid → String → Uuid → Call → Bool
ends_claim run_id name owner (Calls.complete_step i n o v) =
    i == run_id && (str_eq n name && o == owner)
ends_claim run_id name owner (Calls.recover_steps i) = i == run_id
ends_claim run_id name owner _ = false

module _ (run_id : Uuid) (name : String) (owner : Uuid) where
  Same-IsHeld :
      {A : Type 0} (m : Tx A)
      → Along (Same all_steps) m
      → Along (Keeps (IsHeld run_id name owner)) m
  Same-IsHeld m k = record {
    at = λ db h. record {
      stored = subst (λ ss. exists (is_step run_id name) ss ≡ true) (sym (k.at db)) h.stored;
      held = subst (λ ss. exists (strays run_id name owner) ss ≡ false) (sym (k.at db)) h.held;
    };
  }

  execute-IsHeld :
      (c : Call) (now : Clock)
      → ends_claim run_id name owner c ≡ false
      → Along (Keeps (IsHeld run_id name owner)) (execute c now)
  unfolding execute
  execute-IsHeld (Calls.claim_step i n o) now e =
      effect-Keeps (IsHeld run_id name owner) _ (claim_step-IsHeld run_id name owner i n o now)
  execute-IsHeld (Calls.complete_step i n o v) now e =
      complete_step-IsHeld run_id name owner i n o v now e
  execute-IsHeld (Calls.recover_steps i) now e = recover_steps-IsHeld run_id name owner i now e
  execute-IsHeld c now e = Same-IsHeld (execute c now) (
      execute-Same all_steps c now
        (search (steps-NotRuns, steps-NotEvents, steps-NotCheckpoints, steps-NotTimers)))

  run_calls-IsHeld :
      (db : Db) (cs : List (Clock × Call))
      → All (λ c. ends_claim run_id name owner c.1 ≡ false) cs
      → IsHeld run_id name owner db
      → IsHeld run_id name owner (run_calls db cs)
  unfolding run_calls step
  run_calls-IsHeld db [] a h = h
  run_calls-IsHeld db ((now, c) ∷ cs) a h =
      run_calls-IsHeld (step db (now, c)) cs a.1 ((execute-IsHeld c now a.0).at db h)

  claim_held :
      (o : Uuid) (later : Clock) (db : Db) (r : RunRow)
      → find_run run_id db ≡ some r
      → IsHeld run_id name owner db
      → claim_step run_id name o later db ≡ (err (invalid_state (step_running name run_id)), db)
  unfolding claim_step claim_existing current_status
  claim_held o later db r known h =
      let (s, e, c) = found_held run_id name owner db h in ground (arith, known, e, c)

-- While an owner holds a step of a stored run, with the key (run, name) unique in the table, every claim
-- of the step, by whatever workflow, is refused as running and changes nothing, whatever calls come
-- between, short of the owner's completion of the step and of a recovery of the run's steps.
pub claim_step-exclusive :
    (run_id : Uuid) (name : String) (owner other : Uuid) (later : Clock) (db : Db) (r : RunRow)
    (s : StepRow) (cs : List (Clock × Call))
    → Unique (is_step run_id name) db.steps
    → find_run run_id db ≡ some r
    → find_step run_id name db ≡ some s
    → is_claimed_by owner s ≡ true
    → All (λ c. ends_claim run_id name owner c.1 ≡ false) cs
    → claim_step run_id name other later (run_calls db cs)
      ≡ (err (invalid_state (step_running name run_id)), run_calls db cs)
unfolding find_run
claim_step-exclusive run_id name owner other later db r s cs u known found claimed quiet =
    let (r', known', _) = (run_calls-Grows db cs).runs run_id r known in
    claim_held run_id name owner other later (run_calls db cs) r' known' (
      run_calls-IsHeld run_id name owner db cs quiet
        (claimed-IsHeld run_id name owner db s u found claimed))
