-- ===== src/Calls/Final.antt =====
-- What becomes of a run of src/db.rs that has ended, over whole histories.
pub mod Kept
pub mod Recovered
use zincir.Prelude.{
  ◌≡◌, refl, sym, ap, ◌∙◌, subst, Bool, true, false, not, Option, none, some, List, [], ◌∷◌, ◌==◌,
  arith, Bool-cases, inl, inr, nat_beq_iff,
}
use zincir.Types.{
  Uuid, RunStatus, RunLease, Result, ok, err, Error, invalid_state, not_found, terminal_run,
}
use zincir.Sql.{exists, first}
use zincir.Sql.Laws.{exists-Unique, exists-first, holds}
use zincir.Tables.{RunRow, Db, Clock, Tx, pure, find_run}
use zincir.Tables.Along.{Along, Along-then, Along-pure}
use zincir.Tables.Yields.{Keeps, keeps}
use zincir.Store.{current_status}
use zincir.Lease
use zincir.Lease.{is_terminal, claim_run_lease, grant_lease, acquire_run_lease, recover_run_lease}
use zincir.Lease.Durations.{Duration, duration_to_millis}
use zincir.Lease.Refusals.{Refused}
use zincir.Lease.Final.{IsFinal, is_closed, reopens, owns_run-IsFinal, found_closed}
use zincir.Valid.Runs.{Distinct, Distinct-Unique}
use zincir.Calls
use zincir.Calls.{Call, execute, step, run_calls, effect}
use zincir.Calls.Frame.{execute-Same}
use zincir.Calls.Frame.Writes.{
  all_runs, runs-NotEvents, runs-NotCheckpoints, runs-NotSteps, runs-NotTimers,
}
use zincir.Calls.Atomic.{claim_run_lease-Atomic}
use zincir.Calls.Fencing.{shown_lease, unowned-Refused}
use zincir.Calls.Final.Kept.{
  Keeps-SameRuns, claim_other, complete_other, update_other, renew_kept, release_kept, create_kept,
}
use zincir.Calls.Final.Recovered.{claim_next_kept}

module _ (id : Uuid) (s : RunStatus) (terminal : is_terminal s ≡ true) where
  -- A claim of the run is refused, by recovery too.
  module _ (owner_id : Uuid) (ttl : Duration) (recover : Bool) (now : Clock) (db : Db)
      (h : IsFinal id s db) where
    Refused-with :
        {e : Error}
        → (claim_run_lease id owner_id ttl recover now db).0 ≡ err e
        → Refused (claim_run_lease id owner_id ttl recover now) db
    Refused-with {e = e} q =
        (e, ground (arith, q, (claim_run_lease-Atomic id owner_id ttl recover now db).at e q))

    Refused-ttl :
        (o : Result _)
        → duration_to_millis ttl ≡ o
        → Refused (claim_run_lease id owner_id ttl recover now) db
    unfolding claim_run_lease grant_lease current_status find_run
    Refused-ttl (err x) q = Refused-with {e = x} (ground (arith, q))
    Refused-ttl (ok t) q =
        let (r, e, c) = found_closed id s db.agent_runs h.stored h.closed in
        Refused-with {e = invalid_state (terminal_run id)} (ground (arith, q, e, c, terminal))

    pub claim_final-Refused : Refused (claim_run_lease id owner_id ttl recover now) db
    claim_final-Refused = Refused-ttl (duration_to_millis ttl) refl

  Refused-kept :
      {A : Type 0} (m : Tx A) (db : Db) → Refused m db → IsFinal id s db → IsFinal id s (m db).1
  Refused-kept m db (e, q) h = subst (IsFinal id s) (sym (ap (λ (x : Result _ × Db). x.1) q)) h

  claim_kept :
      (run_id owner_id : Uuid) (ttl : Duration) (recover : Bool) (now : Clock)
      → Along (Keeps (IsFinal id s)) (claim_run_lease run_id owner_id ttl recover now)
  claim_kept run_id owner_id ttl recover now = elim (Bool-cases (run_id == id)) [
    | inl here ↦ record {
      at = λ db h.
          Refused-kept (claim_run_lease run_id owner_id ttl recover now) db
            (subst (λ k. Refused (claim_run_lease k owner_id ttl recover now) db)
              (sym ((nat_beq_iff run_id id).0 here))
              (claim_final-Refused owner_id ttl recover now db h))
            h;
    }
    | inr there ↦ claim_other id s run_id there owner_id ttl recover now
  ]

  -- A call under a lease of the run is refused.
  pub shown-Refused :
      (c : Call) (lease : RunLease) (now : Clock) (db : Db)
      → shown_lease c ≡ some lease
      → (lease.run_id == id) ≡ true
      → IsFinal id s db
      → Refused (execute c now) db
  shown-Refused c lease now db shown here h =
      unowned-Refused c lease now db shown
        (owns_run-IsFinal id s lease db ((nat_beq_iff lease.run_id id).0 here) h)

  shown_kept :
      (c : Call) (lease : RunLease) (now : Clock)
      → shown_lease c ≡ some lease
      → ((lease.run_id == id) ≡ false → Along (Keeps (IsFinal id s)) (execute c now))
      → Along (Keeps (IsFinal id s)) (execute c now)
  shown_kept c lease now shown k = elim (Bool-cases (lease.run_id == id)) [
    | inl here ↦ record {
      at = λ db h. Refused-kept (execute c now) db (shown-Refused c lease now db shown here h) h;
    }
    | inr there ↦ k there
  ]

  effect_kept :
      {A : Type 0} (m : Tx A)
      → Along (Keeps (IsFinal id s)) m
      → Along (Keeps (IsFinal id s)) (effect m)
  effect_kept m k =
      Along-then (keeps (IsFinal id s)) m (pure tt) k (Along-pure (keeps (IsFinal id s)) tt)

  execute_kept : (c : Call) (now : Clock) → Along (Keeps (IsFinal id s)) (execute c now)
  unfolding execute acquire_run_lease recover_run_lease
  execute_kept (Calls.create_run new parent role provider config) now =
      effect_kept _ (create_kept id s new parent role provider config now)
  execute_kept (Calls.acquire_run_lease run_id owner_id ttl) now =
      effect_kept _ (claim_kept run_id owner_id ttl false now)
  execute_kept (Calls.recover_run_lease run_id owner_id ttl) now =
      effect_kept _ (claim_kept run_id owner_id ttl true now)
  execute_kept (Calls.claim_next_recoverable_run owner_id ttl) now =
      effect_kept _ (claim_next_kept id s terminal owner_id ttl now)
  execute_kept (Calls.renew_run_lease lease ttl) now = effect_kept _ (renew_kept id s lease ttl now)
  execute_kept (Calls.release_run_lease lease) now = release_kept id s lease now
  execute_kept (Calls.complete_run_with_lease lease) now =
      shown_kept (Calls.complete_run_with_lease lease) lease now refl
        (complete_other id s lease now)
  execute_kept (Calls.update_run_status_with_lease lease) now =
      shown_kept (Calls.update_run_status_with_lease lease) lease now refl
        (update_other id s lease now)
  execute_kept c now = Keeps-SameRuns id s (execute c now) (
      execute-Same all_runs c now
        (search (runs-NotEvents, runs-NotCheckpoints, runs-NotSteps, runs-NotTimers)))

  pub run_calls-IsFinal :
      (db : Db) (cs : List (Clock × Call)) → IsFinal id s db → IsFinal id s (run_calls db cs)
  unfolding run_calls step
  run_calls-IsFinal db [] h = h
  run_calls-IsFinal db ((now, c) ∷ cs) h =
      run_calls-IsFinal (step db (now, c)) cs ((execute_kept c now).at db h)

  -- A run of distinct ids that has the status and no owner.
  pub ended-IsFinal :
      (db : Db) (r : RunRow)
      → Distinct db.agent_runs
      → find_run id db ≡ some r
      → is_closed s r ≡ true
      → IsFinal id s db
  unfolding find_run
  ended-IsFinal db r d e c = record {
    stored = exists-first (λ x. x.id == id) db.agent_runs r e;
    closed =
        exists-Unique (λ x. x.id == id) _ db.agent_runs (Distinct-Unique id db.agent_runs d)
        ∙ ap (holds (λ x. not (is_closed s x))) e
        ∙ ground (arith, c);
  }
