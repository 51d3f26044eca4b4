-- ===== src/Calls/Atomic.antt =====
-- A call that fails leaves no trace: the transactions of src/db.rs over all its calls.
use zincir.Prelude.{
  ◌≡◌, refl, sym, ◌∙◌, Bool, Option, none, some, ◌==◌, ◌&&◌, Bool-cases, inl, inr, String,
}
use zincir.Json.{Value}
use zincir.Types.{Uuid, RunLease, Error, err, ok, Result}
use zincir.Sql.{exists}
use zincir.Sql.Laws.{count-Unique, count_none, Unique, exists-Unique, update_none}
use zincir.Tables.{
  Db, Clock, Tx, lift, or_raise, has_run, transaction, finish_transaction, ◌>>=◌, pure, update_runs,
}
use zincir.Valid.Runs.{Distinct, Distinct-Unique}
use zincir.Lease
use zincir.Lease.{is_owned, clear_lease}
use zincir.Lease.Durations.{Duration}
use zincir.Agent.{claim_next_recoverable, context_of}
use zincir.Runs
use zincir.Runs.{has_parent}
use zincir.Events
use zincir.Checkpoints
use zincir.Steps
use zincir.Timers
use zincir.Calls
use zincir.Calls.{Call, execute, effect}

-- A failure leaves the database as it was.
pub record Atomic {A : Type 0} (m : Tx A) (db : Db) : Type 0 where
  pub at : (e : Error) → (m db).0 ≡ err e → (m db).1 ≡ db

module _ {A : Type 0} where
  finished :
      (db after : Db) (r : Result A) (e : Error)
      → (finish_transaction db (r, after)).0 ≡ err e
      → (finish_transaction db (r, after)).1 ≡ db
  finished db after (ok a) e q = cc
  finished db after (err e') e q = refl

  Atomic-transaction : (m : Tx A) (db : Db) → Atomic (transaction m) db
  Atomic-transaction m db = record { at = finished db (m db).1 (m db).0 }

  Atomic-lift :
      {B : Type 0} (r : Result B) (f : B → Tx A) (db : Db)
      → ((b : B) → Atomic (f b) db)
      → Atomic (lift r >>= f) db
  Atomic-lift (ok b) f db h = h b
  Atomic-lift (err e') f db h = record { at = λ e q. refl }

  Atomic-or_raise :
      {B : Type 0} (o : Option B) (e : Error) (f : B → Tx A) (db : Db)
      → ((b : B) → Atomic (f b) db)
      → Atomic (or_raise o e >>= f) db
  Atomic-or_raise none e' f db h = record { at = λ e q. refl }
  Atomic-or_raise (some b) e' f db h = h b

  effected :
      (db after : Db) (r : Result A)
      → ((e : Error) → r ≡ err e → after ≡ db)
      → (e : Error) → (effect (λ _. (r, after)) db).0 ≡ err e
      → (effect (λ _. (r, after)) db).1 ≡ db
  effected db after (ok a) h e q = cc
  effected db after (err e') h e q = h e' refl

  Atomic-effect : (m : Tx A) (db : Db) → Atomic m db → Atomic (effect m) db
  Atomic-effect m db a = record { at = effected db (m db).1 (m db).0 a.at }

module _ {A B : Type 0} (f : A → B) where
  passed_on :
      (db after : Db) (r : Result A)
      → ((e : Error) → r ≡ err e → after ≡ db)
      → (e : Error) → (((λ _. (r, after)) >>= λ a. pure (f a)) db).0 ≡ err e
      → (((λ _. (r, after)) >>= λ a. pure (f a)) db).1 ≡ db
  passed_on db after (ok a) h e q = cc
  passed_on db after (err e') h e q = h e' refl

  Atomic-map : (m : Tx A) (db : Db) → Atomic m db → Atomic (m >>= λ a. pure (f a)) db
  Atomic-map m db a = record { at = passed_on db (m db).1 (m db).0 a.at }

ruleset atomic_rules = (Atomic-transaction, Atomic-lift, Atomic-or_raise, Atomic-effect)

pub claim_next_recoverable-Atomic :
    (owner_id : Uuid) (ttl : Duration) (now : Clock) (db : Db)
    → Atomic (claim_next_recoverable owner_id ttl now) db
unfolding claim_next_recoverable Lease.claim_next_recoverable_run
claim_next_recoverable-Atomic owner_id ttl now db =
    search (atomic_rules, Atomic-map (context_of ttl))

pub claim_run_lease-Atomic :
    (run_id owner_id : Uuid) (ttl : Duration) (recover : Bool) (now : Clock) (db : Db)
    → Atomic (Lease.claim_run_lease run_id owner_id ttl recover now) db
unfolding Lease.claim_run_lease
claim_run_lease-Atomic run_id owner_id ttl recover now db = search atomic_rules

create_run-Atomic :
    (id : Uuid) (parent : Option Uuid) (role provider : String) (config : Value) (now : Clock)
    (db : Db)
    → Atomic (Runs.create_run id parent role provider config now) db
unfolding Runs.create_run has_run
create_run-Atomic id parent role provider config now db = record {
  at = λ e. elim (Bool-cases (exists (λ r. r.id == id) db.agent_runs)) [
    | inl taken ↦ rw taken (λ q. refl)
    | inr free ↦ rw free (elim (Bool-cases (has_parent id parent db)) [
      | inl known ↦ rw known (λ q. cc)
      | inr orphan ↦ rw orphan (λ q. refl)
    ])
  ];
}

release_run_lease-Atomic :
    (lease : RunLease) (now : Clock) (db : Db)
    → Distinct db.agent_runs
    → Atomic (Lease.release_run_lease lease now) db
unfolding Lease.release_run_lease update_runs
release_run_lease-Atomic lease now db d =
    elim (Bool-cases (exists (λ r. r.id == lease.run_id && is_owned lease r) db.agent_runs)) [
      | inl owned ↦ record {
        at = λ e.
            rw
              (
                count-Unique (λ r. r.id == lease.run_id) (is_owned lease) db.agent_runs u,
                sym (exists-Unique (λ r. r.id == lease.run_id) (is_owned lease) db.agent_runs u)
                    ∙ owned,
              )
              (λ q. cc);
      }
      | inr lost ↦ record {
        at = λ e.
            rw
              (
                count_none (λ r. r.id == lease.run_id && is_owned lease r) db.agent_runs lost,
                update_none (λ r. r.id == lease.run_id && is_owned lease r) (clear_lease now)
                    db.agent_runs lost,
              )
              (λ q. refl);
      }
    ]
  where
    u : Unique (λ r. r.id == lease.run_id) db.agent_runs
    u = Distinct-Unique lease.run_id db.agent_runs d

schedule_timer-Atomic :
    (run_id : Uuid) (name : String) (delay : Duration) (now : Clock) (db : Db)
    → Atomic (Timers.schedule_timer run_id name delay now) db
unfolding Timers.schedule_timer
schedule_timer-Atomic run_id name delay now db = search atomic_rules

execute_call-Atomic :
    (c : Call) (now : Clock) (db : Db) → Distinct db.agent_runs → Atomic (execute c now) db
unfolding execute Lease.acquire_run_lease Lease.recover_run_lease Lease.claim_next_recoverable_run
    Lease.renew_run_lease Lease.complete_run_with_lease Lease.update_run_status_with_lease
    Events.append_event_with_lease Events.append_llm_call_with_tool_intents_with_lease
    Events.record_tool_result_with_lease Checkpoints.propose_checkpoint_with_lease
    Checkpoints.decide_checkpoint_with_lease Steps.claim_step Steps.complete_step
    Steps.recover_steps Timers.complete_timer
execute_call-Atomic (Calls.release_run_lease l) now db d = release_run_lease-Atomic l now db d
execute_call-Atomic (Calls.complete_timer run_id name) now db d = record { at = λ e q. cc }
execute_call-Atomic (Calls.create_run id parent role provider config) now db d =
    Atomic-effect _ db (create_run-Atomic id parent role provider config now db)
execute_call-Atomic _ now db d =
    search (atomic_rules, claim_run_lease-Atomic, schedule_timer-Atomic)

-- On a database whose runs have distinct ids, a call that returns an error leaves the database as it
-- was, whatever it did before it failed.
pub execute_err :
    (c : Call) (now : Clock) (db : Db) (e : Error)
    → Distinct db.agent_runs
    → (execute c now db).0 ≡ err e
    → (execute c now db).1 ≡ db
execute_err c now db e d = (execute_call-Atomic c now db d).at e
