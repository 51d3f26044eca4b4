-- ===== src/Grows/Runs.antt =====
-- The calls on runs and leases: no run goes away, and no epoch falls.
use zincir.Prelude.{
  ℕ, ◌≤◌, ◌≡◌, refl, ap, ◌∙◌, Bool, true, false, Option, none, some, List, ◌∷◌, String, ◌==◌, arith,
  Bool-cases, inl, inr,
}
use zincir.Json.{Value}
use zincir.Types.{Uuid, RunStatus, RunLease}
use zincir.Sql.{first, exists, update, where_set}
use zincir.Sql.Laws.{first-update, exists-first, set_found}
use zincir.Tables.{RunRow, Db, Clock, has_run, update_runs, update_run_returning}
use zincir.Tables.Along.{Along}
use zincir.Store.Reads.{read_rules}
use zincir.Runs.{create_run, new_run, has_parent}
use zincir.Lease.Durations.{Duration}
use zincir.Lease.{
  claim_found, claim_run_lease, grant_lease, acquire_run_lease, recover_run_lease, lease_to,
  start_running, note_start, claim_candidate, claim_next_recoverable_run, renew_run_lease,
  expire_at, release_run_lease, clear_lease, change_status, set_status,
  update_run_status_with_lease, update_run_status, complete_run_with_lease, complete_row,
}
use zincir.Grows.Rows.{Grows, RunsGrow, grows, Extends-refl, TimersGrow-refl}
use zincir.Valid.Runs.{Distinct, Distinct-update}
use zincir.Grows.Log.{record_transition-Grows}

-- A change of a row that keeps its id and does not lower its epoch.
pub record IsForward (f : RunRow → RunRow) : Type 0 where
  pub id : (r : RunRow) → (f r).id ≡ r.id
  pub epoch : (r : RunRow) → r.lease_epoch ≤ (f r).lease_epoch

pub Grows-runs :
    (db : Db) (rs : List RunRow)
    → RunsGrow db.agent_runs rs
    → (Distinct db.agent_runs → Distinct rs)
    → Grows db (record db { agent_runs = rs })
Grows-runs db rs x keep = record {
  log = Extends-refl db.events;
  runs = x;
  steps = λ run_id name s e _. e;
  timers = TimersGrow-refl db.timers;
  decisions = λ id c e _. e;
  distinct = keep;
  closed = λ k c. c;
}

keeps_id :
    (p : RunRow → Bool) (f : RunRow → RunRow)
    → IsForward f
    → (id : Uuid) (x : RunRow) → ((where_set p f x).id == id) ≡ (x.id == id)
keeps_id p f fw id x = ground (arith, fw.id x)

RunsGrow-update :
    (p : RunRow → Bool) (f : RunRow → RunRow) (rs : List RunRow)
    → IsForward f
    → RunsGrow rs (update p f rs)
RunsGrow-update p f rs fw id r e = (
  where_set p f r,
  first-update (λ x. x.id == id) p f rs (keeps_id p f fw id) ∙ ap (set_found p f) e,
  ground (arith, fw.epoch r),
)

update_runs-Grows :
    (p : RunRow → Bool) (f : RunRow → RunRow) → IsForward f → Along Grows (update_runs p f)
unfolding update_runs
update_runs-Grows p f fw = record {
  at = λ db.
      Grows-runs db (update p f db.agent_runs) (RunsGrow-update p f db.agent_runs fw)
        (Distinct-update p f db.agent_runs fw.id);
}

update_run_returning-Grows :
    (p : RunRow → Bool) (f : RunRow → RunRow) → IsForward f → Along Grows (update_run_returning p f)
unfolding update_run_returning
update_run_returning-Grows p f fw = record {
  at = λ db.
      Grows-runs db (update p f db.agent_runs) (RunsGrow-update p f db.agent_runs fw)
        (Distinct-update p f db.agent_runs fw.id);
}

lease_to-IsForward : (owner t : ℕ) (now : Clock) → IsForward (lease_to owner t now)
lease_to-IsForward owner t now = record { id = λ r. refl; epoch = λ r. omega arith }

restart-IsForward :
    (owner t : ℕ) (now : Clock) → IsForward (λ r. start_running (lease_to owner t now r))
restart-IsForward owner t now = record { id = λ r. refl; epoch = λ r. omega arith }

expire_at-IsForward : (t : ℕ) (now : Clock) → IsForward (expire_at t now)
expire_at-IsForward t now = record { id = λ r. refl; epoch = λ r. omega arith }

clear_lease-IsForward : (now : Clock) → IsForward (clear_lease now)
clear_lease-IsForward now = record { id = λ r. refl; epoch = λ r. omega arith }

set_status-IsForward : (status : RunStatus) (now : Clock) → IsForward (set_status status now)
set_status-IsForward status now = record { id = λ r. refl; epoch = λ r. omega arith }

complete_row-IsForward : (now : Clock) → IsForward (complete_row now)
complete_row-IsForward now = record { id = λ r. refl; epoch = λ r. omega arith }

ruleset run_rules = (
  read_rules, grows, update_runs-Grows, update_run_returning-Grows, lease_to-IsForward,
  restart-IsForward, expire_at-IsForward, clear_lease-IsForward, set_status-IsForward,
  complete_row-IsForward, record_transition-Grows,
)

insert_run-RunsGrow :
    (row : RunRow) (rs : List RunRow)
    → exists (λ x. x.id == row.id) rs ≡ false
    → RunsGrow rs (row ∷ rs)
unfolding first
insert_run-RunsGrow row rs fresh id r e =
    (r, ground (arith, exists-first (λ x. x.id == row.id) rs r), omega arith)

pub create_run-Grows :
    (id : Uuid) (parent : Option Uuid) (role provider : String) (config : Value) (now : Clock)
    → Along Grows (create_run id parent role provider config now)
unfolding create_run has_run
create_run-Grows id parent role provider config now = record {
  at = λ db. elim (Bool-cases (exists (λ r. r.id == id) db.agent_runs)) [
    | inl taken ↦ rw taken (grows.reflexive db)
    | inr free ↦ rw free (elim (Bool-cases (has_parent id parent db)) [
      | inl known ↦ rw known (
          Grows-runs db _
            (insert_run-RunsGrow (new_run id parent role provider config now) db.agent_runs free)
            (λ d. (free, d)))
      | inr orphan ↦ rw orphan (grows.reflexive db)
    ])
  ];
}

pub claim_run_lease-Grows :
    (run_id owner_id : Uuid) (ttl : Duration) (recover : Bool) (now : Clock)
    → Along Grows (claim_run_lease run_id owner_id ttl recover now)
unfolding claim_run_lease grant_lease
claim_run_lease-Grows run_id owner_id ttl recover now = search run_rules depth 12

pub acquire_run_lease-Grows :
    (run_id owner_id : Uuid) (ttl : Duration) (now : Clock)
    → Along Grows (acquire_run_lease run_id owner_id ttl now)
unfolding acquire_run_lease
acquire_run_lease-Grows run_id owner_id ttl now =
    claim_run_lease-Grows run_id owner_id ttl false now

pub recover_run_lease-Grows :
    (run_id owner_id : Uuid) (ttl : Duration) (now : Clock)
    → Along Grows (recover_run_lease run_id owner_id ttl now)
unfolding recover_run_lease
recover_run_lease-Grows run_id owner_id ttl now = claim_run_lease-Grows run_id owner_id ttl true now

note_start-Grows : (c : RunRow) (now : Clock) → Along Grows (note_start c now)
unfolding note_start
note_start-Grows c now = search run_rules depth 8

claim_candidate-Grows :
    (owner_id ttl_ms : ℕ) (now : Clock) (c : RunRow)
    → Along Grows (claim_candidate owner_id ttl_ms now c)
unfolding claim_candidate
claim_candidate-Grows owner_id ttl_ms now c = search (run_rules, note_start-Grows) depth 12

claim_found-Grows :
    (owner_id ttl_ms : ℕ) (now : Clock) (c : Option RunRow)
    → Along Grows (claim_found owner_id ttl_ms now c)
claim_found-Grows owner_id ttl_ms now none = search run_rules
claim_found-Grows owner_id ttl_ms now (some c) = claim_candidate-Grows owner_id ttl_ms now c

pub claim_next_recoverable_run-Grows :
    (owner_id : Uuid) (ttl : Duration) (now : Clock)
    → Along Grows (claim_next_recoverable_run owner_id ttl now)
unfolding claim_next_recoverable_run
claim_next_recoverable_run-Grows owner_id ttl now = search (run_rules, claim_found-Grows) depth 8

pub renew_run_lease-Grows :
    (lease : RunLease) (ttl : Duration) (now : Clock) → Along Grows (renew_run_lease lease ttl now)
unfolding renew_run_lease
renew_run_lease-Grows lease ttl now = search run_rules depth 12

pub release_run_lease-Grows :
    (lease : RunLease) (now : Clock) → Along Grows (release_run_lease lease now)
unfolding release_run_lease
release_run_lease-Grows lease now = search run_rules depth 8

change_status-Grows :
    (run_id : Uuid) (current status : RunStatus) (now : Clock)
    → Along Grows (change_status run_id current status now)
unfolding change_status
change_status-Grows run_id current status now = search run_rules depth 8

pub update_run_status-Grows :
    (id : Uuid) (status : RunStatus) (now : Clock) → Along Grows (update_run_status id status now)
unfolding update_run_status
update_run_status-Grows id status now = search (run_rules, change_status-Grows) depth 8

pub update_run_status_with_lease-Grows :
    (lease : RunLease) (status : RunStatus) (now : Clock)
    → Along Grows (update_run_status_with_lease lease status now)
unfolding update_run_status_with_lease
update_run_status_with_lease-Grows lease status now =
    search (run_rules, change_status-Grows) depth 8

pub complete_run_with_lease-Grows :
    (lease : RunLease) (now : Clock) → Along Grows (complete_run_with_lease lease now)
unfolding complete_run_with_lease
complete_run_with_lease-Grows lease now = search run_rules depth 12
