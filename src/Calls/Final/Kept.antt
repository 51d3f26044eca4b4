-- ===== src/Calls/Final/Kept.antt =====
-- The calls of src/db.rs on runs and leases keep a run that has ended as it is.
use zincir.Prelude.{
  ℕ, ◌≡◌, refl, ap, Bool, false, ◌&&◌, Option, ◌∷◌, ◌==◌, arith, Bool-cases, inl, inr, nat_beq_iff,
  String,
}
use zincir.Json.{Value}
use zincir.Types.{Uuid, RunStatus, RunLease, running}
use zincir.Sql.{exists}
use zincir.Tables.{RunRow, Db, Clock, Tx, has_run}
use zincir.Tables.Along.{Along, Preorder}
use zincir.Tables.Yields.{Keeps, keeps}
use zincir.Store.Reads.{read_rules}
use zincir.Runs.{create_run, has_parent, new_run}
use zincir.Lease.Durations.{Duration}
use zincir.Lease.{
  record_transition, grant_lease, claim_run_lease, lease_to, start_running, renew_run_lease,
  release_run_lease, complete_run_with_lease, complete_row, update_run_status_with_lease,
  change_status, set_status,
}
use zincir.Lease.Final.{
  IsFinal, IsSparing, IsFinal-rows, update_runs-IsFinal, update_run_returning-IsFinal,
  other-IsSparing, renew-IsSparing, release-IsSparing,
}
use zincir.Calls.Frame.Writes.{Same, all_runs, runs-NotEvents}
use zincir.Calls.Frame.Parts.{record_transition-Same}

pub record_transition-SameRuns :
    (run_id : Uuid) (from to : RunStatus) (now : Clock)
    → Along (Same all_runs) (record_transition run_id from to now)
record_transition-SameRuns run_id from to now =
    record_transition-Same all_runs run_id from to now runs-NotEvents

module _ (id : Uuid) (s : RunStatus) where
  pub Keeps-SameRuns :
      {A : Type 0} (m : Tx A) → Along (Same all_runs) m → Along (Keeps (IsFinal id s)) m
  Keeps-SameRuns m k = record {
    at = λ db h. IsFinal-rows id s db db.agent_runs refl h (m db).1 (k.at db);
  }

  pub Keeps-IsFinal : Preorder (Keeps (IsFinal id s))
  Keeps-IsFinal = keeps (IsFinal id s)

  -- Another run is claimed.
  module _ (run_id : Uuid) (ne : (run_id == id) ≡ false) where
    lease_to-IsSparing :
        (q : RunRow → Bool) (owner t : ℕ) (now : Clock)
        → IsSparing id s (λ r. r.id == run_id && q r) (lease_to owner t now)
    lease_to-IsSparing q owner t now =
        other-IsSparing id s run_id q (lease_to owner t now) ne (λ r. refl)

    pub claim_other :
        (owner_id : Uuid) (ttl : Duration) (recover : Bool) (now : Clock)
        → Along (Keeps (IsFinal id s)) (claim_run_lease run_id owner_id ttl recover now)
    unfolding claim_run_lease grant_lease
    claim_other owner_id ttl recover now =
        search (read_rules, Keeps-IsFinal, update_run_returning-IsFinal, lease_to-IsSparing) depth
          12

    pub start-IsSparing :
        (owner t : ℕ) (now : Clock)
        → IsSparing id s (λ r. r.id == run_id) (λ r. start_running (lease_to owner t now r))
    start-IsSparing owner t now = record {
      same_id = λ r. ground arith;
      spares = λ r h. ground (arith, ne, h);
    }

    complete-IsSparing : (now : Clock) → IsSparing id s (λ r. r.id == run_id) (complete_row now)
    complete-IsSparing now = record {
      same_id = λ r. ground arith;
      spares = λ r h. ground (arith, ne, h);
    }

    set_status-IsSparing :
        (to : RunStatus) (now : Clock) → IsSparing id s (λ r. r.id == run_id) (set_status to now)
    set_status-IsSparing to now = record {
      same_id = λ r. ground arith;
      spares = λ r h. ground (arith, ne, h);
    }

    change_other :
        (from to : RunStatus) (now : Clock)
        → Along (Keeps (IsFinal id s)) (change_status run_id from to now)
    unfolding change_status
    change_other from to now =
        search
          (
            read_rules, Keeps-IsFinal, update_runs-IsFinal, set_status-IsSparing, Keeps-SameRuns,
            record_transition-SameRuns,
          )
          depth 8

  pub complete_other :
      (lease : RunLease) (now : Clock)
      → (lease.run_id == id) ≡ false
      → Along (Keeps (IsFinal id s)) (complete_run_with_lease lease now)
  unfolding complete_run_with_lease
  complete_other lease now ne =
      search
        (
          read_rules,
          Keeps-IsFinal,
          update_runs-IsFinal,
          complete-IsSparing lease.run_id ne,
          Keeps-SameRuns,
          record_transition-SameRuns,
        )
        depth 12

  pub update_other :
      (lease : RunLease) (now : Clock)
      → (lease.run_id == id) ≡ false
      → Along (Keeps (IsFinal id s)) (update_run_status_with_lease lease running now)
  unfolding update_run_status_with_lease
  update_other lease now ne =
      search (read_rules, Keeps-IsFinal, change_other lease.run_id ne) depth 8

  pub renew_kept :
      (lease : RunLease) (ttl : Duration) (now : Clock)
      → Along (Keeps (IsFinal id s)) (renew_run_lease lease ttl now)
  unfolding renew_run_lease
  renew_kept lease ttl now =
      search (read_rules, Keeps-IsFinal, update_runs-IsFinal, renew-IsSparing) depth 12

  pub release_kept :
      (lease : RunLease) (now : Clock) → Along (Keeps (IsFinal id s)) (release_run_lease lease now)
  unfolding release_run_lease
  release_kept lease now =
      search (read_rules, Keeps-IsFinal, update_runs-IsFinal, release-IsSparing) depth 12

  -- A new run has another id.
  inserted :
      (row : RunRow) (db : Db)
      → exists (λ r. r.id == row.id) db.agent_runs ≡ false
      → IsFinal id s db
      → IsFinal id s (record db { agent_runs = row ∷ db.agent_runs })
  unfolding exists
  inserted row db fresh h = elim (Bool-cases (row.id == id)) [
    | inl here ↦ absurd (taken ((nat_beq_iff row.id id).0 here))
    | inr there ↦ record {
      stored = ground (arith, there, h.stored);
      closed = ground (arith, there, h.closed);
    }
  ]
    where
      taken : row.id ≡ id → ⊥
      taken e = cc (h.stored, ap (λ k. exists (λ r. r.id == k) db.agent_runs) e)

  pub create_kept :
      (new : Uuid) (parent : Option Uuid) (role provider : String) (config : Value) (now : Clock)
      → Along (Keeps (IsFinal id s)) (create_run new parent role provider config now)
  unfolding create_run has_run
  create_kept new parent role provider config now = record {
    at = λ db h. elim (Bool-cases (exists (λ r. r.id == new) db.agent_runs)) [
      | inl taken ↦ rw taken h
      | inr free ↦ rw free (elim (Bool-cases (has_parent new parent db)) [
        | inl known ↦ rw known (inserted (new_run new parent role provider config now) db free h)
        | inr orphan ↦ rw orphan h
      ])
    ];
  }
