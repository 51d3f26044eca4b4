-- ===== src/Lease/Grants.antt =====
-- What `claim_run_lease` of src/db.rs grants, and when.
use zincir.Prelude.{
  ℕ, ◌+◌, ◌≡◌, refl, sym, ap, ◌∙◌, Bool, true, false, Option, none, some, ◌==◌, ◌&&◌, ◌||◌, arith,
  Bool-cases, Option-cases, inl, inr, is_none, not, if◌then◌else◌,
}
use zincir.Types.{
  Uuid, RunLease, Result, ok, err, Error, invalid_state, lease_too_large, terminal_run,
  already_owned, not_found,
}
use zincir.Sql.{first, update}
use zincir.Sql.Laws.{first-Unique, first-update, first-update_other, set_found, holds, first_passes}
use zincir.Tables.{RunRow, Db, Clock, find_run, update_run_returning}
use zincir.Tables.Answers.{Answers}
use zincir.Store.{current_status}
use zincir.Valid.Runs.{Distinct, Distinct-Unique}
use zincir.Lease.{is_terminal, lease_to, lease_of, grant_lease, claim_run_lease}
use zincir.Lease.Durations.{Duration, duration_to_millis, checked_add}

module _ (run_id owner_id : Uuid) (ttl : Duration) (recover : Bool) (now : Clock) (db : Db) where
  -- The table after the claim.
  abbrev pub claimed_db : ℕ → Db
  claimed_db expires_at_ms = record db {
    agent_runs =
        update (λ r. r.id == run_id && (recover || is_none r.lease_owner))
          (lease_to owner_id expires_at_ms now) db.agent_runs;
  }

  pub record Granted (lease : RunLease) (after : Db) : Type 0 where
    pub row : RunRow
    pub expires_at_ms : ℕ
    pub found : find_run run_id db ≡ some row
    pub live : is_terminal row.status ≡ false
    pub free : (recover || is_none row.lease_owner) ≡ true
    pub granted : lease ≡ lease_of run_id owner_id (row.lease_epoch + 1) expires_at_ms
    pub stored : find_run run_id after ≡ some (lease_to owner_id expires_at_ms now row)
    pub others : (id : Uuid) → (id == run_id) ≡ false → find_run id after ≡ find_run id db

  module _ (d : Distinct db.agent_runs) (r : RunRow) (e : find_run run_id db ≡ some r) where
    claimable :
        first (λ x. x.id == run_id && (recover || is_none x.lease_owner)) db.agent_runs
        ≡ (if recover || is_none r.lease_owner then some r else none)
    unfolding find_run
    claimable =
        first-Unique (λ x. x.id == run_id) (λ x. recover || is_none x.lease_owner) db.agent_runs
          (Distinct-Unique run_id db.agent_runs d)
        ∙ ap (λ o. if holds (λ x. recover || is_none x.lease_owner) o then o else none) e

    current_status-Answers : Answers db (r.status) db (current_status run_id)
    unfolding current_status
    current_status-Answers = record { at = rw e refl }

    claim_row-Answers :
        (u : ℕ)
        → (recover || is_none r.lease_owner) ≡ true
        → Answers db (some (lease_to owner_id u now r)) (claimed_db u) (
            update_run_returning
              (λ x. x.id == run_id && (recover || is_none x.lease_owner))
              (lease_to owner_id u now))
    unfolding update_run_returning
    claim_row-Answers u free = record { at = rw (claimable, free) refl }

    grant_lease-Answers :
        (t u : ℕ)
        → not (is_terminal r.status) ≡ true
        → checked_add now.utc_millis t ≡ some u
        → (recover || is_none r.lease_owner) ≡ true
        → Answers db
            (lease_of run_id owner_id (r.lease_epoch + 1) u)
            (claimed_db u)
            (grant_lease run_id owner_id t recover now)
    unfolding grant_lease current_status update_run_returning
    grant_lease-Answers t u live q' free = record {
      at = ground (arith, e, live, q', claimable, free);
    }

    pub claim_run_lease-Answers :
        (t u : ℕ)
        → duration_to_millis ttl ≡ ok t
        → is_terminal r.status ≡ false
        → checked_add now.utc_millis t ≡ some u
        → (recover || is_none r.lease_owner) ≡ true
        → Answers db
            (lease_of run_id owner_id (r.lease_epoch + 1) u)
            (claimed_db u)
            (claim_run_lease run_id owner_id ttl recover now)
    unfolding claim_run_lease
    claim_run_lease-Answers t u q live q' free = record {
      at = ground (arith, q, (grant_lease-Answers t u (ap not live) q' free).at);
    }

    stored_row :
        (u : ℕ)
        → (recover || is_none r.lease_owner) ≡ true
        → find_run run_id (claimed_db u) ≡ some (lease_to owner_id u now r)
    unfolding find_run
    stored_row u free =
        first-update (λ x. x.id == run_id)
          (λ x. x.id == run_id && (recover || is_none x.lease_owner)) (lease_to owner_id u now)
          db.agent_runs (λ x. ground arith)
        ∙ ap
            (set_found (λ x. x.id == run_id && (recover || is_none x.lease_owner))
              (lease_to owner_id u now))
            e
        ∙ ground (arith, free, first_passes (λ x. x.id == run_id) db.agent_runs r e)

  other_rows :
      (u : ℕ) (id : Uuid) → (id == run_id) ≡ false → find_run id (claimed_db u) ≡ find_run id db
  unfolding find_run
  other_rows u id other =
      first-update_other (λ x. x.id == id)
        (λ x. x.id == run_id && (recover || is_none x.lease_owner)) (lease_to owner_id u now)
        db.agent_runs (λ x. ground arith) (λ x same. ground arith)

  module _ (lease : RunLease) (after : Db)
      (h : claim_run_lease run_id owner_id ttl recover now db ≡ (ok lease, after)) where
    failed :
        {x : Error}
        → (claim_run_lease run_id owner_id ttl recover now db).0 ≡ err x
        → Granted lease after
    failed f = absurd cc

    Granted-as :
        Distinct db.agent_runs
        → (r : RunRow) → find_run run_id db ≡ some r
        → (u : ℕ) → is_terminal r.status ≡ false
        → (recover || is_none r.lease_owner) ≡ true
        → ◌≡◌ {A = Result RunLease × Db}
            (ok lease, after)
            (ok (lease_of run_id owner_id (r.lease_epoch + 1) u), claimed_db u)
        → Granted lease after
    Granted-as d r e u live free same = record {
      row = r;
      expires_at_ms = u;
      found = e;
      live = live;
      free = free;
      granted = cc;
      stored =
          ap (find_run run_id) (ap (λ (x : Result RunLease × Db). x.1) same)
          ∙ stored_row d r e u free;
      others = λ id other.
          ap (find_run id) (ap (λ (x : Result RunLease × Db). x.1) same) ∙ other_rows u id other;
    }

    with_row :
        Distinct db.agent_runs
        → (t : ℕ) → duration_to_millis ttl ≡ ok t
        → (o : Option RunRow) → find_run run_id db ≡ o
        → Granted lease after
    unfolding claim_run_lease grant_lease current_status update_run_returning
    with_row d t q none e = failed {x = not_found run_id} (ground (arith, q, e))
    with_row d t q (some r) e = elim (Bool-cases (is_terminal r.status)) [
      | inl over ↦ failed {x = invalid_state (terminal_run run_id)} (ground (arith, q, e, over))
      | inr live ↦ elim (Option-cases (checked_add now.utc_millis t)) [
        | inl large ↦ failed {x = invalid_state lease_too_large} (ground (arith, q, e, live, large))
        | inr (u, q') ↦ elim (Bool-cases (recover || is_none r.lease_owner)) [
          | inr owned ↦
              failed {x = invalid_state (already_owned run_id)}
                (ground (arith, q, e, live, q', claimable d r e, owned))
          | inl free ↦
              Granted-as d r e u live free
                (sym h ∙ (claim_run_lease-Answers d r e t u q live q' free).at)
        ]
      ]
    ]

    with_ttl :
        Distinct db.agent_runs → (o : Result ℕ) → duration_to_millis ttl ≡ o → Granted lease after
    unfolding claim_run_lease
    with_ttl d (err x) q = failed {x = x} (ground (arith, q))
    with_ttl d (ok t) q = with_row d t q (find_run run_id db) refl

-- When a claim succeeds on a database whose runs have distinct ids, the run was there and not
-- terminal, and it had no owner unless the claim recovers; the lease has the next epoch, the row of
-- the run now carries the owner, that epoch and the expiry, and no other run has changed.
pub claim_run_lease-Granted :
    (run_id owner_id : Uuid) (ttl : Duration) (recover : Bool) (now : Clock) (db after : Db)
    (lease : RunLease)
    → Distinct db.agent_runs
    → claim_run_lease run_id owner_id ttl recover now db ≡ (ok lease, after)
    → Granted run_id owner_id ttl recover now db lease after
claim_run_lease-Granted run_id owner_id ttl recover now db after lease d h =
    with_ttl run_id owner_id ttl recover now db lease after h d (duration_to_millis ttl) refl
