-- ===== src/Lease/Fenced.antt =====
-- A lease whose owner and epoch no run has any more: renewal and release under it fail and change
-- nothing.
use zincir.Prelude.{◌≡◌, refl, false, Option, none, some, ◌&&◌, ◌==◌, arith, ℕ}
use zincir.Types.{RunLease, Result, ok, err, invalid_state, lease_not_owned, lease_too_large}
use zincir.Sql.{exists}
use zincir.Sql.Laws.{count_none, exists_mono, update_none}
use zincir.Tables.{Db, Clock, update_runs}
use zincir.Tables.Stops.{Stops}
use zincir.Lease.{is_owned, is_renewable, renew_run_lease, release_run_lease, clear_lease}
use zincir.Lease.Durations.{Duration, duration_to_millis, checked_add}
use zincir.Lease.Refusals.{holds_lease, owns_run, Refused, inactive}

module _ (lease : RunLease) (db : Db) (lost : owns_run lease db ≡ false) where
  pub not_held : (now : Clock) → holds_lease lease now db ≡ false
  not_held now = exists_mono _ _ db.agent_runs (λ x h. ground arith) lost

  pub release-Stops :
      (now : Clock)
      → Stops db
          (invalid_state (lease_not_owned lease.run_id lease.epoch))
          (release_run_lease lease now)
  unfolding release_run_lease update_runs
  release-Stops now = record {
    at = rw (count_none (λ r. r.id == lease.run_id && is_owned lease r) db.agent_runs lost) (
        rw
          (update_none (λ r. r.id == lease.run_id && is_owned lease r) (clear_lease now)
            db.agent_runs lost)
          refl);
  }

  renewable_none :
      (now : Clock)
      → exists (λ r. r.id == lease.run_id && is_renewable lease now.utc_millis r) db.agent_runs
        ≡ false
  renewable_none now = exists_mono _ _ db.agent_runs (λ x h. ground arith) lost

  pub renew-Refused : (ttl : Duration) (now : Clock) → Refused (renew_run_lease lease ttl now) db
  unfolding renew_run_lease update_runs
  renew-Refused ttl now = with_ttl (duration_to_millis ttl) refl
    where
      with_ttl :
          (r : Result ℕ) → duration_to_millis ttl ≡ r → Refused (renew_run_lease lease ttl now) db
      with_ttl (err e) q = (e, rw q refl)
      with_ttl (ok t) q = with_end (checked_add now.utc_millis t) refl
        where
          with_end :
              (o : Option ℕ)
              → checked_add now.utc_millis t ≡ o
              → Refused (renew_run_lease lease ttl now) db
          with_end none q' = (invalid_state lease_too_large, rw q (rw q' refl))
          with_end (some u) q' = (
            inactive lease now db (not_held now),
            rw q (
                rw q' (
                  rw
                    (count_none (λ r. r.id == lease.run_id && is_renewable lease now.utc_millis r)
                      db.agent_runs (renewable_none now))
                    refl)),
          )
