-- ===== src/Lease/Exclusion.antt =====
-- At most one lease of a run is held at a time.
use zincir.Prelude.{◌≡◌, sym, ◌∙◌, true, Option, none, some, ◌==◌, arith, ℕ, subst}
use zincir.Types.{RunLease}
use zincir.Sql.Laws.{exists-Unique, holds}
use zincir.Tables.{RunRow, Db, Clock, find_run}
use zincir.Store.{is_leased}
use zincir.Valid.Runs.{Distinct, Distinct-Unique}
use zincir.Lease.Refusals.{holds_lease}

-- A lease is held exactly when the row of its run says so.
pub holds_lease-Distinct :
    (lease : RunLease) (now : Clock) (db : Db)
    → Distinct db.agent_runs
    → holds_lease lease now db ≡ holds (is_leased lease now.utc_millis) (find_run lease.run_id db)
unfolding find_run
holds_lease-Distinct lease now db d =
    exists-Unique (λ r. r.id == lease.run_id) (is_leased lease now.utc_millis) db.agent_runs
      (Distinct-Unique lease.run_id db.agent_runs d)

same_holder :
    (a b : RunLease) (n m : ℕ) (o : Option RunRow)
    → holds (is_leased a n) o ≡ true
    → holds (is_leased b m) o ≡ true
    → (a.owner_id ≡ b.owner_id) × (a.epoch ≡ b.epoch)
same_holder a b n m none h k = cc
same_holder a b n m (some r) h k = (ground arith, ground arith)

-- Two leases of one run that the database holds, whether at one time or at two, are of one owner and
-- one epoch, when the runs of the database have distinct ids.
pub holds_lease_unique :
    (a b : RunLease) (now now' : Clock) (db : Db)
    → Distinct db.agent_runs
    → a.run_id ≡ b.run_id
    → holds_lease a now db ≡ true
    → holds_lease b now' db ≡ true
    → (a.owner_id ≡ b.owner_id) × (a.epoch ≡ b.epoch)
holds_lease_unique a b now now' db d same h k =
    same_holder a b now.utc_millis now'.utc_millis (find_run b.run_id db)
      (subst (λ id. holds (is_leased a now.utc_millis) (find_run id db) ≡ true) same
        (sym (holds_lease-Distinct a now db d) ∙ h))
      (sym (holds_lease-Distinct b now' db d) ∙ k)
