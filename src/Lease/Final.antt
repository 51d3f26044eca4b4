-- ===== src/Lease/Final.antt =====
-- A run of src/db.rs that has ended: its status is terminal and it has no owner.
use zincir.Prelude.{
  ℕ, ◌≡◌, ap, ◌∙◌, Bool, true, false, not, ◌&&◌, some, List, [], ◌∷◌, ◌==◌, arith, Bool-cases, inl,
  inr, is_none,
}
use zincir.Types.{Uuid, RunStatus, same_status}
use zincir.Sql.{exists, first, update, where_set}
use zincir.Sql.Laws.{exists-update, exists-update_none, exists_mono}
use zincir.Tables.{RunRow, Db, Clock, update_runs, update_run_returning}
use zincir.Tables.Along.{Along}
use zincir.Tables.Yields.{Keeps}
use zincir.Types.{RunLease}
use zincir.Lease.{is_owned, is_renewable, expire_at, clear_lease}
use zincir.Lease.Refusals.{owns_run}

abbrev pub is_closed : RunStatus → RunRow → Bool
is_closed s r = same_status r.status s && is_none r.lease_owner

-- A row of the run that has another status, or an owner.
abbrev pub reopens : Uuid → RunStatus → RunRow → Bool
reopens id s r = r.id == id && not (is_closed s r)

-- The run is stored, and every row of it has the status and no owner.
pub record IsFinal (id : Uuid) (s : RunStatus) (db : Db) : Type 0 where
  pub stored : exists (λ r. r.id == id) db.agent_runs ≡ true
  pub closed : exists (reopens id s) db.agent_runs ≡ false

-- A change of rows that reopens none of this run.
pub record IsSparing (id : Uuid) (s : RunStatus) (p : RunRow → Bool) (f : RunRow → RunRow)
    : Type 0 where
  pub same_id : (r : RunRow) → ((where_set p f r).id == id) ≡ (r.id == id)
  pub spares : (r : RunRow) → reopens id s (where_set p f r) ≡ true → reopens id s r ≡ true

module _ (id : Uuid) (s : RunStatus) where
  pub IsFinal-rows :
      (db : Db) (rs : List RunRow)
      → rs ≡ db.agent_runs
      → IsFinal id s db
      → (other : Db) → other.agent_runs ≡ rs
      → IsFinal id s other
  IsFinal-rows db rs e h other q = record {
    stored = ap (exists (λ r. r.id == id)) (q ∙ e) ∙ h.stored;
    closed = ap (exists (reopens id s)) (q ∙ e) ∙ h.closed;
  }

  updated :
      (p : RunRow → Bool) (f : RunRow → RunRow) (db : Db)
      → IsSparing id s p f
      → IsFinal id s db
      → IsFinal id s (record db { agent_runs = update p f db.agent_runs })
  updated p f db k h = record {
    stored = exists-update (λ r. r.id == id) p f db.agent_runs k.same_id ∙ h.stored;
    closed = exists-update_none (reopens id s) p f db.agent_runs k.spares h.closed;
  }

  pub update_runs-IsFinal :
      (p : RunRow → Bool) (f : RunRow → RunRow)
      → IsSparing id s p f
      → Along (Keeps (IsFinal id s)) (update_runs p f)
  unfolding update_runs
  update_runs-IsFinal p f k = record { at = λ db h. updated p f db k h }

  pub update_run_returning-IsFinal :
      (p : RunRow → Bool) (f : RunRow → RunRow)
      → IsSparing id s p f
      → Along (Keeps (IsFinal id s)) (update_run_returning p f)
  unfolding update_run_returning
  update_run_returning-IsFinal p f k = record { at = λ db h. updated p f db k h }

  -- A change of another run.
  pub other-IsSparing :
      (run_id : Uuid) (q : RunRow → Bool) (f : RunRow → RunRow)
      → (run_id == id) ≡ false
      → ((r : RunRow) → (f r).id ≡ r.id)
      → IsSparing id s (λ r. r.id == run_id && q r) f
  other-IsSparing run_id q f ne k = record {
    same_id = λ r. ground (arith, k r);
    spares = λ r h. ground (arith, k r, ne, h);
  }

  pub renew-IsSparing :
      (lease : RunLease) (t u : ℕ) (now : Clock)
      → IsSparing id s (λ r. r.id == lease.run_id && is_renewable lease u r) (expire_at t now)
  renew-IsSparing lease t u now = record {
    same_id = λ r. ground arith;
    spares = λ r h. ground arith;
  }

  pub release-IsSparing :
      (lease : RunLease) (now : Clock)
      → IsSparing id s (λ r. r.id == lease.run_id && is_owned lease r) (clear_lease now)
  release-IsSparing lease now = record { same_id = λ r. ground arith; spares = λ r h. ground arith }

  -- No lease owns the run.
  pub owns_run-IsFinal :
      (lease : RunLease) (db : Db) → lease.run_id ≡ id → IsFinal id s db → owns_run lease db ≡ false
  owns_run-IsFinal lease db e h =
      exists_mono (reopens id s) _ db.agent_runs (λ r k. ground arith) h.closed

  pub found_closed :
      (rs : List RunRow)
      → exists (λ r. r.id == id) rs ≡ true
      → exists (reopens id s) rs ≡ false
      → (r : RunRow) × (first (λ r. r.id == id) rs ≡ some r) × (is_closed s r ≡ true)
  unfolding exists first
  found_closed [] e h = cc
  found_closed (r ∷ rs) e h = elim (Bool-cases (r.id == id)) [
    | inl here ↦ (r, rw here, ground (arith, here, h))
    | inr there ↦
        let (x, q, k) = found_closed rs (rw there at e) (rw there at h) in (x, rw there q, k)
  ]
