-- ===== src/Lease/Completes.antt =====
-- That a lease which is held lets its owner complete the run: `complete_run_with_lease` of src/db.rs.
use zincir.Prelude.{ℕ, ◌<◌, ◌≡◌, refl, Bool, true, some, ◌∷◌, ◌==◌, ◌&&◌, arith, ltb, ◌∙◌, ap, sym}
use zincir.Types.{RunLease, running, completed, ok}
use zincir.Sql.{update, count}
use zincir.Sql.Laws.{exists-first, first_passes, first-update, set_found, count-Unique, holds}
use zincir.Tables.{RunRow, Db, Clock, find_run, has_run, update_runs}
use zincir.Store.{
  current_status, validate_run_lease, validate_writable_run_lease, max_seq, after_max, i32_limit,
  is_leased,
}
use zincir.Store.Room.{record_transition-Room, transition_event}
use zincir.Valid.Runs.{Distinct, Distinct-Unique, Distinct-update}
use zincir.Lease.{complete_run_with_lease, complete_row, renew_run_lease, is_renewable, expire_at}
use zincir.Lease.Durations.{Duration, duration_to_millis, checked_add}
use zincir.Lease.Exclusion.{holds_lease-Distinct}
use zincir.Lease.Refusals.{holds_lease}

module _ (lease : RunLease) (now : Clock) (db : Db) (r : RunRow) where
  abbrev pub completed_db : Db
  completed_db = record db {
    agent_runs = update (λ x. x.id == lease.run_id) (complete_row now) db.agent_runs;
    events = transition_event lease.run_id running completed now db ∷ db.events;
  }

  pub complete_run-succeeds :
      find_run lease.run_id db ≡ some r
      → r.status ≡ running
      → holds_lease lease now db ≡ true
      → ltb (after_max (max_seq lease.run_id db.events)) i32_limit ≡ true
      → complete_run_with_lease lease now db ≡ (ok tt, completed_db)
  unfolding complete_run_with_lease validate_writable_run_lease validate_run_lease current_status
      update_runs has_run find_run
  complete_run-succeeds known status held fits = ground (
    arith,
    known,
    status,
    held,
    record_transition-Room lease.run_id running completed now db
        (exists-first (λ x. x.id == lease.run_id) db.agent_runs r known) fits,
  )

  pub completed_db-found :
      find_run lease.run_id db ≡ some r
      → find_run lease.run_id completed_db ≡ some (complete_row now r)
  unfolding find_run
  completed_db-found known =
      first-update (λ x. x.id == lease.run_id) (λ x. x.id == lease.run_id) (complete_row now)
        db.agent_runs (λ x. ground arith)
      ∙ ap (set_found (λ x. x.id == lease.run_id) (complete_row now)) known
      ∙ ground (arith, first_passes (λ x. x.id == lease.run_id) db.agent_runs r known)

module _ (lease : RunLease) (ttl : Duration) (now : Clock) (db : Db) (r : RunRow) (t e : ℕ) where
  abbrev prolonged : RunRow → Bool
  prolonged x = x.id == lease.run_id && is_renewable lease now.utc_millis x

  abbrev pub renewed_db : Db
  renewed_db = record db { agent_runs = update prolonged (expire_at e now) db.agent_runs }

  abbrev pub renewed_lease : RunLease
  renewed_lease = record lease { expires_at_ms = e }

  held_row :
      Distinct db.agent_runs
      → find_run lease.run_id db ≡ some r
      → holds_lease lease now db ≡ true
      → is_leased lease now.utc_millis r ≡ true
  held_row d known held =
      sym (ap (holds (is_leased lease now.utc_millis)) known)
      ∙ sym (holds_lease-Distinct lease now db d)
      ∙ held

  one_row :
      Distinct db.agent_runs
      → find_run lease.run_id db ≡ some r
      → r.status ≡ running
      → holds_lease lease now db ≡ true
      → count prolonged db.agent_runs ≡ 1
  unfolding find_run
  one_row d known status held =
      count-Unique (λ x. x.id == lease.run_id) (is_renewable lease now.utc_millis) db.agent_runs
        (Distinct-Unique lease.run_id db.agent_runs d)
      ∙ ground (arith, known, status, held_row d known held)

  pub renew-succeeds :
      Distinct db.agent_runs
      → find_run lease.run_id db ≡ some r
      → r.status ≡ running
      → holds_lease lease now db ≡ true
      → duration_to_millis ttl ≡ ok t
      → checked_add now.utc_millis t ≡ some e
      → renew_run_lease lease ttl now db ≡ (ok renewed_lease, renewed_db)
  unfolding renew_run_lease update_runs
  renew-succeeds d known status held q a = ground (arith, one_row d known status held, q, a)

  pub renewed_db-found :
      Distinct db.agent_runs
      → find_run lease.run_id db ≡ some r
      → r.status ≡ running
      → holds_lease lease now db ≡ true
      → find_run lease.run_id renewed_db ≡ some (expire_at e now r)
  unfolding find_run
  renewed_db-found d known status held =
      first-update (λ x. x.id == lease.run_id) prolonged (expire_at e now) db.agent_runs
        (λ x. ground arith)
      ∙ ap (set_found prolonged (expire_at e now)) known
      ∙ ground (
        arith,
        status,
        held_row d known held,
        first_passes (λ x. x.id == lease.run_id) db.agent_runs r known,
      )

  -- The renewed lease is held until it expires.
  pub renewed_db-holds :
      (later : Clock)
      → Distinct db.agent_runs
      → find_run lease.run_id db ≡ some r
      → r.status ≡ running
      → holds_lease lease now db ≡ true
      → later.utc_millis < e
      → holds_lease renewed_lease later renewed_db ≡ true
  renewed_db-holds later d known status held before =
      holds_lease-Distinct renewed_lease later renewed_db
        (Distinct-update prolonged (expire_at e now) db.agent_runs (λ x. refl) d)
      ∙ ap (holds (is_leased renewed_lease later.utc_millis)) (renewed_db-found d known status held)
      ∙ ground (arith, held_row d known held)
