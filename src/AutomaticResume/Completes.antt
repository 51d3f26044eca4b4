-- ===== src/AutomaticResume/Completes.antt =====
-- That the handler of examples/automatic_resume.rs completes the run which the worker took over.
use zincir.Prelude.{ℕ, ◌+◌, ◌<◌, ◌≡◌, refl, true, none, some, ◌==◌, arith, ltb, ◌∙◌, ap}
use zincir.Types.{Uuid, ok, AgentRun, running, completed}
use zincir.Tables.{Db, Clock, RunRow, find_run}
use zincir.Store.{max_seq, after_max, i32_limit}
use zincir.Valid.Runs.{Distinct, Distinct-update}
use zincir.Runs.{get_run}
use zincir.Sql.{select}
use zincir.Checkpoints.{latest, is_accepted, get_latest_accepted_checkpoint}
use zincir.Events.{events_of, get_events}
use zincir.Events.Decoded.{below-Fits}
use zincir.Lease.Recovery.{
  IsFound, candidate-IsFound, taken, taken_over, claimed, taken_found, held,
}
use zincir.Lease.{lease_of, next_candidate, complete_row, expire_at}
use zincir.Lease.Durations.{Duration, duration_to_millis, checked_add}
use zincir.Lease.Refusals.{holds_lease}
use zincir.Lease.Completes.{
  renewed_db, renewed_lease, renew-succeeds, renewed_db-found, renewed_db-holds, completed_db,
  complete_run-succeeds, completed_db-found,
}
use zincir.Agent
use zincir.Agent.{
  AgentContext, AgentState, is_news, decision_seq, claim_next_recoverable, validate_lease_ttl,
  from_lease,
}
use zincir.Agent.Session.{lift, ◌>>=◌, complete, ensure_healthy, renew}
use zincir.AutomaticResume.{handler, handled, resume_next}

module _ (ctx : AgentContext) (t0 t1 t2 : Clock) (db : Db) (r : RunRow) (t e : ℕ) where
  abbrev renewed_context : AgentContext
  renewed_context = record ctx { lease = renewed_lease ctx.lease ctx.lease_ttl t0 db r t e }

  abbrev prolonged_db : Db
  prolonged_db = renewed_db ctx.lease ctx.lease_ttl t0 db r t e

  abbrev done : Db
  done = completed_db renewed_context.lease t1 prolonged_db (expire_at e t0 r)

  complete-succeeds :
      Distinct db.agent_runs
      → ctx.failure ≡ none
      → find_run ctx.lease.run_id db ≡ some r
      → r.status ≡ running
      → holds_lease ctx.lease t0 db ≡ true
      → duration_to_millis ctx.lease_ttl ≡ ok t
      → checked_add t0.utc_millis t ≡ some e
      → t1.utc_millis < e
      → ltb (after_max (max_seq ctx.lease.run_id db.events)) i32_limit ≡ true
      → complete t0 t1 t2 (ctx, db) ≡ (ok tt, (renewed_context, done))
  unfolding complete ensure_healthy renew
  complete-succeeds d well known status held q a before fits = ground (
    arith,
    well,
    renew-succeeds ctx.lease ctx.lease_ttl t0 db r t e d known status held q a,
    complete_run-succeeds renewed_context.lease t1 prolonged_db (expire_at e t0 r)
        (renewed_db-found ctx.lease ctx.lease_ttl t0 db r t e d known status held) status
        (renewed_db-holds ctx.lease ctx.lease_ttl t0 db r t e t1 d known status held before) fits,
  )

  done-found :
      Distinct db.agent_runs
      → find_run ctx.lease.run_id db ≡ some r
      → r.status ≡ running
      → holds_lease ctx.lease t0 db ≡ true
      → find_run ctx.lease.run_id done ≡ some (complete_row t1 (expire_at e t0 r))
  done-found d known status held =
      completed_db-found renewed_context.lease t1 prolonged_db (expire_at e t0 r)
        (renewed_db-found ctx.lease ctx.lease_ttl t0 db r t e d known status held)

module _ (owner_id : Uuid) (ttl : Duration) (now t0 t1 t2 : Clock) (db : Db) (c : RunRow)
    (t e e' : ℕ) where
  abbrev context : AgentContext
  context = from_lease (lease_of c.id owner_id (c.lease_epoch + 1) e) ttl

  abbrev taken_db : Db
  taken_db = taken_over owner_id ttl now db c t e

  abbrev row : RunRow
  row = taken owner_id ttl now db c t e c

  claimed_context :
      next_candidate now.utc_millis db.agent_runs ≡ some c
      → IsFound db.agent_runs c
      → c.status ≡ running
      → validate_lease_ttl ttl ≡ ok tt
      → duration_to_millis ttl ≡ ok t
      → checked_add now.utc_millis t ≡ some e
      → claim_next_recoverable owner_id ttl now db ≡ (ok (some context), taken_db)
  unfolding claim_next_recoverable
  claimed_context next found status valid q a =
      ground (arith, valid, claimed owner_id ttl now db c t e next found status q a)

  abbrev final : Db
  final = done context t0 t1 t2 taken_db row t e'

  module _ (d : Distinct db.agent_runs) (found : IsFound db.agent_runs c)
      (live : t0.utc_millis < e) where
    start-Distinct : Distinct taken_db.agent_runs
    start-Distinct =
        Distinct-update (λ x. x.id == c.id) (taken owner_id ttl now db c t e) db.agent_runs
          (λ x. refl) d

    start-found : find_run c.id taken_db ≡ some row
    unfolding find_run
    start-found = taken_found owner_id ttl now db c t e found

    start-holds : holds_lease context.lease t0 taken_db ≡ true
    start-holds = held owner_id ttl now db c t e t0 d found ∙ ground arith

    abbrev seen : AgentState
    seen =
        let checkpoint = latest is_accepted c.id taken_db.checkpoints in
        record {
          run = row.run;
          checkpoint = checkpoint;
          events = select (is_news (decision_seq checkpoint)) (events_of c.id taken_db.events);
        }

    start-readable :
        ltb (after_max (max_seq c.id db.events)) i32_limit ≡ true
        → (Agent.state c.id taken_db).0 ≡ ok seen
    unfolding Agent.state get_run get_latest_accepted_checkpoint get_events
    start-readable fits = ground (arith, start-found, below-Fits c.id db.events fits)

    resumed :
        duration_to_millis ttl ≡ ok t
        → checked_add t0.utc_millis t ≡ some e'
        → t1.utc_millis < e'
        → ltb (after_max (max_seq c.id db.events)) i32_limit ≡ true
        → complete t0 t1 t2 (context, taken_db)
          ≡ (ok tt, (renewed_context context t0 t1 t2 taken_db row t e', final))
    resumed q a before fits =
        complete-succeeds context t0 t1 t2 taken_db row t e' start-Distinct refl start-found refl
          start-holds q a before fits

    final-completed :
        (get_run c.id final).0
        ≡ ok (record row.run { status = completed; updated_at = t1.current_timestamp })
    unfolding get_run
    final-completed = ground (
      arith,
      done-found context t0 t1 t2 taken_db row t e' start-Distinct start-found refl start-holds,
    )

module _ (t0 t1 t2 : Clock) (ctx ctx' : AgentContext) (db after : Db) (s : AgentState) where
  handled-succeeds :
      (Agent.state ctx.run_id db).0 ≡ ok s
      → complete t0 t1 t2 (ctx, db) ≡ (ok tt, (ctx', after))
      → handled (t0, t1, t2) (ok (some ctx), db) ≡ (ok tt, after)
  unfolding handler
  handled-succeeds readable ends =
      ap (λ o. let (r, x) = (lift o >>= λ _. complete t0 t1 t2) (ctx, db) in (r, x.1)) readable
      ∙ ap (λ o. (o.0, o.1.1)) ends

-- The worker takes over a running run whose lease was lost, which is the next candidate, on a database
-- whose runs have distinct ids; the lease is renewed before it expires and the run is completed before
-- the renewed lease does. Then, if one more event of the run can be numbered, all of this succeeds, and
-- `get_run` answers that the run is completed.
pub resume_next-completes :
    (owner_id : Uuid) (ttl : Duration) (now t0 t1 t2 : Clock) (db : Db) (c : RunRow) (t e e' : ℕ)
    → Distinct db.agent_runs
    → next_candidate now.utc_millis db.agent_runs ≡ some c
    → c.status ≡ running
    → validate_lease_ttl ttl ≡ ok tt
    → duration_to_millis ttl ≡ ok t
    → checked_add now.utc_millis t ≡ some e
    → checked_add t0.utc_millis t ≡ some e'
    → t0.utc_millis < e
    → t1.utc_millis < e'
    → ltb (after_max (max_seq c.id db.events)) i32_limit ≡ true
    → (run : AgentRun) × ((resume_next owner_id ttl now (t0, t1, t2) db).0 ≡ ok tt)
      × ((get_run c.id (resume_next owner_id ttl now (t0, t1, t2) db).1).0 ≡ ok run)
      × (run.status ≡ completed)
unfolding resume_next
resume_next-completes owner_id ttl now t0 t1 t2 db c t e e' d next status valid q a a' live before
      fits =
    let found = candidate-IsFound now.utc_millis db.agent_runs c d next in
    let claim = claimed_context owner_id ttl now t0 t1 t2 db c t e e' next found status valid q a in
    let ends = resumed owner_id ttl now t0 t1 t2 db c t e e' d found live q a' before fits in
    let whole =
      ap (handled (t0, t1, t2)) claim
      ∙ handled-succeeds t0 t1 t2 (from_lease (lease_of c.id owner_id (c.lease_epoch + 1) e) ttl) _
          _ _ _ (start-readable owner_id ttl now t0 t1 t2 db c t e e' d found live fits) ends in
    (
      _,
      ap (λ x. x.0) whole,
      ap (λ x. (get_run c.id x.1).0) whole
          ∙ final-completed owner_id ttl now t0 t1 t2 db c t e e' d found live,
      refl,
    )
