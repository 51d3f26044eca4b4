-- ===== src/Agent.antt =====
-- `AgentContext` of src/agent.rs: how a context is created, opened, recovered and read. The UUIDs that
-- `Uuid::new_v4` draws are arguments, and so is each reading of the clock.
pub mod Payload
pub mod Session
use zincir.Prelude.{ℕ, ◌+◌, Bool, true, false, Option, none, some, String, List, ltb, if◌then◌else◌}
use zincir.Json.{Value}
use zincir.Types.{
  Uuid, AgentRun, Event, CheckpointRecord, RunLease, running, Error, Result, ok, err, invalid_state,
  ttl_too_short,
}
use zincir.Sql.{select}
use zincir.Tables.{Db, Clock, Tx, pure, raise, lift, ◌>>=◌, ◌>>◌}
use zincir.Runs.{create_run, get_run}
use zincir.Lease.{
  acquire_run_lease, recover_run_lease, claim_next_recoverable_run, release_run_lease,
  update_run_status_with_lease,
}
use zincir.Lease.Durations.{Duration, as_nanos}
use zincir.Events.{get_events}
use zincir.Checkpoints.{get_latest_accepted_checkpoint}

pub record AgentState : Type 0 where
  pub run : AgentRun
  pub checkpoint : Option CheckpointRecord
  pub events : List Event

-- `MIN_LEASE_TTL`: 30 ms, in nanoseconds.
abbrev pub min_lease_ttl : ℕ
min_lease_ttl = 30000000

unfoldable pub validate_lease_ttl : Duration → Result (Unit {0})
validate_lease_ttl ttl =
    if ltb (as_nanos ttl) min_lease_ttl then err (invalid_state ttl_too_short) else ok tt

-- The context; `failure` is what its heartbeat last failed with.
pub record AgentContext : Type 0 where
  pub run_id : Uuid
  pub lease : RunLease
  pub lease_ttl : Duration
  pub failure : Option String

abbrev pub from_lease : RunLease → Duration → AgentContext
from_lease lease lease_ttl = record {
  run_id = lease.run_id;
  lease = lease;
  lease_ttl = lease_ttl;
  failure = none;
}

-- If the call fails, the lease is released, whatever that gives, and the error is returned.
abbrev pub or_release : RunLease → Clock → Result (Unit {0}) × Db → Result (Unit {0}) × Db
or_release lease released (ok u, db) = (ok u, db)
or_release lease released (err e, db) = (err e, (release_run_lease lease released db).1)

-- `update_run_status_with_lease` and what `claim` does when it fails.
unfoldable pub start_or_release : RunLease → Clock → Clock → Tx (Unit {0})
unfolding update_run_status_with_lease release_run_lease
start_or_release lease started released db =
    or_release lease released (update_run_status_with_lease lease running started db)

abbrev pub take_lease : Uuid → Uuid → Duration → Bool → Clock → Tx RunLease
take_lease run_id owner_id lease_ttl recover now =
    if recover
    then recover_run_lease run_id owner_id lease_ttl now
    else acquire_run_lease run_id owner_id lease_ttl now

-- The times are those of the claim, of the change of status and of the release.
unfoldable pub claim : Uuid → Uuid → Duration → Bool → Clock → Clock → Clock → Tx AgentContext
unfolding validate_lease_ttl start_or_release
claim run_id owner_id lease_ttl recover claimed started released = do
  lift (validate_lease_ttl lease_ttl)
  lease ← take_lease run_id owner_id lease_ttl recover claimed
  start_or_release lease started released
  pure (from_lease lease lease_ttl)

unfoldable pub open_run : Uuid → Uuid → Duration → Clock → Clock → Clock → Tx AgentContext
unfolding claim
open_run run_id owner_id lease_ttl claimed started released =
    claim run_id owner_id lease_ttl false claimed started released

unfoldable pub force_recover : Uuid → Uuid → Duration → Clock → Clock → Clock → Tx AgentContext
unfolding claim
force_recover run_id owner_id lease_ttl claimed started released =
    claim run_id owner_id lease_ttl true claimed started released

unfoldable pub create :
    Uuid
    → Uuid
    → Option Uuid
    → String
    → String
    → Value
    → Duration
    → Clock
    → Clock
    → Clock
    → Clock
    → Tx AgentContext
unfolding validate_lease_ttl create_run open_run
create run_id owner_id parent_run_id role provider config lease_ttl created claimed started
      released =
    do
      lift (validate_lease_ttl lease_ttl)
      run ← create_run run_id parent_run_id role provider config created
      open_run run.id owner_id lease_ttl claimed started released

abbrev pub context_of : Duration → Option RunLease → Option AgentContext
context_of lease_ttl none = none
context_of lease_ttl (some lease) = some (from_lease lease lease_ttl)

unfoldable pub claim_next_recoverable : Uuid → Duration → Clock → Tx (Option AgentContext)
unfolding validate_lease_ttl claim_next_recoverable_run
claim_next_recoverable owner_id lease_ttl now = do
  lift (validate_lease_ttl lease_ttl)
  lease ← claim_next_recoverable_run owner_id lease_ttl now
  pure (context_of lease_ttl lease)

abbrev pub decision_seq : Option CheckpointRecord → Option ℕ
decision_seq none = none
decision_seq (some c) = c.decision_event_seq

-- `event.seq > after_seq`, where `after_seq` is -1 or one more than the decision's number.
abbrev pub is_news : Option ℕ → Event → Bool
is_news none e = true
is_news (some seq) e = ltb (seq + 1) e.seq

unfoldable pub state : Uuid → Tx AgentState
unfolding get_run get_latest_accepted_checkpoint get_events select
state run_id = do
  run ← get_run run_id
  checkpoint ← get_latest_accepted_checkpoint run_id
  events ← get_events run_id
  pure (record {
    run = run;
    checkpoint = checkpoint;
    events = select (is_news (decision_seq checkpoint)) events;
  })
