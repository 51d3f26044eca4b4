-- ===== src/Lease.antt =====
-- The leases of runs in src/db.rs: `claim_run_lease`, `claim_next_recoverable_run`, renewal, release
-- and the changes of status that a lease guards.
pub mod Durations
pub mod Candidates
pub mod Completes
pub mod Exclusion
pub mod Fenced
pub mod Final
pub mod Grants
pub mod Recovery
pub mod Refusals
use zincir.Prelude.{
  ℕ, ◌+◌, Bool, true, false, not, ◌&&◌, ◌||◌, Option, none, some, String, List, [], ◌∷◌, ltb, leb,
  ◌==◌, map, take, is_some_eq, is_none, if◌then◌else◌,
}
use zincir.Json.{Value, str, obj, field, end}
use zincir.Types.{
  Uuid, RunStatus, pending, running, completed, failed, state_transition, Event, RunLease, AgentRun,
  db_error, unique_violation, foreign_key_violation, row_not_found, column_decode, not_found,
  invalid_state, lease_inactive, lease_not_owned, lease_too_large, terminal_run, already_owned,
  same_status, Result, ok, err,
}
use zincir.Runs.{is_inflight}
use zincir.Types.Names.RunStatusText.{as_str}
use zincir.Sql.{exists, select, order_by, limit_one}
use zincir.Tables.{
  RunRow, Db, Clock, Tx, pure, raise, query, lift, or_raise, ◌>>=◌, ◌>>◌, modify, require,
  transaction, find_run, has_run, update_runs, update_run_returning,
}
use zincir.Store.{
  current_status, is_after, validate_run_lease, validate_writable_run_lease, next_event_seq,
  insert_event,
}
use Durations.{Duration, duration_to_millis, checked_add}

-- `matches!(status, RunStatus::Completed | RunStatus::Failed)`
abbrev pub is_terminal : RunStatus → Bool
is_terminal pending = false
is_terminal running = false
is_terminal completed = true
is_terminal failed = true

-- The columns that a claim sets.
abbrev pub lease_to : Uuid → ℕ → Clock → RunRow → RunRow
lease_to owner_id expires_at_ms now r = record r {
  run = record (r.run) { updated_at = now.current_timestamp };
  lease_owner = some owner_id;
  lease_epoch = r.lease_epoch + 1;
  lease_expires_at_ms = some expires_at_ms;
}

abbrev pub lease_of : Uuid → Uuid → ℕ → ℕ → RunLease
lease_of run_id owner_id epoch expires_at_ms = record {
  run_id = run_id;
  owner_id = owner_id;
  epoch = epoch;
  expires_at_ms = expires_at_ms;
}

-- The transaction of `claim_run_lease`.
unfoldable pub grant_lease : Uuid → Uuid → ℕ → Bool → Clock → Tx RunLease
unfolding current_status update_run_returning
grant_lease run_id owner_id ttl_ms recover now = do
  status ← current_status run_id
  require (not (is_terminal status)) (invalid_state (terminal_run run_id))
  expires_at_ms ← or_raise (checked_add now.utc_millis ttl_ms) (invalid_state lease_too_large)
  claimed ←
      update_run_returning (λ r. r.id == run_id && (recover || is_none r.lease_owner))
        (lease_to owner_id expires_at_ms now)
  row ← or_raise claimed (invalid_state (already_owned run_id))
  pure (lease_of run_id owner_id row.lease_epoch expires_at_ms)

unfoldable pub claim_run_lease : Uuid → Uuid → Duration → Bool → Clock → Tx RunLease
unfolding grant_lease
claim_run_lease run_id owner_id ttl recover now = do
  ttl_ms ← lift (duration_to_millis ttl)
  transaction (grant_lease run_id owner_id ttl_ms recover now)

unfoldable pub acquire_run_lease : Uuid → Uuid → Duration → Clock → Tx RunLease
unfolding claim_run_lease
acquire_run_lease run_id owner_id ttl now = claim_run_lease run_id owner_id ttl false now

unfoldable pub recover_run_lease : Uuid → Uuid → Duration → Clock → Tx RunLease
unfolding claim_run_lease
recover_run_lease run_id owner_id ttl now = claim_run_lease run_id owner_id ttl true now

-- `lease_owner IS NULL OR lease_expires_at_ms <= ?`
abbrev pub is_expired : Option ℕ → ℕ → Bool
is_expired none now = false
is_expired (some t) now = leb t now

abbrev pub is_recoverable : ℕ → RunRow → Bool
is_recoverable now_ms r =
    is_inflight r.status && (is_none r.lease_owner || is_expired r.lease_expires_at_ms now_ms)

-- `ORDER BY created_at, id`
abbrev pub claimed_before : RunRow → RunRow → Bool
claimed_before a b =
    ltb a.created_at b.created_at || (a.created_at == b.created_at && leb a.id b.id)

unfoldable pub next_candidate : ℕ → List RunRow → Option RunRow
unfolding limit_one order_by select
next_candidate now_ms rows =
    limit_one (order_by claimed_before (select (is_recoverable now_ms) rows))

-- The payload of a `state_transition` event.
abbrev pub transition : RunStatus → RunStatus → Value
transition from to = obj (field "from" (str (as_str from)) (field "to" (str (as_str to)) end))

-- An event of `state_transition` at the next sequence number.
unfoldable pub record_transition : Uuid → RunStatus → RunStatus → Clock → Tx Event
unfolding next_event_seq insert_event
record_transition run_id from to now = do
  seq ← next_event_seq run_id
  insert_event run_id seq state_transition (transition from to) none now

abbrev pub start_running : RunRow → RunRow
start_running r = record r { run = record (r.run) { status = running } }

-- `if status == RunStatus::Pending { … }`
unfoldable pub note_start : RunRow → Clock → Tx (Unit {0})
unfolding record_transition
note_start candidate now =
    if same_status candidate.status pending
    then (do record_transition candidate.id pending running now; pure tt)
    else pure tt

unfoldable pub claim_candidate : Uuid → ℕ → Clock → RunRow → Tx (Option RunLease)
unfolding note_start
claim_candidate owner_id ttl_ms now candidate = do
  expires_at_ms ← or_raise (checked_add now.utc_millis ttl_ms) (invalid_state lease_too_large)
  claimed ←
      update_run_returning (λ r. r.id == candidate.id)
        (λ r. start_running (lease_to owner_id expires_at_ms now r))
  row ← or_raise claimed (db_error row_not_found)
  note_start candidate now
  pure (some (lease_of candidate.id owner_id row.lease_epoch expires_at_ms))

abbrev pub claim_found : Uuid → ℕ → Clock → Option RunRow → Tx (Option RunLease)
claim_found owner_id ttl_ms now none = pure none
claim_found owner_id ttl_ms now (some candidate) = claim_candidate owner_id ttl_ms now candidate

unfoldable pub claim_next_recoverable_run : Uuid → Duration → Clock → Tx (Option RunLease)
unfolding claim_candidate
claim_next_recoverable_run owner_id ttl now = do
  ttl_ms ← lift (duration_to_millis ttl)
  transaction (do
    candidate ← query (λ db. next_candidate now.utc_millis db.agent_runs)
    claim_found owner_id ttl_ms now candidate)

-- The WHERE clause of `renew_run_lease`.
abbrev pub is_renewable : RunLease → ℕ → RunRow → Bool
is_renewable lease now_ms r =
    is_some_eq r.lease_owner lease.owner_id
    && (r.lease_epoch == lease.epoch
        && (is_inflight r.status && is_after r.lease_expires_at_ms now_ms))

abbrev pub expire_at : ℕ → Clock → RunRow → RunRow
expire_at expires_at_ms now r = record r {
  run = record (r.run) { updated_at = now.current_timestamp };
  lease_expires_at_ms = some expires_at_ms;
}

unfoldable pub renew_run_lease : RunLease → Duration → Clock → Tx RunLease
renew_run_lease lease ttl now = do
  ttl_ms ← lift (duration_to_millis ttl)
  transaction (do
    expires_at_ms ← or_raise (checked_add now.utc_millis ttl_ms) (invalid_state lease_too_large)
    rows ←
        update_runs (λ r. r.id == lease.run_id && is_renewable lease now.utc_millis r)
          (expire_at expires_at_ms now)
    require (rows == 1) (invalid_state (lease_inactive lease.run_id lease.epoch))
    pure (record lease { expires_at_ms = expires_at_ms }))

abbrev pub clear_lease : Clock → RunRow → RunRow
clear_lease now r = record r {
  run = record (r.run) { updated_at = now.current_timestamp };
  lease_owner = none;
  lease_expires_at_ms = none;
}

-- `lease_owner = ? AND lease_epoch = ?`
abbrev pub is_owned : RunLease → RunRow → Bool
is_owned lease r = is_some_eq r.lease_owner lease.owner_id && r.lease_epoch == lease.epoch

-- A single statement with no transaction of its own: what it wrote stays.
unfoldable pub release_run_lease : RunLease → Clock → Tx (Unit {0})
release_run_lease lease now = do
  rows ← update_runs (λ r. r.id == lease.run_id && is_owned lease r) (clear_lease now)
  require (rows == 1) (invalid_state (lease_not_owned lease.run_id lease.epoch))

abbrev pub set_status : RunStatus → Clock → RunRow → RunRow
set_status status now r = record r {
  run = record (r.run) { status = status; updated_at = now.current_timestamp };
}

unfoldable pub change_status : Uuid → RunStatus → RunStatus → Clock → Tx (Unit {0})
unfolding record_transition
change_status run_id current status now = if same_status current status then pure tt else (do
  record_transition run_id current status now
  update_runs (λ r. r.id == run_id) (set_status status now)
  pure tt)

-- The test-only `update_run_status`.
unfoldable pub update_run_status : Uuid → RunStatus → Clock → Tx (Unit {0})
unfolding change_status current_status
update_run_status id status now =
    transaction (do current ← current_status id; change_status id current status now)

unfoldable pub update_run_status_with_lease : RunLease → RunStatus → Clock → Tx (Unit {0})
unfolding change_status current_status validate_run_lease
update_run_status_with_lease lease status now = transaction (do
  validate_run_lease lease now
  current ← current_status lease.run_id
  change_status lease.run_id current status now)

abbrev pub complete_row : Clock → RunRow → RunRow
complete_row now r = set_status completed now (clear_lease now r)

unfoldable pub complete_run_with_lease : RunLease → Clock → Tx (Unit {0})
unfolding record_transition validate_writable_run_lease
complete_run_with_lease lease now = transaction (do
  validate_writable_run_lease lease now
  record_transition lease.run_id running completed now
  update_runs (λ r. r.id == lease.run_id) (complete_row now)
  pure tt)
