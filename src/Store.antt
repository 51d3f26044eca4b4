-- ===== src/Store.antt =====
-- The database of src/db.rs and migrations/: the checks, the sequence numbers and the
-- helpers of its transactions.
pub mod Reads
pub mod Room
use zincir.Prelude.{
  ℕ, ◌+◌, ◌^◌, Bool, false, not, ◌&&◌, Option, none, some, String, List, ◌∷◌, ltb, ◌==◌, str_eq,
  is_some_eq,
}
use zincir.Json.{Value}
use zincir.Types.{
  Uuid, RunStatus, running, EventType, Event, RunLease, db_error, column_decode, unique_violation,
  foreign_key_violation, not_found, invalid_state, lease_inactive, not_writable, same_status,
}
use zincir.Sql.{exists, max_of, select}
use zincir.Tables.{
  RunRow, Clock, Tx, pure, query, or_raise, ◌>>=◌, ◌>>◌, modify, require, find_run, has_run,
}

-- `expires > now` on a nullable column.
abbrev pub is_after : Option ℕ → ℕ → Bool
is_after none now = false
is_after (some t) now = ltb now t

-- `SELECT status FROM agent_runs WHERE id = ?`
unfoldable pub current_status : Uuid → Tx RunStatus
current_status run_id = do
  row ← query (λ db. find_run run_id db)
  run ← or_raise row (not_found run_id)
  pure (run.status)

-- The WHERE clause of `validate_run_lease`.
abbrev pub is_leased : RunLease → ℕ → RunRow → Bool
is_leased lease now r =
    is_some_eq r.lease_owner lease.owner_id
    && (r.lease_epoch == lease.epoch && is_after r.lease_expires_at_ms now)

unfoldable pub validate_run_lease : RunLease → Clock → Tx (Unit {0})
validate_run_lease lease now = do
  valid ←
      query
        (λ db. exists (λ r. r.id == lease.run_id && is_leased lease now.utc_millis r) db.agent_runs)
  require valid (invalid_state (lease_inactive lease.run_id lease.epoch))

unfoldable pub validate_writable_run_lease : RunLease → Clock → Tx (Unit {0})
unfolding validate_run_lease current_status
validate_writable_run_lease lease now = do
  validate_run_lease lease now
  status ← current_status lease.run_id
  require (same_status status running) (invalid_state (not_writable lease.run_id))

-- `COALESCE(MAX(seq), -1) + 1`
abbrev pub after_max : Option ℕ → ℕ
after_max none = 0
after_max (some m) = m + 1

abbrev pub i32_limit : ℕ
i32_limit = 2 ^ 31

abbrev pub i64_limit : ℕ
i64_limit = 2 ^ 63

-- A column that the program reads as an `i32`.
unfoldable pub decode_i32 : ℕ → Tx ℕ
decode_i32 n = do require (ltb n i32_limit) (db_error column_decode); pure n

unfoldable pub max_seq : Uuid → List Event → Option ℕ
max_seq run_id events = max_of (λ e. e.seq) (select (λ e. e.run_id == run_id) events)

unfoldable pub next_event_seq : Uuid → Tx ℕ
unfolding decode_i32
next_event_seq run_id = do decode_i32 (after_max (← query (λ db. max_seq run_id db.events)))

-- `INTEGER PRIMARY KEY`: one more than the largest.
abbrev pub next_id : Option ℕ → ℕ
next_id none = 1
next_id (some m) = m + 1

abbrev pub same_key : Option String → Option String → Bool
same_key (some a) (some b) = str_eq a b
same_key _ _ = false

-- UNIQUE(run_id, seq)
unfoldable pub seq_taken : Uuid → ℕ → List Event → Bool
seq_taken run_id seq = exists (λ e. e.run_id == run_id && e.seq == seq)

-- The unique index on (run_id, idempotency_key), which passes over NULL keys.
unfoldable pub key_taken : Uuid → Option String → List Event → Bool
key_taken run_id key = exists (λ e. e.run_id == run_id && same_key e.idempotency_key key)

abbrev pub new_event : List Event → Uuid → ℕ → EventType → Value → Option String → Clock → Event
new_event events run_id seq event_type payload key now = record {
  id = next_id (max_of (λ e. e.id) events);
  run_id = run_id;
  seq = seq;
  event_type = event_type;
  payload = payload;
  idempotency_key = key;
  created_at = now.current_timestamp;
}

unfoldable pub insert_event : Uuid → ℕ → EventType → Value → Option String → Clock → Tx Event
insert_event run_id seq event_type payload key now = do
  events ← query (λ db. db.events)
  require (not (seq_taken run_id seq events)) (db_error unique_violation)
  require (not (key_taken run_id key events)) (db_error unique_violation)
  require (← query (λ db. has_run run_id db)) (db_error foreign_key_violation)
  let event = new_event events run_id seq event_type payload key now
  modify (λ db. record db { events = event ∷ db.events })
  pure event
