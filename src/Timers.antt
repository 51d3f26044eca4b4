-- ===== src/Timers.antt =====
-- The durable timers in src/db.rs.
pub mod Saved
use zincir.Prelude.{ℕ, Bool, ◌&&◌, Option, none, some, String, List, ◌∷◌, leb, ◌==◌, str_eq, map}
use zincir.Types.{
  Uuid, Timestamp, TimerRecord, ok, db_error, check_violation, invalid_state, wake_too_large,
}
use zincir.Sql.{select, first, update, order_by}
use zincir.Tables.{
  TimerRow, Db, Clock, Tx, pure, query, lift, or_raise, ◌>>=◌, ◌>>◌, modify, require, transaction,
}
use zincir.Store.{current_status}
use zincir.Lease.Durations.{Duration, duration_to_millis, checked_add}
use zincir.Steps.{fits_check}

abbrev pub is_timer : Uuid → String → TimerRow → Bool
is_timer run_id name t = t.run_id == run_id && str_eq t.name name

unfoldable pub find_timer : Uuid → String → Db → Option TimerRow
unfolding first
find_timer run_id name db = first (is_timer run_id name) db.timers

abbrev pub new_timer : Uuid → String → ℕ → TimerRow
new_timer run_id name wake_at_ms = record {
  run_id = run_id;
  timer = record { name = name; wake_at_ms = wake_at_ms; completed_at = none };
}

unfoldable pub insert_timer : Uuid → String → ℕ → Tx ℕ
insert_timer run_id name wake_at_ms = do
  require (fits_check name) (db_error check_violation)
  modify (λ db. record db { timers = new_timer run_id name wake_at_ms ∷ db.timers })
  pure wake_at_ms

abbrev pub saved_or_new : Uuid → String → ℕ → Option TimerRow → Tx ℕ
saved_or_new run_id name wake_at_ms none = insert_timer run_id name wake_at_ms
saved_or_new run_id name wake_at_ms (some t) = pure (t.wake_at_ms)

unfoldable pub schedule_timer : Uuid → String → Duration → Clock → Tx ℕ
unfolding current_status insert_timer find_timer
schedule_timer run_id name delay now = do
  delay_ms ← lift (duration_to_millis delay)
  wake_at_ms ← or_raise (checked_add now.utc_millis delay_ms) (invalid_state wake_too_large)
  transaction (do
    current_status run_id
    existing ← query (find_timer run_id name)
    saved_or_new run_id name wake_at_ms existing)

-- `COALESCE(completed_at, CURRENT_TIMESTAMP)`
abbrev first_time : Option Timestamp → Clock → Option Timestamp
first_time none now = some (now.current_timestamp)
first_time (some t) now = some t

abbrev pub finish_timer : Clock → TimerRow → TimerRow
finish_timer now t = record t {
  timer = record (t.timer) { completed_at = first_time t.completed_at now };
}

-- A single statement, with no transaction of its own.
unfoldable pub complete_timer : Uuid → String → Clock → Tx (Unit {0})
unfolding update
complete_timer run_id name now db =
    (ok tt, record db { timers = update (is_timer run_id name) (finish_timer now) db.timers })

abbrev wakes_before : TimerRow → TimerRow → Bool
wakes_before a b = leb a.wake_at_ms b.wake_at_ms

unfoldable pub get_timers : Uuid → Tx (List TimerRecord)
unfolding select order_by
get_timers run_id =
    query (λ db.
      map (λ t. t.timer) (order_by wakes_before (select (λ t. t.run_id == run_id) db.timers)))
