-- ===== src/Tables.antt =====
-- The tables and the calls on them. A call takes the database to a result and the database that it
-- leaves; a transaction that fails leaves the one that it began with.
pub mod Along
pub mod Answers
pub mod Stops
pub mod Yields
use zincir.Prelude.{ℕ, Bool, true, false, Option, none, some, List, ◌==◌}
use zincir.Types.{
  Uuid, Timestamp, AgentRun, Event, CheckpointRecord, StepRecord, TimerRecord, Error, Result, ok,
  err,
}
use zincir.Sql.{first, exists, count, update}

-- A row of `agent_runs`: the columns of `AgentRun`, and those that migration 0004 adds.
pub record RunRow : Type 0 where
  pub run : AgentRun
  pub open run use *
  pub lease_owner : Option Uuid
  pub lease_epoch : ℕ
  pub lease_expires_at_ms : Option ℕ

pub record StepRow : Type 0 where
  pub run_id : Uuid
  pub step : StepRecord
  pub open step use *

pub record TimerRow : Type 0 where
  pub run_id : Uuid
  pub timer : TimerRecord
  pub open timer use *

pub record Db : Type 0 where
  pub agent_runs : List RunRow
  pub events : List Event
  pub checkpoints : List CheckpointRecord
  pub steps : List StepRow
  pub timers : List TimerRow

-- What a call reads of the time: `Utc::now().timestamp_millis()` and SQLite's `CURRENT_TIMESTAMP`.
pub record Clock : Type 0 where
  pub utc_millis : ℕ
  pub current_timestamp : Timestamp

abbrev pub Tx : Type 0 → Type 0
Tx A = Db → Result A × Db

module _ {A : Type 0} where
  abbrev pub pure : A → Tx A
  pure a db = (ok a, db)

  abbrev pub raise : Error → Tx A
  raise e db = (err e, db)

  abbrev pub query : (Db → A) → Tx A
  query f db = (ok (f db), db)

  abbrev pub lift : Result A → Tx A
  lift r db = (r, db)

  abbrev pub or_raise : Option A → Error → Tx A
  or_raise none e = raise e
  or_raise (some a) e = pure a

infixl 5 ◌>>=◌ ◌>>◌
abbrev pub ◌>>=◌ : {A B : Type 0} → Tx A → (A → Tx B) → Tx B
◌>>=◌ m f db = let (r, db') = m db in elim r [ ok a ↦ f a db' | err e ↦ raise e db' ]

abbrev pub ◌>>◌ : {A B : Type 0} → Tx A → Tx B → Tx B
m >> k = m >>= λ _. k

abbrev pub modify : (Db → Db) → Tx (Unit {0})
modify f db = (ok tt, f db)

-- `if !test { return Err(e) }`
abbrev pub require : Bool → Error → Tx (Unit {0})
require true e = pure tt
require false e = raise e

-- `finish_transaction`: COMMIT, or ROLLBACK to the database at BEGIN IMMEDIATE.
abbrev pub finish_transaction : {A : Type 0} → Db → Result A × Db → Result A × Db
finish_transaction start (ok value, db) = (ok value, db)
finish_transaction start (err error, db) = (err error, start)

abbrev pub transaction : {A : Type 0} → Tx A → Tx A
transaction body start = finish_transaction start (body start)

unfoldable pub find_run : Uuid → Db → Option RunRow
unfolding first
find_run id db = first (λ r. r.id == id) db.agent_runs

unfoldable pub has_run : Uuid → Db → Bool
unfolding exists
has_run id db = exists (λ r. r.id == id) db.agent_runs

-- `UPDATE agent_runs SET f WHERE p`, with the number of rows affected.
unfoldable pub update_runs : (RunRow → Bool) → (RunRow → RunRow) → Tx ℕ
unfolding update count
update_runs p f db =
    (ok (count p db.agent_runs), record db { agent_runs = update p f db.agent_runs })

-- `UPDATE agent_runs SET f WHERE p RETURNING …`: the changed row, where the key makes it one.
unfoldable pub update_run_returning : (RunRow → Bool) → (RunRow → RunRow) → Tx (Option RunRow)
unfolding update first
update_run_returning p f db = (
  ok (elim (first p db.agent_runs) [ none ↦ none | some r ↦ some (f r) ]),
  record db { agent_runs = update p f db.agent_runs },
)
