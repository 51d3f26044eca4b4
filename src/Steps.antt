-- ===== src/Steps.antt =====
-- The named steps in src/db.rs.
pub mod Held
pub mod Once
use Prim.Native.Char.{code}
use Prim.Native.String
use zincir.Prelude.{
  ℕ, suc, Bool, true, false, ◌&&◌, if◌then◌else◌, Option, none, some, String, List, ◌∷◌, leb, ◌==◌,
  str_eq, is_some_eq, map,
}
use zincir.Json.{Value}
use zincir.Types.{
  Uuid, StepStatus, waiting, active, done, StepRecord, ok, db_error, check_violation, invalid_state,
  step_running, claim_lost,
}
use zincir.Sql.{select, first, update, count, order_by}
use zincir.Tables.{
  StepRow, Db, Clock, Tx, pure, raise, query, ◌>>=◌, ◌>>◌, modify, require, transaction,
}
use zincir.Store.{current_status}

-- SQLite's `length` of a text: its characters before the first U+0000.
unfoldable pub sql_length : String → ℕ
sql_length String.[] = 0
sql_length (String.◌∷◌ c s) = let rest = sql_length s in if code c == 0 then 0 else suc rest

-- `CHECK (length(name) BETWEEN 1 AND 255)`
unfoldable pub fits_check : String → Bool
unfolding sql_length
fits_check name = leb 1 (sql_length name) && leb (sql_length name) 255

abbrev pub is_step : Uuid → String → StepRow → Bool
is_step run_id name s = s.run_id == run_id && str_eq s.name name

unfoldable pub find_step : Uuid → String → Db → Option StepRow
unfolding first
find_step run_id name db = first (is_step run_id name) db.steps

abbrev pub is_waiting : StepStatus → Bool
is_waiting waiting = true
is_waiting active = false
is_waiting done = false

abbrev pub is_active : StepStatus → Bool
is_active waiting = false
is_active active = true
is_active done = false

-- `UPDATE steps SET f WHERE p`, with the number of rows affected.
unfoldable pub update_steps : (StepRow → Bool) → (StepRow → StepRow) → Tx ℕ
unfolding update count
update_steps p f db = (ok (count p db.steps), record db { steps = update p f db.steps })

abbrev pub start_step : Uuid → Clock → StepRow → StepRow
start_step owner_id now s = record s {
  step = record (s.step) {
    status = active;
    owner_id = some owner_id;
    started_at = now.current_timestamp;
  };
}

abbrev pub new_step : Uuid → String → Uuid → Clock → StepRow
new_step run_id name owner_id now = record {
  run_id = run_id;
  step = record {
    name = name;
    status = active;
    owner_id = some owner_id;
    result = none;
    started_at = now.current_timestamp;
    completed_at = none;
  };
}

-- `UPDATE … WHERE run_id = ? AND name = ? AND status = 'pending'`
unfoldable pub restart_step : Uuid → String → Uuid → Clock → Tx (Option Value)
unfolding update_steps
restart_step run_id name owner_id now = do
  update_steps (λ s. is_step run_id name s && is_waiting s.status) (start_step owner_id now)
  pure none

-- The arms of `match existing` on the status and the result of the step.
unfoldable pub claim_existing :
    Uuid → String → Uuid → Clock → StepStatus → Option Value → Tx (Option Value)
unfolding restart_step
claim_existing run_id name owner_id now done (some result) = pure (some result)
claim_existing run_id name owner_id now active _ = raise (invalid_state (step_running name run_id))
claim_existing run_id name owner_id now _ _ = restart_step run_id name owner_id now

unfoldable pub insert_step : Uuid → String → Uuid → Clock → Tx (Option Value)
insert_step run_id name owner_id now = do
  require (fits_check name) (db_error check_violation)
  modify (λ db. record db { steps = new_step run_id name owner_id now ∷ db.steps })
  pure none

abbrev pub claim_row : Uuid → String → Uuid → Clock → Option StepRow → Tx (Option Value)
claim_row run_id name owner_id now none = insert_step run_id name owner_id now
claim_row run_id name owner_id now (some s) =
    claim_existing run_id name owner_id now s.status s.result

unfoldable pub claim_step : Uuid → String → Uuid → Clock → Tx (Option Value)
unfolding current_status claim_existing insert_step find_step
claim_step run_id name owner_id now = transaction (do
  current_status run_id
  existing ← query (find_step run_id name)
  claim_row run_id name owner_id now existing)

abbrev pub finish_step : Value → Clock → StepRow → StepRow
finish_step value now s = record s {
  step = record (s.step) {
    status = done;
    result = some value;
    completed_at = some (now.current_timestamp);
  };
}

abbrev pub is_claimed_by : Uuid → StepRow → Bool
is_claimed_by owner_id s = is_active s.status && is_some_eq s.owner_id owner_id

unfoldable pub complete_step : Uuid → String → Uuid → Value → Clock → Tx (Unit {0})
unfolding update_steps
complete_step run_id name owner_id value now = transaction (do
  rows ←
      update_steps (λ s. is_step run_id name s && is_claimed_by owner_id s) (finish_step value now)
  require (rows == 1) (invalid_state (claim_lost name run_id)))

abbrev pub free_step : StepRow → StepRow
free_step s = record s { step = record (s.step) { status = waiting; owner_id = none } }

unfoldable pub recover_steps : Uuid → Clock → Tx (Unit {0})
unfolding current_status update_steps
recover_steps run_id now = transaction (do
  current_status run_id
  update_steps (λ s. s.run_id == run_id && is_active s.status) free_step
  pure tt)

abbrev started_before : StepRow → StepRow → Bool
started_before a b = leb a.started_at b.started_at

unfoldable pub get_steps : Uuid → Tx (List StepRecord)
unfolding select order_by
get_steps run_id =
    query (λ db.
      map (λ s. s.step) (order_by started_before (select (λ s. s.run_id == run_id) db.steps)))
