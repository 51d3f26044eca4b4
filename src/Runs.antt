-- ===== src/Runs.antt =====
-- The runs in src/db.rs: `create_run`, `get_run`, `list_runs` and `list_inflight_runs`.
use zincir.Prelude.{
  Bool, true, false, not, ◌||◌, Option, none, some, String, List, ◌∷◌, leb, ◌==◌, map, take,
}
use zincir.Json.{Value}
use zincir.Types.{
  Uuid, RunStatus, pending, running, completed, failed, AgentRun, db_error, unique_violation,
  foreign_key_violation, not_found,
}
use zincir.Sql.{select, order_by}
use zincir.Tables.{
  RunRow, Db, Clock, Tx, pure, query, or_raise, ◌>>=◌, ◌>>◌, modify, require, find_run, has_run,
}

-- `status IN ('pending', 'running')`
abbrev pub is_inflight : RunStatus → Bool
is_inflight pending = true
is_inflight running = true
is_inflight completed = false
is_inflight failed = false

-- `create_run`; the columns that the statement leaves out have the defaults of the schema.
abbrev pub new_run : Uuid → Option Uuid → String → String → Value → Clock → RunRow
new_run id parent role provider config now = record {
  run = record {
    id = id;
    parent_run_id = parent;
    role = role;
    status = pending;
    provider = provider;
    config = config;
    created_at = now.current_timestamp;
    updated_at = now.current_timestamp;
  };
  lease_owner = none;
  lease_epoch = 0;
  lease_expires_at_ms = none;
}

-- `parent_run_id REFERENCES agent_runs(id)`, which may name the row that is inserted.
abbrev pub has_parent : Uuid → Option Uuid → Db → Bool
has_parent id none db = true
has_parent id (some parent) db = parent == id || has_run parent db

unfoldable pub create_run : Uuid → Option Uuid → String → String → Value → Clock → Tx AgentRun
create_run id parent role provider config now = do
  require (not (← query (λ db. has_run id db))) (db_error unique_violation)
  require (← query (λ db. has_parent id parent db)) (db_error foreign_key_violation)
  let row = new_run id parent role provider config now
  modify (λ db. record db { agent_runs = row ∷ db.agent_runs })
  pure (row.run)

unfoldable pub get_run : Uuid → Tx AgentRun
get_run id = do row ← or_raise (← query (λ db. find_run id db)) (not_found id); pure (row.run)

abbrev is_newer : RunRow → RunRow → Bool
is_newer a b = leb b.updated_at a.updated_at

-- `ORDER BY updated_at DESC LIMIT 100`
unfoldable pub list_runs : Tx (List AgentRun)
list_runs = query (λ db. map (λ r. r.run) (take 100 (order_by is_newer db.agent_runs)))

abbrev created_before : RunRow → RunRow → Bool
created_before a b = leb a.created_at b.created_at

unfoldable pub list_inflight_runs : Tx (List AgentRun)
list_inflight_runs = query (λ db.
    map (λ r. r.run) (order_by created_before (select (λ r. is_inflight r.status) db.agent_runs)))
