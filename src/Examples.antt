-- ===== src/Examples.antt =====
-- Databases, leases and calls for the checks of examples.
mod Agents
mod Claims
mod DurableRuns
mod Histories
mod Leases
mod Pages
mod ToolResults
mod Workflows
use zincir.Prelude.{ℕ, Option, none, some, List, [], ◌∷◌, String}
use zincir.Json.{Value, Fields, null, str, num, obj, field, end}
use zincir.Types.{
  Uuid, RunStatus, running, pending, RunLease, Event, EventType, llm_call, tool_call,
}
use zincir.Tables.{RunRow, Db, Clock}
use zincir.Lease.Durations.{Duration}

abbrev pub noon : Clock
noon = record { utc_millis = 1000; current_timestamp = 1 }

abbrev pub evening : Clock
evening = record { utc_millis = 5000; current_timestamp = 5 }

abbrev pub one_second : Duration
one_second = record { secs = 1; nanos = 0 }

-- Run 1 as owner 8 holds it, under epoch 2, until 2000 ms.
abbrev pub claimed_run : RunRow
claimed_run = record {
  run = record {
    id = 1;
    parent_run_id = none;
    role = "coder";
    status = running;
    provider = "stub";
    config = null;
    created_at = 1;
    updated_at = 1;
  };
  lease_owner = some 8;
  lease_epoch = 2;
  lease_expires_at_ms = some 2000;
}

abbrev pub call_event : Event
call_event = record {
  id = 1;
  run_id = 1;
  seq = 0;
  event_type = tool_call;
  payload = obj (
      field "args" null (
        field "call_id" (str "a")
          (field "name" (str "write") (field "response_tool_count" (num 1) end))));
  idempotency_key = some "tool_call:a";
  created_at = 1;
}

abbrev pub claimed_db : Db
claimed_db = record {
  agent_runs = claimed_run ∷ [];
  events = call_event ∷ [];
  checkpoints = [];
  steps = [];
  timers = [];
}

abbrev pub lease_1 : RunLease
lease_1 = record { run_id = 1; owner_id = 7; epoch = 1; expires_at_ms = 2000 }

abbrev pub lease_2 : RunLease
lease_2 = record { run_id = 1; owner_id = 8; epoch = 2; expires_at_ms = 2000 }
