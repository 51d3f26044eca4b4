-- ===== src/Types.antt =====
-- src/types.rs and src/error.rs: statuses, event types, the rows and the errors.
pub mod Names
use zincir.Prelude.{ℕ, Option, Bool, String, List}
use zincir.Json.{Value}

-- A run, an owner or a claim is identified by a UUID, which the program compares and orders.
abbrev pub Uuid : Type 0
Uuid = ℕ

-- A timestamp of SQLite (`CURRENT_TIMESTAMP`), or milliseconds since the epoch (`i64`).
abbrev pub Timestamp : Type 0
Timestamp = ℕ

pub data RunStatus : Type 0 where
  pending running completed failed : RunStatus

pub data EventType : Type 0 where
  llm_call tool_call tool_result state_transition : EventType
  checkpoint_proposed checkpoint_accepted checkpoint_rejected : EventType

-- The TEXT columns `checkpoints.status` and `steps.status`, which the schema's CHECK restricts.
pub data CheckpointStatus : Type 0 where
  candidate accepted rejected : CheckpointStatus

pub data StepStatus : Type 0 where
  waiting active done : StepStatus

-- What an `Error::InvalidState` says; each constructor stands for one message of the source, with
-- the values that the message prints.
pub data Reason : Type 0 where
  unknown_run_status unknown_event_type : String → Reason
  terminal_run already_owned not_writable has_candidate : Uuid → Reason
  lease_too_large delay_too_large wake_too_large : Reason
  lease_inactive lease_not_owned : Uuid → ℕ → Reason
  not_standalone no_intent conflicting_result : String → Reason
  not_candidate : ℕ → Reason
  checkpoint_result : Reason
  step_running claim_lost : String → Uuid → Reason
  bad_step_name ttl_too_short poll_interval_zero concurrency_zero : Reason
  heartbeat_failed : String → Reason
  not_loopback schema_incomplete : Reason
  invalid_address : String → Reason
  -- A message that code of the application wrote.
  other_reason : String → Reason

-- `sqlx::Error`: a constraint of the schema that a statement broke, no row where one was required,
-- or a column that does not decode at the type that the program asks for.
pub data DbError : Type 0 where
  unique_violation foreign_key_violation check_violation row_not_found column_decode : DbError

pub data Error : Type 0 where
  db_error : DbError → Error
  json_error migrate io : Error
  tool : String → Error
  not_found : Uuid → Error
  invalid_state : Reason → Error
  -- No variant of the source: an addition of `i32` overflows and panics, which ends the call.
  panicked : Error

pub data Result (A : Type 0) : Type 0 where
  ok : A → Result A
  err : Error → Result A

pub record AgentRun : Type 0 where
  pub id : Uuid
  pub parent_run_id : Option Uuid
  pub role : String
  pub status : RunStatus
  pub provider : String
  pub config : Value
  pub created_at : Timestamp
  pub updated_at : Timestamp

pub record Event : Type 0 where
  pub id : ℕ
  pub run_id : Uuid
  pub seq : ℕ
  pub event_type : EventType
  pub payload : Value
  pub idempotency_key : Option String
  pub created_at : Timestamp

pub record RunLease : Type 0 where
  pub run_id : Uuid
  pub owner_id : Uuid
  pub epoch : ℕ
  pub expires_at_ms : ℕ

pub record CheckpointState : Type 0 where
  pub completed : List String
  pub remaining : List String
  pub artifacts : List String
  pub failed_attempts : List String
  pub evidence : List String

pub record CheckpointRecord : Type 0 where
  pub id : ℕ
  pub run_id : Uuid
  pub round : ℕ
  pub tool_call_id : String
  pub based_on_event_seq : ℕ
  pub decision_event_seq : Option ℕ
  pub status : CheckpointStatus
  pub state : Value
  pub verification : Option Value
  pub created_at : Timestamp
  pub decided_at : Option Timestamp

pub record StepRecord : Type 0 where
  pub name : String
  pub status : StepStatus
  pub owner_id : Option Uuid
  pub result : Option Value
  pub started_at : Timestamp
  pub completed_at : Option Timestamp

pub record TimerRecord : Type 0 where
  pub name : String
  pub wake_at_ms : ℕ
  pub completed_at : Option Timestamp

pub record ToolCall : Type 0 where
  pub id : String
  pub name : String
  pub args : Value

-- Equality tests of the two enums (`PartialEq`).
abbrev pub same_status : RunStatus → RunStatus → Bool
same_status pending pending = Bool.true
same_status running running = Bool.true
same_status completed completed = Bool.true
same_status failed failed = Bool.true
same_status _ _ = Bool.false

abbrev pub same_type : EventType → EventType → Bool
same_type llm_call llm_call = Bool.true
same_type tool_call tool_call = Bool.true
same_type tool_result tool_result = Bool.true
same_type state_transition state_transition = Bool.true
same_type checkpoint_proposed checkpoint_proposed = Bool.true
same_type checkpoint_accepted checkpoint_accepted = Bool.true
same_type checkpoint_rejected checkpoint_rejected = Bool.true
same_type _ _ = Bool.false
