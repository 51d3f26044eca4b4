-- ===== src/Agent/Payload.antt =====
-- The JSON payloads of src/agent.rs, as serde writes and reads them: `LlmCallPayload`,
-- `ToolCallPayload` with its default, `Verification` and `CheckpointState`.
use zincir.Prelude.{ℕ, ◌≡◌, refl, Bool, Option, none, some, String, List, [], ◌∷◌, map}
use zincir.Json.{
  Value, Elements, bool, num, str, arr, obj, no_element, element, end, field, get, array,
}
use zincir.Types.{ToolCall, CheckpointState, Result, ok, err, json_error}
use zincir.Checkpoints.{texts, state_to_value}

pub record Verification : Type 0 where
  pub passed : Bool
  pub evidence : Value

pub record PendingToolCall : Type 0 where
  pub call : ToolCall
  pub response_tool_count : ℕ

abbrev pub verification_to_value : Verification → Value
verification_to_value v = obj (field "evidence" v.evidence (field "passed" (bool v.passed) end))

abbrev pub call_to_value : ToolCall → Value
call_to_value c = obj (field "args" c.args (field "id" (str c.id) (field "name" (str c.name) end)))

abbrev pub llm_call_payload : Value → List ToolCall → String → Value
llm_call_payload content tool_calls stop_reason = obj (
    field "content" content (
      field "stop_reason" (str stop_reason)
        (field "tool_calls" (arr (array (map call_to_value tool_calls))) end)))

abbrev pub tool_call_payload : ℕ → ToolCall → Value
tool_call_payload response_tool_count call = obj (
    field "args" call.args (
      field "call_id" (str call.id)
        (field "name" (str call.name) (field "response_tool_count" (num response_tool_count) end))))

infixl 5 ◌>>=◌
abbrev ◌>>=◌ : {A B : Type 0} → Result A → (A → Result B) → Result B
ok a >>= f = f a
err e >>= f = err e

abbrev required : String → Value → Result Value
required k v = elim (get k v) [ none ↦ err json_error | some x ↦ ok x ]

abbrev as_text : Value → Result String
as_text (str s) = ok s
as_text _ = err json_error

-- A `usize`; `null` is no number, and a missing key is the default.
abbrev count_or_one : Option Value → Result ℕ
count_or_one none = ok 1
count_or_one (some (num n)) = ok n
count_or_one (some _) = err json_error

abbrev read_pending : Value → Value → Value → Option Value → Result PendingToolCall
read_pending call_id name args count = do
  id ← as_text call_id
  name ← as_text name
  n ← count_or_one count
  ok (record { call = record { id = id; name = name; args = args }; response_tool_count = n })

-- `serde_json::from_value` of a `ToolCallPayload`, and the `PendingToolCall` made of it. Serde also reads
-- a struct from an array of its fields, in the order of their declaration.
unfoldable pub pending_call : Value → Result PendingToolCall
pending_call (arr (element id (element name (element args no_element)))) =
    read_pending id name args none
pending_call (arr (element id (element name (element args (element count no_element))))) =
    read_pending id name args (some count)
pending_call v = do
  id ← required "call_id" v
  name ← required "name" v
  args ← required "args" v
  read_pending id name args (get "response_tool_count" v)

abbrev each_text : Elements → Result (List String)
each_text no_element = ok []
each_text (element v vs) = as_text v >>= λ s. each_text vs >>= λ ss. ok (s ∷ ss)

abbrev as_texts : Value → Result (List String)
as_texts (arr vs) = each_text vs
as_texts _ = err json_error

abbrev state_of : Value → Value → Value → Value → Value → Result CheckpointState
state_of completed remaining artifacts failed_attempts evidence = do
  completed ← as_texts completed
  remaining ← as_texts remaining
  artifacts ← as_texts artifacts
  failed_attempts ← as_texts failed_attempts
  evidence ← as_texts evidence
  ok (record {
    completed = completed;
    remaining = remaining;
    artifacts = artifacts;
    failed_attempts = failed_attempts;
    evidence = evidence;
  })

-- `serde_json::from_value` of a `CheckpointState`, from an object or from an array of its five fields.
unfoldable pub state_from_value : Value → Result CheckpointState
state_from_value (arr (element a (element b (element c (element d (element e no_element)))))) =
    state_of a b c d e
state_from_value v = do
  completed ← required "completed" v
  remaining ← required "remaining" v
  artifacts ← required "artifacts" v
  failed_attempts ← required "failed_attempts" v
  evidence ← required "evidence" v
  state_of completed remaining artifacts failed_attempts evidence

each_text-texts : (ss : List String) → each_text (texts ss) ≡ ok ss
each_text-texts [] = refl
each_text-texts (s ∷ ss) = rw (each_text-texts ss) refl

-- `from_value` reads what `to_value` writes.
pub state_from_value-state_to_value :
    (s : CheckpointState) → state_from_value (state_to_value s) ≡ ok s
unfolding state_from_value
state_from_value-state_to_value s =
    rw
      (
        each_text-texts s.artifacts,
        each_text-texts s.completed,
        each_text-texts s.evidence,
        each_text-texts s.failed_attempts,
        each_text-texts s.remaining,
      )
      refl
