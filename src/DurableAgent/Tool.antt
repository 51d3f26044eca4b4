-- ===== src/DurableAgent/Tool.antt =====
-- `execute_write_file` of examples/durable_agent.rs: the tool, which several processes may run for one
-- call, publishes its result by a hard link that only one of them can make. The shared state is the
-- file of the result; a temporary file has a fresh name, so it is its process's own.
pub mod Agreement
pub mod Progress
use zincir.Prelude.{
  ℕ, zero, suc, Option, none, some, ◌==◌, if◌then◌else◌, List, [], ◌∷◌, Bool, true, false,
}
use zincir.Json.{Value, null, bool, obj, field, end, get}
use zincir.Types.{ToolCall, Error, tool, io, Result, ok, err}

-- Where a process stands.
pub data Phase : Type 0 where
  -- Before `read_json` looks for a result, and once it found none.
  opening missing : Phase
  -- The result is written and synced under the temporary name.
  staged : Value → Phase
  -- `hard_link` answered `AlreadyExists`.
  already_exists : Phase
  -- The published result is known, and the temporary file is to be removed.
  published : Value → Phase
  returned : Result Value → Phase

-- `json!({ "ok": true, "content": … })`
unfoldable pub tool_result_of : ToolCall → Value
tool_result_of call = obj (
    field "content" (elim (get "content" call.args) [ none ↦ null | some v ↦ v ])
      (field "ok" (bool true) end))

abbrev pub found_or : Phase → Option Value → Phase
found_or otherwise none = otherwise
found_or otherwise (some v) = returned (ok v)

abbrev reread : Option Value → Phase
reread none = returned (err (tool "result disappeared"))
reread (some v) = published v

-- `fs::hard_link`, which makes the name unless it is there.
abbrev link : Value → Option Value → Option Value × Phase
link v none = (some v, published v)
link v (some w) = (some w, already_exists)

-- One action of a process on the file of the result.
unfoldable pub advance : ToolCall → Option Value → Phase → Option Value × Phase
unfolding tool_result_of
advance call file opening = (file, found_or missing file)
advance call file missing = (file, staged (tool_result_of call))
advance call file (staged v) = link v file
advance call file already_exists = (file, reread file)
advance call file (published v) = (file, returned (ok v))
advance call file (returned r) = (file, returned r)

-- The actions of one process, which finds the file as the others leave it at each of them.
unfoldable pub act_on : ToolCall → List (Option Value) → Phase → Phase
unfolding advance
act_on call [] phase = phase
act_on call (file ∷ files) phase = act_on call files (advance call file phase).1

-- A process alone, for a number of actions.
unfoldable pub run_alone : ToolCall → Option Value → Phase → ℕ → Option Value × Phase
unfolding advance
run_alone call file phase zero = (file, phase)
run_alone call file phase (suc n) =
    let (file', phase') = advance call file phase in run_alone call file' phase' n

pub record System : Type 0 where
  pub file : Option Value
  pub phase : ℕ → Phase

abbrev pub set_phase : (ℕ → Phase) → ℕ → Phase → ℕ → Phase
set_phase phases p x q = if q == p then x else phases q

abbrev pub is_finished : Phase → Bool
is_finished (returned r) = true
is_finished _ = false

-- The processes have calls of one id, by which the file of the result is named.
-- A process acts, or a file operation of it fails with an I/O error, or it starts again after a crash.
pub data Step (calls : ℕ → ToolCall) : System → System → Type 0 where
  act :
      (s : System) (p : ℕ)
      → Step calls s (record {
        file = (advance (calls p) s.file (s.phase p)).0;
        phase = set_phase s.phase p (advance (calls p) s.file (s.phase p)).1;
      })
  io_error :
      (s : System) (p : ℕ)
      → Step calls s (record s { phase = set_phase s.phase p (returned (err io)) })
  restart : (s : System) (p : ℕ) → Step calls s (record s { phase = set_phase s.phase p opening })

pub data Reach (calls : ℕ → ToolCall) (s : System) : System → Type 0 where
  here : Reach calls s s
  next : {t u : System} → Reach calls s t → Step calls t u → Reach calls s u

-- Every process is about to look for the result.
abbrev pub initial : Option Value → System
initial file = record { file = file; phase = λ p. opening }
