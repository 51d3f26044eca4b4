-- ===== src/Examples/DurableRuns.antt =====
-- The durable agent on concrete worlds: two processes of its tool, and a checkpoint that it verifies.
use zincir.Prelude.{ℕ, zero, suc, ◌≡◌, refl, inr, none, some, List, [], ◌∷◌, String, true, decimal}
use zincir.Json.{Value, bool, str, obj, field, end}
use zincir.Types.{ToolCall, CheckpointState, CheckpointRecord, ok}
use zincir.Sql.{max_of, first, exists, select, update, count}
use zincir.Tables.{find_run, has_run, update_runs}
use zincir.Store.{
  current_status, next_event_seq, insert_event, validate_run_lease, validate_writable_run_lease,
  max_seq, decode_i32, seq_taken, key_taken,
}
use zincir.Events.{add_one}
use zincir.Agent.{from_lease}
use zincir.Agent.Payload.{verification_to_value, state_from_value}
use zincir.Agent.Session.{verify_checkpoint, prepare_lease_operation, ensure_healthy, renew}
use zincir.Lease.{renew_run_lease}
use zincir.Lease.Durations.{duration_to_millis}
use zincir.Checkpoints.{
  state_to_value, decide_checkpoint_with_lease, decide_row, find_candidate, write_decision,
  write_verdict, update_candidate, get_checkpoint_candidate_with_lease,
}
use zincir.DurableAgent.Process.{World, file_of, is_some}
use zincir.DurableAgent.{verify, verify_candidate}
use zincir.DurableAgent.Verified.{accepted-file_of}
use zincir.DurableAgent.Tool.{
  opening, staged, returned, advance, System, set_phase, act, Reach, here, next, initial, act_on,
  tool_result_of,
}
use zincir.DurableAgent.Tool.Agreement.{execute_write_file-agree}
use zincir.DurableAgent.Tool.Progress.{execute_write_file-finishes, answer_of}
use zincir.Examples.{claimed_db, lease_2, one_second, noon}
use zincir.Examples.Workflows.{open_checkpoint}

abbrev call_with : String → ToolCall
call_with content = record {
  id = "call_1";
  name = "write_file";
  args = obj (field "content" (str content) end);
}

-- The two processes have other contents for the call.
abbrev contents : ℕ → ToolCall
contents zero = call_with "hello"
contents (suc n) = call_with "goodbye"

abbrev acted : System → ℕ → System
acted s p = record {
  file = (advance (contents p) s.file (s.phase p)).0;
  phase = set_phase s.phase p (advance (contents p) s.file (s.phase p)).1;
}

abbrev after : List ℕ → System → System
after [] s = s
after (p ∷ ps) s = acted (after ps s) p

reached : (ps : List ℕ) (s : System) → Reach contents s (after ps s)
reached [] s = here
reached (p ∷ ps) s = next (reached ps s) (act (after ps s) p)

-- Both look for a result and find none; process 0 publishes first.
abbrev first_returned : System
first_returned = after (0 ∷ 0 ∷ 1 ∷ 0 ∷ 1 ∷ 0 ∷ []) (initial none)

abbrev both_returned : System
both_returned = after (1 ∷ 1 ∷ 1 ∷ []) first_returned

abbrev hello : Value
hello = obj (field "content" (str "hello") (field "ok" (bool true) end))

first_phase : first_returned.phase 0 ≡ returned (ok hello)
unfolding advance tool_result_of
first_phase = refl

second_phase : both_returned.phase 1 ≡ returned (ok hello)
unfolding advance tool_result_of
second_phase = refl

execute_write_file-agree_example : (hello ≡ hello) × (both_returned.file ≡ some hello)
execute_write_file-agree_example =
    execute_write_file-agree contents none first_returned both_returned 0 1 hello hello
      (reached (0 ∷ 0 ∷ 1 ∷ 0 ∷ 1 ∷ 0 ∷ []) (initial none))
      (reached (1 ∷ 1 ∷ 1 ∷ []) first_returned) first_phase second_phase

execute_write_file-finishes_example :
    (act_on (call_with "goodbye") (none ∷ none ∷ some hello ∷ some hello ∷ some hello ∷ []) opening
      ≡ returned (answer_of (call_with "goodbye") none (some hello) (some hello)))
    × ((advance
          (call_with "goodbye")
          (some hello)
          (staged (tool_result_of (call_with "goodbye")))).0
        ≡ some hello)
execute_write_file-finishes_example =
    execute_write_file-finishes (call_with "goodbye") none none (some hello) (some hello)
      (some hello) []

abbrev finished : CheckpointState
finished = record {
  completed = "Wrote the requested file" ∷ [];
  remaining = [];
  artifacts = [];
  failed_attempts = [];
  evidence = [];
}

abbrev proposed : CheckpointRecord
proposed = record open_checkpoint { state = state_to_value finished }

abbrev proposed_world : World
proposed_world = record {
  context = from_lease lease_2 one_second;
  db = record claimed_db { checkpoints = proposed ∷ [] };
  files = ("call_1", hello) ∷ [];
  readings = 0;
}

abbrev accepted : CheckpointRecord
accepted =
    decide_row true (verification_to_value (verify "call_1.json" proposed_world.files finished)) 1
      noon proposed

verified : (verify_candidate (λ n. noon) "call_1.json" proposed proposed_world).0 ≡ ok accepted
unfolding verify_candidate verify_checkpoint prepare_lease_operation ensure_healthy renew
    renew_run_lease duration_to_millis get_checkpoint_candidate_with_lease state_from_value verify
    decide_checkpoint_with_lease validate_writable_run_lease validate_run_lease current_status
    find_candidate write_decision write_verdict update_candidate next_event_seq max_seq decode_i32
    insert_event seq_taken key_taken has_run find_run add_one first exists select update max_of
    count decimal update_runs
verified = refl

accepted-file_of_example : is_some (file_of "call_1" (("call_1", hello) ∷ [])) ≡ true
accepted-file_of_example =
    accepted-file_of (λ n. noon) "call_1.json" "a" finished proposed accepted proposed_world
      (inr verified) refl
