-- ===== src/Grows/Leased.antt =====
-- The calls on events and checkpoints: the log is only added to, and no decision is taken back.
use zincir.Prelude.{
  true, ℕ, ◌≤◌, ◌≡◌, ap, ◌∙◌, Bool, Option, none, some, List, [], ◌∷◌, String, ◌==◌, arith, ◌&&◌,
  Bool-cases, inl, inr,
}
use zincir.Json.{Value}
use zincir.Types.{Uuid, EventType, Event, RunLease, CheckpointRecord, CheckpointState}
use zincir.Sql.{exists, first, update, max_of}
use zincir.Sql.Laws.{exists-update, exists-update_none, first-update, set_found}
use zincir.Tables.{Db, Clock, has_run}
use zincir.Tables.Along.{Along}
use zincir.Store.Reads.{read_rules}
use zincir.Events.{
  append_event, append_event_with_lease, append_llm_call_with_tool_intents_with_lease,
  record_tool_result_with_lease, is_checkpoint_tool, record_for,
}
use zincir.Json.{SqlValue, text, json}
use zincir.Checkpoints.{
  is_candidate, insert_checkpoint, write_proposal, write_decision, read_round, write_verdict,
  new_checkpoint, checkpoint_taken, propose_checkpoint_with_lease, update_candidate, decide_row,
  decide_checkpoint_with_lease,
}
use zincir.Grows.Rows.{
  Closed, Grows, DecisionsGrow, grows, Extends-refl, RunsGrow-refl, TimersGrow-refl,
}
use zincir.Grows.Log.{
  insert_event-Grows, append_next-Grows, insert_intents-Grows, settle_result-Grows, add_one-Grows,
}

ruleset event_rules = (
  read_rules, grows, insert_event-Grows, append_next-Grows, insert_intents-Grows,
  settle_result-Grows, add_one-Grows,
)

pub append_event-Grows :
    (run_id : Uuid) (t : EventType) (payload : Value) (key : Option String) (now : Clock)
    → Along Grows (append_event run_id t payload key now)
unfolding append_event
append_event-Grows run_id t payload key now = search event_rules depth 8

pub append_event_with_lease-Grows :
    (lease : RunLease) (t : EventType) (payload : Value) (key : Option String) (now : Clock)
    → Along Grows (append_event_with_lease lease t payload key now)
unfolding append_event_with_lease
append_event_with_lease-Grows lease t payload key now = search event_rules depth 8

pub append_llm_call-Grows :
    (lease : RunLease) (payload : Value) (intents : List (Value × String)) (now : Clock)
    → Along Grows (append_llm_call_with_tool_intents_with_lease lease payload intents now)
unfolding append_llm_call_with_tool_intents_with_lease
append_llm_call-Grows lease payload intents now = search event_rules depth 8

is_checkpoint_tool-Grows : (v : SqlValue) → Along Grows (is_checkpoint_tool v)
is_checkpoint_tool-Grows (text name) = search event_rules
is_checkpoint_tool-Grows (json v) = search event_rules
is_checkpoint_tool-Grows _ = search event_rules

record_for-Grows :
    (lease : RunLease) (call_id : String) (content : Value) (e : Event) (now : Clock)
    → Along Grows (record_for lease call_id content e now)
unfolding record_for
record_for-Grows lease call_id content e now =
    search (event_rules, is_checkpoint_tool-Grows) depth 8

pub record_tool_result-Grows :
    (lease : RunLease) (call_id : String) (content : Value) (now : Clock)
    → Along Grows (record_tool_result_with_lease lease call_id content now)
unfolding record_tool_result_with_lease
record_tool_result-Grows lease call_id content now = search (event_rules, record_for-Grows) depth 8

Grows-decisions :
    (db : Db) (cs : List CheckpointRecord)
    → DecisionsGrow db.checkpoints cs
    → ((k : ℕ) → Closed k db.checkpoints → Closed k cs)
    → Grows db (record db { checkpoints = cs })
Grows-decisions db cs x keep = record {
  log = Extends-refl db.events;
  runs = RunsGrow-refl db.agent_runs;
  steps = λ run_id name s e _. e;
  timers = TimersGrow-refl db.timers;
  decisions = x;
  distinct = λ d. d;
  closed = keep;
}

-- A row identifier in the table is below the next one.
abbrev BelowMax : ℕ → Option ℕ → Type 0
BelowMax n none = ⊥
BelowMax n (some m) = n ≤ m

id-BelowMax :
    (id : ℕ) (cs : List CheckpointRecord) (c : CheckpointRecord)
    → first (λ x. x.id == id) cs ≡ some c
    → BelowMax id (max_of (λ x. x.id) cs)
unfolding first max_of
id-BelowMax id [] c e = cc
id-BelowMax id (x ∷ cs) c e = ground (arith, id-BelowMax id cs c)

insert_checkpoint-DecisionsGrow :
    (cs : List CheckpointRecord) (run_id : Uuid) (round : ℕ) (call : String) (based : ℕ)
    (state : Value) (now : Clock)
    → DecisionsGrow cs (new_checkpoint cs run_id round call based state now ∷ cs)
unfolding first
insert_checkpoint-DecisionsGrow cs run_id round call based state now id c e d =
    ground (arith, id-BelowMax id cs c e)

used_below :
    (id : ℕ) (cs : List CheckpointRecord)
    → exists (λ x. x.id == id) cs ≡ true
    → BelowMax id (max_of (λ x. x.id) cs)
unfolding exists max_of
used_below id [] e = cc
used_below id (x ∷ cs) e = ground (arith, used_below id cs)

insert_checkpoint-Closed :
    (cs : List CheckpointRecord) (run_id : Uuid) (round : ℕ) (call : String) (based : ℕ)
    (state : Value) (now : Clock) (k : ℕ)
    → Closed k cs
    → Closed k (new_checkpoint cs run_id round call based state now ∷ cs)
unfolding exists
insert_checkpoint-Closed cs run_id round call based state now k (used, none_open) =
    (ground (arith, used), ground (arith, used_below k cs used, none_open))

insert_checkpoint-Grows :
    (run_id : Uuid) (round : ℕ) (call : String) (based : ℕ) (state : Value) (now : Clock)
    → Along Grows (insert_checkpoint run_id round call based state now)
unfolding insert_checkpoint
insert_checkpoint-Grows run_id round call based state now = record {
  at = λ db. elim (Bool-cases (checkpoint_taken run_id round call db.checkpoints)) [
    | inl taken ↦ rw taken (grows.reflexive db)
    | inr free ↦ rw free (elim (Bool-cases (has_run run_id db)) [
      | inl known ↦ rw known (
          Grows-decisions db _
            (insert_checkpoint-DecisionsGrow db.checkpoints run_id round call based state now)
            (insert_checkpoint-Closed db.checkpoints run_id round call based state now))
      | inr orphan ↦ rw orphan (grows.reflexive db)
    ])
  ];
}

update_candidate-DecisionsGrow :
    (cs : List CheckpointRecord) (k : ℕ) (a : Bool) (v : Value) (n : ℕ) (now : Clock)
    → DecisionsGrow cs (update (λ c. c.id == k && is_candidate c.status) (decide_row a v n now) cs)
update_candidate-DecisionsGrow cs k a v n now id c e d =
    first-update (λ x. x.id == id) _ (decide_row a v n now) cs (λ x. ground arith)
    ∙ ap (set_found _ (decide_row a v n now)) e
    ∙ ground arith

update_candidate-Closed :
    (cs : List CheckpointRecord) (k : ℕ) (a : Bool) (v : Value) (n : ℕ) (now : Clock) (j : ℕ)
    → Closed j cs
    → Closed j (update (λ c. c.id == k && is_candidate c.status) (decide_row a v n now) cs)
update_candidate-Closed cs k a v n now j (used, none_open) = (
  exists-update (λ c. c.id == j) _ (decide_row a v n now) cs (λ x. ground arith) ∙ used,
  exists-update_none (λ c. c.id == j && is_candidate c.status) _ (decide_row a v n now) cs
      (λ x e. ground arith) none_open,
)

update_candidate-Grows :
    (k : ℕ) (a : Bool) (v : Value) (n : ℕ) (now : Clock)
    → Along Grows (update_candidate k (decide_row a v n now))
unfolding update_candidate
update_candidate-Grows k a v n now = record {
  at = λ db.
      Grows-decisions db _ (update_candidate-DecisionsGrow db.checkpoints k a v n now)
        (update_candidate-Closed db.checkpoints k a v n now);
}

ruleset checkpoint_rules = (event_rules, insert_checkpoint-Grows, update_candidate-Grows)

read_round-Grows : (run_id : Uuid) → Along Grows (read_round run_id)
unfolding read_round
read_round-Grows run_id = search event_rules

pub write_verdict-Grows :
    (run_id : Uuid) (n : ℕ) (call : String) (id : ℕ) (a : Bool) (v : Value) (now : Clock)
    → Along Grows (write_verdict run_id n call id a v now)
unfolding write_verdict
write_verdict-Grows run_id n call id a v now = search event_rules

ruleset writing_rules = (checkpoint_rules, read_round-Grows, write_verdict-Grows)

write_proposal-Grows :
    (run_id : Uuid) (call : String) (state : Value) (now : Clock)
    → Along Grows (write_proposal run_id call state now)
unfolding write_proposal
write_proposal-Grows run_id call state now = search writing_rules depth 12

pub propose_checkpoint-Grows :
    (lease : RunLease) (call : String) (state : CheckpointState) (now : Clock)
    → Along Grows (propose_checkpoint_with_lease lease call state now)
unfolding propose_checkpoint_with_lease
propose_checkpoint-Grows lease call state now =
    search (checkpoint_rules, write_proposal-Grows) depth 12

write_decision-Grows :
    (run_id : Uuid) (c : CheckpointRecord) (id : ℕ) (a : Bool) (v : Value) (now : Clock)
    → Along Grows (write_decision run_id c id a v now)
unfolding write_decision
write_decision-Grows run_id c id a v now = search writing_rules depth 16

pub decide_checkpoint-Grows :
    (lease : RunLease) (id : ℕ) (a : Bool) (verification : Value) (now : Clock)
    → Along Grows (decide_checkpoint_with_lease lease id a verification now)
unfolding decide_checkpoint_with_lease
decide_checkpoint-Grows lease id a verification now =
    search (checkpoint_rules, write_decision-Grows) depth 8
