-- ===== src/Grows/Log.antt =====
-- Inserting an event only adds to the log.
use zincir.Prelude.{ℕ, refl, Option, List, [], ◌∷◌, String, none, some}
use zincir.Json.{Value}
use zincir.Types.{Uuid, Event, EventType, RunStatus, RunLease}
use zincir.Tables.{Db, Clock, modify}
use zincir.Tables.Along.{Along, Along-bind, Along-then}
use zincir.Store.{insert_event}
use zincir.Store.Reads.{read_rules}
use zincir.Lease.{record_transition}
use zincir.Events.{append_next, insert_intents, add_one, settle_result}
use zincir.Grows.Rows.{Grows, Extends, grows, RunsGrow-refl, TimersGrow-refl}

pub Grows-log :
    (db : Db) (es : List Event) → Extends db.events es → Grows db (record db { events = es })
Grows-log db es x = record {
  log = x;
  runs = RunsGrow-refl db.agent_runs;
  steps = λ run_id name s e _. e;
  timers = TimersGrow-refl db.timers;
  decisions = λ id c e _. e;
  distinct = λ d. d;
  closed = λ k c. c;
}

push_event : (e : Event) → Along Grows (modify (λ db. record db { events = e ∷ db.events }))
push_event e = record { at = λ db. Grows-log db (e ∷ db.events) (e ∷ [], refl) }

ruleset log_rules = (read_rules, grows, push_event)

pub insert_event-Grows :
    (run_id : Uuid) (seq : ℕ) (t : EventType) (payload : Value) (key : Option String) (now : Clock)
    → Along Grows (insert_event run_id seq t payload key now)
unfolding insert_event
insert_event-Grows run_id seq t payload key now = search log_rules depth 12

pub append_next-Grows :
    (run_id : Uuid) (t : EventType) (payload : Value) (key : Option String) (now : Clock)
    → Along Grows (append_next run_id t payload key now)
unfolding append_next
append_next-Grows run_id t payload key now = search (log_rules, insert_event-Grows)

pub record_transition-Grows :
    (run_id : Uuid) (from to : RunStatus) (now : Clock)
    → Along Grows (record_transition run_id from to now)
unfolding record_transition
record_transition-Grows run_id from to now = search (log_rules, insert_event-Grows)

pub add_one-Grows : (n : ℕ) → Along Grows (add_one n)
unfolding add_one
add_one-Grows n = search log_rules

pub insert_intents-Grows :
    (run_id : Uuid) (seq : ℕ) (intents : List (Value × String)) (now : Clock)
    → Along Grows (insert_intents run_id seq intents now)
unfolding insert_intents
insert_intents-Grows run_id seq [] now = search log_rules
insert_intents-Grows run_id seq ((payload, call_id) ∷ rest) now =
    Along-bind grows (add_one seq) _ (add_one-Grows seq) λ n.
      Along-then grows _ _ (insert_event-Grows run_id n _ payload _ now)
        (insert_intents-Grows run_id n rest now)

pub settle_result-Grows :
    (lease : RunLease) (call_id : String) (payload : Value) (n : ℕ) (e : Option Event) (now : Clock)
    → Along Grows (settle_result lease call_id payload n e now)
unfolding settle_result
settle_result-Grows lease call_id payload n (some e) now = search log_rules
settle_result-Grows lease call_id payload n none now = search (log_rules, append_next-Grows)
