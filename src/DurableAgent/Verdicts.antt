-- ===== src/DurableAgent/Verdicts.antt =====
-- The decision on a checkpoint, which is the last step of `create_checkpoint` and `verify_candidate` in
-- examples/durable_agent.rs, answers with the verdict it was given.
use zincir.Prelude.{ℕ, ◌≡◌, refl, Bool, true, false, ◌&&◌, ◌==◌, Option, none, some}
use zincir.Json.{Value}
use zincir.Types.{
  Uuid, RunLease, CheckpointRecord, Error, Result, ok, err, db_error, row_not_found, invalid_state,
  not_candidate,
}
use zincir.Sql.{first}
use zincir.Tables
use zincir.Tables.{Db, Clock, Tx, query, or_raise, transaction, ◌>>=◌, ◌>>◌}
use zincir.Tables.Yields.{
  Post, Always, always, Yields, Yields-transaction, yields_bind, yields_then,
}
use zincir.Store.{validate_writable_run_lease, next_event_seq, insert_event}
use zincir.Checkpoints.{
  is_candidate, is_accepted, decide_row, update_candidate, write_decision, write_verdict,
  decide_checkpoint_with_lease, find_candidate, decision_event, decision_payload, checkpoint_key,
  decision_name,
}

-- The row that was updated, if any, has the verdict.
abbrev HasVerdict : Bool → Option CheckpointRecord → Type 0
HasVerdict a none = Unit {0}
HasVerdict a (some c) = is_accepted c.status ≡ a

decided_verdict :
    (a : Bool) (v : Value) (n : ℕ) (now : Clock) (o : Option CheckpointRecord)
    → HasVerdict a (elim o [ none ↦ none | some c ↦ some (decide_row a v n now c) ])
decided_verdict a v n now none = tt
decided_verdict true v n now (some c) = refl
decided_verdict false v n now (some c) = refl

update_candidate-HasVerdict :
    (id : ℕ) (a : Bool) (v : Value) (n : ℕ) (now : Clock)
    → Yields Always (update_candidate id (decide_row a v n now)) (λ o _. HasVerdict a o)
unfolding update_candidate
update_candidate-HasVerdict id a v n now = record {
  at = λ db _.
      decided_verdict a v n now (first (λ c. c.id == id && is_candidate c.status) db.checkpoints);
}

still : {A : Type 0} (F : Type 0) (r : Result A) (db : Db) → F → Post (λ a _. F) (r, db)
still F (ok a) db f = f
still F (err e) db f = tt

-- A fact that is not about the database.
constant : {A : Type 0} (F : Type 0) (m : Tx A) → Yields (λ _. F) m (λ _ _. F)
constant F m = record { at = λ db f. still F (m db).0 (m db).1 f }

verdict_answered :
    (a : Bool) (o : Option CheckpointRecord) (e : Error)
    → Yields (λ _. HasVerdict a o) (or_raise o e) (λ c _. is_accepted c.status ≡ a)
verdict_answered a none e = record { at = λ db h. tt }
verdict_answered a (some c) e = record { at = λ db h. h }

write_decision-verdict :
    (run_id : Uuid) (c : CheckpointRecord) (id : ℕ) (a : Bool) (v : Value) (now : Clock)
    → Yields Always (write_decision run_id c id a v now) (λ c _. is_accepted c.status ≡ a)
unfolding write_decision
write_decision-verdict run_id c id a v now = yields_bind (next_event_seq run_id) _ (always _) λ n.
    yields_bind _ _ (update_candidate-HasVerdict id a v n now) λ u.
      yields_bind _ _ (verdict_answered a u (db_error row_not_found)) λ c'.
        yields_then
          (insert_event run_id n (decision_event a) (decision_payload id v)
            (some (checkpoint_key id (decision_name a))) now)
          (write_verdict run_id n c.tool_call_id id a v now >> Tables.pure c')
          (constant (is_accepted c'.status ≡ a) _)
          λ _.
            yields_then (write_verdict run_id n c.tool_call_id id a v now) (Tables.pure c')
              (constant (is_accepted c'.status ≡ a) _) λ _. record { at = λ db h. h }

module _ (lease : RunLease) (id : ℕ) (a : Bool) (v : Value) (now : Clock) where
  abbrev look : Tx (Option CheckpointRecord)
  look = query (λ db. find_candidate lease.run_id id db.checkpoints)

  abbrev decide_found : Tx CheckpointRecord
  decide_found = look >>= λ found. or_raise found (invalid_state (not_candidate id)) >>= λ c.
      write_decision lease.run_id c id a v now

  pub decide_checkpoint-verdict :
      Yields Always
        (decide_checkpoint_with_lease lease id a v now)
        (λ c _. is_accepted c.status ≡ a)
  unfolding decide_checkpoint_with_lease
  decide_checkpoint-verdict = Yields-transaction _ (
      yields_then (validate_writable_run_lease lease now) decide_found (always _) λ _.
        yields_bind look _ (always _) λ found.
          yields_bind _ _ (always (or_raise found (invalid_state (not_candidate id))))
            λ c. write_decision-verdict lease.run_id c id a v now)
