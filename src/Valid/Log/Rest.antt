-- ===== src/Valid/Log/Rest.antt =====
-- The calls on checkpoints, steps and timers keep the log numbered.
use zincir.Prelude.{
  ℕ, ◌+◌, ◌-◌, ◌≡◌, refl, sym, ◌∙◌, subst, Bool, true, false, ltb, Option, none, some, String, ◌∷◌,
}
use zincir.Json.{Value}
use zincir.Types.{
  Error, tool_result, checkpoint_proposed, db_error, row_not_found, Uuid, RunLease,
  CheckpointRecord, CheckpointState, StepStatus, done, active,
}
use zincir.Tables.{StepRow, TimerRow, Db, Clock, Tx, modify, pure, ◌>>◌, or_raise}
use zincir.Tables.Along.{Preorder, Along, along_rules, Along-or_raise}
use zincir.Tables.Yields.{Yields, Keeps, yields_bind, yields_then, yields_along, kept_bind}
use zincir.Sql.{exists}
use zincir.Store.{next_event_seq, i32_limit}
use zincir.Events.{add_one, is_too_large}
use zincir.Lease.Durations.{Duration}
use zincir.Checkpoints.{
  read_round, write_verdict, proposal_payload, checkpoint_key, verdict_payload, decide_row,
  decision_event, decision_payload, decision_name, insert_checkpoint, write_proposal,
  propose_checkpoint_with_lease, update_candidate, write_decision, decide_checkpoint_with_lease,
}
use zincir.Steps.{
  restart_step, claim_existing, insert_step, claim_row, claim_step, complete_step, recover_steps,
}
use zincir.Timers.{insert_timer, saved_or_new, schedule_timer, complete_timer}
use zincir.Valid.Log.{Numbered, count_events}
use zincir.Valid.Log.Numbering.{
  numbered_after, LogNumbered, Past, Next, next_event_seq-Next, insert_event-Next, add_one-Next,
}
use zincir.Valid.Log.Kept.{other_tables, yields_rules}

abbrev SameEvents : Db → Db → Type 0
SameEvents a b = b.events ≡ a.events

same_events : Preorder SameEvents
same_events = record { reflexive = λ a. refl; transitive = λ a b c f g. g ∙ f }

push_checkpoint-SameEvents :
    (c : CheckpointRecord)
    → Along SameEvents (modify (λ db. record db { checkpoints = c ∷ db.checkpoints }))
push_checkpoint-SameEvents c = record { at = λ db. refl }

insert_checkpoint-SameEvents :
    (run_id : Uuid) (round : ℕ) (call : String) (n : ℕ) (state : Value) (now : Clock)
    → Along SameEvents (insert_checkpoint run_id round call n state now)
unfolding insert_checkpoint
insert_checkpoint-SameEvents run_id round call n state now =
    search (along_rules, same_events, push_checkpoint-SameEvents) depth 10

update_candidate-SameEvents :
    (id : ℕ) (f : CheckpointRecord → CheckpointRecord) → Along SameEvents (update_candidate id f)
unfolding update_candidate
update_candidate-SameEvents id f = record { at = λ db. refl }

-- Writes of other tables leave a number the next one.
Next-kept :
    {A : Type 0} (run_id : Uuid) (n : ℕ) (m : Tx A)
    → Along SameEvents m
    → Yields (Next run_id n) m (λ _. Next run_id n)
Next-kept run_id n m k = yields_along m (record {
  at = λ db h.
      subst
        (λ es.
          ((Numbered es × (exists is_too_large es ≡ false)) × (n ≡ count_events run_id es))
          × (ltb n i32_limit ≡ true))
        (sym (k.at db)) h;
})

Next-pure :
    {A : Type 0} (run_id : Uuid) (n : ℕ) (a : A)
    → Yields (Past run_id n) (pure a) (λ _. LogNumbered)
Next-pure run_id n a = record { at = λ db h. h.0 }

Next-or_raise :
    {A : Type 0} (run_id : Uuid) (n : ℕ) (o : Option A) (e : Error)
    → Yields (Next run_id n) (or_raise o e) (λ _. Next run_id n)
Next-or_raise run_id n o e = Next-kept run_id n _ (Along-or_raise same_events o e)

Next-insert_checkpoint :
    (run_id : Uuid) (n : ℕ) (id : Uuid) (round : ℕ) (call : String) (k : ℕ) (state : Value)
    (now : Clock)
    → Yields (Next run_id n) (insert_checkpoint id round call k state now) (λ _. Next run_id n)
Next-insert_checkpoint run_id n id round call k state now =
    Next-kept run_id n _ (insert_checkpoint-SameEvents id round call k state now)

Next-update_candidate :
    (run_id : Uuid) (n : ℕ) (id : ℕ) (f : CheckpointRecord → CheckpointRecord)
    → Yields (Next run_id n) (update_candidate id f) (λ _. Next run_id n)
Next-update_candidate run_id n id f = Next-kept run_id n _ (update_candidate-SameEvents id f)

read_round-Log : (run_id : Uuid) → Along (Keeps LogNumbered) (read_round run_id)
unfolding read_round
read_round-Log run_id = search other_tables

write_proposal-Log :
    (run_id : Uuid) (call : String) (state : Value) (now : Clock)
    → Yields LogNumbered (write_proposal run_id call state now) (λ _. LogNumbered)
unfolding write_proposal
write_proposal-Log run_id call state now =
    kept_bind (read_round run_id) _ (read_round-Log run_id) λ round.
      yields_bind (next_event_seq run_id) _ (next_event_seq-Next run_id) λ n.
        yields_bind _ _ (Next-insert_checkpoint run_id n run_id round call (n - 1) state now) λ c.
          yields_then _ (pure c)
            (insert_event-Next run_id n checkpoint_proposed (proposal_payload c.id round state)
              (some (checkpoint_key c.id "proposed")) now)
            λ _. Next-pure run_id (n + 1) c

pub propose_checkpoint-Log :
    (lease : RunLease) (call : String) (state : CheckpointState) (now : Clock)
    → Along (Keeps LogNumbered) (propose_checkpoint_with_lease lease call state now)
unfolding propose_checkpoint_with_lease
propose_checkpoint-Log lease call state now =
    search (yields_rules, write_proposal-Log) depth 12 fits 20000

write_verdict-Log :
    (run_id : Uuid) (n : ℕ) (call : String) (id : ℕ) (a : Bool) (v : Value) (now : Clock)
    → Yields (Past run_id (n + 1)) (write_verdict run_id n call id a v now) (λ _. LogNumbered)
unfolding write_verdict
write_verdict-Log run_id n call id a v now = yields_bind (add_one n) _ (add_one-Next run_id n) λ k.
    numbered_after run_id (k + 1) (Next run_id k) _ (
      insert_event-Next run_id k tool_result (verdict_payload call a v)
        (some (checkpoint_key id "tool_result")) now)

write_decision-Log :
    (run_id : Uuid) (c : CheckpointRecord) (id : ℕ) (a : Bool) (v : Value) (now : Clock)
    → Yields LogNumbered (write_decision run_id c id a v now) (λ _. LogNumbered)
unfolding write_decision
write_decision-Log run_id c id a v now =
    yields_bind (next_event_seq run_id) _ (next_event_seq-Next run_id) λ n.
      yields_bind _ _ (Next-update_candidate run_id n id (decide_row a v n now)) λ u.
        yields_bind _ _ (Next-or_raise run_id n u (db_error row_not_found)) λ c'.
          yields_then _ (write_verdict run_id n c.tool_call_id id a v now >> pure c')
            (insert_event-Next run_id n (decision_event a) (decision_payload id v)
              (some (checkpoint_key id (decision_name a))) now)
            λ _.
              yields_then _ (pure c') (write_verdict-Log run_id n c.tool_call_id id a v now)
                λ _. record { at = λ db h. h }

pub decide_checkpoint-Log :
    (lease : RunLease) (id : ℕ) (a : Bool) (v : Value) (now : Clock)
    → Along (Keeps LogNumbered) (decide_checkpoint_with_lease lease id a v now)
unfolding decide_checkpoint_with_lease
decide_checkpoint-Log lease id a v now = search (yields_rules, write_decision-Log) depth 8

restart_step-Log :
    (run_id : Uuid) (name : String) (owner_id : Uuid) (now : Clock)
    → Along (Keeps LogNumbered) (restart_step run_id name owner_id now)
unfolding restart_step
restart_step-Log run_id name owner_id now = search other_tables

claim_existing-Log :
    (run_id : Uuid) (name : String) (owner_id : Uuid) (now : Clock) (s : StepStatus)
    (v : Option Value)
    → Along (Keeps LogNumbered) (claim_existing run_id name owner_id now s v)
unfolding claim_existing
claim_existing-Log run_id name owner_id now done (some v) = search other_tables
claim_existing-Log run_id name owner_id now active v = search other_tables
claim_existing-Log run_id name owner_id now _ _ = search (other_tables, restart_step-Log)

claim_row-Log :
    (run_id : Uuid) (name : String) (owner_id : Uuid) (now : Clock) (o : Option StepRow)
    → Along (Keeps LogNumbered) (claim_row run_id name owner_id now o)
unfolding insert_step
claim_row-Log run_id name owner_id now none = search other_tables
claim_row-Log run_id name owner_id now (some s) = search (other_tables, claim_existing-Log)

pub claim_step-Log :
    (run_id : Uuid) (name : String) (owner_id : Uuid) (now : Clock)
    → Along (Keeps LogNumbered) (claim_step run_id name owner_id now)
unfolding claim_step
claim_step-Log run_id name owner_id now = search (other_tables, claim_row-Log) depth 8

pub complete_step-Log :
    (run_id : Uuid) (name : String) (owner_id : Uuid) (v : Value) (now : Clock)
    → Along (Keeps LogNumbered) (complete_step run_id name owner_id v now)
unfolding complete_step
complete_step-Log run_id name owner_id v now = search other_tables depth 8

pub recover_steps-Log :
    (run_id : Uuid) (now : Clock) → Along (Keeps LogNumbered) (recover_steps run_id now)
unfolding recover_steps
recover_steps-Log run_id now = search other_tables depth 8

saved_or_new-Log :
    (run_id : Uuid) (name : String) (w : ℕ) (o : Option TimerRow)
    → Along (Keeps LogNumbered) (saved_or_new run_id name w o)
unfolding insert_timer
saved_or_new-Log run_id name w none = search other_tables
saved_or_new-Log run_id name w (some t) = search other_tables

pub schedule_timer-Log :
    (run_id : Uuid) (name : String) (delay : Duration) (now : Clock)
    → Along (Keeps LogNumbered) (schedule_timer run_id name delay now)
unfolding schedule_timer
schedule_timer-Log run_id name delay now = search (other_tables, saved_or_new-Log) depth 10

pub complete_timer-Log :
    (run_id : Uuid) (name : String) (now : Clock)
    → Along (Keeps LogNumbered) (complete_timer run_id name now)
unfolding complete_timer
complete_timer-Log run_id name now = record { at = λ db h. h }
