-- ===== src/Valid/Candidates.antt =====
-- `propose_checkpoint_with_lease` and `decide_checkpoint_with_lease` of src/db.rs leave a run at most one
-- candidate.
use zincir.Prelude.{
  ℕ, ◌-◌, ◌≡◌, refl, sym, subst, Bool, true, false, not, ◌&&◌, Option, List, [], ◌∷◌, ◌==◌, String,
  arith, Bool-cases, inl, inr, nat_beq_iff,
}
use zincir.Json.{Value}
use zincir.Types.{
  EventType, invalid_state, has_candidate, not_standalone, Uuid, CheckpointRecord, RunLease,
  CheckpointState,
}
use zincir.Sql.{exists, update, where_set}
use zincir.Sql.Laws.{Unique, exists-update_none}
use zincir.Tables.{Db, Clock, Tx, has_run, query, require, ◌>>=◌, ◌>>◌}
use zincir.Tables.Along.{Along, Preorder, Along-then, Along-pure, Along-query, Along-require}
use zincir.Calls.Frame.Writes.{Same, NotEvents, NotRuns}
use zincir.Calls.Frame.Parts.{insert_event-Same, write_verdict-Same}
use zincir.Tables.Yields.{
  Post, Yields, Keeps, keeps, transaction-Keeps, yields_along, yields_bind, kept_bind, kept_then,
}
use zincir.Store.Reads.{read_rules, Along-next_seq, Along-validate_writable}
use zincir.Store.{validate_writable_run_lease, next_event_seq, insert_event}
use zincir.Checkpoints.{
  state_to_value, has_pending_intent, is_candidate, has_open_candidate, insert_checkpoint,
  new_checkpoint, checkpoint_taken, read_round, write_proposal, propose_checkpoint_with_lease,
  update_candidate, decide_row, write_decision, write_verdict, decide_checkpoint_with_lease,
}

-- An open candidate of the run.
abbrev pub is_open : Uuid → CheckpointRecord → Bool
is_open run_id c = c.run_id == run_id && is_candidate c.status

-- Each run has at most one.
pub record OneOpen (cs : List CheckpointRecord) : Type 0 where
  pub at : (run_id : Uuid) → Unique (is_open run_id) cs

Unique-shrunk :
    (k p : CheckpointRecord → Bool) (f : CheckpointRecord → CheckpointRecord)
    (cs : List CheckpointRecord)
    → ((c : CheckpointRecord) → k (where_set p f c) ≡ true → k c ≡ true)
    → Unique k cs
    → Unique k (update p f cs)
unfolding update
Unique-shrunk k p f [] h u = tt
Unique-shrunk k p f (c ∷ cs) h u =
    (λ e. exists-update_none k p f cs h (u.0 (h c e)), Unique-shrunk k p f cs h u.1)

pub decided-OneOpen :
    (k : ℕ) (a : Bool) (v : Value) (n : ℕ) (now : Clock) (cs : List CheckpointRecord)
    → OneOpen cs
    → OneOpen (update (λ c. c.id == k && is_candidate c.status) (decide_row a v n now) cs)
decided-OneOpen k a v n now cs o = record {
  at = λ run_id.
      Unique-shrunk (is_open run_id) _ (decide_row a v n now) cs (λ c e. ground arith)
        (o.at run_id);
}

pub proposed-OneOpen :
    (c : CheckpointRecord) (cs : List CheckpointRecord)
    → has_open_candidate c.run_id cs ≡ false
    → OneOpen cs
    → OneOpen (c ∷ cs)
unfolding has_open_candidate
proposed-OneOpen c cs h o = record { at = λ run_id. (first_open run_id, o.at run_id) }
  where
    first_open : (run_id : Uuid) → is_open run_id c ≡ true → exists (is_open run_id) cs ≡ false
    first_open run_id e =
        subst (λ k. exists (is_open k) cs ≡ false) ((nat_beq_iff c.run_id run_id).0 (ground arith))
          h

abbrev pub AllOneOpen : Db → Type 0
AllOneOpen db = OneOpen db.checkpoints

abbrev pub all_checkpoints : Db → List CheckpointRecord
all_checkpoints db = db.checkpoints

pub all_checkpoints-NotEvents : NotEvents all_checkpoints
all_checkpoints-NotEvents = record { at = λ db es. refl }

pub checkpoints-NotRuns : NotRuns all_checkpoints
checkpoints-NotRuns = record { at = λ db rs. refl }

-- What only reads or writes events keeps a property of the checkpoints.
Keeps-part :
    {A : Type 0} (P : List CheckpointRecord → Type 0) (m : Tx A)
    → Along (Same all_checkpoints) m
    → Along (Keeps (λ db. P db.checkpoints)) m
Keeps-part P m k = record { at = λ db h. subst P (sym (k.at db)) h }

module _ (run_id : Uuid) where
  -- The property, and no candidate of this run.
  record NoneOpen (cs : List CheckpointRecord) : Type 0 where
    one : OneOpen cs
    closed : has_open_candidate run_id cs ≡ false

  abbrev RunClosed : Db → Type 0
  RunClosed db = NoneOpen db.checkpoints

  insert_checkpoint-OneOpen :
      (round : ℕ) (call : String) (based : ℕ) (state : Value) (now : Clock)
      → Yields RunClosed (insert_checkpoint run_id round call based state now) (λ _. AllOneOpen)
  unfolding insert_checkpoint
  insert_checkpoint-OneOpen round call based state now = record {
    at = λ db h. elim (Bool-cases (checkpoint_taken run_id round call db.checkpoints)) [
      | inl taken ↦ rw taken tt
      | inr free ↦ rw free (elim (Bool-cases (has_run run_id db)) [
        | inl known ↦ rw known (
            proposed-OneOpen (new_checkpoint db.checkpoints run_id round call based state now)
              db.checkpoints h.closed h.one)
        | inr orphan ↦ rw orphan tt
      ])
    ];
  }

  insert_event-OneOpen :
      (seq : ℕ) (t : EventType) (payload : Value) (key : Option String) (now : Clock)
      → Along (Keeps AllOneOpen) (insert_event run_id seq t payload key now)
  insert_event-OneOpen seq t payload key now =
      Keeps-part OneOpen _
        (insert_event-Same all_checkpoints run_id seq t payload key now all_checkpoints-NotEvents)

  read_round-Closed : Along (Keeps RunClosed) (read_round run_id)
  unfolding read_round
  read_round-Closed = search (read_rules, keeps RunClosed)

  write_proposal-OneOpen :
      (call : String) (state : Value) (now : Clock)
      → Yields RunClosed (write_proposal run_id call state now) (λ _. AllOneOpen)
  unfolding write_proposal
  write_proposal-OneOpen call state now = kept_bind (read_round run_id) _ read_round-Closed λ round.
      kept_bind (next_event_seq run_id) _ (Along-next_seq (keeps RunClosed) run_id) λ seq.
        yields_bind (insert_checkpoint run_id round call (seq - 1) state now) _
          (insert_checkpoint-OneOpen round call (seq - 1) state now)
          λ c. yields_along _ (
            Along-then (keeps AllOneOpen) _ _ (insert_event-OneOpen seq _ _ _ now)
              (Along-pure (keeps AllOneOpen) c))

  -- The guard against a second candidate.
  guarded :
      (b : Bool) (call : String) (state : Value) (now : Clock) (db : Db)
      → has_open_candidate run_id db.checkpoints ≡ b
      → OneOpen db.checkpoints
      → Post
          (λ _. AllOneOpen)
          ((require (not b) (invalid_state (has_candidate run_id))
              >> write_proposal run_id call state now)
            db)
  guarded true call state now db e o = tt
  guarded false call state now db e o =
      (write_proposal-OneOpen call state now).at db (record { one = o; closed = e })

  -- The rest of a proposal, from the query for a candidate on.
  abbrev guarded_proposal : String → Value → Clock → Tx CheckpointRecord
  guarded_proposal call state now = do
    pending ← query (λ db. has_open_candidate run_id db.checkpoints)
    require (not pending) (invalid_state (has_candidate run_id))
    write_proposal run_id call state now

  guard-OneOpen :
      (call : String) (state : Value) (now : Clock)
      → Yields AllOneOpen (guarded_proposal call state now) (λ _. AllOneOpen)
  guard-OneOpen call state now = record {
    at = λ db o. guarded (has_open_candidate run_id db.checkpoints) call state now db refl o;
  }

Keeps-one : Preorder (Keeps AllOneOpen)
Keeps-one = keeps AllOneOpen

pub propose-OneOpen :
    (lease : RunLease) (call : String) (state : CheckpointState) (now : Clock)
    → Along (Keeps AllOneOpen) (propose_checkpoint_with_lease lease call state now)
unfolding propose_checkpoint_with_lease
propose-OneOpen lease call state now =
    let checked = λ (standalone : Bool).
      require standalone (invalid_state (not_standalone call))
      >> guarded_proposal lease.run_id call (state_to_value state) now in
    let ask = λ (db : Db). has_pending_intent lease.run_id call db.events in
    transaction-Keeps (validate_writable_run_lease lease now >> (query ask >>= checked)) (
      kept_then (validate_writable_run_lease lease now) (query ask >>= checked)
        (Along-validate_writable Keeps-one lease now)
        (kept_bind (query ask) checked (Along-query Keeps-one ask) λ standalone.
          kept_then (require standalone (invalid_state (not_standalone call))) _
            (Along-require Keeps-one standalone (invalid_state (not_standalone call)))
            (guard-OneOpen lease.run_id call (state_to_value state) now)))

change_candidate-OneOpen :
    (k : ℕ) (a : Bool) (v : Value) (n : ℕ) (now : Clock)
    → Along (Keeps AllOneOpen) (update_candidate k (decide_row a v n now))
unfolding update_candidate
change_candidate-OneOpen k a v n now = record {
  at = λ db. decided-OneOpen k a v n now db.checkpoints;
}

write_verdict-OneOpen :
    (run_id : Uuid) (n : ℕ) (call : String) (id : ℕ) (a : Bool) (v : Value) (now : Clock)
    → Along (Keeps AllOneOpen) (write_verdict run_id n call id a v now)
write_verdict-OneOpen run_id n call id a v now =
    Keeps-part OneOpen _
      (write_verdict-Same all_checkpoints run_id n call id a v now all_checkpoints-NotEvents)

pub decide-OneOpen :
    (lease : RunLease) (id : ℕ) (a : Bool) (v : Value) (now : Clock)
    → Along (Keeps AllOneOpen) (decide_checkpoint_with_lease lease id a v now)
unfolding decide_checkpoint_with_lease write_decision
decide-OneOpen lease id a v now =
    search
      (read_rules, Keeps-one, change_candidate-OneOpen, insert_event-OneOpen, write_verdict-OneOpen)
      depth 20
