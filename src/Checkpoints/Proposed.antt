-- ===== src/Checkpoints/Proposed.antt =====
-- A proposed checkpoint of src/db.rs, as the calls of a later decision find it.
use zincir.Prelude.{
  ℕ, ◌≡◌, refl, ap, ◌∙◌, some, String, ◌==◌, ◌&&◌, arith, nat_beq_iff, Bool-cases, inl, inr, ◌-◌,
  not, Bool,
}
use zincir.Json.{Value}
use zincir.Types.{
  Uuid, RunLease, CheckpointRecord, CheckpointState, checkpoint_proposed, invalid_state,
  not_candidate, has_candidate, not_standalone, lease_too_large, lease_inactive,
}
use zincir.Sql.{first, max_of}
use zincir.Calls.Frame.Writes.{Same, same, write_rules}
use zincir.Calls.Frame.Parts.{insert_event-Same}
use zincir.Valid.Candidates.{all_checkpoints, all_checkpoints-NotEvents, checkpoints-NotRuns}
use zincir.Tables.{
  Db, Clock, Tx, query, or_raise, transaction, lift, has_run, pure, require, update_runs, ◌>>=◌,
  ◌>>◌,
}
use zincir.Tables.Along.{Along}
use zincir.Tables.Yields.{
  Always, always, Yields, Yields-transaction, yields_bind, yields_then, Keeps, kept_then,
}
use zincir.Store.{validate_writable_run_lease, next_event_seq, insert_event, next_id}
use zincir.Store.Reads.{Along-validate_writable}
use zincir.Lease.{renew_run_lease, is_renewable, expire_at}
use zincir.Lease.Durations.{Duration, duration_to_millis, checked_add}
use zincir.Checkpoints.{
  find_candidate, insert_checkpoint, write_proposal, propose_checkpoint_with_lease, state_to_value,
  read_round, checkpoint_taken, proposal_payload, checkpoint_key, has_open_candidate,
  has_pending_intent, get_checkpoint_candidate_with_lease,
}

-- The checkpoint is a candidate of the run that is found by its id, and has this state.
pub record IsProposed (run_id : Uuid) (state : Value) (c : CheckpointRecord) (db : Db)
    : Type 0 where
  pub found : find_candidate run_id c.id db.checkpoints ≡ some c
  pub stored : c.state ≡ state

insert-IsProposed :
    (run_id : Uuid) (round : ℕ) (call : String) (based : ℕ) (state : Value) (now : Clock)
    → Yields Always (insert_checkpoint run_id round call based state now) (IsProposed run_id state)
unfolding insert_checkpoint find_candidate first
insert-IsProposed run_id round call based state now = record {
  at = λ db _. elim (Bool-cases (checkpoint_taken run_id round call db.checkpoints)) [
    | inl taken ↦ rw taken tt
    | inr free ↦ rw free (elim (Bool-cases (has_run run_id db)) [
      | inl known ↦ rw known (record {
        found = ground (
          arith,
          (nat_beq_iff run_id run_id).1 refl,
          (nat_beq_iff (next_id (max_of (λ c. c.id) db.checkpoints))
                (next_id (max_of (λ c. c.id) db.checkpoints))).1
              refl,
        );
        stored = refl;
      })
      | inr orphan ↦ rw orphan tt
    ])
  ];
}

-- What leaves the checkpoints keeps it.
pub Keeps-IsProposed :
    {A : Type 0} (run_id : Uuid) (state : Value) (c : CheckpointRecord) (m : Tx A)
    → Along (Same all_checkpoints) m
    → Along (Keeps (IsProposed run_id state c)) m
Keeps-IsProposed run_id state c m k = record {
  at = λ db h. record {
    found = ap (find_candidate run_id c.id) (k.at db) ∙ h.found;
    stored = h.stored;
  };
}

write-IsProposed :
    (run_id : Uuid) (call : String) (state : Value) (now : Clock)
    → Yields Always (write_proposal run_id call state now) (IsProposed run_id state)
unfolding write_proposal
write-IsProposed run_id call state now = yields_bind (read_round run_id) _ (always _) λ round.
    yields_bind (next_event_seq run_id) _ (always _) λ seq.
      yields_bind (insert_checkpoint run_id round call (seq - 1) state now) _
        (insert-IsProposed run_id round call (seq - 1) state now)
        λ c.
          kept_then
            (insert_event run_id seq checkpoint_proposed (proposal_payload c.id round state)
              (some (checkpoint_key c.id "proposed")) now)
            (pure c)
            (Keeps-IsProposed run_id state c _ (
              insert_event-Same all_checkpoints run_id seq checkpoint_proposed _ _ now
                all_checkpoints-NotEvents))
            (record { at = λ db h. h })

pub propose-IsProposed :
    (lease : RunLease) (call : String) (state : CheckpointState) (now : Clock)
    → Yields Always
        (propose_checkpoint_with_lease lease call state now)
        (IsProposed lease.run_id (state_to_value state))
unfolding propose_checkpoint_with_lease
propose-IsProposed lease call state now =
    let write = write_proposal lease.run_id call (state_to_value state) now in
    let alone =
      λ (p : Bool). require (not p) (invalid_state (has_candidate lease.run_id)) >> write in
    let ask = query (λ (db : Db). has_open_candidate lease.run_id db.checkpoints) in
    let guarded =
      λ (b : Bool). require b (invalid_state (not_standalone call)) >> (ask >>= alone) in
    let look = query (λ (db : Db). has_pending_intent lease.run_id call db.events) in
    Yields-transaction _ (
      yields_then (validate_writable_run_lease lease now) (look >>= guarded) (always _) λ _.
        yields_bind look guarded (always _) λ b.
          yields_then (require b (invalid_state (not_standalone call))) (ask >>= alone) (always _)
            λ _. yields_bind ask alone (always _) λ p.
              yields_then (require (not p) (invalid_state (has_candidate lease.run_id))) write
                (always _) λ _. write-IsProposed lease.run_id call (state_to_value state) now)

module _ (lease : RunLease) (ttl : Duration) (now : Clock) where
  abbrev renewal : ℕ → Tx RunLease
  renewal ttl_ms = do
    expires_at_ms ← or_raise (checked_add now.utc_millis ttl_ms) (invalid_state lease_too_large)
    rows ←
        update_runs (λ r. r.id == lease.run_id && is_renewable lease now.utc_millis r)
          (expire_at expires_at_ms now)
    require (rows == 1) (invalid_state (lease_inactive lease.run_id lease.epoch))
    pure (record lease { expires_at_ms = expires_at_ms })

  abbrev OfRun : RunLease → Db → Type 0
  OfRun l db = l.run_id ≡ lease.run_id

  -- A renewed lease is of the same run.
  pub renew-Yields : Yields Always (renew_run_lease lease ttl now) OfRun
  unfolding renew_run_lease
  renew-Yields =
      yields_bind (lift (duration_to_millis ttl)) (λ t. transaction (renewal t)) (always _)
        λ t. Yields-transaction _ (
          yields_bind (or_raise (checked_add now.utc_millis t) (invalid_state lease_too_large)) _
            (always _)
            λ e.
              yields_bind
                (update_runs (λ r. r.id == lease.run_id && is_renewable lease now.utc_millis r)
                  (expire_at e now))
                _ (always _)
                λ rows.
                  yields_then
                    (require (rows == 1) (invalid_state (lease_inactive lease.run_id lease.epoch)))
                    (pure (record lease { expires_at_ms = e })) (always _)
                    λ _. record { at = λ db h. refl })

  pub renew-Same : Along (Same all_checkpoints) (renew_run_lease lease ttl now)
  unfolding renew_run_lease
  renew-Same = search (write_rules, checkpoints-NotRuns) depth 16

module _ (run_id : Uuid) (state : Value) (c : CheckpointRecord) where
  abbrev found_again : RunLease → Tx CheckpointRecord
  found_again lease = do
    found ← query (λ db. find_candidate lease.run_id c.id db.checkpoints)
    or_raise found (invalid_state (not_candidate c.id))

  again :
      (lease : RunLease)
      → lease.run_id ≡ run_id
      → Yields (IsProposed run_id state c) (found_again lease) (λ x _. x ≡ c)
  again lease e = record {
    at = λ db h. ground (arith, h.found, ap (λ i. find_candidate i c.id db.checkpoints) e);
  }

  pub get-Yields :
      (lease : RunLease) (now : Clock)
      → lease.run_id ≡ run_id
      → Yields
          (IsProposed run_id state c)
          (get_checkpoint_candidate_with_lease lease c.id now)
          (λ x _. x ≡ c)
  unfolding get_checkpoint_candidate_with_lease
  get-Yields lease now e = Yields-transaction _ (
      kept_then (validate_writable_run_lease lease now) (found_again lease)
        (Keeps-IsProposed run_id state c _
          (Along-validate_writable (same all_checkpoints) lease now))
        (again lease e))
