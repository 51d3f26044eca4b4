-- ===== src/Checkpoints/Settled.antt =====
-- Decisions on checkpoints in src/db.rs: after a decision no row of the checkpoint is a candidate.
use zincir.Prelude.{
  ℕ, ◌≡◌, refl, ap, ◌∙◌, Bool, true, false, Option, none, some, List, [], ◌∷◌, ◌==◌, ◌&&◌, arith,
}
use zincir.Json.{Value}
use zincir.Types.{
  Uuid, CheckpointRecord, RunLease, Result, ok, err, Error, db_error, row_not_found, invalid_state,
  not_candidate,
}
use zincir.Sql.{first, exists, update}
use zincir.Sql.Laws.{exists-update, exists_mono, first-none, exists-first, exists-and_false}
use zincir.Tables.{Db, Clock, Tx, query, or_raise, pure, ◌>>◌, ◌>>=◌}
use zincir.Tables.Along.{Along, Preorder}
use zincir.Tables.Yields.{
  Always, always, Yields-transaction, Yields, yields_bind, yields_then, yields_along,
}
use zincir.Tables.Answers.{Fails-bind, Fails-then, Fails-or_raise, Fails-later, Stops-rollback}
use zincir.Store.{next_event_seq, validate_writable_run_lease}
use zincir.Store.Reads.{Along-validate_writable}
use zincir.Lease.Refusals.{Refused}
use zincir.Grows.Rows.{Grows, Closed}
use zincir.Grows.Log.{insert_event-Grows}
use zincir.Grows.Leased.{write_verdict-Grows}
use zincir.Checkpoints.{
  is_candidate, decide_row, update_candidate, write_decision, write_verdict, decision_event,
  decision_payload, decision_name, checkpoint_key, find_candidate, decide_checkpoint_with_lease,
}

no_candidate :
    (k : ℕ) (a : Bool) (v : Value) (n : ℕ) (now : Clock) (cs : List CheckpointRecord)
    → exists
        (λ c. c.id == k && is_candidate c.status)
        (update (λ c. c.id == k && is_candidate c.status) (decide_row a v n now) cs)
      ≡ false
unfolding exists update
no_candidate k a v n now [] = refl
no_candidate k a v n now (c ∷ cs) = ground (arith, no_candidate k a v n now cs)

module _ (k : ℕ) where
  abbrev IsClosed : Db → Type 0
  IsClosed db = Closed k db.checkpoints

  keeps_IsClosed : {A : Type 0} (m : Tx A) → Along Grows m → Yields IsClosed m (λ _. IsClosed)
  keeps_IsClosed m g = yields_along m (record { at = λ db c. (g.at db).closed k c })

  was_found :
      (cs : List CheckpointRecord) (o : Option CheckpointRecord)
      (f : CheckpointRecord → CheckpointRecord) (c : CheckpointRecord)
      → first (λ x. x.id == k && is_candidate x.status) cs ≡ o
      → (elim o [ none ↦ none | some x ↦ some (f x) ]) ≡ some c
      → exists (λ x. x.id == k) cs ≡ true
  was_found cs none f c q e = absurd cc
  was_found cs (some x) f c q e = not_absent (exists (λ x. x.id == k) cs) refl
    where
      not_absent : (b : Bool) → exists (λ x. x.id == k) cs ≡ b → exists (λ x. x.id == k) cs ≡ true
      not_absent true h = h
      not_absent false h = cc (
        exists-first (λ x. x.id == k && is_candidate x.status) cs x q,
        exists-and_false (λ x. x.id == k) (λ x. is_candidate x.status) cs h,
      )

  decided :
      (a : Bool) (v : Value) (n : ℕ) (now : Clock)
      → Yields Always
          (update_candidate k (decide_row a v n now))
          (λ u db. (c : CheckpointRecord) → u ≡ some c → IsClosed db)
  unfolding update_candidate
  decided a v n now = record {
    at = λ db _ c e. (
      exists-update (λ x. x.id == k) _ (decide_row a v n now) db.checkpoints (λ x. ground arith)
          ∙ was_found db.checkpoints _ (decide_row a v n now) c refl e,
      no_candidate k a v n now db.checkpoints,
    );
  }

  answered :
      (u : Option CheckpointRecord) (e : Error)
      → Yields
          (λ db. (c : CheckpointRecord) → u ≡ some c → IsClosed db)
          (or_raise u e)
          (λ _. IsClosed)
  answered none e = record { at = λ db h. tt }
  answered (some c) e = record { at = λ db h. h c refl }

  write_decision-Closed :
      (run_id : Uuid) (c : CheckpointRecord) (a : Bool) (v : Value) (now : Clock)
      → Yields Always (write_decision run_id c k a v now) (λ _. IsClosed)
  unfolding write_decision
  write_decision-Closed run_id c a v now = yields_bind (next_event_seq run_id) _ (always _) λ n.
      yields_bind _ _ (decided a v n now) λ u.
        yields_bind _ _ (answered u (db_error row_not_found)) λ c'.
          yields_then _ (write_verdict run_id n c.tool_call_id k a v now >> pure c')
            (keeps_IsClosed _ (
              insert_event-Grows run_id n (decision_event a) (decision_payload k v)
                (some (checkpoint_key k (decision_name a))) now))
            λ _.
              yields_then _ (pure c')
                (keeps_IsClosed _ (write_verdict-Grows run_id n c.tool_call_id k a v now))
                λ _. record { at = λ db h. h }

  -- What `decide_checkpoint_with_lease` does under a lease that is valid.
  abbrev look : RunLease → Tx (Option CheckpointRecord)
  look lease = query (λ db. find_candidate lease.run_id k db.checkpoints)

  abbrev decide_found : RunLease → Bool → Value → Clock → Tx CheckpointRecord
  decide_found lease a v now = look lease >>= λ found.
      or_raise found (invalid_state (not_candidate k)) >>= λ c.
      write_decision lease.run_id c k a v now

  pub decide_checkpoint-Closed :
      (lease : RunLease) (a : Bool) (v : Value) (now : Clock)
      → Yields Always (decide_checkpoint_with_lease lease k a v now) (λ _. IsClosed)
  unfolding decide_checkpoint_with_lease
  decide_checkpoint-Closed lease a v now = Yields-transaction _ (
      yields_then (validate_writable_run_lease lease now) (decide_found lease a v now) (always _)
        λ _. yields_bind (look lease) _ (always _) λ found.
          yields_bind _ _ (always (or_raise found (invalid_state (not_candidate k))))
            λ c. write_decision-Closed lease.run_id c a v now)

abbrev SameDb : Db → Db → Type 0
SameDb a b = b ≡ a

same_db : Preorder SameDb
same_db = record { reflexive = λ a. refl; transitive = λ a b c f g. g ∙ f }

-- A decision on a checkpoint that is closed is refused, whatever lease it shows.
module _ (lease : RunLease) (k : ℕ) (a : Bool) (v : Value) (now : Clock) (db : Db)
    (closed : Closed k db.checkpoints) where
  not_found_again : find_candidate lease.run_id k db.checkpoints ≡ none
  unfolding find_candidate
  not_found_again =
      first-none (λ c. c.id == k && (c.run_id == lease.run_id && is_candidate c.status))
        db.checkpoints
        (exists_mono (λ c. c.id == k && is_candidate c.status) _ db.checkpoints
          (λ c h. ground arith) closed.1)

  pub decide_closed-Refused : Refused (decide_checkpoint_with_lease lease k a v now) db
  unfolding decide_checkpoint_with_lease
  decide_closed-Refused =
      checked (validate_writable_run_lease lease now db).0
        (validate_writable_run_lease lease now db).1 refl
        ((Along-validate_writable same_db lease now).at db)
    where
      checked :
          (r : Result (Unit {0})) (after : Db)
          → validate_writable_run_lease lease now db ≡ (r, after)
          → after ≡ db
          → Refused (decide_checkpoint_with_lease lease k a v now) db
      checked (err e) after q same = (
        e,
        (Stops-rollback (validate_writable_run_lease lease now >> decide_found k lease a v now) (
            Fails-bind (validate_writable_run_lease lease now) (λ _. decide_found k lease a v now)
              (record { at = ap (λ (x : Result (Unit {0}) × Db). x.0) q }))).at,
      )
      checked (ok u) after q same = (
        invalid_state (not_candidate k),
        (Stops-rollback (validate_writable_run_lease lease now >> decide_found k lease a v now) (
            Fails-then (validate_writable_run_lease lease now) (decide_found k lease a v now)
              (record { at = q ∙ ap (λ (x : Db). (ok tt, x)) same })
              (Fails-later (look k lease)
                (λ found. or_raise found (invalid_state (not_candidate k)) >>= λ c.
                  write_decision lease.run_id c k a v now)
                (record { at = refl })
                (Fails-bind
                  (or_raise (find_candidate lease.run_id k db.checkpoints)
                    (invalid_state (not_candidate k)))
                  (λ c. write_decision lease.run_id c k a v now)
                  (Fails-or_raise (find_candidate lease.run_id k db.checkpoints)
                    (invalid_state (not_candidate k)) not_found_again))))).at,
      )
