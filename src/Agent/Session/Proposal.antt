-- ===== src/Agent/Session/Proposal.antt =====
-- What the verifier of `AgentContext::checkpoint` in src/agent.rs is given.
use zincir.Prelude.{◌≡◌, refl, sym, ap, ◌∙◌, String}
use zincir.Types.{Uuid, RunLease, CheckpointRecord, CheckpointState, Result, ok, err}
use zincir.Tables.{Db, Clock}
use zincir.Tables.Yields.{Post}
use zincir.Lease.{renew_run_lease}
use zincir.Checkpoints.{
  state_to_value, propose_checkpoint_with_lease, get_checkpoint_candidate_with_lease,
  decide_checkpoint_with_lease,
}
use zincir.Checkpoints.Proposed.{IsProposed, Keeps-IsProposed, renew-Yields, renew-Same, get-Yields}
use zincir.Agent.{AgentContext}
use zincir.Agent.Payload.{
  Verification, verification_to_value, state_from_value, state_from_value-state_to_value,
}
use zincir.Agent.Session.{
  Act, lift, verify_checkpoint, prepare_lease_operation, ensure_healthy, renew, renewed, with_lease,
  ◌>>=◌, ◌>>◌,
}

-- A fact about the value and what a method leaves, when it succeeds.
abbrev OnOk :
    {A : Type 0} → (A → AgentContext × Db → Type 0) → Result A × (AgentContext × Db) → Type 0
OnOk P (ok a, s) = P a s
OnOk P (err e, s) = Unit {0}

module _ {A B : Type 0} (f g : A → Act B) (P : A → AgentContext × Db → Type 0)
    (alike : (a : A) (s : AgentContext × Db) → P a s → f a s ≡ g a s) where
  continued :
      (r : Result A × (AgentContext × Db)) → OnOk P r → ((λ _. r) >>= f) r.1 ≡ ((λ _. r) >>= g) r.1
  continued (ok a, s) p = alike a s p
  continued (err e, s) p = refl

  -- Two continuations that agree on what a method gives.
  same_bind : (m : Act A) (s : AgentContext × Db) → OnOk P (m s) → (m >>= f) s ≡ (m >>= g) s
  same_bind m s p = continued (m s) p

module _ (run_id : Uuid) (state : CheckpointState) (c : CheckpointRecord) where
  record Ready (ctx : AgentContext) (db : Db) : Type 0 where
    of_run : ctx.lease.run_id ≡ run_id
    proposed : IsProposed run_id (state_to_value state) c db

  abbrev IsReady : Unit {0} → AgentContext × Db → Type 0
  IsReady u (ctx, db) = Ready ctx db

  after_renewal :
      (ctx : AgentContext) (db : Db) (r : Result RunLease) (after : Db)
      → Ready ctx db
      → Post (λ l _. l.run_id ≡ ctx.lease.run_id) (r, after)
      → IsProposed run_id (state_to_value state) c after
      → OnOk IsReady (renewed (ctx, db) (r, after))
  after_renewal ctx db (ok lease) after h e p = record { of_run = e ∙ h.of_run; proposed = p }
  after_renewal ctx db (err x) after h e p = tt

  renew-Ready :
      (ctx : AgentContext) (db : Db) (now : Clock)
      → Ready ctx db
      → OnOk IsReady (renew now (ctx, db))
  unfolding renew
  renew-Ready ctx db now h =
      let call = renew_run_lease ctx.lease ctx.lease_ttl now in
      after_renewal ctx db (call db).0 (call db).1 h
        ((renew-Yields ctx.lease ctx.lease_ttl now).at db tt)
        ((Keeps-IsProposed run_id (state_to_value state) c call
            (renew-Same ctx.lease ctx.lease_ttl now)).at
          db h.proposed)

  prepare-Ready :
      (ctx : AgentContext) (db : Db) (now : Clock)
      → Ready ctx db
      → OnOk IsReady (prepare_lease_operation now (ctx, db))
  unfolding prepare_lease_operation
  prepare-Ready ctx db now h = healthy_first (ensure_healthy ctx)
    where
      healthy_first : (r : Result (Unit {0})) → OnOk IsReady ((lift r >> renew now) (ctx, db))
      healthy_first (ok u) = renew-Ready ctx db now h
      healthy_first (err e) = tt

  abbrev IsSame : CheckpointRecord → AgentContext × Db → Type 0
  IsSame x s = x ≡ c

  got :
      (r : Result CheckpointRecord) (ctx : AgentContext) (db : Db)
      → Post (λ x _. x ≡ c) (r, db)
      → OnOk IsSame (r, (ctx, db))
  got (ok x) ctx db h = h
  got (err e) ctx db h = tt

  module _ (v w : CheckpointState → Act Verification) (t2 t3 t4 t5 : Clock)
      (same : v state ≡ w state) where
    abbrev decide : CheckpointRecord → Verification → Act CheckpointRecord
    decide x verification = do
      prepare_lease_operation t4
      with_lease (λ lease.
          decide_checkpoint_with_lease lease x.id verification.passed
            (verification_to_value verification) t5)

    abbrev judge : (CheckpointState → Act Verification) → CheckpointRecord → Act CheckpointRecord
    judge u x = do
      read ← lift (state_from_value x.state)
      verification ← u read
      decide x verification

    abbrev read_and_judge : (CheckpointState → Act Verification) → Unit {0} → Act CheckpointRecord
    read_and_judge u _ =
        with_lease (λ lease. get_checkpoint_candidate_with_lease lease c.id t3) >>= judge u

    -- Both verifiers are given the proposed state.
    judged :
        (x : CheckpointRecord) (s : AgentContext × Db)
        → x ≡ c
        → c.state ≡ state_to_value state
        → judge v x s ≡ judge w x s
    judged x s e stored =
        let read : state_from_value x.state ≡ ok state =
          ap (λ y. state_from_value y.state) e
          ∙ ap state_from_value stored
          ∙ state_from_value-state_to_value state in
        ap (λ r. (lift r >>= λ st. v st >>= decide x) s) read
        ∙ ap (λ m. (m >>= decide x) s) same
        ∙ sym (ap (λ r. (lift r >>= λ st. w st >>= decide x) s) read)

    read-same :
        (u : Unit {0}) (s : AgentContext × Db)
        → IsReady u s
        → read_and_judge v u s ≡ read_and_judge w u s
    read-same u (ctx, db) h =
        let call = get_checkpoint_candidate_with_lease ctx.lease c.id t3 in
        same_bind (judge v) (judge w) IsSame (λ x s e. judged x s e h.proposed.stored)
          (with_lease (λ lease. get_checkpoint_candidate_with_lease lease c.id t3)) (ctx, db)
          (got (call db).0 ctx (call db).1
            ((get-Yields run_id (state_to_value state) c ctx.lease t3 h.of_run).at db h.proposed))

    verify-same :
        (ctx : AgentContext) (db : Db)
        → Ready ctx db
        → verify_checkpoint c v t2 t3 t4 t5 (ctx, db) ≡ verify_checkpoint c w t2 t3 t4 t5 (ctx, db)
    unfolding verify_checkpoint
    verify-same ctx db h =
        same_bind (read_and_judge v) (read_and_judge w) IsReady read-same
          (prepare_lease_operation t2) (ctx, db) (prepare-Ready ctx db t2 h)

module _ (call_id : String) (state : CheckpointState) (v w : CheckpointState → Act Verification)
    (t0 t1 t2 t3 t4 t5 : Clock) (same : v state ≡ w state) where
  abbrev verify : (CheckpointState → Act Verification) → CheckpointRecord → Act CheckpointRecord
  verify u c = verify_checkpoint c u t2 t3 t4 t5

  abbrev propose : Act CheckpointRecord
  propose = with_lease (λ lease. propose_checkpoint_with_lease lease call_id state t1)

  proposed :
      (r : Result CheckpointRecord) (ctx : AgentContext) (db : Db)
      → Post (IsProposed ctx.lease.run_id (state_to_value state)) (r, db)
      → ((λ _. (r, (ctx, db))) >>= verify v) (ctx, db)
        ≡ ((λ _. (r, (ctx, db))) >>= verify w) (ctx, db)
  proposed (ok c) ctx db h =
      verify-same ctx.lease.run_id state c v w t2 t3 t4 t5 same ctx db
        (record { of_run = refl; proposed = h })
  proposed (err e) ctx db h = refl
