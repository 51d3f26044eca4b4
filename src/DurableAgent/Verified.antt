-- ===== src/DurableAgent/Verified.antt =====
-- What an accepted checkpoint says in examples/durable_agent.rs, whose verifier looks for the artifact.
use zincir.Prelude.{ℕ, ◌≡◌, sym, ◌∙◌, subst, true, String, List, ◌⊎◌, inl, inr, arith}
use zincir.Json.{Value}
use zincir.Types.{CheckpointRecord, CheckpointState, Result, ok, err}
use zincir.Tables.{Db, Clock}
use zincir.Tables.Yields.{Post}
use zincir.Checkpoints.{
  is_accepted, propose_checkpoint_with_lease, get_checkpoint_candidate_with_lease,
  decide_checkpoint_with_lease,
}
use zincir.Agent.{AgentContext}
use zincir.Agent.Payload.{Verification, verification_to_value, state_from_value}
use zincir.Agent.Session
use zincir.Agent.Session.{
  Act, lift, with_lease, ◌>>=◌, ◌>>◌, prepare_lease_operation, verify_checkpoint, checkpoint,
}
use zincir.DurableAgent.Process.{World, file_of, is_some}
use zincir.DurableAgent.{verify, create_checkpoint, verify_candidate}
use zincir.DurableAgent.Verdicts.{decide_checkpoint-verdict}

-- A fact about the value that a method gives when it succeeds.
abbrev OnOk : {A : Type 0} → (A → Type 0) → Result A → Type 0
OnOk Q (ok a) = Q a
OnOk Q (err e) = Unit {0}

record Gives {A : Type 0} (Q : A → Type 0) (m : Act A) : Type 0 where
  at : (s : AgentContext × Db) → OnOk Q (m s).0

module _ {A B : Type 0} {Q : B → Type 0} where
  continued :
      (r : Result A) (s : AgentContext × Db) (f : A → Act B)
      → ((a : A) → Gives Q (f a))
      → OnOk Q ((lift r >>= f) s).0
  continued (ok a) s f g = (g a).at s
  continued (err e) s f g = tt

  Gives-bind : (m : Act A) (f : A → Act B) → ((a : A) → Gives Q (f a)) → Gives Q (m >>= f)
  Gives-bind m f g = record { at = λ s. let (r, after) = m s in continued r after f g }

posted :
    {A : Type 0} (Q : A → Type 0) (r : Result A) (db : Db) → Post (λ a _. Q a) (r, db) → OnOk Q r
posted Q (ok a) db h = h
posted Q (err e) db h = h

-- The verdict of an accepted checkpoint is the verifier's.
module _ (v : CheckpointState → Verification) (F : Type 0)
    (reason : (s : CheckpointState) → (v s).passed ≡ true → F) where
  abbrev Reasoned : CheckpointRecord → Type 0
  Reasoned c = is_accepted c.status ≡ true → F

  reasoned :
      (s : CheckpointState) (r : Result CheckpointRecord)
      → OnOk (λ c. is_accepted c.status ≡ (v s).passed) r
      → OnOk Reasoned r
  reasoned s (ok c) h = λ a. reason s (sym h ∙ a)
  reasoned s (err e) h = tt

  decision-Gives :
      (id : ℕ) (s : CheckpointState) (now : Clock)
      → Gives Reasoned (
          with_lease (λ lease.
            decide_checkpoint_with_lease lease id (v s).passed (verification_to_value (v s)) now))
  decision-Gives id s now = record {
    at = λ (ctx, db).
        let call =
          decide_checkpoint_with_lease ctx.lease id (v s).passed (verification_to_value (v s))
            now in
        reasoned s (call db).0 (
          posted (λ c. is_accepted c.status ≡ (v s).passed) (call db).0 (call db).1
            ((decide_checkpoint-verdict ctx.lease id (v s).passed (verification_to_value (v s))
                now).at
              db tt));
  }

  verify_checkpoint-Gives :
      (c : CheckpointRecord) (t0 t1 t2 t3 : Clock)
      → Gives Reasoned (verify_checkpoint c (λ s. Session.pure (v s)) t0 t1 t2 t3)
  unfolding verify_checkpoint
  verify_checkpoint-Gives c t0 t1 t2 t3 = Gives-bind (prepare_lease_operation t0) _ λ _.
      Gives-bind (with_lease (λ lease. get_checkpoint_candidate_with_lease lease c.id t1)) _
        λ candidate.
          Gives-bind (lift (state_from_value candidate.state)) _
            λ s. Gives-bind (prepare_lease_operation t2) _ λ _. decision-Gives candidate.id s t3

  checkpoint-Gives :
      (id : String) (state : CheckpointState) (t0 t1 t2 t3 t4 t5 : Clock)
      → Gives Reasoned (checkpoint id state (λ s. Session.pure (v s)) t0 t1 t2 t3 t4 t5)
  unfolding checkpoint
  checkpoint-Gives id state t0 t1 t2 t3 t4 t5 = Gives-bind (prepare_lease_operation t0) _ λ _.
      Gives-bind (with_lease (λ lease. propose_checkpoint_with_lease lease id state t1)) _
        λ candidate. verify_checkpoint-Gives candidate t2 t3 t4 t5

module _ (clock : ℕ → Clock) (artifact : String) (files : List (String × Value)) where
  -- The file is there.
  abbrev Written : Type 0
  Written = is_some (file_of "call_1" files) ≡ true

  passed-Written : (s : CheckpointState) → (verify artifact files s).passed ≡ true → Written
  unfolding verify
  passed-Written s e = ground (arith, e)

-- `create_checkpoint` and `verify_candidate` answer with an accepted checkpoint only if the result file of
-- `call_1` is there.
pub accepted-file_of :
    (clock : ℕ → Clock) (artifact : String) (call_id : String) (state : CheckpointState)
    (candidate c : CheckpointRecord) (w : World)
    → ((create_checkpoint clock artifact call_id state w).0 ≡ ok c)
      ⊎ ((verify_candidate clock artifact candidate w).0 ≡ ok c)
    → is_accepted c.status ≡ true
    → is_some (file_of "call_1" w.files) ≡ true
unfolding create_checkpoint verify_candidate
accepted-file_of clock artifact call_id state candidate c w (inl e) a =
    subst
      (OnOk (
        Reasoned (verify artifact w.files) (Written clock artifact w.files)
          (passed-Written clock artifact w.files)))
      e
      ((checkpoint-Gives (verify artifact w.files) _ (passed-Written clock artifact w.files) call_id
          state _ _ _ _ _ _).at
        (w.context, w.db))
      a
accepted-file_of clock artifact call_id state candidate c w (inr e) a =
    subst
      (OnOk (
        Reasoned (verify artifact w.files) (Written clock artifact w.files)
          (passed-Written clock artifact w.files)))
      e
      ((verify_checkpoint-Gives (verify artifact w.files) _ (passed-Written clock artifact w.files)
          candidate _ _ _ _).at
        (w.context, w.db))
      a
