-- ===== src/Calls/Final/Recovered.antt =====
-- `claim_next_recoverable_run` of src/db.rs takes no run that has ended.
use zincir.Prelude.{
  ℕ, ◌≡◌, refl, true, false, Option, none, some, List, [], ◌∷◌, ◌==◌, arith, Bool-cases, inl, inr,
  All,
}
use zincir.Types.{Uuid, RunStatus}
use zincir.Sql.{exists, select}
use zincir.Sql.Order.{first_all}
use zincir.Tables.{RunRow, Db, Clock, query, ◌>>=◌}
use zincir.Tables.Along.{Along, Along-ask}
use zincir.Tables.Yields.{Keeps}
use zincir.Store.Reads.{read_rules}
use zincir.Lease.Durations.{Duration}
use zincir.Lease.{
  is_terminal, is_recoverable, claimed_before, next_candidate, claim_found, claim_candidate,
  claim_next_recoverable_run, note_start,
}
use zincir.Lease.Final.{IsFinal, reopens, update_run_returning-IsFinal}
use zincir.Calls.Final.Kept.{
  Keeps-SameRuns, Keeps-IsFinal, record_transition-SameRuns, start-IsSparing,
}

module _ (id : Uuid) (s : RunStatus) (terminal : is_terminal s ≡ true) where
  recoverable_other :
      (now_ms : ℕ) (r : RunRow)
      → reopens id s r ≡ false
      → is_recoverable now_ms r ≡ true
      → (r.id == id) ≡ false
  recoverable_other now_ms r h k = ground (arith, h, k, terminal)

  candidates_other :
      (now_ms : ℕ) (rs : List RunRow)
      → exists (reopens id s) rs ≡ false
      → All (λ r. (r.id == id) ≡ false) (select (is_recoverable now_ms) rs)
  unfolding exists select
  candidates_other now_ms [] h = tt
  candidates_other now_ms (r ∷ rs) h = elim (Bool-cases (is_recoverable now_ms r)) [
    | inl here ↦ rw here (
      recoverable_other now_ms r (ground (arith, h)) here,
      candidates_other now_ms rs (ground (arith, h)),
    )
    | inr there ↦ rw there (candidates_other now_ms rs (ground (arith, h)))
  ]

  candidate_other :
      (now_ms : ℕ) (db : Db) (c : RunRow)
      → IsFinal id s db
      → next_candidate now_ms db.agent_runs ≡ some c
      → (c.id == id) ≡ false
  unfolding next_candidate
  candidate_other now_ms db c h e =
      first_all claimed_before (λ r. (r.id == id) ≡ false) _ c
        (candidates_other now_ms db.agent_runs h.closed) e

  note_start-kept : (c : RunRow) (now : Clock) → Along (Keeps (IsFinal id s)) (note_start c now)
  unfolding note_start
  note_start-kept c now =
      search (read_rules, Keeps-IsFinal, Keeps-SameRuns, record_transition-SameRuns) depth 8

  claim_candidate-kept :
      (owner_id ttl_ms : ℕ) (now : Clock) (c : RunRow)
      → (c.id == id) ≡ false
      → Along (Keeps (IsFinal id s)) (claim_candidate owner_id ttl_ms now c)
  unfolding claim_candidate
  claim_candidate-kept owner_id ttl_ms now c ne =
      search
        (
          read_rules,
          Keeps-IsFinal,
          update_run_returning-IsFinal,
          start-IsSparing id s c.id ne,
          note_start-kept,
        )
        depth 12

  claim_found-kept :
      (owner_id ttl_ms : ℕ) (now : Clock) (db : Db) (o : Option RunRow)
      → IsFinal id s db
      → next_candidate now.utc_millis db.agent_runs ≡ o
      → IsFinal id s (claim_found owner_id ttl_ms now o db).1
  claim_found-kept owner_id ttl_ms now db none h e = h
  claim_found-kept owner_id ttl_ms now db (some c) h e =
      (claim_candidate-kept owner_id ttl_ms now c (candidate_other now.utc_millis db c h e)).at db h

  claim_asked :
      (owner_id ttl_ms : ℕ) (now : Clock)
      → Along (Keeps (IsFinal id s)) (
          query (λ db. next_candidate now.utc_millis db.agent_runs)
          >>= claim_found owner_id ttl_ms now)
  claim_asked owner_id ttl_ms now =
      Along-ask (Keeps-IsFinal id s) (λ db. next_candidate now.utc_millis db.agent_runs)
        (claim_found owner_id ttl_ms now)
        λ db h.
          claim_found-kept owner_id ttl_ms now db (next_candidate now.utc_millis db.agent_runs) h
            refl

  pub claim_next_kept :
      (owner_id : Uuid) (ttl : Duration) (now : Clock)
      → Along (Keeps (IsFinal id s)) (claim_next_recoverable_run owner_id ttl now)
  unfolding claim_next_recoverable_run
  claim_next_kept owner_id ttl now = search (read_rules, Keeps-IsFinal, claim_asked) depth 8
