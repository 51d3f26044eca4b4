-- ===== src/Lease/Recovery.antt =====
-- That `claim_next_recoverable_run` of src/db.rs takes over a run whose owner is lost.
use zincir.Prelude.{
  ℕ, ◌+◌, ◌<◌, ◌≡◌, refl, ap, ◌∙◌, Bool, true, false, some, List, [], ◌∷◌, ◌==◌, ltb, arith, All,
  Bool-cases, inl, inr,
}
use zincir.Types.{Uuid, ok, running}
use zincir.Sql.{exists, first, select, update}
use zincir.Sql.Order.{first_all}
use zincir.Sql.Laws.{first-update, set_found, holds}
use zincir.Tables.{RunRow, Db, Clock, find_run, update_run_returning}
use zincir.Valid.Runs.{Distinct, Distinct-update}
use zincir.Store.{is_leased}
use zincir.Lease.{
  is_recoverable, claimed_before, next_candidate, lease_to, lease_of, start_running,
  claim_candidate, note_start, claim_next_recoverable_run,
}
use zincir.Lease.Durations.{Duration, duration_to_millis, checked_add}
use zincir.Lease.Refusals.{holds_lease}
use zincir.Lease.Exclusion.{holds_lease-Distinct}

-- Each row is the one that its id finds.
abbrev pub IsFound : List RunRow → RunRow → Type 0
IsFound rs x = first (λ r. r.id == x.id) rs ≡ some x

behind :
    (r : RunRow) (rs xs : List RunRow)
    → exists (λ x. x.id == r.id) xs ≡ false
    → All (IsFound rs) xs
    → All (IsFound (r ∷ rs)) xs
unfolding first exists
behind r rs [] d a = tt
behind r rs (x ∷ xs) d a = (ground (arith, d, a.0), behind r rs xs (ground (arith, d)) a.1)

All-IsFound : (rs : List RunRow) → Distinct rs → All (IsFound rs) rs
unfolding first
All-IsFound [] d = tt
All-IsFound (r ∷ rs) d = (ground arith, behind r rs rs d.0 (All-IsFound rs d.1))

selected :
    (p : RunRow → Bool) (P : RunRow → Type 0) (xs : List RunRow) → All P xs → All P (select p xs)
unfolding select
selected p P [] a = tt
selected p P (x ∷ xs) a = elim (Bool-cases (p x)) [
  | inl here ↦ rw here (a.0, selected p P xs a.1)
  | inr there ↦ rw there (selected p P xs a.1)
]

pub candidate-IsFound :
    (now_ms : ℕ) (rs : List RunRow) (c : RunRow)
    → Distinct rs
    → next_candidate now_ms rs ≡ some c
    → IsFound rs c
unfolding next_candidate
candidate-IsFound now_ms rs c d e =
    first_all claimed_before (IsFound rs) _ c
      (selected (is_recoverable now_ms) (IsFound rs) rs (All-IsFound rs d)) e

module _ (owner_id : Uuid) (ttl : Duration) (now : Clock) (db : Db) (c : RunRow) (t e : ℕ) where
  abbrev pub taken : RunRow → RunRow
  taken r = start_running (lease_to owner_id e now r)

  abbrev pub taken_over : Db
  taken_over = record db { agent_runs = update (λ r. r.id == c.id) taken db.agent_runs }

  pub claimed :
      next_candidate now.utc_millis db.agent_runs ≡ some c
      → IsFound db.agent_runs c
      → c.status ≡ running
      → duration_to_millis ttl ≡ ok t
      → checked_add now.utc_millis t ≡ some e
      → claim_next_recoverable_run owner_id ttl now db
        ≡ (ok (some (lease_of c.id owner_id (c.lease_epoch + 1) e)), taken_over)
  unfolding claim_next_recoverable_run claim_candidate note_start update_run_returning
  claimed next found status q a = ground (arith, next, found, status, q, a)

  pub taken_found :
      IsFound db.agent_runs c → first (λ r. r.id == c.id) taken_over.agent_runs ≡ some (taken c)
  taken_found found =
      first-update (λ r. r.id == c.id) (λ r. r.id == c.id) taken db.agent_runs (λ r. ground arith)
      ∙ ap (set_found (λ r. r.id == c.id) taken) found
      ∙ ground arith

  -- The lease is held until it expires.
  pub held :
      (later : Clock)
      → Distinct db.agent_runs
      → IsFound db.agent_runs c
      → holds_lease (lease_of c.id owner_id (c.lease_epoch + 1) e) later taken_over
        ≡ ltb later.utc_millis e
  unfolding find_run
  held later d found =
      holds_lease-Distinct (lease_of c.id owner_id (c.lease_epoch + 1) e) later taken_over
        (Distinct-update (λ r. r.id == c.id) taken db.agent_runs (λ r. refl) d)
      ∙ ap (holds (is_leased (lease_of c.id owner_id (c.lease_epoch + 1) e) later.utc_millis))
          (taken_found found)
      ∙ ground arith

-- A run that its owner lost is taken over: when the next candidate is a running run, on a database whose
-- runs have distinct ids, and the time to live fits and is not zero, the claim succeeds and answers a
-- lease of that run with the next epoch, which the database then holds.
pub claim_next-recovers :
    (owner_id : Uuid) (ttl : Duration) (now : Clock) (db : Db) (c : RunRow) (t e : ℕ)
    → Distinct db.agent_runs
    → next_candidate now.utc_millis db.agent_runs ≡ some c
    → c.status ≡ running
    → duration_to_millis ttl ≡ ok t
    → checked_add now.utc_millis t ≡ some e
    → 0 < t
    → (after : Db) × (claim_next_recoverable_run owner_id ttl now db
        ≡ (ok (some (lease_of c.id owner_id (c.lease_epoch + 1) e)), after))
      × (holds_lease (lease_of c.id owner_id (c.lease_epoch + 1) e) now after ≡ true)
claim_next-recovers owner_id ttl now db c t e d next status q a pos =
    let found = candidate-IsFound now.utc_millis db.agent_runs c d next in
    (
      taken_over owner_id ttl now db c t e,
      claimed owner_id ttl now db c t e next found status q a,
      held owner_id ttl now db c t e now d found ∙ ground (arith, a, pos),
    )
