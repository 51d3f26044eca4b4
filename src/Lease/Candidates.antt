-- ===== src/Lease/Candidates.antt =====
-- The run that `claim_next_recoverable_run` of src/db.rs claims.
use zincir.Prelude.{ℕ, ◌≡◌, refl, true, false, Option, none, some, List, arith, All}
use zincir.Types.{Uuid, RunLease}
use zincir.Sql.{select, exists}
use zincir.Sql.Order.{first-least, first_all, none_selected, select-passes, selected-All}
use zincir.Tables.{RunRow}
use zincir.Tables.Yields.{Yields}
use zincir.Lease.{is_recoverable, claimed_before, next_candidate}

-- The candidate is recoverable, and it goes before every recoverable run of the table; and there is
-- none only when no run of the table is recoverable.
abbrev pub IsNextCandidate : ℕ → List RunRow → Option RunRow → Type 0
IsNextCandidate now_ms rows none = exists (is_recoverable now_ms) rows ≡ false
IsNextCandidate now_ms rows (some c) =
    (is_recoverable now_ms c ≡ true)
    × All (λ r. is_recoverable now_ms r ≡ true → claimed_before c r ≡ true) rows

before_total : (a b : RunRow) → claimed_before a b ≡ false → claimed_before b a ≡ true
before_total a b h = ground arith

before_trans :
    (a b c : RunRow)
    → claimed_before a b ≡ true
    → claimed_before b c ≡ true
    → claimed_before a c ≡ true
before_trans a b c h k = ground arith

before_refl : (a : RunRow) → claimed_before a a ≡ true
before_refl a = ground arith

-- The query for the next run finds a run that is pending or running and without an owner or with an
-- expired lease, and of those the one created first, by the least id where two were created at once;
-- it finds none only when no run of the table is such.
pub next_candidate-IsNextCandidate :
    (now_ms : ℕ) (rows : List RunRow) → IsNextCandidate now_ms rows (next_candidate now_ms rows)
unfolding next_candidate
next_candidate-IsNextCandidate now_ms rows = found (next_candidate now_ms rows) refl
  where
    found : (o : Option RunRow) → next_candidate now_ms rows ≡ o → IsNextCandidate now_ms rows o
    found none e = none_selected claimed_before (is_recoverable now_ms) rows e
    found (some c) e = (
      first_all claimed_before (λ r. is_recoverable now_ms r ≡ true)
          (select (is_recoverable now_ms) rows) c (select-passes (is_recoverable now_ms) rows) e,
      selected-All (is_recoverable now_ms) (λ r. claimed_before c r ≡ true) rows
          (first-least claimed_before before_total before_trans before_refl
            (select (is_recoverable now_ms) rows) c e),
    )

-- What a claim answers on these rows.
abbrev pub IsNextLease : ℕ → List RunRow → Uuid → Option RunLease → Type 0
IsNextLease now_ms rows owner_id none = exists (is_recoverable now_ms) rows ≡ false
IsNextLease now_ms rows owner_id (some lease) =
    (c : RunRow) × IsNextCandidate now_ms rows (some c)
    × (lease.run_id ≡ c.id)
    × (lease.owner_id ≡ owner_id)
