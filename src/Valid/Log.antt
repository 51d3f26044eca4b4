-- ===== src/Valid/Log.antt =====
-- The events of each run are numbered 0, 1, 2, … in the order of their insertion.
pub mod Numbering
pub mod Kept
pub mod Rest
use zincir.Prelude.{
  ℕ, suc, ◌+◌, ◌≡◌, refl, sym, ap, ◌∙◌, Bool, true, false, Option, none, some, List, [], ◌∷◌, ◌==◌,
  ltb, arith, not, nat_beq_iff, Bool-cases, inl, inr, if◌then◌else◌,
}
use zincir.Types.{Uuid, Event}
use zincir.Sql.{select, max_of, count}
use zincir.Store.{max_seq, after_max}

-- The number of events of a run.
unfoldable pub count_events : Uuid → List Event → ℕ
unfolding count
count_events run_id = count (λ e. e.run_id == run_id)

-- Each event's number is the number of events of its run before it.
abbrev pub Numbered : List Event → Type 0
Numbered [] = Unit {0}
Numbered (e ∷ es) = (e.seq ≡ count_events e.run_id es) × Numbered es

pub count_here :
    (run_id : Uuid) (e : Event) (es : List Event)
    → count_events run_id (e ∷ es)
      ≡ (if e.run_id == run_id then suc (count_events run_id es) else count_events run_id es)
unfolding count_events
count_here run_id e es = refl

pub seq_here :
    (run_id : Uuid) (e : Event) (es : List Event)
    → e.seq ≡ count_events e.run_id es
    → (e.run_id == run_id) ≡ true
    → e.seq ≡ count_events run_id es
seq_here run_id e es s same = s ∙ ap (λ k. count_events k es) ((nat_beq_iff e.run_id run_id).0 same)

-- On a numbered log `COALESCE(MAX(seq), -1) + 1` is the number of events of the run.
pub next-count :
    (run_id : Uuid) (es : List Event)
    → Numbered es
    → after_max (max_seq run_id es) ≡ count_events run_id es
unfolding max_seq select max_of
next-count run_id [] n = unfold count_events in refl
next-count run_id (e ∷ es) (s, n) =
    rw count_here (ground (arith, next-count run_id es n, seq_here run_id e es s))
