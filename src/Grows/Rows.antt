-- ===== src/Grows/Rows.antt =====
-- The relations between an earlier and a later state of each table.
use mathlib.Core.List.{append_assoc}
use zincir.Prelude.{
  ℕ, ◌≤◌, ◌≡◌, refl, sym, ◌∙◌, ap, false, List, [], ◌++◌, String, some, ◌==◌, ◌&&◌, true, arith,
}
use zincir.Types.{Uuid, Event, CheckpointRecord, done}
use zincir.Checkpoints.{is_candidate}
use zincir.Steps.{is_step}
use zincir.Timers.{is_timer}
use zincir.Sql.{first, exists}
use zincir.Tables.{RunRow, StepRow, TimerRow, Db}
use zincir.Tables.Along.{Preorder}
use zincir.Valid.Runs.{Distinct}

-- The log is only added to.
abbrev pub Extends : List Event → List Event → Type 0
Extends xs ys = (new : List Event) × (ys ≡ new ++ xs)

-- No run goes away, and the epoch of its lease never falls.
abbrev pub RunsGrow : List RunRow → List RunRow → Type 0
RunsGrow xs ys =
    (id : Uuid) (r : RunRow)
    → first (λ x. x.id == id) xs ≡ some r
    → (r' : RunRow) × (first (λ x. x.id == id) ys ≡ some r') × (r.lease_epoch ≤ r'.lease_epoch)

-- A completed step keeps its row.
abbrev pub StepsGrow : List StepRow → List StepRow → Type 0
StepsGrow xs ys =
    (run_id : Uuid) (name : String) (s : StepRow)
    → first (is_step run_id name) xs ≡ some s
    → s.status ≡ done
    → first (is_step run_id name) ys ≡ some s

-- A timer keeps its wake time.
abbrev pub TimersGrow : List TimerRow → List TimerRow → Type 0
TimersGrow xs ys =
    (run_id : Uuid) (name : String) (t : TimerRow)
    → first (is_timer run_id name) xs ≡ some t
    → (t' : TimerRow) × (first (is_timer run_id name) ys ≡ some t') × (t'.wake_at_ms ≡ t.wake_at_ms)

-- A decided checkpoint keeps its row.
abbrev pub DecisionsGrow : List CheckpointRecord → List CheckpointRecord → Type 0
DecisionsGrow xs ys =
    (id : ℕ) (c : CheckpointRecord)
    → first (λ x. x.id == id) xs ≡ some c
    → is_candidate c.status ≡ false
    → first (λ x. x.id == id) ys ≡ some c

-- A checkpoint identifier is in use, and no row of it is a candidate.
abbrev pub Closed : ℕ → List CheckpointRecord → Type 0
Closed k cs =
    (exists (λ c. c.id == k) cs ≡ true)
    × (exists (λ c. c.id == k && is_candidate c.status) cs ≡ false)

pub record Grows (a b : Db) : Type 0 where
  pub log : Extends a.events b.events
  pub runs : RunsGrow a.agent_runs b.agent_runs
  pub steps : StepsGrow a.steps b.steps
  pub timers : TimersGrow a.timers b.timers
  pub decisions : DecisionsGrow a.checkpoints b.checkpoints
  pub distinct : Distinct a.agent_runs → Distinct b.agent_runs
  pub closed : (k : ℕ) → Closed k a.checkpoints → Closed k b.checkpoints

pub Extends-refl : (xs : List Event) → Extends xs xs
Extends-refl xs = ([], refl)

Extends-trans : (xs ys zs : List Event) → Extends xs ys → Extends ys zs → Extends xs zs
Extends-trans xs ys zs (new, e) (newer, e') =
    (newer ++ new, e' ∙ ap (◌++◌ newer) e ∙ sym (append_assoc newer new xs))

pub RunsGrow-refl : (xs : List RunRow) → RunsGrow xs xs
RunsGrow-refl xs id r e = (r, e, omega arith)

RunsGrow-trans : (xs ys zs : List RunRow) → RunsGrow xs ys → RunsGrow ys zs → RunsGrow xs zs
RunsGrow-trans xs ys zs f g id r e =
    let (r', e', le) = f id r e in let (r'', e'', le') = g id r' e' in (r'', e'', omega arith)

pub TimersGrow-refl : (xs : List TimerRow) → TimersGrow xs xs
TimersGrow-refl xs id name t e = (t, e, refl)

TimersGrow-trans :
    (xs ys zs : List TimerRow) → TimersGrow xs ys → TimersGrow ys zs → TimersGrow xs zs
TimersGrow-trans xs ys zs f g id name t e =
    let (t', e', w) = f id name t e in let (t'', e'', w') = g id name t' e' in (t'', e'', w' ∙ w)

pub grows : Preorder Grows
grows = record {
  reflexive = λ a. record {
    log = Extends-refl a.events;
    runs = RunsGrow-refl a.agent_runs;
    steps = λ run_id name s e _. e;
    timers = TimersGrow-refl a.timers;
    decisions = λ id c e _. e;
    distinct = λ d. d;
    closed = λ k c. c;
  };
  transitive = λ a b c f g. record {
    log = Extends-trans a.events b.events c.events f.log g.log;
    runs = RunsGrow-trans a.agent_runs b.agent_runs c.agent_runs f.runs g.runs;
    steps = λ run_id name s e d. g.steps run_id name s (f.steps run_id name s e d) d;
    timers = TimersGrow-trans a.timers b.timers c.timers f.timers g.timers;
    decisions = λ id r e d. g.decisions id r (f.decisions id r e d) d;
    distinct = λ d. g.distinct (f.distinct d);
    closed = λ k c. g.closed k (f.closed k c);
  };
}
