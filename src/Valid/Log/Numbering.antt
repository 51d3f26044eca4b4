-- ===== src/Valid/Log/Numbering.antt =====
-- `next_event_seq` and `insert_event` keep the log numbered where they are called one after the other.
use zincir.Prelude.{
  ℕ, ◌+◌, ◌≡◌, Option, none, some, String, List, [], ◌∷◌, arith, Bool-cases, inl, inr, ltb, false,
  true,
}
use zincir.Json.{Value}
use zincir.Types.{Uuid, Event, EventType, RunLease, RunStatus, Result, ok, err}
use zincir.Tables.{Db, Clock, Tx, has_run}
use zincir.Tables.Along.{along_rules}
use zincir.Tables.Yields.{Yields, Post, keeps, yields_bind, yields_then, yields_along}
use zincir.Store.{
  next_event_seq, decode_i32, insert_event, seq_taken, key_taken, max_seq, after_max, i32_limit,
}
use zincir.Lease.{record_transition}
use zincir.Sql.{exists}
use zincir.Events.{is_too_large, append_next, insert_intents, add_one, settle_result}
use zincir.Valid.Log.{Numbered, count_events, count_here, next-count}

-- The log is numbered, and its numbers fit an `i32`.
abbrev pub LogNumbered : Db → Type 0
LogNumbered db = Numbered db.events × (exists is_too_large db.events ≡ false)

-- So it is, and a number is the count of the events of a run.
abbrev pub Past : Uuid → ℕ → Db → Type 0
Past run_id n db = LogNumbered db × (n ≡ count_events run_id db.events)

-- The number also fits: it is the next of the run.
abbrev pub Next : Uuid → ℕ → Db → Type 0
Next run_id n db = Past run_id n db × (ltb n i32_limit ≡ true)

pub next_event_seq-Next : (run_id : Uuid) → Yields LogNumbered (next_event_seq run_id) (Next run_id)
unfolding next_event_seq decode_i32
next_event_seq-Next run_id = record {
  at = λ db h. elim (Bool-cases (ltb (after_max (max_seq run_id db.events)) i32_limit)) [
    | inl fits ↦ rw fits ((h, next-count run_id db.events h.0), fits)
    | inr over ↦ rw over tt
  ];
}

pub insert_event-Next :
    (run_id : Uuid) (n : ℕ) (t : EventType) (payload : Value) (key : Option String) (now : Clock)
    → Yields (Next run_id n) (insert_event run_id n t payload key now) (λ _. Past run_id (n + 1))
unfolding insert_event exists
insert_event-Next run_id n t payload key now = record {
  at = λ db h. elim (Bool-cases (seq_taken run_id n db.events)) [
    | inl taken ↦ rw taken tt
    | inr free ↦ rw free (elim (Bool-cases (key_taken run_id key db.events)) [
      | inl repeated ↦ rw repeated tt
      | inr fresh ↦ rw fresh (elim (Bool-cases (has_run run_id db)) [
        | inl known ↦ rw known (
          ((h.0.1, h.0.0.0), ground (arith, h.1, h.0.0.1)),
          rw count_here (ground (arith, h.0.1)),
        )
        | inr orphan ↦ rw orphan tt
      ])
    ])
  ];
}

pub add_one-Next : (run_id : Uuid) (n : ℕ) → Yields (Past run_id (n + 1)) (add_one n) (Next run_id)
unfolding add_one
add_one-Next run_id n = record {
  at = λ db h. elim (Bool-cases (ltb (n + 1) i32_limit)) [
    | inl fits ↦ rw fits (h, fits)
    | inr over ↦ rw over tt
  ];
}

-- Past an insertion the log is numbered.
pub numbered_after :
    {A : Type 0} (run_id : Uuid) (n : ℕ) (P : Db → Type 0) (m : Tx A)
    → Yields P m (λ _. Past run_id n)
    → Yields P m (λ _. LogNumbered)
numbered_after {A} run_id n P m y = record { at = λ db p. forget (m db) (y.at db p) }
  where
    forget : (r : Result A × Db) → Post (λ _. Past run_id n) r → Post (λ _. LogNumbered) r
    forget (ok a, db) q = q.0
    forget (err e, db) q = tt

pub append_next-Numbered :
    (run_id : Uuid) (t : EventType) (payload : Value) (key : Option String) (now : Clock)
    → Yields LogNumbered (append_next run_id t payload key now) (λ _. LogNumbered)
unfolding append_next
append_next-Numbered run_id t payload key now =
    yields_bind (next_event_seq run_id) _ (next_event_seq-Next run_id) λ n.
      numbered_after run_id (n + 1) (Next run_id n) _ (insert_event-Next run_id n t payload key now)

pub record_transition-Numbered :
    (run_id : Uuid) (from to : RunStatus) (now : Clock)
    → Yields LogNumbered (record_transition run_id from to now) (λ _. LogNumbered)
unfolding record_transition
record_transition-Numbered run_id from to now =
    yields_bind (next_event_seq run_id) _ (next_event_seq-Next run_id)
      λ n. numbered_after run_id (n + 1) (Next run_id n) _ (insert_event-Next run_id n _ _ none now)

pub insert_intents-Numbered :
    (run_id : Uuid) (n : ℕ) (intents : List (Value × String)) (now : Clock)
    → Yields (Past run_id (n + 1)) (insert_intents run_id n intents now) (λ _. LogNumbered)
unfolding insert_intents
insert_intents-Numbered run_id n [] now = record { at = λ db h. h.0 }
insert_intents-Numbered run_id n ((payload, call_id) ∷ rest) now =
    yields_bind (add_one n) _ (add_one-Next run_id n) λ k.
      yields_then _ _ (insert_event-Next run_id k _ payload _ now)
        λ _. insert_intents-Numbered run_id k rest now

pub settle_result-Numbered :
    (lease : RunLease) (call_id : String) (payload : Value) (n : ℕ) (e : Option Event) (now : Clock)
    → Yields LogNumbered (settle_result lease call_id payload n e now) (λ _. LogNumbered)
unfolding settle_result
settle_result-Numbered lease call_id payload n (some e) now =
    yields_along _ (search (along_rules, keeps LogNumbered))
settle_result-Numbered lease call_id payload n none now =
    append_next-Numbered lease.run_id _ payload _ now
