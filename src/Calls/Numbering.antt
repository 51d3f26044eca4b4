-- ===== src/Calls/Numbering.antt =====
-- The numbering of events over whole histories, as `get_events` shows it.
use zincir.Prelude.{
  ℕ, suc, zero, ◌<◌, ◌≡◌, refl, sym, ap, ◌∙◌, subst, List, [], ◌∷◌, ◌++◌, map, ◌==◌, arith,
  Bool-cases, inl, inr,
}
use zincir.Types.{Uuid, Event, ok}
use zincir.Sql.{insert_by}
use zincir.Tables.{Db, Clock}
use zincir.Tables.Along.{Along, along_rules}
use zincir.Tables.Yields.{Keeps}
use zincir.Sql.{exists}
use zincir.Events.{events_of, get_events, by_seq}
use zincir.Events.Decoded.{events_here, events_of-Fits}
use zincir.Valid.Log.{Numbered, count_events, count_here, seq_here}
use zincir.Valid.Log.Numbering.{LogNumbered}
use zincir.Valid.Log.Kept.{
  Keeps-log, create_run-Log, acquire_run_lease-Log, recover_run_lease-Log,
  claim_next_recoverable_run-Log, renew_run_lease-Log, release_run_lease-Log,
  update_run_status_with_lease-Log, complete_run_with_lease-Log, append_event_with_lease-Log,
  append_llm_call-Log, record_tool_result-Log,
}
use zincir.Valid.Log.Rest.{
  propose_checkpoint-Log, decide_checkpoint-Log, claim_step-Log, complete_step-Log,
  recover_steps-Log, schedule_timer-Log, complete_timer-Log,
}
use zincir.Calls.{Call, create_run, execute, step, run_calls, empty_db}

ruleset log_rules = (
  along_rules, Keeps-log, create_run-Log, acquire_run_lease-Log, recover_run_lease-Log,
  claim_next_recoverable_run-Log, renew_run_lease-Log, release_run_lease-Log,
  update_run_status_with_lease-Log, complete_run_with_lease-Log, append_event_with_lease-Log,
  append_llm_call-Log, record_tool_result-Log, propose_checkpoint-Log, decide_checkpoint-Log,
  claim_step-Log, complete_step-Log, recover_steps-Log, schedule_timer-Log, complete_timer-Log,
)

execute-Log : (c : Call) (now : Clock) → Along (Keeps LogNumbered) (execute c now)
unfolding execute
execute-Log (create_run id parent role provider config) now = search log_rules
execute-Log _ now = search log_rules

pub run_calls-Numbered :
    (db : Db) (cs : List (Clock × Call)) → LogNumbered db → LogNumbered (run_calls db cs)
unfolding run_calls step
run_calls-Numbered db [] h = h
run_calls-Numbered db ((now, c) ∷ cs) h =
    run_calls-Numbered (step db (now, c)) cs ((execute-Log c now).at db h)

-- 0, 1, …, n - 1
abbrev pub upto : ℕ → List ℕ
upto zero = []
upto (suc n) = upto n ++ n ∷ []

-- Every number in the list is below n.
abbrev AllBelow : ℕ → List Event → Type 0
AllBelow n [] = Unit {0}
AllBelow n (e ∷ es) = (e.seq < n) × AllBelow n es

-- An event with a number above those of a list goes to its end.
insert_last :
    (e : Event) (es : List Event) → AllBelow e.seq es → insert_by by_seq e es ≡ es ++ e ∷ []
unfolding insert_by
insert_last e [] h = refl
insert_last e (x ∷ es) h = ground (arith, insert_last e es h.1)

AllBelow-append :
    (n : ℕ) (es : List Event) (e : Event) → AllBelow n es → e.seq < n → AllBelow n (es ++ e ∷ [])
AllBelow-append n [] e h lt = (lt, tt)
AllBelow-append n (x ∷ es) e h lt = (h.0, AllBelow-append n es e h.1 lt)

AllBelow-suc : (n : ℕ) (es : List Event) → AllBelow n es → AllBelow (suc n) es
AllBelow-suc n [] h = tt
AllBelow-suc n (x ∷ es) h = (omega arith, AllBelow-suc n es h.1)

map_seq-append :
    (es : List Event) (e : Event)
    → map (λ x. x.seq) (es ++ e ∷ []) ≡ map (λ x. x.seq) es ++ e.seq ∷ []
map_seq-append [] e = refl
map_seq-append (x ∷ es) e = ap (◌∷◌ x.seq) (map_seq-append es e)

abbrev InOrder : ℕ → List Event → Type 0
InOrder k es = AllBelow k es × (map (λ e. e.seq) es ≡ upto k)

-- The next event goes to the end.
InOrder-insert :
    (k : ℕ) (e : Event) (es : List Event)
    → e.seq ≡ k
    → InOrder k es
    → InOrder (suc k) (insert_by by_seq e es)
InOrder-insert k e es s (below, numbers) =
    rw (insert_last e es (subst (λ n. AllBelow n es) (sym s) below)) (
      AllBelow-append (suc k) es e (AllBelow-suc k es below) (omega arith),
      map_seq-append es e ∙ ap (λ ns. ns ++ e.seq ∷ []) numbers ∙ ap (λ n. upto k ++ n ∷ []) s,
    )

-- On a numbered log the events of a run come out in the order of their numbers, which are all those
-- below their count.
events_of-InOrder :
    (run_id : Uuid) (es : List Event)
    → Numbered es
    → InOrder (count_events run_id es) (events_of run_id es)
events_of-InOrder run_id [] n = unfold events_of count_events in (tt, refl)
events_of-InOrder run_id (e ∷ es) (s, n) = elim (Bool-cases (e.run_id == run_id)) [
  | inl same ↦
      rw (events_here, count_here, same)
        (InOrder-insert (count_events run_id es) e _ (seq_here run_id e es s same)
          (events_of-InOrder run_id es n))
  | inr other ↦ rw (events_here, count_here, other) (events_of-InOrder run_id es n)
]

-- After any calls on a new database, with whatever arguments, times and interleaving of processes,
-- `get_events` returns the events of each run in the order of their sequence numbers, which are
-- 0, 1, 2, … with no gap and no repetition.
pub get_events-numbered :
    (run_id : Uuid) (cs : List (Clock × Call))
    → (es : List Event) × (get_events run_id (run_calls empty_db cs)
        ≡ (ok es, run_calls empty_db cs))
      × (map (λ e. e.seq) es ≡ upto (count_events run_id (run_calls empty_db cs).events))
unfolding get_events
get_events-numbered run_id cs =
    let db = run_calls empty_db cs in
    let (numbered, fits) = run_calls-Numbered empty_db cs (unfold empty_db exists in (tt, refl)) in
    (
      events_of run_id db.events,
      ground (arith, events_of-Fits run_id db.events fits),
      (events_of-InOrder run_id db.events numbered).1,
    )
