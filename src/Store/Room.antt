-- ===== src/Store/Room.antt =====
-- That `next_event_seq` and `insert_event` of src/db.rs find room for an event without a key.
use zincir.Prelude.{
  ℕ, ◌≤◌, ◌≡◌, refl, true, false, Option, none, some, List, [], ◌∷◌, arith, ltb, String,
}
use zincir.Types.{Uuid, Event, RunStatus, ok, state_transition}
use zincir.Sql.{exists, max_of, select}
use zincir.Tables.{Db, Clock, has_run}
use zincir.Store.{
  next_event_seq, decode_i32, insert_event, new_event, seq_taken, key_taken, same_key, max_seq,
  after_max, i32_limit,
}
use zincir.Lease.{record_transition, transition}

-- A number past the largest is free.
above-seq_taken :
    (run_id : Uuid) (n : ℕ) (es : List Event)
    → after_max (max_seq run_id es) ≤ n
    → seq_taken run_id n es ≡ false
unfolding seq_taken exists max_seq select max_of
above-seq_taken run_id n [] h = refl
above-seq_taken run_id n (e ∷ es) h = ground (arith, above-seq_taken run_id n es, h)

no_key : (k : Option String) → same_key k none ≡ false
no_key none = refl
no_key (some k) = refl

none-key_taken : (run_id : Uuid) (es : List Event) → key_taken run_id none es ≡ false
unfolding key_taken exists
none-key_taken run_id [] = refl
none-key_taken run_id (e ∷ es) = ground (arith, no_key e.idempotency_key, none-key_taken run_id es)

module _ (run_id : Uuid) (from to : RunStatus) (now : Clock) (db : Db) where
  abbrev pub transition_event : Event
  transition_event =
      new_event db.events run_id (after_max (max_seq run_id db.events)) state_transition
        (transition from to) none now

  -- A change of status is recorded when the run is there and its numbers are not used up.
  pub record_transition-Room :
      has_run run_id db ≡ true
      → ltb (after_max (max_seq run_id db.events)) i32_limit ≡ true
      → record_transition run_id from to now db
        ≡ (ok transition_event, record db { events = transition_event ∷ db.events })
  unfolding record_transition next_event_seq decode_i32 insert_event
  record_transition-Room known fits = ground (
    arith,
    known,
    fits,
    above-seq_taken run_id (after_max (max_seq run_id db.events)) db.events,
    none-key_taken run_id db.events,
  )
