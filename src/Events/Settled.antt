-- ===== src/Events/Settled.antt =====
-- What `record_tool_result_with_lease` of src/db.rs leaves: an intent and the result of it.
use zincir.Prelude.{
  ℕ, ◌≡◌, refl, sym, ap, ◌∙◌, subst, Bool, true, false, Option, none, some, ◌∷◌, arith, String,
  Bool-cases, inl, inr, ltb, leb, str_eq, str_eq_iff, nat_beq_iff,
}
use zincir.Json.{
  Value, value_eq, value_eq_iff, json_extract, SqlValue, integer, sql_null, sql_real, text, json,
}
use zincir.Types.{
  Event, tool_call, tool_result, RunLease, ok, err, Error, checkpoint_result, db_error,
  column_decode, unique_violation, foreign_key_violation, no_intent, conflicting_result,
  invalid_state,
}
use zincir.Tables.{raise, has_run, Db, Clock, Tx, pure, query, or_raise, ◌>>=◌}
use zincir.Tables.Yields.{Post, Always, always, Yields, Yields-transaction, yields_then}
use zincir.Store.{
  validate_writable_run_lease, max_seq, after_max, new_event, seq_taken, key_taken, i32_limit,
  next_event_seq, decode_i32, insert_event,
}
use zincir.Events.{
  is_checkpoint_tool, record_for, settle_result, append_next, record_tool_result_with_lease,
  first_call, has_call, result_payload, tool_result_key,
}
use zincir.Events.First.{first_call-below, first_call-new, first_call-other}

-- The call's intent and its result, as a retry finds them.
pub record Settled (lease : RunLease) (call_id : String) (content : Value) (e : Event) (db : Db)
    : Type 0 where
  pub intent : Event
  pub intended : first_call lease.run_id tool_call call_id db.events ≡ some intent
  pub plain : is_checkpoint_tool (json_extract intent.payload "name") ≡ pure false
  pub found : first_call lease.run_id tool_result call_id db.events ≡ some e
  pub later : leb (e.seq) (intent.seq) ≡ false
  pub payload : e.payload ≡ result_payload call_id content

module _ (lease : RunLease) (call_id : String) (content : Value) (now : Clock) where
  abbrev find_and_record : Tx Event
  find_and_record = do
    found ← query (λ db. first_call lease.run_id tool_call call_id db.events)
    intent ← or_raise found (invalid_state (no_intent call_id))
    record_for lease call_id content intent now

  abbrev IsSettled : Event → Db → Type 0
  IsSettled = Settled lease call_id content

  module _ (db : Db) where
    failed :
        (x : Error) (after : Db)
        → find_and_record db ≡ (err x, after)
        → Post IsSettled (find_and_record db)
    failed x after h = subst (Post IsSettled) (sym h) tt

    answered :
        (e : Event) (after : Db)
        → find_and_record db ≡ (ok e, after)
        → IsSettled e after
        → Post IsSettled (find_and_record db)
    answered e after h s = subst (Post IsSettled) (sym h) s

    module _ (intent : Event)
        (intended : first_call lease.run_id tool_call call_id db.events ≡ some intent)
        (plain : is_checkpoint_tool (json_extract intent.payload "name") ≡ pure false) where
      again :
          (e : Event) (v w : Bool)
          → first_call lease.run_id tool_result call_id db.events ≡ some e
          → leb (e.seq) (intent.seq) ≡ v
          → value_eq (e.payload) (result_payload call_id content) ≡ w
          → Post IsSettled (find_and_record db)
      unfolding record_for settle_result
      again e true w found l q =
          failed (invalid_state (conflicting_result call_id)) db
            (ground (arith, intended, plain, found, l))
      again e false false found l q =
          failed (invalid_state (conflicting_result call_id)) db
            (ground (arith, intended, plain, found, l, q))
      again e false true found l q =
          answered e db (ground (arith, intended, plain, found, l, q)) (record {
            intent = intent;
            intended = intended;
            plain = plain;
            found = found;
            later = l;
            payload = (value_eq_iff _ _).0 q;
          })

      module _ (none_found : first_call lease.run_id tool_result call_id db.events ≡ none) where
        abbrev seq : ℕ
        seq = after_max (max_seq lease.run_id db.events)

        abbrev event : Event
        event =
            new_event db.events lease.run_id seq tool_result (result_payload call_id content)
              (some (tool_result_key call_id)) now

        abbrev left : Db
        left = record db { events = event ∷ db.events }

        event-has_call : has_call lease.run_id tool_result call_id event ≡ true
        event-has_call =
            rw ((nat_beq_iff lease.run_id lease.run_id).1 refl, (str_eq_iff call_id call_id).1 refl)
              refl

        event-later : leb seq (intent.seq) ≡ false
        event-later =
            ground
              (arith, (first_call-below lease.run_id tool_call call_id db.events intent intended).1)

        event-IsSettled : IsSettled event left
        event-IsSettled = record {
          intent = intent;
          intended =
              first_call-other lease.run_id tool_call call_id db.events event (ground arith)
              ∙ intended;
          plain = plain;
          found =
              first_call-new lease.run_id tool_result call_id db.events event none_found
                event-has_call;
          later = event-later;
          payload = refl;
        }

        fresh :
            (a b c d : Bool)
            → ltb seq i32_limit ≡ a
            → seq_taken lease.run_id seq db.events ≡ b
            → key_taken lease.run_id (some (tool_result_key call_id)) db.events ≡ c
            → has_run lease.run_id db ≡ d
            → Post IsSettled (find_and_record db)
        unfolding record_for settle_result append_next next_event_seq decode_i32 insert_event
        fresh false b c d p q r t =
            failed (db_error column_decode) db (ground (arith, intended, plain, none_found, p))
        fresh true true c d p q r t =
            failed (db_error unique_violation) db
              (ground (arith, intended, plain, none_found, p, q))
        fresh true false true d p q r t =
            failed (db_error unique_violation) db
              (ground (arith, intended, plain, none_found, p, q, r))
        fresh true false false false p q r t =
            failed (db_error foreign_key_violation) db
              (ground (arith, intended, plain, none_found, p, q, r, t))
        fresh true false false true p q r t =
            answered event left (ground (arith, intended, plain, none_found, p, q, r, t))
              event-IsSettled

      settled_by :
          (o : Option Event)
          → first_call lease.run_id tool_result call_id db.events ≡ o
          → Post IsSettled (find_and_record db)
      settled_by none h =
          fresh h (ltb (seq h) i32_limit) (seq_taken lease.run_id (seq h) db.events)
            (key_taken lease.run_id (some (tool_result_key call_id)) db.events)
            (has_run lease.run_id db) refl refl refl refl
      settled_by (some e) h =
          again e (leb (e.seq) (intent.seq)) (value_eq (e.payload) (result_payload call_id content))
            h refl refl

    module _ (intent : Event)
        (intended : first_call lease.run_id tool_call call_id db.events ≡ some intent) where
      refused_type :
          (v : SqlValue)
          → json_extract intent.payload "name" ≡ v
          → is_checkpoint_tool v ≡ raise (db_error column_decode)
          → Post IsSettled (find_and_record db)
      unfolding record_for
      refused_type v e r = failed (db_error column_decode) db (ground (arith, intended, e, r))

      with_name :
          (v : SqlValue)
          → json_extract intent.payload "name" ≡ v
          → Post IsSettled (find_and_record db)
      unfolding record_for
      with_name (text name) e = elim (Bool-cases (str_eq name "submit_checkpoint")) [
        | inl yes_it ↦
            failed (invalid_state checkpoint_result) db (ground (arith, intended, e, yes_it))
        | inr other ↦
            settled_by intent intended (ap is_checkpoint_tool e ∙ ap pure other)
              (first_call lease.run_id tool_result call_id db.events) refl
      ]
      with_name (json v) e =
          settled_by intent intended (ap is_checkpoint_tool e)
            (first_call lease.run_id tool_result call_id db.events) refl
      with_name sql_null e = refused_type sql_null e refl
      with_name (integer n) e = refused_type (integer n) e refl
      with_name (sql_real n) e = refused_type (sql_real n) e refl

    with_intent :
        (o : Option Event)
        → first_call lease.run_id tool_call call_id db.events ≡ o
        → Post IsSettled (find_and_record db)
    with_intent none h = failed (invalid_state (no_intent call_id)) db (ground (arith, h))
    with_intent (some intent) h = with_name intent h (json_extract intent.payload "name") refl

  pub record_tool_result-IsSettled :
      Yields Always (record_tool_result_with_lease lease call_id content now) IsSettled
  unfolding record_tool_result_with_lease
  record_tool_result-IsSettled = Yields-transaction _ (
      yields_then (validate_writable_run_lease lease now) find_and_record (always _) λ _. record {
        at = λ db _. with_intent db (first_call lease.run_id tool_call call_id db.events) refl;
      })
