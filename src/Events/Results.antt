-- ===== src/Events/Results.antt =====
-- Retries of `record_tool_result_with_lease` of src/db.rs.
use zincir.Prelude.{◌≡◌, refl, sym, ap, ◌∙◌, subst, Bool, true, false, arith, String, if◌then◌else◌}
use zincir.Json.{Value, has_real, value_eq, value_eq_iff}
use zincir.Types.{Event, RunLease, ok, err, conflicting_result, invalid_state}
use zincir.Tables.{Db, Clock}
use zincir.Tables.Yields.{Post}
use zincir.Store.{validate_writable_run_lease}
use zincir.Events.{record_for, settle_result, record_tool_result_with_lease, result_payload}
use zincir.Events.Settled.{Settled, record_tool_result-IsSettled}

bools : (a b : Bool) → (a ≡ true → b ≡ true) → (b ≡ true → a ≡ true) → a ≡ b
bools true b f g = sym (f refl)
bools false true f g = g refl
bools false false f g = refl

content_of :
    (call_id : String) (a b : Value) → result_payload call_id a ≡ result_payload call_id b → a ≡ b
content_of call_id a b h = cc

same_payload :
    (call_id : String) (a b : Value)
    → value_eq (result_payload call_id a) (result_payload call_id b) ≡ value_eq b a
same_payload call_id a b =
    bools _ _
      (λ q. (value_eq_iff b a).1 (
        sym (
          content_of call_id a b
            ((value_eq_iff (result_payload call_id a) (result_payload call_id b)).0 q))))
      (λ p.
        (value_eq_iff (result_payload call_id a) (result_payload call_id b)).1
          (ap (result_payload call_id) (sym ((value_eq_iff b a).0 p))))

module _ (lease : RunLease) (call_id : String) (content other : Value) (later : Clock) (after : Db)
    (e : Event) (s : Settled lease call_id content e after)
    (valid : validate_writable_run_lease lease later after ≡ (ok tt, after)) where
  compared : value_eq e.payload (result_payload call_id other) ≡ value_eq other content
  compared =
      ap (λ p. value_eq p (result_payload call_id other)) s.payload
      ∙ (same_payload call_id content other)

  settled_again :
      (b : Bool)
      → value_eq other content ≡ b
      → record_tool_result_with_lease lease call_id other later after
        ≡ (if b then ok e else err (invalid_state (conflicting_result call_id)), after)
  unfolding record_tool_result_with_lease record_for settle_result
  settled_again true q = ground (arith, valid, s.intended, s.plain, s.found, s.later, compared, q)
  settled_again false q = ground (arith, valid, s.intended, s.plain, s.found, s.later, compared, q)

-- Once a tool result has been recorded whose content has no numbers but whole ones that are not negative,
-- a later report of a result for the same call, whose lease is still good, answers the stored event if it
-- brings the same content and is refused as conflicting otherwise; it changes nothing either way, and no
-- second result is written.
pub record_tool_result-again :
    (lease : RunLease) (call_id : String) (content other : Value) (now later : Clock)
    (db after : Db) (e : Event)
    → has_real content ≡ false
    → record_tool_result_with_lease lease call_id content now db ≡ (ok e, after)
    → validate_writable_run_lease lease later after ≡ (ok tt, after)
    → record_tool_result_with_lease lease call_id other later after ≡ (
      if value_eq other content then ok e else err (invalid_state (conflicting_result call_id)),
      after,
    )
record_tool_result-again lease call_id content other now later db after e exact h valid =
    settled_again lease call_id content other later after e
      (subst (Post (Settled lease call_id content)) h
        ((record_tool_result-IsSettled lease call_id content now).at db tt))
      valid (value_eq other content) refl
