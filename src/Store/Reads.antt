-- ===== src/Store/Reads.antt =====
-- The helpers of Store.antt that only read the database.
use zincir.Prelude.{ℕ}
use zincir.Types.{Uuid, RunLease}
use zincir.Tables.{Db, Clock}
use zincir.Tables.Along.{Preorder, Along, along_rules, Along-bind}
use zincir.Store.{
  current_status, validate_run_lease, validate_writable_run_lease, decode_i32, next_event_seq,
}

module _ {R : Db → Db → Type 0} (p : Preorder R) where
  pub Along-current_status : (id : Uuid) → Along R (current_status id)
  unfolding current_status
  Along-current_status id = search along_rules

  pub Along-validate : (lease : RunLease) (now : Clock) → Along R (validate_run_lease lease now)
  unfolding validate_run_lease
  Along-validate lease now = search along_rules

  pub Along-validate_writable :
      (lease : RunLease) (now : Clock) → Along R (validate_writable_run_lease lease now)
  unfolding validate_writable_run_lease
  Along-validate_writable lease now = search (along_rules, Along-validate, Along-current_status)

  pub Along-decode : (n : ℕ) → Along R (decode_i32 n)
  unfolding decode_i32
  Along-decode n = search along_rules

  pub Along-next_seq : (id : Uuid) → Along R (next_event_seq id)
  unfolding next_event_seq
  Along-next_seq id = search (along_rules, Along-decode)

pub ruleset read_rules = (
  along_rules, Along-current_status, Along-validate_writable, Along-decode, Along-next_seq,
  Along-validate,
)
