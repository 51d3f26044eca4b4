-- ===== src/Agent/Session/Fenced.antt =====
-- A context of src/agent.rs whose lease another claim has fenced.
use zincir.Prelude.{◌≡◌, refl, ap, false, List, String, arith}
use zincir.Json.{Value}
use zincir.Types.{
  ToolCall, CheckpointRecord, CheckpointState, Error, Result, ok, err, invalid_state,
  lease_not_owned,
}
use zincir.Tables.{Db, Clock}
use zincir.Lease.Refusals.{owns_run}
use zincir.Lease.Fenced.{renew-Refused, release-Stops}
use zincir.Agent.{AgentContext}
use zincir.Agent.Payload.{Verification}
use zincir.Agent.Session.{
  Act, ◌>>=◌, ◌>>◌, ensure_healthy, healthy, renew, renewed, prepare_lease_operation,
  record_response, pending_tool_calls, record_tool_result, pending_checkpoint, verify_checkpoint,
  checkpoint, renew_lease, close, complete,
}

-- The method fails and leaves the context and the database as they were.
pub record IsRefused {A : Type 0} (m : Act A) (s : AgentContext × Db) : Type 0 where
  pub error : Error
  pub at : m s ≡ (err error, s)

module _ {A B : Type 0} (s : AgentContext × Db) where
  IsRefused-bind : (m : Act A) (f : A → Act B) → IsRefused m s → IsRefused (m >>= f) s
  IsRefused-bind m f r = record { error = r.error; at = ground (arith, r.at) }

  IsRefused-then : (m : Act A) (n : Act B) → IsRefused m s → IsRefused (m >> n) s
  IsRefused-then m n r = record { error = r.error; at = ground (arith, r.at) }

module _ (ctx : AgentContext) (db : Db) (lost : owns_run ctx.lease db ≡ false) where
  renew-IsRefused : (now : Clock) → IsRefused (renew now) (ctx, db)
  unfolding renew
  renew-IsRefused now =
      let (e, q) = renew-Refused ctx.lease db lost ctx.lease_ttl now in
      record { error = e; at = ap (renewed (ctx, db)) q }

  prepare-IsRefused : (now : Clock) → IsRefused (prepare_lease_operation now) (ctx, db)
  unfolding prepare_lease_operation
  prepare-IsRefused now = by_health (ensure_healthy ctx) refl
    where
      by_health :
          (r : Result (Unit {0}))
          → ensure_healthy ctx ≡ r
          → IsRefused (healthy >> renew now) (ctx, db)
      by_health (err e) q = record { error = e; at = ground (arith, q) }
      by_health (ok u) q = record {
        error = (renew-IsRefused now).error;
        at = ground (arith, q, (renew-IsRefused now).at);
      }

  close-IsRefused : (now : Clock) → IsRefused (close now) (ctx, db)
  unfolding close
  close-IsRefused now = by_health (ensure_healthy ctx) refl
    where
      by_health : (r : Result (Unit {0})) → ensure_healthy ctx ≡ r → IsRefused (close now) (ctx, db)
      by_health (err e) q = record {
        error = e;
        at = ground (arith, q, (release-Stops ctx.lease db lost now).at);
      }
      by_health (ok u) q = record {
        error = invalid_state (lease_not_owned ctx.lease.run_id ctx.lease.epoch);
        at = ground (arith, q, (release-Stops ctx.lease db lost now).at);
      }

  complete-IsRefused : (t0 t1 t2 : Clock) → IsRefused (complete t0 t1 t2) (ctx, db)
  unfolding complete
  complete-IsRefused t0 t1 t2 = by_health (ensure_healthy ctx) refl
    where
      by_health :
          (r : Result (Unit {0})) → ensure_healthy ctx ≡ r → IsRefused (complete t0 t1 t2) (ctx, db)
      by_health (err e) q = record {
        error = e;
        at = ground (arith, q, (release-Stops ctx.lease db lost t2).at);
      }
      by_health (ok u) q = record {
        error = (renew-IsRefused t0).error;
        at = ground (arith, q, (renew-IsRefused t0).at, (release-Stops ctx.lease db lost t2).at);
      }

  -- Under a lease whose owner and epoch no run has, the methods of the context that work under its lease
  -- all fail and leave the context and the database as they were: `record_response`, `pending_tool_calls`,
  -- `record_tool_result`, `checkpoint`, `pending_checkpoint`, `verify_checkpoint`, `renew_lease`, `close`
  -- and `complete`. (`state` only reads, without the lease.)
  pub fenced_methods :
      (content : Value) (tool_calls : List ToolCall) (stop_reason call_id : String)
      (candidate : CheckpointRecord) (state : CheckpointState)
      (verifier : CheckpointState → Act Verification) (t0 t1 t2 t3 t4 t5 : Clock)
      → IsRefused (record_response content tool_calls stop_reason t0 t1) (ctx, db)
        × IsRefused (pending_tool_calls t0 t1) (ctx, db)
        × IsRefused (record_tool_result call_id content t0 t1) (ctx, db)
        × IsRefused (checkpoint call_id state verifier t0 t1 t2 t3 t4 t5) (ctx, db)
        × IsRefused (pending_checkpoint t0 t1) (ctx, db)
        × IsRefused (verify_checkpoint candidate verifier t0 t1 t2 t3) (ctx, db)
        × IsRefused (renew_lease t0) (ctx, db)
        × IsRefused (close t0) (ctx, db)
        × IsRefused (complete t0 t1 t2) (ctx, db)
  unfolding record_response pending_tool_calls record_tool_result checkpoint pending_checkpoint
      verify_checkpoint renew_lease
  fenced_methods content tool_calls stop_reason call_id candidate state verifier t0 t1 t2 t3 t4 t5 =
      (
        search (IsRefused-bind, IsRefused-then, prepare-IsRefused),
        search (IsRefused-bind, IsRefused-then, prepare-IsRefused),
        search (IsRefused-bind, IsRefused-then, prepare-IsRefused),
        search (IsRefused-bind, IsRefused-then, prepare-IsRefused),
        search (IsRefused-bind, IsRefused-then, prepare-IsRefused),
        search (IsRefused-bind, IsRefused-then, prepare-IsRefused),
        search (IsRefused-bind, IsRefused-then, prepare-IsRefused),
        close-IsRefused t0,
        complete-IsRefused t0 t1 t2,
      )
