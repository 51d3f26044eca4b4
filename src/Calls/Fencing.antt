-- ===== src/Calls/Fencing.antt =====
-- Fencing: what the lease epochs of src/db.rs give, over whole histories of calls.
use zincir.Prelude.{
  Bool, true, ◌<◌, ◌≡◌, sym, ap, subst, ◌∙◌, false, Option, none, some, List, ◌==◌, arith,
}
use mathlib.Core.Option.{some-injective}
use zincir.Types.{Result, ok, Uuid, running, RunLease, Error}
use zincir.Sql.Laws.{exists-Unique, holds}
use zincir.Tables.{RunRow, Db, Clock, Tx, pure, find_run}
use zincir.Tables.Stops.{Stops, Stops-then}
use zincir.Lease.Refusals.{
  holds_lease, owns_run, Refused, update_status-Stops, complete-Stops, append_event-Stops,
  append_llm_call-Stops, record_tool_result-Stops, propose-Stops, decide-Stops,
}
use zincir.Lease.Fenced.{not_held, release-Stops, renew-Refused}
use zincir.Valid.Runs.{Distinct, Distinct-Unique}
use zincir.Calls
use zincir.Lease
use zincir.Lease.{is_owned, lease_to}
use zincir.Lease.Durations.{Duration}
use zincir.Lease.Grants.{claim_run_lease-Granted}
use zincir.Lease.Exclusion.{holds_lease-Distinct}
use zincir.Store.{is_leased}
use zincir.Grows.Runs.{claim_run_lease-Grows}
use zincir.Calls.{Call, execute, run_calls, effect}
use zincir.Calls.History.{run_calls-Grows}

-- The lease that a call shows.
abbrev pub shown_lease : Call → Option RunLease
shown_lease (Calls.renew_run_lease lease ttl) = some lease
shown_lease (Calls.release_run_lease lease) = some lease
shown_lease (Calls.complete_run_with_lease lease) = some lease
shown_lease (Calls.update_run_status_with_lease lease) = some lease
shown_lease (Calls.append_event_with_lease lease t payload key) = some lease
shown_lease (Calls.append_llm_call_with_tool_intents_with_lease lease payload intents) = some lease
shown_lease (Calls.record_tool_result_with_lease lease call_id content) = some lease
shown_lease (Calls.propose_checkpoint_with_lease lease call_id state) = some lease
shown_lease (Calls.decide_checkpoint_with_lease lease id a v) = some lease
shown_lease _ = none

pub effect-Refused : {A : Type 0} (m : Tx A) (db : Db) → Refused m db → Refused (effect m) db
effect-Refused m db (e, q) = (e, (Stops-then m (pure tt) (record { at = q })).at)

effect-Stops : {A : Type 0} {m : Tx A} {db : Db} {e : Error} → Stops db e m → Refused (effect m) db
effect-Stops {m = m} {e = e} s = (e, (Stops-then m (pure tt) s).at)

shown_lost :
    (l lease : RunLease) (db : Db)
    → some l ≡ some lease
    → owns_run lease db ≡ false
    → owns_run l db ≡ false
shown_lost l lease db s lost =
    subst (λ x. owns_run x db ≡ false) (sym (some-injective l lease s)) lost

pub unowned-Refused :
    (c : Call) (lease : RunLease) (now : Clock) (db : Db)
    → shown_lease c ≡ some lease
    → owns_run lease db ≡ false
    → Refused (execute c now) db
unfolding execute
unowned-Refused (Calls.renew_run_lease l ttl) lease now db s lost =
    effect-Refused (Lease.renew_run_lease l ttl now) db
      (renew-Refused l db (shown_lost l lease db s lost) ttl now)
unowned-Refused (Calls.release_run_lease l) lease now db s lost =
    (_, (release-Stops l db (shown_lost l lease db s lost) now).at)
unowned-Refused (Calls.complete_run_with_lease l) lease now db s lost =
    (_, (complete-Stops l now db (not_held l db (shown_lost l lease db s lost) now)).at)
unowned-Refused (Calls.update_run_status_with_lease l) lease now db s lost = (
  _,
  (update_status-Stops l now db (not_held l db (shown_lost l lease db s lost) now) running).at,
)
unowned-Refused (Calls.append_event_with_lease l t payload key) lease now db s lost =
    effect-Stops
      (append_event-Stops l now db (not_held l db (shown_lost l lease db s lost) now) t payload key)
unowned-Refused (Calls.append_llm_call_with_tool_intents_with_lease l payload intents) lease now db
      s lost =
    (
      _,
      (append_llm_call-Stops l now db (not_held l db (shown_lost l lease db s lost) now) payload
          intents).at,
    )
unowned-Refused (Calls.record_tool_result_with_lease l call_id content) lease now db s lost =
    effect-Stops (
      record_tool_result-Stops l now db (not_held l db (shown_lost l lease db s lost) now) call_id
        content)
unowned-Refused (Calls.propose_checkpoint_with_lease l call_id state) lease now db s lost =
    effect-Stops
      (propose-Stops l now db (not_held l db (shown_lost l lease db s lost) now) call_id state)
unowned-Refused (Calls.decide_checkpoint_with_lease l id a v) lease now db s lost =
    effect-Stops (decide-Stops l now db (not_held l db (shown_lost l lease db s lost) now) id a v)
unowned-Refused (Calls.create_run _ _ _ _ _) lease now db s lost = cc
unowned-Refused (Calls.acquire_run_lease _ _ _) lease now db s lost = cc
unowned-Refused (Calls.recover_run_lease _ _ _) lease now db s lost = cc
unowned-Refused (Calls.claim_next_recoverable_run _ _) lease now db s lost = cc
unowned-Refused (Calls.claim_step _ _ _) lease now db s lost = cc
unowned-Refused (Calls.complete_step _ _ _ _) lease now db s lost = cc
unowned-Refused (Calls.recover_steps _) lease now db s lost = cc
unowned-Refused (Calls.schedule_timer _ _ _) lease now db s lost = cc
unowned-Refused (Calls.complete_timer _ _) lease now db s lost = cc

-- An older epoch owns nothing.
outdated :
    (lease : RunLease) (r : RunRow) (db : Db)
    → Distinct db.agent_runs
    → find_run lease.run_id db ≡ some r
    → lease.epoch < r.lease_epoch
    → owns_run lease db ≡ false
unfolding find_run
outdated lease r db d e older =
    exists-Unique (λ x. x.id == lease.run_id) (is_owned lease) db.agent_runs
      (Distinct-Unique lease.run_id db.agent_runs d)
    ∙ ap (holds (is_owned lease)) e
    ∙ ground arith

-- Once the epoch of a run is above that of an earlier lease of it, on a database whose runs have
-- distinct ids, every call that shows the earlier lease fails and changes nothing, after any later
-- calls and at any time.
pub stale_lease-Refused :
    (lease : RunLease) (r : RunRow) (db : Db) (cs : List (Clock × Call)) (c : Call) (now : Clock)
    → Distinct db.agent_runs
    → find_run lease.run_id db ≡ some r
    → lease.epoch < r.lease_epoch
    → shown_lease c ≡ some lease
    → Refused (execute c now) (run_calls db cs)
unfolding find_run
stale_lease-Refused lease r db cs c now d e older shown =
    let g = run_calls-Grows db cs in
    let (r', e', le) = g.runs lease.run_id r e in
    unowned-Refused c lease now (run_calls db cs) shown
      (outdated lease r' (run_calls db cs) (g.distinct d) e' (omega arith))

-- A lease that is held has the epoch of its run.
held_epoch :
    (lease : RunLease) (now : Clock) (db : Db) (r : RunRow)
    → Distinct db.agent_runs
    → find_run lease.run_id db ≡ some r
    → holds_lease lease now db ≡ true
    → lease.epoch ≡ r.lease_epoch
held_epoch lease now db r d e h =
    let leased : is_leased lease now.utc_millis r ≡ true =
      ap (holds (is_leased lease now.utc_millis)) (sym e)
      ∙ sym (holds_lease-Distinct lease now db d)
      ∙ h in
    ground arith

-- When a run is claimed, by recovery or not, on a database whose runs have distinct ids, the lease that
-- was held before is fenced: every call that shows it fails and changes nothing, after any later calls
-- and at any time.
pub claim_run_lease-fences :
    (old lease : RunLease) (owner_id : Uuid) (ttl : Duration) (recover : Bool)
    (before now later : Clock) (db after : Db) (cs : List (Clock × Call)) (c : Call)
    → Distinct db.agent_runs
    → holds_lease old before db ≡ true
    → Lease.claim_run_lease old.run_id owner_id ttl recover now db ≡ (ok lease, after)
    → shown_lease c ≡ some old
    → Refused (execute c later) (run_calls after cs)
claim_run_lease-fences old lease owner_id ttl recover before now later db after cs c d held claimed
      shown =
    let g = claim_run_lease-Granted old.run_id owner_id ttl recover now db after lease d claimed in
    stale_lease-Refused old (lease_to owner_id g.expires_at_ms now g.row) after cs c later
      (subst (λ x. Distinct x.agent_runs) (ap (λ (x : Result RunLease × Db). x.1) claimed)
        (((claim_run_lease-Grows old.run_id owner_id ttl recover now).at db).distinct d))
      g.stored (omega (arith, held_epoch old before db g.row d g.found held)) shown
