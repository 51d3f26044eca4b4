-- ===== src/Calls/Ended.antt =====
-- A run of src/db.rs whose status is terminal and that has no owner, over whole histories.
use zincir.Prelude.{
  ◌≡◌, refl, Bool, true, false, Option, none, some, List, ◌==◌, arith, nat_beq_iff, subst, sym,
}
use zincir.Types.{Uuid, RunStatus, pending, running, completed, failed, same_status, RunLease}
use zincir.Tables.{RunRow, Db, Clock, find_run}
use zincir.Lease.Durations.{Duration}
use zincir.Lease.{is_terminal, claim_run_lease, acquire_run_lease, recover_run_lease}
use zincir.Lease.Refusals.{Refused}
use zincir.Lease.Final.{IsFinal, found_closed, is_closed}
use zincir.Valid.Runs.{Distinct}
use zincir.Calls
use zincir.Calls.{Call, execute, run_calls, effect}
use zincir.Calls.Fencing.{shown_lease, effect-Refused}
use zincir.Calls.Final.{run_calls-IsFinal, ended-IsFinal, claim_final-Refused, shown-Refused}

-- The call claims this run, or shows a lease of it.
abbrev pub works_on : Uuid → Call → Bool
works_on id (Calls.acquire_run_lease run_id owner_id ttl) = run_id == id
works_on id (Calls.recover_run_lease run_id owner_id ttl) = run_id == id
works_on id c = elim (shown_lease c) [ none ↦ false | some lease ↦ lease.run_id == id ]

closed_self :
    (s : RunStatus) (r : RunRow) → r.status ≡ s → r.lease_owner ≡ none → is_closed s r ≡ true
closed_self pending r e o = ground (arith, e, o)
closed_self running r e o = ground (arith, e, o)
closed_self completed r e o = ground (arith, e, o)
closed_self failed r e o = ground (arith, e, o)

same_status-eq : (a b : RunStatus) → same_status a b ≡ true → a ≡ b
same_status-eq a b h = ground (arith, h)

module _ (id : Uuid) (r : RunRow) (db : Db) (cs : List (Clock × Call)) (d : Distinct db.agent_runs)
    (known : find_run id db ≡ some r) (over : is_terminal r.status ≡ true)
    (free : r.lease_owner ≡ none) where
  later-IsFinal : IsFinal id r.status (run_calls db cs)
  later-IsFinal =
      run_calls-IsFinal id r.status over db cs
        (ended-IsFinal id r.status over db r d known (closed_self r.status r refl free))

-- On a database whose runs have distinct ids, a run that has ended, with a terminal status and no owner,
-- keeps its status and stays without an owner, whatever calls come afterwards.
pub ended_run-stays :
    (id : Uuid) (r : RunRow) (db : Db) (cs : List (Clock × Call))
    → Distinct db.agent_runs
    → find_run id db ≡ some r
    → is_terminal r.status ≡ true
    → r.lease_owner ≡ none
    → (r' : RunRow) × (find_run id (run_calls db cs) ≡ some r')
      × (r'.status ≡ r.status)
      × (r'.lease_owner ≡ none)
unfolding find_run
ended_run-stays id r db cs d known over free =
    let f = later-IsFinal id r db cs d known over free in
    let (r', e, c) = found_closed id r.status (run_calls db cs).agent_runs f.stored f.closed in
    (r', e, same_status-eq r'.status r.status (ground (arith, c)), ground (arith, c))

module _ (id : Uuid) (s : RunStatus) (over : is_terminal s ≡ true) (later : Clock) (db : Db)
    (f : IsFinal id s db) where
  claimed-Refused :
      (run_id owner_id : Uuid) (ttl : Duration) (recover : Bool)
      → (run_id == id) ≡ true
      → Refused (effect (claim_run_lease run_id owner_id ttl recover later)) db
  claimed-Refused run_id owner_id ttl recover h =
      effect-Refused (claim_run_lease run_id owner_id ttl recover later) db (
        subst (λ k. Refused (claim_run_lease k owner_id ttl recover later) db)
          (sym ((nat_beq_iff run_id id).0 h))
          (claim_final-Refused id s over owner_id ttl recover later db f))

  shown_case :
      (c : Call) (o : Option RunLease)
      → shown_lease c ≡ o
      → elim o [ none ↦ false | some lease ↦ lease.run_id == id ] ≡ true
      → Refused (execute c later) db
  shown_case c none e h = cc
  shown_case c (some lease) e h = shown-Refused id s over c lease later db e h f

  works_on-Refused : (c : Call) → works_on id c ≡ true → Refused (execute c later) db
  unfolding execute acquire_run_lease recover_run_lease
  works_on-Refused (Calls.acquire_run_lease run_id owner_id ttl) h =
      claimed-Refused run_id owner_id ttl false h
  works_on-Refused (Calls.recover_run_lease run_id owner_id ttl) h =
      claimed-Refused run_id owner_id ttl true h
  works_on-Refused c h = shown_case c (shown_lease c) refl h

-- Once a run has ended, on a database whose runs have distinct ids, every call that claims it, by
-- recovery too, or that shows a lease of it fails and changes nothing, after any calls and at any time.
pub ended_run-Refused :
    (id : Uuid) (r : RunRow) (db : Db) (cs : List (Clock × Call)) (c : Call) (later : Clock)
    → Distinct db.agent_runs
    → find_run id db ≡ some r
    → is_terminal r.status ≡ true
    → r.lease_owner ≡ none
    → works_on id c ≡ true
    → Refused (execute c later) (run_calls db cs)
ended_run-Refused id r db cs c later d known over free h =
    works_on-Refused id r.status over later (run_calls db cs)
      (later-IsFinal id r db cs d known over free) c h
