-- ===== src/Calls/Memo.antt =====
-- The results of named steps and the wake times of timers in src/db.rs, over whole histories.
use zincir.Prelude.{ℕ, ◌≡◌, refl, ◌∙◌, some, List, String}
use zincir.Json.{Value}
use zincir.Types.{Uuid, ok}
use zincir.Sql.Laws.{Unique}
use zincir.Tables.{RunRow, Db, Clock, find_run}
use zincir.Steps.{is_step, find_step, complete_step, claim_step, finish_step}
use zincir.Steps.Once.{completed_row, claim_completed}
use zincir.Timers.{find_timer, schedule_timer}
use zincir.Timers.Saved.{schedule_timer-IsSaved, schedule_saved}
use zincir.Lease.Durations.{Duration, duration_to_millis, checked_add}
use zincir.Grows.Workflow.{complete_step-Grows}
use zincir.Calls.{Call, run_calls}
use zincir.Calls.History.{run_calls-Grows}

-- Once a step of a stored run has been completed, with the key (run, name) unique in the table, every
-- later claim of it answers the value it was completed with and changes nothing, whatever calls come
-- between, from whatever workflow the claim comes and at any time.
pub complete_step-claim_step :
    (run_id : Uuid) (name : String) (owner_id other : Uuid) (value : Value) (now later : Clock)
    (db : Db) (r : RunRow) (cs : List (Clock × Call))
    → Unique (is_step run_id name) db.steps
    → find_run run_id db ≡ some r
    → (complete_step run_id name owner_id value now db).0 ≡ ok tt
    → claim_step run_id name other later
        (run_calls (complete_step run_id name owner_id value now db).1 cs)
      ≡ (ok (some value), run_calls (complete_step run_id name owner_id value now db).1 cs)
unfolding find_run find_step
complete_step-claim_step run_id name owner_id other value now later db r cs u known h =
    let after = (complete_step run_id name owner_id value now db).1 in
    let (s, e) = completed_row run_id name owner_id value now db u h in
    let g = run_calls-Grows after cs in
    let (r', known', _) =
      ((complete_step-Grows run_id name owner_id value now).at db).runs run_id r known in
    let (r'', known'', _) = g.runs run_id r' known' in
    claim_completed run_id name (run_calls after cs) r'' known'' s value now later other
      (g.steps run_id name (finish_step value now s) e refl)

-- Once a timer has been scheduled, every later `schedule_timer` of that name in that run whose delay
-- fits answers the wake time that the first one answered and changes nothing, whatever its delay and
-- whatever calls come between.
pub schedule_timer-twice :
    (run_id : Uuid) (name : String) (delay delay' : Duration) (now later : Clock) (db after : Db)
    (wake_at_ms t u : ℕ) (cs : List (Clock × Call))
    → schedule_timer run_id name delay now db ≡ (ok wake_at_ms, after)
    → duration_to_millis delay' ≡ ok t
    → checked_add later.utc_millis t ≡ some u
    → schedule_timer run_id name delay' later (run_calls after cs)
      ≡ (ok wake_at_ms, run_calls after cs)
unfolding find_run find_timer
schedule_timer-twice run_id name delay delay' now later db after wake_at_ms t u cs h q q' =
    let s = schedule_timer-IsSaved run_id name delay now db wake_at_ms after h in
    let g = run_calls-Grows after cs in
    let (r, known, _) = g.runs run_id s.run s.known in
    let (timer, saved, same) = g.timers run_id name s.timer s.saved in
    schedule_saved run_id name delay' later (run_calls after cs) wake_at_ms t u
      (record { run = r; known = known; timer = timer; saved = saved; wake = same ∙ s.wake }) q q'
