-- ===== src/Ui/Handlers.antt =====
-- The routes of src/ui.rs with their handlers, and the page of an error.
use Prim.Native.String.{◌++◌}
use zincir.Prelude.{
  ◌≡◌, refl, Bool, true, false, not, if◌then◌else◌, Option, none, some, String, arith,
}
use zincir.Types.{Uuid, Error, Result, ok, err, not_found}
use zincir.Tables.{Db, Tx, pure, ◌>>=◌, find_run, RunRow}
use zincir.Runs.{get_run, list_runs}
use zincir.Sql.{exists}
use zincir.Events.{get_events, events_of, is_too_large}
use zincir.Steps.{get_steps}
use zincir.Timers.{get_timers}
use zincir.Ui.{escape}
use zincir.Ui.Html.{Formats, page, render_run_list, render_run_detail}

pub data StatusCode : Type 0 where
  status_ok status_not_found status_internal_server_error : StatusCode

pub record Response : Type 0 where
  pub status : StatusCode
  pub body : String

-- The paths of the router.
pub data Route : Type 0 where
  run_list : Route
  run_page : Uuid → Route

abbrev pub error_status : Error → StatusCode
error_status (not_found id) = status_not_found
error_status _ = status_internal_server_error

-- How an error and a status are written: thiserror's `to_string` and `StatusCode`'s `Display`.
pub record Texts : Type 0 where
  pub formats : Formats
  pub error_to_string : Error → String
  pub show_status : StatusCode → String

module _ (t : Texts) where
  unfoldable pub index : Tx String
  unfolding list_runs page render_run_list
  index = do runs ← list_runs; pure (page "Runs" (render_run_list t.formats runs))

  unfoldable pub run_detail : Uuid → Tx String
  unfolding get_run get_events get_steps get_timers page render_run_detail
  run_detail run_id = do
    run ← get_run run_id
    events ← get_events run_id
    steps ← get_steps run_id
    timers ← get_timers run_id
    pure (
        page ("Run " ++ t.formats.show_id run_id)
          (render_run_detail t.formats run events steps timers))

  unfoldable pub into_response : Error → Response
  unfolding page escape
  into_response error = record {
    status = error_status error;
    body = page "Zincir Inspector" (
        "<h1>"
        ++ t.show_status (error_status error)
        ++ "</h1><p>"
        ++ escape (t.error_to_string error)
        ++ "</p><p><a href=\"/\">Runs</a></p>");
  }

  abbrev pub respond : Result String × Db → Response × Db
  respond (ok html, db) = (record { status = status_ok; body = html }, db)
  respond (err error, db) = (into_response error, db)

  unfoldable pub handle : Route → Db → Response × Db
  unfolding index run_detail into_response
  handle run_list db = respond (index db)
  handle (run_page run_id) db = respond (run_detail run_id db)

-- Each event of the run has a sequence number below 2^31.
abbrev pub all_decode : Uuid → Db → Bool
all_decode run_id db = not (exists is_too_large (events_of run_id db.events))

-- The status that a route owes.
abbrev pub owed_status : Route → Db → StatusCode
owed_status run_list db = status_ok
owed_status (run_page run_id) db = elim (find_run run_id db) [
  | none ↦ status_not_found
  | some row ↦ if all_decode run_id db then status_ok else status_internal_server_error
]

module _ (t : Texts) (db : Db) where
  run_page-status :
      (run_id : Uuid) (o : Option RunRow) (b : Bool)
      → find_run run_id db ≡ o
      → exists is_too_large (events_of run_id db.events) ≡ b
      → ((handle t (run_page run_id) db).0.status ≡ owed_status (run_page run_id) db)
        × ((handle t (run_page run_id) db).1 ≡ db)
  unfolding handle run_detail get_run get_events get_steps get_timers into_response
  run_page-status run_id none b e f = ground (arith, e)
  run_page-status run_id (some row) true e f = ground (arith, e, f)
  run_page-status run_id (some row) false e f = ground (arith, e, f)

-- The list of runs answers 200. The page of a run answers 404 if the run is not stored, 500 if it is
-- and an event of it has a sequence number that is no `i32`, and 200 otherwise. No request changes the
-- database.
pub handle-status :
    (t : Texts) (db : Db) (route : Route)
    → ((handle t route db).0.status ≡ owed_status route db) × ((handle t route db).1 ≡ db)
unfolding handle index list_runs
handle-status t db run_list = (refl, refl)
handle-status t db (run_page run_id) =
    run_page-status t db run_id (find_run run_id db)
      (exists is_too_large (events_of run_id db.events)) refl refl
