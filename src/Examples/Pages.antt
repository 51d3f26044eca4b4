-- ===== src/Examples/Pages.antt =====
-- The inspector on concrete values.
use zincir.Prelude.{
  ◌≡◌, refl, ◌↔◌, ◌≤◌, none, some, String, List, [], ◌∷◌, inl, inr, str_eq, str_eq_iff, subst,
  arith, if◌then◌else◌,
}
use zincir.Json.{null}
use zincir.Types.{AgentRun, StepRecord, TimerRecord, ok, failed, active}
use zincir.Examples.{claimed_run, claimed_db, call_event}
use zincir.Ui.Html.{Formats, page, render_run_list, render_run_detail}
use zincir.Ui.Markup.{markup}
use zincir.Ui.Structure.{IsPlain, markup-run_list_page, markup-run_detail_page}
use zincir.Ui.Handlers.{Texts, run_page, handle, owed_status, handle-status}
use zincir.Sql.{count}
use zincir.Ui.Serve.{
  SchemaRow, OneEach, is_called, apart, Surroundings, v4, serve, Serves, serve_iff,
}

abbrev epoch_formats : Formats
epoch_formats = record {
  show_id = λ id. "00000000-0000-0000-0000-000000000001";
  to_rfc3339 = λ time. "1970-01-01T00:00:00Z";
  from_timestamp_millis = λ ms. some ms;
  to_string_pretty = λ v. some "{ \"a\": \"<b>\" }";
}

epoch_formats-IsPlain : IsPlain epoch_formats
unfolding markup
epoch_formats-IsPlain = record { plain_id = λ id. refl; plain_time = λ time. refl }

abbrev script_run : AgentRun
script_run = record {
  id = 2;
  parent_run_id = none;
  role = "<script>alert(1)</script>";
  status = failed;
  provider = "\"stub\"";
  config = null;
  created_at = 1;
  updated_at = 2;
}

abbrev plain_run : AgentRun
plain_run = claimed_run.run

markup-run_list_page_example :
    markup (page "Runs" (render_run_list epoch_formats (script_run ∷ [])))
    ≡ markup (page "Runs" (render_run_list epoch_formats (plain_run ∷ [])))
markup-run_list_page_example =
    markup-run_list_page epoch_formats (script_run ∷ []) (plain_run ∷ []) epoch_formats-IsPlain refl

abbrev script_step : StepRecord
script_step = record {
  name = "<b>";
  status = active;
  owner_id = none;
  result = some null;
  started_at = 1;
  completed_at = none;
}

abbrev script_timer : TimerRecord
script_timer = record { name = "<i>"; wake_at_ms = 5; completed_at = some 7 }

markup-run_detail_page_example :
    markup (
      page "a" (
        render_run_detail epoch_formats script_run
          (call_event ∷ [])
          (script_step ∷ [])
          (script_timer ∷ [])))
    ≡ markup (
        page "<b>" (
          render_run_detail epoch_formats plain_run
            (record call_event { seq = 4 } ∷ [])
            (record script_step { name = "b" } ∷ [])
            (record script_timer { completed_at = none } ∷ [])))
markup-run_detail_page_example =
    markup-run_detail_page epoch_formats "a" "<b>" script_run plain_run (call_event ∷ [])
      (record call_event { seq = 4 } ∷ []) (script_step ∷ [])
      (record script_step { name = "b" } ∷ []) (script_timer ∷ [])
      (record script_timer { completed_at = none } ∷ []) epoch_formats-IsPlain refl refl refl

abbrev tables : List SchemaRow
tables =
    record { kind = "table"; name = "events" }
    ∷ record { kind = "table"; name = "steps" }
    ∷ record { kind = "index"; name = "idx_events_idem" }
    ∷ record { kind = "table"; name = "timers" }
    ∷ record { kind = "table"; name = "agent_runs" }
    ∷ []

abbrev surroundings : Surroundings
surroundings = record {
  open_read_only_pool = ok tables;
  address_variable = none;
  parse = λ s. if str_eq s "127.0.0.1:8787" then inl (v4 127 0 0 1 8787) else inr "invalid";
  bind = λ a. ok tt;
}

tables-OneEach : (name : String) → count (is_called name) tables ≤ 1
unfolding count
tables-OneEach name = ground (
  arith,
  apart name "agent_runs" "events" refl,
  apart name "agent_runs" "steps" refl,
  apart name "agent_runs" "timers" refl,
  apart name "events" "steps" refl,
  apart name "events" "timers" refl,
  apart name "steps" "timers" refl,
  str_eq_iff "agent_runs" name,
  str_eq_iff "events" name,
  str_eq_iff "steps" name,
  str_eq_iff "timers" name,
  str_eq_iff name "agent_runs",
  str_eq_iff name "events",
  str_eq_iff name "steps",
  str_eq_iff name "timers",
)

surroundings-OneEach : OneEach surroundings
surroundings-OneEach schema name e =
    subst (λ rows. count (is_called name) rows ≤ 1) (ok_injective e) (tables-OneEach name)
  where
    ok_injective : ok tables ≡ ok schema → tables ≡ schema
    ok_injective p = cc

serve_iff_example :
    (serve surroundings ≡ ok (v4 127 0 0 1 8787)) ↔ Serves surroundings (v4 127 0 0 1 8787)
serve_iff_example = serve_iff surroundings (v4 127 0 0 1 8787) surroundings-OneEach

abbrev inspector_texts : Texts
inspector_texts = record {
  formats = epoch_formats;
  error_to_string = λ e. "not found: <1>";
  show_status = λ s. "404 Not Found";
}

handle-status_example :
    ((handle inspector_texts (run_page 9) claimed_db).0.status
      ≡ owed_status (run_page 9) claimed_db)
    × ((handle inspector_texts (run_page 9) claimed_db).1 ≡ claimed_db)
handle-status_example = handle-status inspector_texts claimed_db (run_page 9)
