-- ===== src/Ui/Html.antt =====
-- The HTML templates of src/ui.rs: the list of runs, the page of a run, and the frame round both.
use Prim.Native.String.{◌++◌}
use zincir.Prelude.{ℕ, Option, none, some, String, List, [], ◌∷◌, decimal}
use zincir.Json.{Value}
use zincir.Types.{
  Uuid, Timestamp, AgentRun, Event, StepRecord, StepStatus, waiting, active, done, TimerRecord,
}
use zincir.Types.Names.RunStatusText
use zincir.Types.Names.EventTypeText
use zincir.Ui.{escape}
use zincir.Ui.Style.{css}

-- Texts that uuid, chrono and serde_json write: an identifier, a time as RFC 3339 in seconds, the time
-- of a number of milliseconds if chrono has it, and a JSON value over several lines.
pub record Formats : Type 0 where
  pub show_id : Uuid → String
  pub to_rfc3339 : Timestamp → String
  pub from_timestamp_millis : ℕ → Option Timestamp
  pub to_string_pretty : Value → Option String

-- The text of the column `steps.status`.
unfoldable pub step_status : StepStatus → String
step_status waiting = "pending"
step_status active = "running"
step_status done = "completed"

-- `iter().map(f).collect::<String>()`
abbrev pub collect : {A : Type 0} → (A → String) → List A → String
collect f [] = ""
collect f (x ∷ xs) = f x ++ collect f xs

unfoldable pub page : String → String → String
unfolding escape css
page title content =
    "<!doctype html><html lang=\"en\"><head><meta charset=\"utf-8\"><meta name=\"viewport\" content=\"width=device-width, initial-scale=1\"><title>"
    ++ escape title
    ++ "</title><style>"
    ++ css
    ++ "</style></head><body><main><header><a class=\"brand\" href=\"/\">zincir</a><span>Inspector</span></header>"
    ++ content
    ++ "</main></body></html>"

module _ (f : Formats) where
  unfoldable pub format_time : Timestamp → String
  format_time time = f.to_rfc3339 time

  unfoldable pub format_timestamp : ℕ → String
  unfolding format_time decimal
  format_timestamp milliseconds = elim (f.from_timestamp_millis milliseconds) [
    | none ↦ decimal milliseconds
    | some time ↦ format_time time
  ]

  unfoldable pub render_json : Value → String
  unfolding escape
  render_json value = escape (elim (f.to_string_pretty value) [ none ↦ "null" | some text ↦ text ])

  -- `map(format_time).unwrap_or_else(|| "—".into())`
  unfoldable pub time_or_dash : Option Timestamp → String
  unfolding format_time
  time_or_dash none = "—"
  time_or_dash (some time) = format_time time

  unfoldable pub json_or_dash : Option Value → String
  unfolding render_json
  json_or_dash none = "—"
  json_or_dash (some value) = render_json value

  unfoldable pub run_row : AgentRun → String
  unfolding escape format_time RunStatusText.as_str
  run_row run =
      "<tr><td><a href=\"/runs/"
      ++ f.show_id run.id
      ++ "\"><code>"
      ++ f.show_id run.id
      ++ "</code></a></td><td><span class=\"status "
      ++ RunStatusText.as_str run.status
      ++ "\">"
      ++ RunStatusText.as_str run.status
      ++ "</span></td><td>"
      ++ escape run.role
      ++ "</td><td>"
      ++ escape run.provider
      ++ "</td><td>"
      ++ format_time run.updated_at
      ++ "</td></tr>"

  unfoldable pub render_run_list : List AgentRun → String
  unfolding run_row
  render_run_list [] = "<p class=\"empty\">No durable runs yet.</p>"
  render_run_list (run ∷ runs) =
      "<table><thead><tr><th>Run</th><th>Status</th><th>Role</th><th>Provider</th><th>Updated</th></tr></thead><tbody>"
      ++ collect run_row (run ∷ runs)
      ++ "</tbody></table>"

  unfoldable pub event_details : Event → String
  unfolding decimal EventTypeText.as_str format_time render_json
  event_details event =
      "<details><summary>#"
      ++ decimal event.seq
      ++ " · <strong>"
      ++ EventTypeText.as_str event.event_type
      ++ "</strong> · "
      ++ format_time event.created_at
      ++ "</summary><pre>"
      ++ render_json event.payload
      ++ "</pre></details>"

  unfoldable pub render_events : List Event → String
  unfolding event_details
  render_events [] = "<p class=\"empty\">No events.</p>"
  render_events (event ∷ events) = collect event_details (event ∷ events)

  unfoldable pub step_row : StepRecord → String
  unfolding escape step_status format_time time_or_dash json_or_dash
  step_row step =
      "<tr><td><code>"
      ++ escape step.name
      ++ "</code></td><td>"
      ++ escape (step_status step.status)
      ++ "</td><td>"
      ++ format_time step.started_at
      ++ "</td><td>"
      ++ time_or_dash step.completed_at
      ++ "</td><td><pre>"
      ++ json_or_dash step.result
      ++ "</pre></td></tr>"

  unfoldable pub render_steps : List StepRecord → String
  unfolding step_row
  render_steps [] = "<p class=\"empty\">No named steps.</p>"
  render_steps (step ∷ steps) =
      "<table><thead><tr><th>Name</th><th>Status</th><th>Started</th><th>Completed</th><th>Result</th></tr></thead><tbody>"
      ++ collect step_row (step ∷ steps)
      ++ "</tbody></table>"

  unfoldable pub timer_row : TimerRecord → String
  unfolding escape format_timestamp time_or_dash
  timer_row timer =
      "<tr><td><code>"
      ++ escape timer.name
      ++ "</code></td><td>"
      ++ format_timestamp timer.wake_at_ms
      ++ "</td><td>"
      ++ time_or_dash timer.completed_at
      ++ "</td></tr>"

  unfoldable pub render_timers : List TimerRecord → String
  unfolding timer_row
  render_timers [] = "<p class=\"empty\">No durable timers.</p>"
  render_timers (timer ∷ timers) =
      "<table><thead><tr><th>Name</th><th>Wake at</th><th>Completed</th></tr></thead><tbody>"
      ++ collect timer_row (timer ∷ timers)
      ++ "</tbody></table>"

  unfoldable pub render_run_detail :
      AgentRun → List Event → List StepRecord → List TimerRecord → String
  unfolding RunStatusText.as_str escape format_time render_events render_steps render_timers
      render_json
  render_run_detail run events steps timers =
      "<p><a href=\"/\">← All runs</a></p>\n         <h1><code>"
      ++ f.show_id run.id
      ++ "</code></h1>\n         <dl><dt>Status</dt><dd><span class=\"status "
      ++ RunStatusText.as_str run.status
      ++ "\">"
      ++ RunStatusText.as_str run.status
      ++ "</span></dd><dt>Role</dt><dd>"
      ++ escape run.role
      ++ "</dd><dt>Provider</dt><dd>"
      ++ escape run.provider
      ++ "</dd><dt>Created</dt><dd>"
      ++ format_time run.created_at
      ++ "</dd><dt>Updated</dt><dd>"
      ++ format_time run.updated_at
      ++ "</dd></dl>\n         <h2>Events</h2>"
      ++ render_events events
      ++ "\n         <h2>Steps</h2>"
      ++ render_steps steps
      ++ "\n         <h2>Timers</h2>"
      ++ render_timers timers
      ++ "\n         <h2>Configuration</h2><pre>"
      ++ render_json run.config
      ++ "</pre>"
