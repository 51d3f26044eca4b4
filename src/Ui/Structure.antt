-- ===== src/Ui/Structure.antt =====
-- What the pages of src/ui.rs owe to the texts of the database: nothing of their markup.
use Prim.Native.String.{◌++◌}
use zincir.Prelude.{
  ℕ, ◌≡◌, refl, Option, none, some, String, List, [], ◌∷◌, length, decimal, decimal-each, arith,
}
use zincir.Json.{Value}
use zincir.Types.{
  Uuid, Timestamp, AgentRun, Event, StepRecord, TimerRecord, RunStatus, pending, running, completed,
  failed, EventType, llm_call, tool_call, tool_result, state_transition, checkpoint_proposed,
  checkpoint_accepted, checkpoint_rejected,
}
use zincir.Types.Names.RunStatusText
use zincir.Types.Names.EventTypeText
use zincir.Ui.Html.{
  Formats, collect, page, format_time, format_timestamp, render_json, time_or_dash, json_or_dash,
  run_row, render_run_list, event_details, render_events, step_row, render_steps, timer_row,
  render_timers, render_run_detail,
}
use zincir.Ui.Markup.{markup, markup-append, markup-escape}

-- An identifier is written in hexadecimal with dashes, and a time in RFC 3339: neither has markup.
pub record IsPlain (f : Formats) : Type 0 where
  pub plain_id : (id : Uuid) → markup (f.show_id id) ≡ ""
  pub plain_time : (time : Timestamp) → markup (f.to_rfc3339 time) ≡ ""

abbrev IsBare : String → Type 0
IsBare s = markup s ≡ ""

append-IsBare : (s t : String) → IsBare s → IsBare t → IsBare (s ++ t)
append-IsBare s t h k = rw (markup-append, h, k) refl

decimal-IsBare : (n : ℕ) → markup (decimal n) ≡ ""
unfolding markup
decimal-IsBare n =
    decimal-each IsBare refl append-IsBare
      (refl, refl, refl, refl, refl, refl, refl, refl, refl, refl) n

status-IsBare : (s : RunStatus) → markup (RunStatusText.as_str s) ≡ ""
unfolding markup RunStatusText.as_str
status-IsBare pending = refl
status-IsBare running = refl
status-IsBare completed = refl
status-IsBare failed = refl

type-IsBare : (t : EventType) → markup (EventTypeText.as_str t) ≡ ""
unfolding markup EventTypeText.as_str
type-IsBare llm_call = refl
type-IsBare tool_call = refl
type-IsBare tool_result = refl
type-IsBare state_transition = refl
type-IsBare checkpoint_proposed = refl
type-IsBare checkpoint_accepted = refl
type-IsBare checkpoint_rejected = refl

ruleset bare = (markup-append, markup-escape, decimal-IsBare, status-IsBare, type-IsBare)

module _ (f : Formats) (plain : IsPlain f) where
  time-IsBare : (time : Timestamp) → markup (format_time f time) ≡ ""
  unfolding format_time
  time-IsBare time = plain.plain_time time

  run_row-same : (r r' : AgentRun) → markup (run_row f r) ≡ markup (run_row f r')
  unfolding run_row
  run_row-same r r' = simp (bare, plain.plain_id, time-IsBare)

  collect-same :
      {A : Type 0} (g : A → String)
      → ((x y : A) → markup (g x) ≡ markup (g y))
      → (xs ys : List A) → length xs ≡ length ys
      → markup (collect g xs) ≡ markup (collect g ys)
  collect-same g h [] [] e = refl
  collect-same g h [] (y ∷ ys) e = absurd (omega (arith, e))
  collect-same g h (x ∷ xs) [] e = absurd (omega (arith, e))
  collect-same g h (x ∷ xs) (y ∷ ys) e =
      rw
        (markup-append (g x), markup-append (g y), h x y, collect-same g h xs ys (omega (arith, e)))
        refl

  json-IsBare : (v : Value) → markup (render_json f v) ≡ ""
  unfolding render_json
  json-IsBare v = markup-escape _

  time_or_dash-IsBare : (o : Option Timestamp) → markup (time_or_dash f o) ≡ ""
  unfolding time_or_dash markup
  time_or_dash-IsBare none = refl
  time_or_dash-IsBare (some time) = time-IsBare time

  json_or_dash-IsBare : (o : Option Value) → markup (json_or_dash f o) ≡ ""
  unfolding json_or_dash markup
  json_or_dash-IsBare none = refl
  json_or_dash-IsBare (some v) = json-IsBare v

  from_millis-IsBare :
      (ms : ℕ) (o : Option Timestamp)
      → markup (elim o [ none ↦ decimal ms | some time ↦ format_time f time ]) ≡ ""
  from_millis-IsBare ms none = decimal-IsBare ms
  from_millis-IsBare ms (some time) = time-IsBare time

  timestamp-IsBare : (ms : ℕ) → markup (format_timestamp f ms) ≡ ""
  unfolding format_timestamp
  timestamp-IsBare ms = from_millis-IsBare ms (f.from_timestamp_millis ms)

  event_details-same : (e e' : Event) → markup (event_details f e) ≡ markup (event_details f e')
  unfolding event_details
  event_details-same e e' = simp (bare, time-IsBare)

  step_row-same : (s s' : StepRecord) → markup (step_row f s) ≡ markup (step_row f s')
  unfolding step_row
  step_row-same s s' = simp (bare, time-IsBare, time_or_dash-IsBare, json_or_dash-IsBare)

  timer_row-same : (t t' : TimerRecord) → markup (timer_row f t) ≡ markup (timer_row f t')
  unfolding timer_row
  timer_row-same t t' = simp (bare, timestamp-IsBare, time_or_dash-IsBare)

  framed-same :
      (before after s t : String)
      → markup s ≡ markup t
      → markup (before ++ (s ++ after)) ≡ markup (before ++ (t ++ after))
  framed-same before after s t h = simp (markup-append, h)

  render_run_list-same :
      (xs ys : List AgentRun)
      → length xs ≡ length ys
      → markup (render_run_list f xs) ≡ markup (render_run_list f ys)
  unfolding render_run_list
  render_run_list-same [] [] e = refl
  render_run_list-same [] (y ∷ ys) e = absurd (omega (arith, e))
  render_run_list-same (x ∷ xs) [] e = absurd (omega (arith, e))
  render_run_list-same (x ∷ xs) (y ∷ ys) e =
      framed-same _ _ _ _ (collect-same (run_row f) run_row-same (x ∷ xs) (y ∷ ys) e)

  render_events-same :
      (xs ys : List Event)
      → length xs ≡ length ys
      → markup (render_events f xs) ≡ markup (render_events f ys)
  unfolding render_events
  render_events-same [] [] e = refl
  render_events-same [] (y ∷ ys) e = absurd (omega (arith, e))
  render_events-same (x ∷ xs) [] e = absurd (omega (arith, e))
  render_events-same (x ∷ xs) (y ∷ ys) e =
      collect-same (event_details f) event_details-same (x ∷ xs) (y ∷ ys) e

  render_steps-same :
      (xs ys : List StepRecord)
      → length xs ≡ length ys
      → markup (render_steps f xs) ≡ markup (render_steps f ys)
  unfolding render_steps
  render_steps-same [] [] e = refl
  render_steps-same [] (y ∷ ys) e = absurd (omega (arith, e))
  render_steps-same (x ∷ xs) [] e = absurd (omega (arith, e))
  render_steps-same (x ∷ xs) (y ∷ ys) e =
      framed-same _ _ _ _ (collect-same (step_row f) step_row-same (x ∷ xs) (y ∷ ys) e)

  render_timers-same :
      (xs ys : List TimerRecord)
      → length xs ≡ length ys
      → markup (render_timers f xs) ≡ markup (render_timers f ys)
  unfolding render_timers
  render_timers-same [] [] e = refl
  render_timers-same [] (y ∷ ys) e = absurd (omega (arith, e))
  render_timers-same (x ∷ xs) [] e = absurd (omega (arith, e))
  render_timers-same (x ∷ xs) (y ∷ ys) e =
      framed-same _ _ _ _ (collect-same (timer_row f) timer_row-same (x ∷ xs) (y ∷ ys) e)

page-same :
    (title title' s t : String)
    → markup s ≡ markup t
    → markup (page title s) ≡ markup (page title' t)
unfolding page
page-same title title' s t h = simp (markup-append, markup-escape, h)

-- The page of the runs has the same markup, character by character, for any two lists of as many runs,
-- whatever texts the runs hold, if identifiers and times are written without markup.
pub markup-run_list_page :
    (f : Formats) (rs rs' : List AgentRun)
    → IsPlain f
    → length rs ≡ length rs'
    → markup (page "Runs" (render_run_list f rs)) ≡ markup (page "Runs" (render_run_list f rs'))
markup-run_list_page f rs rs' plain e =
    page-same "Runs" "Runs" _ _ (render_run_list-same f plain rs rs' e)

-- The page of a run has the same markup, character by character, for any two runs with as many events,
-- steps and timers, whatever texts and JSON values these hold, if identifiers and times are written
-- without markup.
pub markup-run_detail_page :
    (f : Formats) (title title' : String) (run run' : AgentRun) (events events' : List Event)
    (steps steps' : List StepRecord) (timers timers' : List TimerRecord)
    → IsPlain f
    → length events ≡ length events'
    → length steps ≡ length steps'
    → length timers ≡ length timers'
    → markup (page title (render_run_detail f run events steps timers))
      ≡ markup (page title' (render_run_detail f run' events' steps' timers'))
unfolding render_run_detail
markup-run_detail_page f title title' run run' events events' steps steps' timers timers' plain e s
      t =
    page-same title title' _ _ (
      simp (
        bare,
        plain.plain_id,
        time-IsBare f plain,
        render_events-same f plain events events' e,
        render_steps-same f plain steps steps' s,
        render_timers-same f plain timers timers' t,
      ))
