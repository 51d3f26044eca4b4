-- ===== src/Workflow/Sleeps.antt =====
-- `WorkflowContext::sleep` of src/workflow.rs over whole histories.
use zincir.Prelude.{ℕ, ◌≤◌, ◌+◌}
use zincir.Tables.{Clock}

-- Tokio's sleep lasts at least as long as it is asked to, and at most `late` longer.
abbrev pub IsPunctual : ℕ → (ℕ → Clock → Clock) → Type 0
IsPunctual late sleep_ms =
    (ms : ℕ) (c : Clock)
    → (c.utc_millis + ms ≤ (sleep_ms ms c).utc_millis)
      × ((sleep_ms ms c).utc_millis ≤ c.utc_millis + ms + late)
