-- ===== src/Grows.antt =====
-- What no call of src/db.rs takes back: the events of the log, the runs and the epochs of their leases,
-- completed steps, wake times and decided checkpoints.
pub mod Rows
pub mod Log
pub mod Runs
pub mod Leased
pub mod Workflow
