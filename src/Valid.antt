-- ===== src/Valid.antt =====
-- The well-formedness of the database: what every call of src/db.rs keeps.
pub mod Candidates
pub mod Keys
pub mod Log
pub mod Runs
