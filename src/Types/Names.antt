-- ===== src/Types/Names.antt =====
-- `as_str` and `from_str` of `RunStatus` and `EventType` in src/types.rs, by which the two enums are
-- stored as TEXT columns and read back.
pub mod RunStatusText
pub mod EventTypeText
