-- ===== src/Handler/Results.antt =====
-- The handlers and the results of games that are over.
pub mod Kept
pub mod Endings
pub mod Meetings
pub mod Fights
pub mod Runs
