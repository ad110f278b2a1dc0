-- ===== src/Statements.antt =====
-- The statement pipeline, core/tasks/statements.py and the views that start it.
pub mod Model
pub mod Phases
pub mod Pipeline
pub mod Outcome
pub mod Task
pub mod Settling
pub mod Announcing
pub mod RetryLimit
mod Tests
