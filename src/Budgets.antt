-- ===== src/Budgets.antt =====
-- Budget plans, savings goals and the windows of the dashboard, core/views/budgets.py.
pub mod Model
pub mod Plan
pub mod Calendar
pub mod Goals
pub mod Windows
mod Rows
mod Rounding
mod Saved
mod Partial
mod Upsert
mod Rounds
mod Ordinals
mod Preceding
mod Tests
