-- ===== src/Mockbank.antt =====
-- The mock bank's ledger service, mock-bank-sync/app.
pub mod Model
pub mod Access
pub mod Simulate
mod Scoped
mod Seeded
mod Listed
mod Tests
