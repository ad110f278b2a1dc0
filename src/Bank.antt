-- ===== src/Bank.antt =====
-- Bank accounts, their synchronised transactions and balances, and the links to the banks.
pub mod Model
pub mod Balance
mod AnyOrder
pub mod Ingest
pub mod Analysis
pub mod Ledger
pub mod Sweep
pub mod Delivery
pub mod Accounts
pub mod Connect
pub mod OneRow
mod Closed
pub mod StateOnce
pub mod Webhook
pub mod Pushed
mod Tests
mod LinkTests
