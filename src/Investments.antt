-- ===== src/Investments.antt =====
-- Saved investment plans and the holdings that they turn into:
-- core/views and core/serializers, investment_scenarios.py and investment_holdings.py.
pub mod Decimal
pub mod Model
pub mod Plan
pub mod Edits
pub mod Purchases
pub mod Plans
pub mod Holdings
mod Requests
mod Settled
mod Once
mod Average
mod Counts
mod Books
mod Recalculated
mod Stuck
mod Tests
