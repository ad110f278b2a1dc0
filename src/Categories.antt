-- ===== src/Categories.antt =====
-- Categories of transactions, core/models/categories: the table, its seed, and the two functions that
-- choose a category for a synced transaction.
pub mod Model
pub mod Keywords
pub mod Direction
pub mod Stable
mod Tests
