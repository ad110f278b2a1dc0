-- ===== src/Auth.antt =====
-- Signing in as a bank customer, core/views/auth.py with services/bank_login_states.py.
pub mod States
pub mod Token
pub mod Login
pub mod Sessions
mod Ended
mod Identity
mod Owners
mod Same
mod Once
mod Tests
