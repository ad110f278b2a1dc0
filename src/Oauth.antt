-- ===== src/Oauth.antt =====
-- The bank's OAuth service, mock-bank-oauth/app.
pub mod Store
pub mod Frame
pub mod Routes
pub mod SingleUse
pub mod Requests
pub mod Token
pub mod Replay
pub mod Login
pub mod Binding
pub mod Flow
mod Tests
