-- ===== src/Chat.antt =====
-- The chat: core/tasks/conversations.py and the stream of services/ai_service/ai_client.py.
pub mod Stream
pub mod Relay
pub mod Transcript
pub mod Refined
mod Wire
mod Tests
