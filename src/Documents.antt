-- ===== src/Documents.antt =====
-- Statement files around the pipeline, core/views/statements.py: upload, deletion and approval.
pub mod Model
pub mod Upload
pub mod Deletion
pub mod Removed
pub mod Stored
pub mod Approval
pub mod Committed
pub mod Answered
pub mod Approved
pub mod Override
mod Tests
