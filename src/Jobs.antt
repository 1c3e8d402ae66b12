-- ===== src/Jobs.antt =====
-- Workflow jobs: the persisted record, its lifecycle, its storage and the outbox.
pub mod Model
pub mod Lifecycle
pub mod Item
pub mod Table
pub mod Repository
pub mod Outbox
mod Tests
