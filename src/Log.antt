-- ===== src/Log.antt =====
-- hobo/log: the event schema, the frame format, the writer and the readers of the event log.
pub mod Event
pub mod Format
pub mod Writer
pub mod Payload
pub mod Snapshot
pub mod SnapshotTests
pub mod Tests
