-- ===== src/Persistence.antt =====
-- Shared/MessageQueue/MessagePersistence.cpp: the messages of the queues in a file.
pub mod Records
pub mod RoundTrip
pub mod DataFile
pub mod Store
pub mod Kept
pub mod Loaded
pub mod Saved
pub mod Behind
pub mod Offsets
mod Tests
