-- ===== src/Receipts.antt =====
-- permanode/src/receipts.rs: the import of payment receipts into header-only blocks.
pub mod Journal
pub mod Again
pub mod Decode
pub mod File
pub mod Grows
pub mod History
pub mod Import
pub mod Replay
pub mod Rounds
pub mod Safety
pub mod Verdict
pub mod View
mod Tests
