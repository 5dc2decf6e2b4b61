-- ===== src/Raw.antt =====
-- permanode/src/raw.rs: the raw block archive, and the rows of `raw_blocks` (core/src/db.rs).
pub mod Archive
pub mod Roundtrip
mod Tests
