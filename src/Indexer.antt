-- ===== src/Indexer.antt =====
-- permanode/src/indexer.rs: recording blocks as the node reports them. `Node` is the node and the
-- settings, `Body` decides what a height is written as, `Record` writes it, `Poll` is the loop.
pub mod Node
pub mod Body
pub mod Record
pub mod Poll
pub mod Frame
pub mod Canonical
pub mod Ingest
pub mod Places
pub mod Stored
pub mod Reorg
pub mod Headers
pub mod Sweep
pub mod Swept
mod SweepTests
pub mod Linked
pub mod Coverage
pub mod Cycle
pub mod Final
mod Tests
