-- ===== src/Store.antt =====
-- core/src/db.rs: the SQLite storage layer. A database is a record of tables, a table is a list of
-- rows with the newest row first, and an SQL statement is an operation on these lists. `Rows` has
-- the tables, `Blocks` the block rows and their status log, `Gaps` the gap entries, `Bodies` the
-- transactions of a block; the other modules prove.
pub mod Rows
pub mod Blocks
pub mod Gaps
pub mod Bodies
pub mod Index
pub mod Canonical
pub mod Headers
pub mod Frame
pub mod Orphans
pub mod Pruning
pub mod Pruned
pub mod Receipts
pub mod Live
pub mod Slots
pub mod Marked
pub mod Sightings
pub mod Proven
pub mod Insertable
mod Tests
