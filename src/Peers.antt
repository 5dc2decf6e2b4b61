-- ===== src/Peers.antt =====
-- permanode/src/import.rs: what a permanode takes over from another one.
pub mod Check
pub mod Ask
pub mod Fill
pub mod FillRaw
pub mod Filled
pub mod Kept
pub mod Own
pub mod Sightings
pub mod Source
pub mod Whole
pub mod Written
mod Tests
