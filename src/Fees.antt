-- ===== src/Fees.antt =====
-- core/src/fees.rs: what a paid fee splits into. `Model` has the definitions, `Pressure` the
-- multiplier against the exact occupancy, `Split` the breakdown.
pub mod Model
pub mod Pressure
pub mod Split
mod Tests
