-- ===== src/Emission.antt =====
-- core/src/emission.rs: the emission schedule, in two eras chosen by the height. `Schedule` has the
-- constants and the subsidy, `Allocation` the development allocation of one block, `Totals` the
-- closed forms over ranges of heights; the other modules prove.
pub mod Schedule
pub mod Allocation
pub mod Totals
pub mod Bounds
pub mod Era
pub mod Legacy
pub mod Tiers
pub mod ClosedForm
pub mod Payouts
pub mod Time
mod Tests
