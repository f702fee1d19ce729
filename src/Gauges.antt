-- ===== src/Gauges.antt =====
-- programs/rise-rewards.
pub mod State
pub mod Emission
pub mod Stake
pub mod Settlement
pub mod Growth
pub mod Totals
pub mod Solvency
pub mod Missed
pub mod Preserve
pub mod History
mod Tests
