-- ===== src/Staking/Tests.antt =====
-- Runs of the staking program over the sample bank, and the theorems at those inputs.
mod Samples
mod Histories
mod Fees
mod Rewards
