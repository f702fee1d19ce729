-- ===== src/Staking.antt =====
-- programs/rise-staking.
pub mod State
pub mod Deposit
pub mod Withdrawal
pub mod Rate
pub mod Cdp
pub mod Treasury
pub mod Fees
pub mod Rewards
pub mod World
pub mod Process
pub mod Sound
pub mod Effects
pub mod Preserve
pub mod Invariant
pub mod Reachable
pub mod History
pub mod Value
pub mod Availability
pub mod Sweep
pub mod RewardLaws
pub mod Authority
pub mod Permission
pub mod RateLaws
mod Tests
