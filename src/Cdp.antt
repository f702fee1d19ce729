-- ===== src/Cdp.antt =====
-- programs/rise-cdp.
pub mod State
pub mod Oracle
pub mod Interest
pub mod Loan
pub mod Config
pub mod Rewards
pub mod Repay
pub mod Borrow
pub mod Collateral
pub mod Close
pub mod Liquidate
pub mod RepaySol
pub mod ConfigLaws
pub mod InterestLaws
pub mod Accrual
pub mod AccrualLaws
pub mod Often
pub mod RepayLaws
pub mod RepayTotal
pub mod RepaySucceeds
pub mod RepayAccrual
pub mod RewardLaws
pub mod Permission
pub mod Effects
pub mod Repayments
pub mod Totals
pub mod Configured
pub mod Tracking
pub mod History
pub mod DoubleClaim
pub mod CloseTwice
pub mod Blocked
pub mod Safe
pub mod NotLiquidatable
mod Tests
