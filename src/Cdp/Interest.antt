-- ===== src/Cdp/Interest.antt =====
-- programs/rise-cdp/src/instructions/accrue_interest.rs.
use rise_protocol.Prelude.{
  ℕ, min, if◌then◌else◌, leb, ◌==◌, ◌>>=◌, ◌>>◌, checked_add, checked_sub, checked_mul, checked_div,
  try_from, require, ok, u64, u128,
}
use rise_protocol.Staking.State.{GlobalPool}
use rise_protocol.Cdp.State.{
  CdpPosition, CollateralConfig, CdpConfig, Outcome, or_overflow, position_closed, slots_per_year,
}

-- The accounts, as the runtime loads them: the collateral's config is the one at the seeds of the
-- position's mint.
pub record AccrueInterest : Type 0 where
  pub position : CdpPosition
  pub collateral_config : CollateralConfig
  pub cdp_config : CdpConfig
  pub global_pool : GlobalPool

unfoldable pub debt_ceiling : GlobalPool → CdpConfig → Outcome ℕ
debt_ceiling pool config = do
  product ←
      or_overflow (checked_mul u128 pool.staking_rise_sol_supply config.debt_ceiling_multiplier_bps)
  or_overflow (checked_div product 10_000)

unfoldable pub global_utilization : ℕ → CdpConfig → Outcome ℕ
global_utilization ceiling config = if ceiling == 0 then ok 10_000 else (do
  product ← or_overflow (checked_mul u128 config.cdp_rise_sol_minted 10_000)
  share ← or_overflow (checked_div product ceiling)
  ok (min share 10_000))

-- The contribution of the slope below the kink, and of the one above it.
unfoldable pub slope1_contribution : CollateralConfig → ℕ → Outcome ℕ
slope1_contribution c utilization_bps = if c.optimal_utilization_bps == 0 then ok 0 else (do
  product ← or_overflow (checked_mul u128 c.rate_slope1_bps utilization_bps)
  or_overflow (checked_div product c.optimal_utilization_bps))

unfoldable pub slope2_contribution : CollateralConfig → ℕ → Outcome ℕ
slope2_contribution c utilization_bps = do
  excess ← or_overflow (checked_sub utilization_bps c.optimal_utilization_bps)
  range ← or_overflow (checked_sub 10_000 c.optimal_utilization_bps)
  if range == 0 then ok c.rate_slope2_bps else (do
    product ← or_overflow (checked_mul u128 c.rate_slope2_bps excess)
    or_overflow (checked_div product range))

unfoldable pub effective_rate : CollateralConfig → ℕ → Outcome ℕ
effective_rate c utilization_bps =
    if leb utilization_bps c.optimal_utilization_bps
    then (do
      contribution ← slope1_contribution c utilization_bps
      or_overflow (checked_add u128 c.base_rate_bps contribution))
    else (do
      contribution ← slope2_contribution c utilization_bps
      at_kink ← or_overflow (checked_add u128 c.base_rate_bps c.rate_slope1_bps)
      or_overflow (checked_add u128 at_kink contribution))

unfoldable pub interest_on : ℕ → ℕ → ℕ → Outcome ℕ
interest_on principal effective_rate_bps slots_elapsed = do
  yearly ← or_overflow (checked_mul u128 principal effective_rate_bps)
  product ← or_overflow (checked_mul u128 yearly slots_elapsed)
  per_bps ← or_overflow (checked_div product 10_000)
  interest ← or_overflow (checked_div per_bps slots_per_year)
  or_overflow (try_from u64 interest)

unfoldable pub add_interest : CdpPosition → ℕ → ℕ → Outcome CdpPosition
add_interest p interest current_slot = do
  total ← or_overflow (checked_add u64 p.interest_accrued interest)
  ok (record p { interest_accrued = total; last_accrual_slot = current_slot })

-- The utilization, then the rate.
unfoldable pub current_rate : AccrueInterest → Outcome ℕ
current_rate a = do
  ceiling ← debt_ceiling a.global_pool a.cdp_config
  utilization_bps ← global_utilization ceiling a.cdp_config
  effective_rate a.collateral_config utilization_bps

-- The handler after its early returns.
unfoldable pub accrue : AccrueInterest → ℕ → Outcome CdpPosition
accrue a current_slot = do
  slots_elapsed ← or_overflow (checked_sub current_slot a.position.last_accrual_slot)
  effective_rate_bps ← current_rate a
  interest ← interest_on a.position.rise_sol_debt_principal effective_rate_bps slots_elapsed
  add_interest a.position interest current_slot

unfoldable pub accrue_interest : AccrueInterest → ℕ → Outcome CdpPosition
accrue_interest a current_slot = do
  require a.position.is_open position_closed
  if leb current_slot a.position.last_accrual_slot then ok a.position else accrue a current_slot
