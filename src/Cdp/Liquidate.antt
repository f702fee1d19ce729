-- ===== src/Cdp/Liquidate.antt =====
-- programs/rise-cdp/src/instructions/liquidate.rs.
use rise_protocol.Prelude.{
  ℕ, ◌+◌, ◌-◌, ◌%◌, min, ltb, ◌==◌, ◌&&◌, if◌then◌else◌, ◌>>=◌, ◌>>◌, ok, cpi, require, constrain,
  or_fault, try_from, u64,
}
use rise_protocol.Solana.{Runtime}
use rise_protocol.Staking.State.{rate_scale as staking_rate_scale}
use rise_protocol.Cdp.State.{
  Outcome, or_overflow, rate_scale, position_closed, position_healthy, collateral_not_accepted,
  unauthorized,
}
use rise_protocol.Cdp.Repay.{to_sol}
use rise_protocol.Cdp.Oracle.{Markets, pow_ten}
use rise_protocol.Cdp.Loan.{Loan, Addresses, Route, mul_div, read_prices, health_of}
use rise_protocol.Cdp.Collateral.{debt_at_par}
use rise_protocol.Cdp.Close.{settle_to_zero, write_off}

-- What the borrower gets back, where the position is unhealthy: the tokens that the collateral's
-- value has above the debt's, at the oracle's prices.
unfoldable pub price_liquidation : {B : Type 0} → Markets B → Addresses → Loan → B → Outcome ℕ
price_liquidation mk k l b = do
  (collateral_usd_price, sol_usd_price) ← read_prices mk k l b
  decimal_scale ← pow_ten (mk.decimals k.collateral_mint b)
  collateral_usd ← mul_div l.position.collateral_amount_original collateral_usd_price decimal_scale
  debt_usd ← debt_at_par l.position sol_usd_price
  health_factor ← health_of collateral_usd debt_usd l.collateral_config
  require (ltb health_factor rate_scale) position_healthy
  excess_tokens ← mul_div (collateral_usd - debt_usd) decimal_scale collateral_usd_price
  ok (excess_tokens % u64)

-- `a.saturating_add(b)` on 64 bits.
abbrev pub saturating_add : ℕ → ℕ → ℕ
saturating_add a b = min (a + b) (u64 - 1)

-- The interest's part of what is left after the fee.
unfoldable pub interest_share : ℕ → ℕ → ℕ → Outcome ℕ
interest_share sol_after_fee principal_target interest_target =
    if ltb 0 (saturating_add principal_target interest_target) && ltb 0 sol_after_fee
    then (do
      share ←
          mul_div sol_after_fee interest_target (saturating_add principal_target interest_target)
      or_overflow (try_from u64 share))
    else ok 0

module _ {B : Type 0} (rt : Runtime B) (mk : Markets B) where
  unfoldable pub check_liquidation : Addresses → Loan → B → Outcome (Unit {0})
  check_liquidation k l b = do
    require l.position.is_open position_closed
    require (l.collateral_config.mint == l.position.collateral_mint) collateral_not_accepted
    require (k.collateral_mint == l.collateral_config.mint) collateral_not_accepted
    constrain ((rt.token b k.collateral_vault).mint == l.collateral_config.mint)
    constrain ((rt.token b k.borrower_collateral_account).mint == l.collateral_config.mint)
    require ((rt.token b k.borrower_collateral_account).owner == l.position.owner) unauthorized
    constrain (l.borrow_rewards.position == k.position_key)

  unfoldable pub return_excess : Addresses → ℕ → B → Outcome B
  return_excess k excess_tokens b =
      if ltb 0 excess_tokens
      then or_fault
          (rt.token_transfer k.collateral_vault k.borrower_collateral_account k.collateral_vault
            excess_tokens b)
          cpi
      else ok b

  -- A transfer out of the fee vault, of a positive amount.
  unfoldable pub pay_from_fees : Addresses → ℕ → ℕ → B → Outcome B
  pay_from_fees k to lamports b =
      if ltb 0 lamports then or_fault (rt.transfer k.cdp_fee_vault to lamports b) cpi else ok b

  -- What the swap brought, as SOL in the fee vault: the caller's fee is a share of it, and the
  -- pool gets the rest but the interest, which stays.
  unfoldable pub distribute_proceeds : Addresses → Loan → ℕ → ℕ → ℕ → B → Outcome B
  distribute_proceeds k l principal_target interest_target actual_sol b = do
    fee ← mul_div actual_sol l.collateral_config.liquidation_penalty_bps 10_000
    interest ← interest_share (actual_sol - fee % u64) principal_target interest_target
    unwrapped ← or_fault (rt.close_account k.cdp_wsol_vault k.cdp_fee_vault k.cdp_config_key b) cpi
    rewarded ← pay_from_fees k k.signer (fee % u64) unwrapped
    pay_from_fees k k.pool_vault (actual_sol - fee % u64 - interest) rewarded

  unfoldable pub sell_collateral : Addresses → Loan → Route → ℕ → ℕ → ℕ → B → Outcome B
  sell_collateral k l r principal_target interest_target debt_worth_tokens b =
      if ltb 0 debt_worth_tokens
      then (do
        swapped ←
            or_fault
              (mk.shared_accounts_route k.collateral_vault k.collateral_vault k.cdp_wsol_vault
                k.collateral_mint k.wsol_mint r.route_plan_data debt_worth_tokens
                r.quoted_out_amount r.slippage_bps b)
              cpi
        distribute_proceeds k l principal_target interest_target
            (rt.token swapped k.cdp_wsol_vault).amount swapped)
      else ok b

  unfoldable pub liquidate : Addresses → Loan → Route → B → Outcome (Loan × B)
  liquidate k l r b = do
    check_liquidation k l b
    excess_tokens ← price_liquidation mk k l b
    principal_target ←
        to_sol l.position.rise_sol_debt_principal l.global_pool.exchange_rate staking_rate_scale
    interest_target ←
        to_sol l.position.interest_accrued l.global_pool.exchange_rate staking_rate_scale
    returned ← return_excess k excess_tokens b
    sold ←
        sell_collateral k l r principal_target interest_target
          (l.position.collateral_amount_original - excess_tokens) returned
    tracker ← settle_to_zero l
    ok (write_off l tracker, sold)
