-- ===== src/Cdp/Tests/Liquidations.antt =====
-- Theorems on liquidations and borrowings, at concrete inputs.
use rise_protocol.Prelude.{◌≡◌, ◌≢◌, ◌<◌, ◌≤◌, arith, some, refl, ok, u64, u128}
use rise_protocol.Sample.{sample_runtime, Bank, add_tokens, sample_burn}
use rise_protocol.Cdp.Tests.{
  debt_ceiling, compute_health_factor, accrue_before_repayment, ok_value, config-IsValid,
}
use rise_protocol.Cdp.Tests.Opened.{markets, keys, opened}
use rise_protocol.Cdp.Tests.Loans.{route, ok_bank}
use rise_protocol.Cdp.Oracle.{
  pow_ten, scale_price, positive_price, check_price, read_price, get_pyth_price,
}
use rise_protocol.Cdp.ConfigLaws.{IsValid}
use rise_protocol.Cdp.Loan.{
  Loan, check_ceiling, health_of, mul_div, collateral_value, check_rise_sol_accounts,
  check_own_position, read_prices, check_collateral_accounts, Addresses,
}
use rise_protocol.Cdp.Liquidate.{
  pay_from_fees, interest_share, distribute_proceeds, sell_collateral, return_excess,
  price_liquidation, check_liquidation, liquidate,
}
use rise_protocol.Cdp.Close.{write_off, settle_to_zero, claim_collateral}
use rise_protocol.Cdp.Borrow.{
  mint_loan, book_borrowing, price_borrowing, check_borrowing, borrow_more,
}
use rise_protocol.Cdp.DoubleClaim.{claim_collateral_after_liquidate, claimed}
use rise_protocol.Cdp.NotLiquidatable.{borrow_more_not_liquidatable}
use rise_protocol.Cdp.Collateral.{debt_at_par}
use rise_protocol.Cdp.Repay.{reduce_debt, reduce_minted, to_sol, accrue_before_repayment}
use rise_protocol.Cdp.State.{sync_debt, settle, total_rise_sol_owed, compute_health_factor}
use rise_protocol.Cdp.Interest.{debt_ceiling}
use rise_protocol.Staking.Cdp.{mint_for_cdp}

-- Another caller, once SOL is at $290.
abbrev later : Addresses
later = record keys { signer = 99; sol_price_update = 74 }

liquidated : Loan × Bank
unfolding liquidate check_liquidation check_collateral_accounts price_liquidation debt_at_par
    read_prices get_pyth_price read_price check_price positive_price scale_price pow_ten
    collateral_value mul_div health_of compute_health_factor to_sol return_excess sell_collateral
    distribute_proceeds interest_share pay_from_fees total_rise_sol_owed settle_to_zero settle
    sync_debt write_off reduce_minted reduce_debt opened u64 u128
liquidated = ok_value (liquidate sample_runtime markets later opened.0 route opened.1) opened

liquidates_loan : liquidate sample_runtime markets later opened.0 route opened.1 ≡ ok liquidated
unfolding liquidated
liquidates_loan = refl

-- The caller gets 5% of the proceeds.
liquidator_paid : liquidated.1.balance 99 ≡ 504_950_000_000
unfolding liquidated opened
liquidator_paid = refl

abbrev claim : Bank → Bank
claim b = add_tokens 61 30_000_000_000 (ok_bank (sample_burn 62 30_000_000_000 b) b)

claims_accounts : check_collateral_accounts sample_runtime keys liquidated.0 40 liquidated.1 ≡ ok tt
unfolding liquidated opened check_collateral_accounts
claims_accounts = refl

owner_is : 40 ≡ opened.0.position.owner
unfolding opened
owner_is = refl

mint_is : 60 ≡ opened.0.collateral_config.mint
unfolding opened
mint_is = refl

positive : 0 < opened.0.position.collateral_amount_original
unfolding opened
positive = omega arith

covered : opened.0.position.collateral_amount_original ≤ (liquidated.1.token 62).amount
unfolding liquidated opened
covered = omega arith

paid :
    sample_runtime.token_transfer 62 61 62 opened.0.position.collateral_amount_original liquidated.1
    ≡ some (claim liquidated.1)
unfolding liquidated opened
paid = refl

claim_collateral_after_liquidate_example :
    claim_collateral sample_runtime markets keys liquidated.0 route liquidated.1
    ≡ ok (claimed liquidated.0, claim liquidated.1)
claim_collateral_after_liquidate_example =
    claim_collateral_after_liquidate sample_runtime markets later opened.0 route opened.1
      liquidated.0 liquidated.1 keys route (claim liquidated.1) liquidates_loan owner_is refl
      mint_is claims_accounts positive covered paid

-- 20 riseSOL more.
borrowed : Loan × Bank
unfolding borrow_more check_borrowing check_own_position check_rise_sol_accounts
    accrue_before_repayment price_borrowing read_prices get_pyth_price read_price check_price
    positive_price scale_price pow_ten collateral_value mul_div check_ceiling debt_ceiling
    book_borrowing health_of compute_health_factor total_rise_sol_owed mint_loan mint_for_cdp settle
    sync_debt opened u64 u128
borrowed =
    ok_value (borrow_more sample_runtime markets keys opened.0 20_000_000_000 opened.1) opened

borrows_loan :
    borrow_more sample_runtime markets keys opened.0 20_000_000_000 opened.1 ≡ ok borrowed
unfolding borrowed
borrows_loan = refl

still_configured : IsValid opened.0.collateral_config
unfolding opened
still_configured =
    let v = config-IsValid in
    record {
      ltv_below_threshold = v.ltv_below_threshold;
      ltv_limit = v.ltv_limit;
      threshold_limit = v.threshold_limit;
      penalty_limit = v.penalty_limit;
      base_limit = v.base_limit;
      slope1_limit = v.slope1_limit;
      slope2_limit = v.slope2_limit;
      optimal_limit = v.optimal_limit;
    }

at_least_par : 1_000_000_000 ≤ opened.0.global_pool.exchange_rate
unfolding opened
at_least_par = omega arith

same_prices :
    read_prices markets keys borrowed.0 borrowed.1 ≡ read_prices markets keys opened.0 opened.1
unfolding borrowed opened
same_prices = refl

borrow_more_not_liquidatable_example :
    liquidate sample_runtime markets keys borrowed.0 route borrowed.1 ≢ ok borrowed
borrow_more_not_liquidatable_example =
    borrow_more_not_liquidatable sample_runtime markets keys opened.0 20_000_000_000 opened.1
      borrowed.0 borrowed.1 keys route borrowed.1 borrows_loan still_configured at_least_par
      same_prices refl borrowed
