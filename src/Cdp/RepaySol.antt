-- ===== src/Cdp/RepaySol.antt =====
-- programs/rise-cdp/src/instructions/repay_debt.rs: the repayment in SOL.
use rise_protocol.Prelude.{
  ℕ, ◌-◌, ◌%◌, min, false, ltb, ◌==◌, if◌then◌else◌, ◌>>=◌, ◌>>◌, ok, cpi, require, constrain,
  or_fault, u64,
}
use rise_protocol.Solana.{Runtime}
use rise_protocol.Staking.State.{rate_scale as staking_rate_scale}
use rise_protocol.Cdp.State.{Outcome, zero_amount, collateral_not_accepted}
use rise_protocol.Cdp.Repay.{Repayment, accrue_before_repayment, settle_repayment}
use rise_protocol.Cdp.Oracle.{Markets}
use rise_protocol.Cdp.Loan.{
  Loan, Addresses, interest_accounts, mul_div, lamports_per_sol, read_prices, collateral_value,
  check_own_position,
}

module _ {B : Type 0} (rt : Runtime B) (mk : Markets B) where
  -- The lamports that buy the collateral that the vault lacks, out of the principal.
  unfoldable pub compute_shortfall_divert : Addresses → Loan → ℕ → B → Outcome ℕ
  compute_shortfall_divert k l principal_sol b =
      if l.position.collateral_amount_original
          - min (rt.token b k.collateral_vault).amount l.position.collateral_amount_original
        == 0
      then ok 0
      else (do
        (coll_price, sol_price) ← read_prices mk k l b
        sf_usd ←
            collateral_value
              (l.position.collateral_amount_original
                - min (rt.token b k.collateral_vault).amount l.position.collateral_amount_original)
              coll_price (mk.decimals k.collateral_mint b)
        sf_sol ← mul_div sf_usd lamports_per_sol sol_price
        ok (min (sf_sol % u64) principal_sol))

  unfoldable pub send_sol : Addresses → ℕ → ℕ → B → Outcome B
  send_sol k to lamports b =
      if ltb 0 lamports then or_fault (rt.transfer k.signer to lamports b) cpi else ok b

  unfoldable pub route_native_sol : Addresses → ℕ → ℕ → ℕ → B → Outcome B
  route_native_sol k interest_sol principal_to_pool shortfall_sol_divert b = do
    b₁ ← send_sol k k.cdp_fee_vault interest_sol b
    b₂ ← send_sol k k.pool_vault principal_to_pool b₁
    send_sol k k.cdp_wsol_buyback_vault shortfall_sol_divert b₂

  unfoldable pub check_sol_repayment : Addresses → Loan → B → Outcome (Unit {0})
  check_sol_repayment k l b = do
    check_own_position k l
    constrain (l.collateral_config.mint == l.position.collateral_mint)
    constrain ((rt.token b k.collateral_vault).mint == l.collateral_config.mint)
    require (k.collateral_mint == l.collateral_config.mint) collateral_not_accepted
    constrain (l.borrow_rewards.position == k.position_key)

  -- The loan with a repayment booked, closed where it is repaid.
  unfoldable pub book_settlement : Loan → Repayment → ℕ → Loan
  book_settlement l r shortfall_sol_divert = record l {
    position =
        if r.settlement.is_fully_repaid
        then record r.position { is_open = false; pending_buyback_lamports = shortfall_sol_divert }
        else r.position;
    borrow_rewards = r.borrow_rewards;
    cdp_config = r.cdp_config;
    borrow_rewards_config = r.borrow_rewards_config;
  }

  -- After the accrual.
  unfoldable pub repay_accrued : Addresses → Loan → ℕ → B → Outcome (Loan × B)
  repay_accrued k l payment_amount b = do
    r ←
        settle_repayment l.position payment_amount l.global_pool.exchange_rate staking_rate_scale
          l.cdp_config l.borrow_rewards_config l.borrow_rewards
    divert ←
        (if r.settlement.is_fully_repaid
          then compute_shortfall_divert k (record l { position = r.position })
              r.settlement.principal_sol b
          else ok 0)
    routed ←
        route_native_sol k r.settlement.interest_sol (r.settlement.principal_sol - divert) divert b
    ok (book_settlement l r divert, routed)

  unfoldable pub repay_debt : Addresses → Loan → ℕ → B → Outcome (Loan × B)
  repay_debt k l payment_amount b = do
    check_sol_repayment k l b
    require (ltb 0 payment_amount) zero_amount
    accrued ← accrue_before_repayment (interest_accounts l) (rt.slot b)
    repay_accrued k (record l { position = accrued }) payment_amount b
