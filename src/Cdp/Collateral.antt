-- ===== src/Cdp/Collateral.antt =====
-- programs/rise-cdp/src/instructions/add_collateral.rs and withdraw_excess.rs.
use rise_protocol.Prelude.{
  ℕ, ◌-◌, ltb, leb, ◌==◌, ◌>>=◌, ◌>>◌, ok, cpi, require, or_fault, checked_add, checked_sub,
  checked_mul, checked_div, u32, u64,
}
use rise_protocol.Solana.{Runtime}
use rise_protocol.Cdp.State.{
  CdpPosition, CollateralConfig, Outcome, or_overflow, total_rise_sol_owed, zero_amount,
  collateral_not_accepted, insufficient_excess,
}
use rise_protocol.Cdp.Repay.{accrue_before_repayment}
use rise_protocol.Cdp.Oracle.{Markets}
use rise_protocol.Cdp.Loan.{
  Loan, Addresses, interest_accounts, mul_div, lamports_per_sol, read_prices, collateral_value,
  health_of, check_collateral_accounts, check_own_position,
}

-- What is owed, in USD at one SOL for a riseSOL.
unfoldable pub debt_at_par : CdpPosition → ℕ → Outcome ℕ
debt_at_par p sol_usd_price = do
  total_owed ← or_overflow (total_rise_sol_owed p)
  mul_div total_owed sol_usd_price lamports_per_sol

-- The collateral that a withdrawal must leave, in USD: at 80% of the maximal LTV.
unfoldable pub required_collateral : CollateralConfig → ℕ → Outcome ℕ
required_collateral c debt_usd = do
  product ← or_overflow (checked_mul u32 c.max_ltv_bps 80)
  safe_ltv_bps ← or_overflow (checked_div product 100)
  mul_div debt_usd 10_000 safe_ltv_bps

-- The collateral's price and the debt's value, where the amount is within the excess.
unfoldable pub price_withdrawal :
    {B : Type 0} → Markets B → Addresses → Loan → ℕ → B → Outcome (ℕ × ℕ)
price_withdrawal mk k l amount b = do
  (collateral_usd_price, sol_usd_price) ← read_prices mk k l b
  collateral_usd_value ←
      collateral_value l.position.collateral_amount_original collateral_usd_price
        (mk.decimals k.collateral_mint b)
  debt_usd ← debt_at_par l.position sol_usd_price
  required_usd ← required_collateral l.collateral_config debt_usd
  require (ltb required_usd collateral_usd_value) insufficient_excess
  excess_usd ← or_overflow (checked_sub collateral_usd_value required_usd)
  requested_usd ← collateral_value amount collateral_usd_price (mk.decimals k.collateral_mint b)
  require (leb requested_usd excess_usd) insufficient_excess
  ok (collateral_usd_price, debt_usd)

module _ {B : Type 0} (rt : Runtime B) (mk : Markets B) where
  unfoldable pub check_collateral_change : Addresses → Loan → ℕ → B → Outcome (Unit {0})
  check_collateral_change k l amount b = do
    check_own_position k l
    require (l.collateral_config.mint == l.position.collateral_mint) collateral_not_accepted
    require (k.collateral_mint == l.collateral_config.mint) collateral_not_accepted
    check_collateral_accounts rt k l k.signer b
    require (ltb 0 amount) zero_amount

  -- The position with its new amount of collateral, valued at the price.
  unfoldable pub revalue : Addresses → Loan → ℕ → ℕ → ℕ → B → Outcome CdpPosition
  revalue k l amount collateral_usd_price debt_usd b = do
    collateral_usd_value ←
        collateral_value amount collateral_usd_price (mk.decimals k.collateral_mint b)
    health_factor ← health_of collateral_usd_value debt_usd l.collateral_config
    ok (record l.position {
      collateral_amount_original = amount;
      collateral_usd_value = collateral_usd_value;
      health_factor = health_factor;
    })

  unfoldable pub add_collateral : Addresses → Loan → ℕ → B → Outcome (Loan × B)
  add_collateral k l amount b = do
    check_collateral_change k l amount b
    entitlements ←
        or_overflow (checked_add u64 l.collateral_config.total_collateral_entitlements amount)
    deposited ←
        or_fault
          (rt.token_transfer k.borrower_collateral_account k.collateral_vault k.signer amount b) cpi
    new_amount ← or_overflow (checked_add u64 l.position.collateral_amount_original amount)
    (collateral_usd_price, sol_usd_price) ← read_prices mk k l deposited
    debt_usd ← debt_at_par l.position sol_usd_price
    position ← revalue k l new_amount collateral_usd_price debt_usd deposited
    ok (
      record l {
        position = position;
        collateral_config = record l.collateral_config {
          total_collateral_entitlements = entitlements;
        };
      },
      deposited,
    )

  unfoldable pub withdraw_excess : Addresses → Loan → ℕ → B → Outcome (Loan × B)
  withdraw_excess k l amount b = do
    check_collateral_change k l amount b
    accrued ← accrue_before_repayment (interest_accounts l) (rt.slot b)
    (collateral_usd_price, debt_usd) ←
        price_withdrawal mk k (record l { position = accrued }) amount b
    paid ←
        or_fault
          (rt.token_transfer k.collateral_vault k.borrower_collateral_account k.collateral_vault
            amount b)
          cpi
    new_amount ← or_overflow (checked_sub accrued.collateral_amount_original amount)
    position ←
        revalue k (record l { position = accrued }) new_amount collateral_usd_price debt_usd paid
    ok (
      record l {
        position = position;
        collateral_config = record l.collateral_config {
          total_collateral_entitlements =
              l.collateral_config.total_collateral_entitlements - amount;
        };
      },
      paid,
    )
