-- ===== src/Cdp/Borrow.antt =====
-- programs/rise-cdp/src/instructions/open_position.rs and borrow_more.rs.
use rise_protocol.Prelude.{
  ℕ, true, ltb, leb, ◌==◌, ◌>>=◌, ◌>>◌, ok, cpi, require, constrain, or_fault, checked_add, u64,
}
use rise_protocol.Solana.{Runtime}
use rise_protocol.Staking.State.{rate_scale as staking_rate_scale}
use rise_protocol.Staking.Cdp.{mint_for_cdp}
use rise_protocol.Cdp.State.{
  CdpPosition, BorrowRewards, Outcome, or_overflow, settle, sync_debt, total_rise_sol_owed,
  collateral_not_accepted, zero_amount, exceeds_max_ltv,
}
use rise_protocol.Cdp.Repay.{accrue_before_repayment}
use rise_protocol.Cdp.Oracle.{Markets}
use rise_protocol.Cdp.Loan.{
  Loan, Addresses, interest_accounts, mul_div, call_staking, lamports_per_sol, read_prices,
  collateral_value, check_ceiling, health_of, check_collateral_accounts, check_rise_sol_accounts,
  check_own_position,
}

-- The arguments of an opening, with the bumps of the accounts that it creates.
pub record Opening : Type 0 where
  pub collateral_amount : ℕ
  pub rise_sol_to_mint : ℕ
  pub nonce : ℕ
  pub position_bump : ℕ
  pub rewards_bump : ℕ

-- The value of the collateral and the price of SOL, where the loan is within the maximal LTV, at
-- one SOL for a riseSOL.
unfoldable pub price_opening :
    {B : Type 0} → Markets B → Addresses → Loan → Opening → B → Outcome (ℕ × ℕ)
price_opening mk k l o b = do
  (collateral_usd_price, sol_usd_price) ← read_prices mk k l b
  collateral_usd_value ←
      collateral_value o.collateral_amount collateral_usd_price (mk.decimals k.collateral_mint b)
  max_borrow_usd ← mul_div collateral_usd_value l.collateral_config.max_ltv_bps 10_000
  max_borrow_lamports ← mul_div max_borrow_usd lamports_per_sol sol_usd_price
  require (leb o.rise_sol_to_mint max_borrow_lamports) exceeds_max_ltv
  ok (collateral_usd_value, sol_usd_price)

unfoldable pub new_position : Addresses → Loan → Opening → ℕ → ℕ → ℕ → CdpPosition
new_position k l o collateral_usd_value health_factor current_slot = record {
  owner = k.signer;
  collateral_mint = l.collateral_config.mint;
  collateral_amount_original = o.collateral_amount;
  collateral_usd_value = collateral_usd_value;
  rise_sol_debt_principal = o.rise_sol_to_mint;
  interest_accrued = 0;
  last_accrual_slot = current_slot;
  health_factor = health_factor;
  opened_at_slot = current_slot;
  nonce = o.nonce;
  is_open = true;
  excess_withdrawal_queued = 0;
  excess_withdrawal_available_slot = 0;
  pending_buyback_lamports = 0;
  bump = o.position_bump;
}

unfoldable pub new_tracker : Addresses → Loan → Opening → ℕ → Outcome BorrowRewards
new_tracker k l o current_slot =
    sync_debt
      (record {
        owner = k.signer;
        position = k.position_key;
        reward_debt = 0;
        pending_rewards = 0;
        last_checkpoint_slot = current_slot;
        total_claimed = 0;
        bump = o.rewards_bump;
      })
      l.borrow_rewards_config.reward_per_token o.rise_sol_to_mint

-- The two global totals, and what is owed to the borrowers of this collateral.
unfoldable pub book_opening : Loan → ℕ → ℕ → ℕ → Loan
book_opening l new_minted new_entitlements new_total_debt = record l {
  cdp_config = record l.cdp_config { cdp_rise_sol_minted = new_minted };
  collateral_config = record l.collateral_config {
    total_collateral_entitlements = new_entitlements;
  };
  borrow_rewards_config = record l.borrow_rewards_config { total_cdp_debt = new_total_debt };
}

-- The terms of a borrowing: the collateral's value now, and the value of the whole new debt at the
-- staking pool's exchange rate, where it is within the maximal LTV.
unfoldable pub price_borrowing :
    {B : Type 0} → Markets B → Addresses → Loan → ℕ → B → Outcome (ℕ × ℕ)
price_borrowing mk k l additional_rise_sol b = do
  (collateral_usd_price, sol_usd_price) ← read_prices mk k l b
  fresh_collateral_usd ←
      collateral_value l.position.collateral_amount_original collateral_usd_price
        (mk.decimals k.collateral_mint b)
  current_debt ← or_overflow (total_rise_sol_owed l.position)
  new_total ← or_overflow (checked_add u64 current_debt additional_rise_sol)
  new_debt_sol ← mul_div new_total l.global_pool.exchange_rate staking_rate_scale
  new_debt_usd ← mul_div new_debt_sol sol_usd_price lamports_per_sol
  max_debt_usd ← mul_div fresh_collateral_usd l.collateral_config.max_ltv_bps 10_000
  require (leb new_debt_usd max_debt_usd) exceeds_max_ltv
  ok (fresh_collateral_usd, new_debt_usd)

-- The loan after a borrowing, with the tracker settled at the old principal.
unfoldable pub book_borrowing : Loan → ℕ → ℕ → ℕ → ℕ → Outcome Loan
book_borrowing l additional_rise_sol new_minted fresh_collateral_usd new_debt_usd = do
  settled ←
      settle l.borrow_rewards l.borrow_rewards_config.reward_per_token
        l.position.rise_sol_debt_principal
  principal ← or_overflow (checked_add u64 l.position.rise_sol_debt_principal additional_rise_sol)
  health_factor ← health_of fresh_collateral_usd new_debt_usd l.collateral_config
  synced ← sync_debt settled l.borrow_rewards_config.reward_per_token principal
  total_debt ←
      or_overflow (checked_add u64 l.borrow_rewards_config.total_cdp_debt additional_rise_sol)
  ok (record l {
    position = record l.position {
      collateral_usd_value = fresh_collateral_usd;
      rise_sol_debt_principal = principal;
      health_factor = health_factor;
    };
    borrow_rewards = synced;
    cdp_config = record l.cdp_config { cdp_rise_sol_minted = new_minted };
    borrow_rewards_config = record l.borrow_rewards_config { total_cdp_debt = total_debt };
  })

module _ {B : Type 0} (rt : Runtime B) (mk : Markets B) where
  unfoldable pub mint_loan : Addresses → Loan → ℕ → B → Outcome B
  mint_loan k l amount b = call_staking (
      mint_for_cdp rt
        (record {
          cdp_config = k.cdp_config_key;
          pool_key = k.pool_key;
          global_pool = l.global_pool;
          rise_sol_mint = k.rise_sol_mint;
          recipient = k.borrower_rise_sol_account;
        })
        amount b)

  unfoldable pub check_opening : Addresses → Loan → Opening → B → Outcome (Unit {0})
  check_opening k l o b = do
    require (k.collateral_mint == l.collateral_config.mint) collateral_not_accepted
    check_collateral_accounts rt k l k.signer b
    check_rise_sol_accounts rt k l b
    require l.collateral_config.active collateral_not_accepted
    require (ltb 0 o.collateral_amount) zero_amount
    require (ltb 0 o.rise_sol_to_mint) zero_amount

  -- The position and the tracker of `l` are the accounts that are created.
  unfoldable pub open_position : Addresses → Loan → Opening → B → Outcome (Loan × B)
  open_position k l o b = do
    check_opening k l o b
    (collateral_usd_value, sol_usd_price) ← price_opening mk k l o b
    new_minted ← check_ceiling l o.rise_sol_to_mint (ok o.rise_sol_to_mint)
    new_entitlements ←
        or_overflow
          (checked_add u64 l.collateral_config.total_collateral_entitlements o.collateral_amount)
    deposited ←
        or_fault
          (rt.token_transfer k.borrower_collateral_account k.collateral_vault k.signer
            o.collateral_amount b)
          cpi
    debt_usd ← mul_div o.rise_sol_to_mint sol_usd_price lamports_per_sol
    health_factor ← health_of collateral_usd_value debt_usd l.collateral_config
    minted ← mint_loan k l o.rise_sol_to_mint deposited
    tracker ← new_tracker k l o (rt.slot b)
    total_debt ←
        or_overflow (checked_add u64 l.borrow_rewards_config.total_cdp_debt o.rise_sol_to_mint)
    ok (
      record (book_opening l new_minted new_entitlements total_debt) {
        position = new_position k l o collateral_usd_value health_factor (rt.slot b);
        borrow_rewards = tracker;
      },
      minted,
    )

  unfoldable pub check_borrowing : Addresses → Loan → ℕ → B → Outcome (Unit {0})
  check_borrowing k l additional_rise_sol b = do
    check_own_position k l
    constrain (l.collateral_config.mint == l.position.collateral_mint)
    require (k.collateral_mint == l.collateral_config.mint) collateral_not_accepted
    check_rise_sol_accounts rt k l b
    constrain (l.borrow_rewards.position == k.position_key)
    require (ltb 0 additional_rise_sol) zero_amount

  unfoldable pub borrow_more : Addresses → Loan → ℕ → B → Outcome (Loan × B)
  borrow_more k l additional_rise_sol b = do
    check_borrowing k l additional_rise_sol b
    accrued ← accrue_before_repayment (interest_accounts l) (rt.slot b)
    (fresh_collateral_usd, new_debt_usd) ←
        price_borrowing mk k (record l { position = accrued }) additional_rise_sol b
    new_minted ←
        check_ceiling l additional_rise_sol
          (or_overflow (checked_add u64 accrued.rise_sol_debt_principal additional_rise_sol))
    booked ←
        book_borrowing (record l { position = accrued }) additional_rise_sol new_minted
          fresh_collateral_usd new_debt_usd
    minted ← mint_loan k l additional_rise_sol b
    ok (booked, minted)
