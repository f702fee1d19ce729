-- ===== src/Cdp/Close.antt =====
-- programs/rise-cdp/src/instructions/close_position.rs, repay_debt_rise_sol.rs and
-- claim_collateral.rs.
use rise_protocol.Prelude.{
  ℕ, ◌-◌, ◌%◌, min, false, not, ltb, leb, ◌==◌, ◌&&◌, if◌then◌else◌, ◌>>=◌, ◌>>◌, ok, cpi, require,
  constrain, or_fault, u64,
}
use rise_protocol.Solana.{Runtime}
use rise_protocol.Staking.State.{GlobalPool, ProtocolTreasury}
use rise_protocol.Staking.Cdp.{notify_rise_sol_burned}
use rise_protocol.Staking.Treasury.{withdraw_treasury_for_cdp_buyback}
use rise_protocol.Cdp.State.{
  CdpPosition, BorrowRewards, Outcome, or_overflow, settle, sync_debt, total_rise_sol_owed,
  zero_amount, collateral_not_accepted, insufficient_repayment_balance, position_still_open,
}
use rise_protocol.Cdp.Repay.{
  accrue_before_repayment, split_cleared, clear_debt, reduce_minted, reduce_debt,
}
use rise_protocol.Cdp.Oracle.{Markets}
use rise_protocol.Cdp.Loan.{
  Loan, Addresses, Route, interest_accounts, mul_div, call_staking, lamports_per_sol, read_prices,
  collateral_value, check_collateral_accounts, check_rise_sol_accounts, check_own_position,
}

-- The interest that was burned leaves the staking supply.
unfoldable pub notify_interest_burned : Addresses → GlobalPool → ℕ → Outcome GlobalPool
notify_interest_burned k pool interest_burned =
    if ltb 0 interest_burned
    then call_staking (notify_rise_sol_burned k.cdp_config_key interest_burned pool)
    else ok pool

-- The tracker, settled at its principal and left without debt.
unfoldable pub settle_to_zero : Loan → Outcome BorrowRewards
settle_to_zero l = do
  settled ←
      settle l.borrow_rewards l.borrow_rewards_config.reward_per_token
        l.position.rise_sol_debt_principal
  sync_debt settled l.borrow_rewards_config.reward_per_token 0

-- The loan without debt: the totals without its principal, and what is owed to the borrowers
-- without its collateral. The position keeps its amount of collateral.
unfoldable pub write_off : Loan → BorrowRewards → Loan
write_off l tracker = record l {
  position = record l.position {
    is_open = false;
    rise_sol_debt_principal = 0;
    interest_accrued = 0;
  };
  borrow_rewards = tracker;
  collateral_config = record l.collateral_config {
    total_collateral_entitlements =
        l.collateral_config.total_collateral_entitlements - l.position.collateral_amount_original;
  };
  cdp_config = reduce_minted l.cdp_config l.position.rise_sol_debt_principal;
  borrow_rewards_config = reduce_debt l.borrow_rewards_config l.position.rise_sol_debt_principal;
}

-- A repayment in riseSOL, once what is cleared is known.
unfoldable pub book_rise_sol : Loan → BorrowRewards → ℕ → ℕ → Outcome Loan
book_rise_sol l settled interest_cleared principal_cleared = do
  position ← clear_debt l.position interest_cleared principal_cleared
  synced ←
      sync_debt settled l.borrow_rewards_config.reward_per_token position.rise_sol_debt_principal
  ok (record l {
    position = position;
    borrow_rewards = synced;
    cdp_config = reduce_minted l.cdp_config principal_cleared;
    borrow_rewards_config = reduce_debt l.borrow_rewards_config principal_cleared;
  })

-- A position that owes nothing any more is closed.
unfoldable pub close_if_repaid : CdpPosition → CdpPosition
close_if_repaid p =
    if (p.interest_accrued == 0) && (p.rise_sol_debt_principal == 0)
    then record p { is_open = false; pending_buyback_lamports = 0 }
    else p

module _ {B : Type 0} (rt : Runtime B) (mk : Markets B) where
  unfoldable pub check_closing : Addresses → Loan → B → Outcome (Unit {0})
  check_closing k l b = do
    check_own_position k l
    require (l.collateral_config.mint == l.position.collateral_mint) collateral_not_accepted
    check_rise_sol_accounts rt k l b
    check_collateral_accounts rt k l k.signer b
    constrain (l.borrow_rewards.position == k.position_key)

  unfoldable pub close_position : Addresses → Loan → B → Outcome (Loan × B)
  close_position k l b = do
    check_closing k l b
    total_owed ← or_overflow (total_rise_sol_owed l.position)
    require (ltb 0 total_owed) zero_amount
    require (leb total_owed (rt.token b k.borrower_rise_sol_account).amount)
        insufficient_repayment_balance
    burned ←
        or_fault (rt.burn k.rise_sol_mint k.borrower_rise_sol_account k.signer total_owed b) cpi
    pool ← notify_interest_burned k l.global_pool l.position.interest_accrued
    tracker ← settle_to_zero l
    returned ←
        or_fault
          (rt.token_transfer k.collateral_vault k.borrower_collateral_account k.collateral_vault
            l.position.collateral_amount_original burned)
          cpi
    ok (record (write_off l tracker) { global_pool = pool }, returned)

  unfoldable pub check_rise_sol_repayment : Addresses → Loan → B → Outcome (Unit {0})
  check_rise_sol_repayment k l b = do
    check_own_position k l
    constrain (l.collateral_config.mint == l.position.collateral_mint)
    check_rise_sol_accounts rt k l b
    constrain (l.borrow_rewards.position == k.position_key)

  unfoldable pub repay_debt_rise_sol : Addresses → Loan → ℕ → B → Outcome (Loan × B)
  repay_debt_rise_sol k l payment_rise_sol b = do
    check_rise_sol_repayment k l b
    require (ltb 0 payment_rise_sol) zero_amount
    accrued ← accrue_before_repayment (interest_accounts l) (rt.slot b)
    settled ←
        settle l.borrow_rewards l.borrow_rewards_config.reward_per_token
          accrued.rise_sol_debt_principal
    total_owed ← or_overflow (total_rise_sol_owed accrued)
    require (ltb 0 total_owed) zero_amount
    require (leb (min payment_rise_sol total_owed) (rt.token b k.borrower_rise_sol_account).amount)
        insufficient_repayment_balance
    (interest_cleared, principal_cleared) ← split_cleared accrued (min payment_rise_sol total_owed)
    booked ←
        book_rise_sol (record l { position = accrued }) settled interest_cleared principal_cleared
    burned ←
        or_fault
          (rt.burn k.rise_sol_mint k.borrower_rise_sol_account k.signer
            (min payment_rise_sol total_owed) b)
          cpi
    pool ← notify_interest_burned k l.global_pool interest_cleared
    ok (record booked { position = close_if_repaid booked.position; global_pool = pool }, burned)

  unfoldable pub check_claim : Addresses → Loan → B → Outcome (Unit {0})
  check_claim k l b = do
    constrain (l.position.owner == k.signer)
    require (not l.position.is_open) position_still_open
    constrain (l.collateral_config.mint == l.position.collateral_mint)
    check_collateral_accounts rt k l k.signer b
    require (k.collateral_mint == l.collateral_config.mint) collateral_not_accepted
    constrain (l.borrow_rewards.position == k.position_key)

  -- The value of some collateral in lamports.
  unfoldable pub compute_shortfall_sol : ℕ → ℕ → ℕ → ℕ → Outcome ℕ
  compute_shortfall_sol shortfall_tokens coll_price sol_price decimals = do
    sf_usd ← collateral_value shortfall_tokens coll_price decimals
    sf_sol ← mul_div sf_usd lamports_per_sol sol_price
    ok (sf_sol % u64)

  -- The lamports for the buyback: those that the repayment set aside, or from the treasury.
  unfoldable pub fund_buyback : Addresses → Loan → ℕ → B → Outcome (ℕ × ProtocolTreasury × B)
  fund_buyback k l shortfall_tokens b =
      if ltb 0 l.position.pending_buyback_lamports
      then ok (l.position.pending_buyback_lamports, l.treasury, b)
      else (do
        (coll_price, sol_price) ← read_prices mk k l b
        shortfall_sol ←
            compute_shortfall_sol shortfall_tokens coll_price sol_price
              (mk.decimals k.collateral_mint b)
        if ltb 0 shortfall_sol
            then (do
              (treasury, paid) ← call_staking (
                  withdraw_treasury_for_cdp_buyback rt
                    (record {
                      cdp_config = k.cdp_config_key;
                      global_pool = l.global_pool;
                      treasury = l.treasury;
                      reserve_vault = k.reserve_vault;
                      cdp_wsol_buyback_vault = k.cdp_wsol_buyback_vault;
                    })
                    shortfall_sol b)
              ok (shortfall_sol, treasury, paid))
            else ok (0, l.treasury, b))

  unfoldable pub swap_buyback : Addresses → Loan → Route → ℕ → B → Outcome B
  swap_buyback k l r buyback_in_amount b =
      if ltb 0 buyback_in_amount
      then (do
        synced ← or_fault (mk.sync_native k.cdp_wsol_buyback_vault b) cpi
        or_fault
            (mk.shared_accounts_route k.cdp_config_key k.cdp_wsol_buyback_vault
              k.borrower_collateral_account k.wsol_mint k.collateral_mint r.route_plan_data
              buyback_in_amount r.quoted_out_amount r.slippage_bps synced)
            cpi)
      else ok b

  unfoldable pub buy_back : Addresses → Loan → Route → ℕ → B → Outcome (ProtocolTreasury × B)
  buy_back k l r shortfall_tokens b =
      if ltb 0 shortfall_tokens
      then (do
        (buyback_in_amount, treasury, funded) ← fund_buyback k l shortfall_tokens b
        swapped ← swap_buyback k l r buyback_in_amount funded
        ok (treasury, swapped))
      else ok (l.treasury, b)

  unfoldable pub pay_available : Addresses → ℕ → B → Outcome B
  pay_available k available b =
      if ltb 0 available
      then or_fault
          (rt.token_transfer k.collateral_vault k.borrower_collateral_account k.collateral_vault
            available b)
          cpi
      else ok b

  -- The runtime closes the position and its tracker, with what the result has of them.
  unfoldable pub claim_collateral : Addresses → Loan → Route → B → Outcome (Loan × B)
  claim_collateral k l r b = do
    check_claim k l b
    paid ←
        pay_available k
          (min (rt.token b k.collateral_vault).amount l.position.collateral_amount_original) b
    (treasury, bought) ←
        buy_back k l r
          (l.position.collateral_amount_original
            - min (rt.token b k.collateral_vault).amount l.position.collateral_amount_original)
          paid
    ok (
      record l {
        collateral_config = record l.collateral_config {
          total_collateral_entitlements =
              l.collateral_config.total_collateral_entitlements
              - l.position.collateral_amount_original;
        };
        treasury = treasury;
      },
      bought,
    )
