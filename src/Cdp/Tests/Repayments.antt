-- ===== src/Cdp/Tests/Repayments.antt =====
-- Theorems on repayments and on RISE for borrowers, at concrete inputs.
use rise_protocol.Prelude.{
  ◌+◌, ◌-◌, ◌*◌, ◌/◌, ◌≤◌, ◌<◌, min, ◌≡◌, ◌≢◌, ◌↔◌, refl, true, false, ok, arith, ℕ, inl, inr,
  Result-cases, [], ◌∷◌, u64, u128,
}
use rise_protocol.Sample.{Bank, sample_runtime}
use rise_protocol.Cdp.State.{
  CdpPosition, BorrowRewardsConfig, BorrowRewards, settle, sync_debt, total_rise_sol_owed,
}
use rise_protocol.Cdp.Rewards.{
  InitializeBorrowRewards, initialize_borrow_rewards, ClaimBorrowRewards, claim_borrow_rewards,
}
use rise_protocol.Cdp.Repay.{
  Repayment, to_rise_sol, to_sol, split_cleared, clear_debt, reduce_minted, reduce_debt,
  book_repayment, settle_repayment, accrue_before_repayment,
}
use rise_protocol.Cdp.RepayLaws.{debt, settle_repayment_clears, settle_repayment_books_at_most}
use rise_protocol.Cdp.RepaySucceeds.{repay_debt_succeeds}
use rise_protocol.Cdp.RewardLaws.{claim_borrow_rewards_twice}
use rise_protocol.Cdp.Loan.{Loan, Route, interest_accounts, check_own_position}
use rise_protocol.Cdp.RepaySol.{repay_debt, check_sol_repayment, route_native_sol, send_sol}
use rise_protocol.Cdp.Close.{repay_debt_rise_sol, close_position}
use rise_protocol.Cdp.Liquidate.{liquidate}
use rise_protocol.Cdp.Blocked.{initialize_borrow_rewards_blocks_loan}
use rise_protocol.Cdp.Tests.{ok_value, position, loans, config, pool}
use rise_protocol.Cdp.Tests.Opened.{markets, keys, blank}

-- 1000 riseSOL of principal, and 2029426 units of interest.
abbrev indebted : CdpPosition
indebted = record position { interest_accrued = 2_029_426 }

abbrev rewards_config : BorrowRewardsConfig
rewards_config = record {
  authority = 1;
  rise_mint = 2;
  rewards_vault = 7;
  reward_per_token = 3_000_000_000;
  epoch_emissions = 1_000_000;
  slots_per_epoch = 432_000;
  total_cdp_debt = 1_000_000_000_000;
  last_checkpoint_slot = 900;
  bump = 251;
}

abbrev tracker : BorrowRewards
tracker = record {
  owner = 40;
  position = 41;
  reward_debt = 1_000_000_000;
  pending_rewards = 5;
  last_checkpoint_slot = 900;
  total_claimed = 0;
  bump = 250;
}

-- 600 SOL, at 1.05 SOL for a riseSOL.
paid : Repayment
unfolding settle_repayment to_rise_sol settle total_rise_sol_owed book_repayment split_cleared
    clear_debt to_sol sync_debt reduce_minted reduce_debt u64 u128
paid =
    ok_value
      (settle_repayment indebted 600_000_000_000 1_050_000_000 1_000_000_000 loans rewards_config
        tracker)
      (record {
        position = indebted;
        cdp_config = loans;
        borrow_rewards_config = rewards_config;
        borrow_rewards = tracker;
        settlement = record { interest_sol = 0; principal_sol = 0; is_fully_repaid = false };
      })

paid_runs :
    settle_repayment indebted 600_000_000_000 1_050_000_000 1_000_000_000 loans rewards_config
      tracker
    ≡ ok paid
unfolding paid
paid_runs = refl

paid_principal : paid.position.rise_sol_debt_principal ≡ 428_573_457_998
unfolding paid
paid_principal = refl

settle_repayment_clears_example :
    (debt paid.position + min (600_000_000_000 * 1_000_000_000 / 1_050_000_000) (debt indebted)
      ≡ debt indebted)
    × (paid.position.interest_accrued
        ≡ 2_029_426 - min (600_000_000_000 * 1_000_000_000 / 1_050_000_000) (debt indebted))
    × (paid.cdp_config.cdp_rise_sol_minted + 1_000_000_000_000
        ≡ 1_200_000_000_000 + paid.position.rise_sol_debt_principal)
    × (paid.borrow_rewards_config.total_cdp_debt + 1_000_000_000_000
        ≡ 1_000_000_000_000 + paid.position.rise_sol_debt_principal)
    × ((paid.settlement.is_fully_repaid ≡ true)
        ↔ (debt indebted ≤ 600_000_000_000 * 1_000_000_000 / 1_050_000_000))
settle_repayment_clears_example =
    settle_repayment_clears indebted 600_000_000_000 1_050_000_000 1_000_000_000 loans
      rewards_config tracker paid paid_runs (omega arith) (omega arith)

settle_repayment_books_at_most_example :
    paid.settlement.interest_sol + paid.settlement.principal_sol ≤ 600_000_000_000
settle_repayment_books_at_most_example =
    settle_repayment_books_at_most indebted 600_000_000_000 1_050_000_000 1_000_000_000 loans
      rewards_config tracker paid paid_runs

abbrev bank : Bank
bank = record {
  balance = λ k. 890_880;
  token = λ k. record { mint = 2; owner = 40; amount = 9_000_000_000 };
  epoch = 7;
  slot = 1_000;
}

abbrev restart : InitializeBorrowRewards
restart = record {
  authority = 1;
  cdp_config = loans;
  config_bump = 251;
  rewards_vault = 7;
  rise_mint = 5;
}

restarted : BorrowRewardsConfig
unfolding initialize_borrow_rewards
restarted =
    ok_value (initialize_borrow_rewards sample_runtime restart 1_000_000 432_000 bank)
      rewards_config

restarted_runs :
    initialize_borrow_rewards sample_runtime restart 1_000_000 432_000 bank ≡ ok restarted
unfolding restarted
restarted_runs = refl

abbrev sample_route : Route
sample_route = record { route_plan_data = 1 ∷ []; quoted_out_amount = 1_000; slippage_bps = 50 }

-- A loan of those from before.
abbrev old_loan : Loan
old_loan = record {
  position = indebted;
  borrow_rewards = tracker;
  collateral_config = config;
  cdp_config = loans;
  borrow_rewards_config = restarted;
  global_pool = pool;
  treasury = blank.treasury;
}

initialize_borrow_rewards_blocks_loan_example :
    (repay_debt sample_runtime markets keys old_loan 600_000_000_000 bank ≢ ok (old_loan, bank))
    × (repay_debt_rise_sol sample_runtime markets keys old_loan 600_000_000_000 bank
        ≢ ok (old_loan, bank))
    × (close_position sample_runtime markets keys old_loan bank ≢ ok (old_loan, bank))
    × (liquidate sample_runtime markets keys old_loan sample_route bank ≢ ok (old_loan, bank))
initialize_borrow_rewards_blocks_loan_example =
    initialize_borrow_rewards_blocks_loan sample_runtime markets restart 1_000_000 432_000 bank
      restarted old_loan restarted_runs refl (omega arith) keys 600_000_000_000 sample_route bank
      (old_loan, bank)

abbrev claim : ClaimBorrowRewards
claim = record {
  borrower = 40;
  position_key = 41;
  position = indebted;
  borrow_rewards = tracker;
  config_key = 6;
  borrow_rewards_config = rewards_config;
  rewards_vault = 7;
  borrower_rise_account = 42;
}

claimed : BorrowRewards × Bank
unfolding claim_borrow_rewards settle sync_debt u64 u128
claimed = ok_value (claim_borrow_rewards sample_runtime claim bank) (tracker, bank)

claimed_runs : claim_borrow_rewards sample_runtime claim bank ≡ ok claimed
unfolding claimed
claimed_runs = refl

claim_borrow_rewards_twice_example :
    claim_borrow_rewards sample_runtime (record claim { borrow_rewards = claimed.0 }) claimed.1
    ≢ ok claimed
claim_borrow_rewards_twice_example =
    claim_borrow_rewards_twice sample_runtime claim bank claimed.0 claimed.1 claimed.1 claimed_runs
      claimed

settles :
    settle tracker rewards_config.reward_per_token 1_000_000_000_000
    ≡ ok (record tracker { pending_rewards = 2_000_000_005 })
unfolding settle u64 u128
settles = refl

payment_fits : 600_000_000_000 * 1_000_000_000 < u128
unfolding u128
payment_fits = omega arith

worth_fits : 600_000_000_000 * 1_000_000_000 / 1_050_000_000 < u64
unfolding u64
worth_fits = omega arith

debt_fits : debt indebted < u64
unfolding u64
debt_fits = omega arith

tracked_fits : 1_000_000_000_000 * 3_000_000_000 < u128
unfolding u128
tracked_fits = omega arith

-- The loan, at an exchange rate of 1.05, and a bank in which the vault holds its collateral.
abbrev loan : Loan
loan = record {
  position = indebted;
  borrow_rewards = tracker;
  collateral_config = config;
  cdp_config = loans;
  borrow_rewards_config = rewards_config;
  global_pool = record pool { exchange_rate = 1_050_000_000 };
  treasury = blank.treasury;
}

abbrev funded : Bank
funded = record {
  balance = λ k. 900_000_000_000;
  token = λ k. record { mint = 60; owner = 40; amount = 90_000_000_000_000 };
  epoch = 7;
  slot = 1_000;
}

checks_loan : check_sol_repayment sample_runtime markets keys loan funded ≡ ok tt
unfolding check_sol_repayment check_own_position
checks_loan = refl

accrues_nothing : accrue_before_repayment (interest_accounts loan) 1_000 ≡ ok indebted
unfolding accrue_before_repayment
accrues_nothing = refl

payable :
    (i m d : ℕ)
    → i + m + d ≤ 600_000_000_000
    → (b' : Bank) × (route_native_sol sample_runtime markets keys i m d funded ≡ ok b')
unfolding route_native_sol send_sol
payable i m d within =
    elim (Result-cases (route_native_sol sample_runtime markets keys i m d funded)) [
      | inl sent ↦ sent
      | inr (e, failed) ↦ ground arith
    ]

repay_debt_succeeds_example :
    (l' : Loan) × (b' : Bank) × (repay_debt sample_runtime markets keys loan 600_000_000_000 funded
      ≡ ok (l', b'))
    × (debt l'.position + min (600_000_000_000 * 1_000_000_000 / 1_050_000_000) (debt indebted)
        ≡ debt indebted)
repay_debt_succeeds_example =
    repay_debt_succeeds sample_runtime markets keys loan 600_000_000_000 funded indebted
      (record tracker { pending_rewards = 2_000_000_005 }) checks_loan accrues_nothing settles
      payable (omega arith) (omega arith) payment_fits (omega arith) worth_fits (omega arith)
      debt_fits tracked_fits
