-- ===== src/Cdp/Repay.antt =====
-- programs/rise-cdp/src/instructions/repay_debt.rs: its accrue_interest, and settle_repayment, which
-- books a payment in SOL against a loan, for the repayments in SOL and in other tokens.
use rise_protocol.Prelude.{
  ℕ, Bool, ◌-◌, ◌%◌, min, ltb, leb, ◌==◌, ◌&&◌, if◌then◌else◌, ◌>>=◌, ◌>>◌, ok, require,
  checked_sub, checked_mul, checked_div, try_from, u64, u128,
}
use rise_protocol.Cdp.State.{
  CdpConfig, CdpPosition, BorrowRewardsConfig, BorrowRewards, Outcome, or_overflow, settle,
  sync_debt, zero_amount, total_rise_sol_owed,
}
use rise_protocol.Cdp.Interest.{AccrueInterest, current_rate, interest_on, add_interest}

-- Its accrual, with the same accounts as the crank's, keeps the slot where no interest is due.
unfoldable pub accrue_before_repayment : AccrueInterest → ℕ → Outcome CdpPosition
accrue_before_repayment a current_slot =
    if ltb a.position.last_accrual_slot current_slot && ltb 0 a.position.rise_sol_debt_principal
    then (do
      slots_elapsed ← or_overflow (checked_sub current_slot a.position.last_accrual_slot)
      effective_rate_bps ← current_rate a
      interest ← interest_on a.position.rise_sol_debt_principal effective_rate_bps slots_elapsed
      if ltb 0 interest then add_interest a.position interest current_slot else ok a.position)
    else ok a.position

pub record DebtSettlement : Type 0 where
  pub interest_sol : ℕ
  pub principal_sol : ℕ
  pub is_fully_repaid : Bool

-- The accounts that a repayment leaves, with its settlement.
pub record Repayment : Type 0 where
  pub position : CdpPosition
  pub cdp_config : CdpConfig
  pub borrow_rewards_config : BorrowRewardsConfig
  pub borrow_rewards : BorrowRewards
  pub settlement : DebtSettlement

-- SOL in riseSOL, and back, the latter cut to 64 bits.
unfoldable pub to_rise_sol : ℕ → ℕ → ℕ → Outcome ℕ
to_rise_sol payment_sol_lamports exchange_rate rate_scale = do
  product ← or_overflow (checked_mul u128 payment_sol_lamports rate_scale)
  payment_rise_sol ← or_overflow (checked_div product exchange_rate)
  or_overflow (try_from u64 payment_rise_sol)

unfoldable pub to_sol : ℕ → ℕ → ℕ → Outcome ℕ
to_sol rise_sol exchange_rate rate_scale = do
  product ← or_overflow (checked_mul u128 rise_sol exchange_rate)
  sol ← or_overflow (checked_div product rate_scale)
  ok (sol % u64)

-- What is cleared of the interest, and then of the principal.
unfoldable pub split_cleared : CdpPosition → ℕ → Outcome (ℕ × ℕ)
split_cleared p cleared_rise_sol =
    if leb cleared_rise_sol p.interest_accrued then ok (cleared_rise_sol, 0) else (do
      remaining ← or_overflow (checked_sub cleared_rise_sol p.interest_accrued)
      ok (p.interest_accrued, remaining))

unfoldable pub clear_debt : CdpPosition → ℕ → ℕ → Outcome CdpPosition
clear_debt p interest_cleared principal_cleared = do
  interest ← or_overflow (checked_sub p.interest_accrued interest_cleared)
  principal ← or_overflow (checked_sub p.rise_sol_debt_principal principal_cleared)
  ok (record p { interest_accrued = interest; rise_sol_debt_principal = principal })

-- The two totals of principal; taking nothing from them is to leave them.
unfoldable pub reduce_minted : CdpConfig → ℕ → CdpConfig
reduce_minted c principal_cleared = record c {
  cdp_rise_sol_minted = c.cdp_rise_sol_minted - principal_cleared;
}

unfoldable pub reduce_debt : BorrowRewardsConfig → ℕ → BorrowRewardsConfig
reduce_debt c principal_cleared = record c { total_cdp_debt = c.total_cdp_debt - principal_cleared }

-- The settlement, once what is cleared is known.
unfoldable pub book_repayment :
    CdpPosition → ℕ → ℕ → ℕ → CdpConfig → BorrowRewardsConfig → BorrowRewards → Outcome Repayment
book_repayment p cleared exchange_rate rate_scale c rewards_config rewards = do
  (interest_cleared, principal_cleared) ← split_cleared p cleared
  position ← clear_debt p interest_cleared principal_cleared
  interest_sol ← to_sol interest_cleared exchange_rate rate_scale
  cleared_sol ← to_sol cleared exchange_rate rate_scale
  synced ← sync_debt rewards rewards_config.reward_per_token position.rise_sol_debt_principal
  ok (record {
    position = position;
    cdp_config = reduce_minted c principal_cleared;
    borrow_rewards_config = reduce_debt rewards_config principal_cleared;
    borrow_rewards = synced;
    settlement = record {
      interest_sol = interest_sol;
      principal_sol = cleared_sol - interest_sol;
      is_fully_repaid = (position.interest_accrued == 0) && (position.rise_sol_debt_principal == 0);
    };
  })

unfoldable pub settle_repayment :
    CdpPosition → ℕ → ℕ → ℕ → CdpConfig → BorrowRewardsConfig → BorrowRewards → Outcome Repayment
settle_repayment p payment exchange_rate rate_scale c rewards_config rewards = do
  payment_rise_sol ← to_rise_sol payment exchange_rate rate_scale
  require (ltb 0 payment_rise_sol) zero_amount
  settled ← settle rewards rewards_config.reward_per_token p.rise_sol_debt_principal
  total_owed ← or_overflow (total_rise_sol_owed p)
  require (ltb 0 total_owed) zero_amount
  book_repayment p (min payment_rise_sol total_owed) exchange_rate rate_scale c rewards_config
      settled
