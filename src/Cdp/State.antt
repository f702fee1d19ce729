-- ===== src/Cdp/State.antt =====
-- programs/rise-cdp/src/state.rs and errors.rs: the accounts of the program, and the arithmetic
-- that is written as their methods.
use rise_protocol.Prelude.{
  ℕ, Bool, Option, some, ◌-◌, if◌then◌else◌, ◌==◌, ◌>>=◌, Result, checked_add, checked_sub,
  checked_mul, checked_div, try_from, ok_or, ok, and_then, u64, u128,
}
use rise_protocol.Solana.{Pubkey}

pub data CdpError : Type 0 where
  zero_amount collateral_not_accepted exceeds_max_ltv position_healthy position_unhealthy : CdpError
  insufficient_excess math_overflow stale_oracle_price invalid_oracle_price position_closed :
      CdpError
  interest_up_to_date insufficient_repayment_balance pool_paused payment_config_inactive : CdpError
  no_cdp_fees_to_collect debt_ceiling_exceeded exceeds_single_loan_cap : CdpError
  liquidity_redemption_not_needed no_rewards_to_claim borrow_rewards_not_initialized : CdpError
  insufficient_price_confidence collateral_shortfall unauthorized wrong_price_feed : CdpError
  missing_shortfall_accounts invalid_account position_still_open : CdpError

abbrev pub Outcome : Type 0 → Type 0
Outcome = Result CdpError

-- `.ok_or(CdpError::MathOverflow)?`
abbrev pub or_overflow : {A : Type 0} → Option A → Outcome A
or_overflow o = ok_or o math_overflow

pub record BorrowRewardsConfig : Type 0 where
  pub authority : Pubkey
  pub rise_mint : Pubkey
  pub rewards_vault : Pubkey
  pub reward_per_token : ℕ
  pub epoch_emissions : ℕ
  pub slots_per_epoch : ℕ
  pub total_cdp_debt : ℕ
  pub last_checkpoint_slot : ℕ
  pub bump : ℕ

abbrev pub reward_scale : ℕ
reward_scale = 1_000_000_000_000

pub record BorrowRewards : Type 0 where
  pub owner : Pubkey
  pub position : Pubkey
  pub reward_debt : ℕ
  pub pending_rewards : ℕ
  pub last_checkpoint_slot : ℕ
  pub total_claimed : ℕ
  pub bump : ℕ

unfoldable pub settle : BorrowRewards → ℕ → ℕ → Outcome BorrowRewards
settle u reward_per_token current_debt = do
  product ← or_overflow (checked_mul u128 current_debt reward_per_token)
  accrued ← or_overflow (checked_div product reward_scale)
  difference ← or_overflow (checked_sub accrued u.reward_debt)
  earned ← or_overflow (try_from u64 difference)
  pending ← or_overflow (checked_add u64 u.pending_rewards earned)
  ok (record u { pending_rewards = pending })

unfoldable pub sync_debt : BorrowRewards → ℕ → ℕ → Outcome BorrowRewards
sync_debt u reward_per_token new_debt = do
  product ← or_overflow (checked_mul u128 new_debt reward_per_token)
  debt ← or_overflow (checked_div product reward_scale)
  ok (record u { reward_debt = debt })

pub record CdpConfig : Type 0 where
  pub authority : Pubkey
  pub cdp_rise_sol_minted : ℕ
  pub debt_ceiling_multiplier_bps : ℕ
  pub bump : ℕ

pub record CollateralConfig : Type 0 where
  pub mint : Pubkey
  pub pyth_price_feed : Pubkey
  pub max_ltv_bps : ℕ
  pub liquidation_threshold_bps : ℕ
  pub liquidation_penalty_bps : ℕ
  pub base_rate_bps : ℕ
  pub rate_slope1_bps : ℕ
  pub rate_slope2_bps : ℕ
  pub optimal_utilization_bps : ℕ
  pub conversion_slippage_bps : ℕ
  pub active : Bool
  pub total_positions : ℕ
  pub total_collateral_entitlements : ℕ
  pub bump : ℕ

pub record PaymentConfig : Type 0 where
  pub mint : Pubkey
  pub pyth_price_feed : Pubkey
  pub active : Bool
  pub bump : ℕ

abbrev pub rate_scale : ℕ
rate_scale = 1_000_000_000_000_000_000

abbrev pub slots_per_year : ℕ
slots_per_year = 78_840_000

pub record CdpPosition : Type 0 where
  pub owner : Pubkey
  pub collateral_mint : Pubkey
  pub collateral_amount_original : ℕ
  pub collateral_usd_value : ℕ
  pub rise_sol_debt_principal : ℕ
  pub interest_accrued : ℕ
  pub last_accrual_slot : ℕ
  pub health_factor : ℕ
  pub opened_at_slot : ℕ
  pub nonce : ℕ
  pub is_open : Bool
  pub excess_withdrawal_queued : ℕ
  pub excess_withdrawal_available_slot : ℕ
  pub pending_buyback_lamports : ℕ
  pub bump : ℕ

unfoldable pub total_rise_sol_owed : CdpPosition → Option ℕ
total_rise_sol_owed p = checked_add u64 p.rise_sol_debt_principal p.interest_accrued

unfoldable pub compute_health_factor : ℕ → ℕ → ℕ → Option ℕ
compute_health_factor collateral_usd debt_usd liquidation_threshold_bps =
    if debt_usd == 0
    then some (u128 - 1)
    else and_then (checked_mul u128 collateral_usd liquidation_threshold_bps) λ product.
      and_then (checked_div product 10_000) λ adjusted_collateral.
        and_then (checked_mul u128 adjusted_collateral rate_scale)
          λ scaled. checked_div scaled debt_usd
