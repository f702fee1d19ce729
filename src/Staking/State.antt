-- ===== src/Staking/State.antt =====
-- programs/rise-staking/src/state.rs and errors.rs: the accounts of the program, and the
-- arithmetic that is written as their methods.
use rise_protocol.Prelude.{
  ℕ, Bool, Option, ◌>>=◌, Result, checked_add, checked_sub, checked_mul, checked_div, try_from,
  ok_or, ok, and_then, u64, u128,
}
use rise_protocol.Solana.{Pubkey}

pub data StakingError : Type 0 where
  pool_paused zero_amount insufficient_liquidity invalid_exchange_rate invalid_fee_bps :
      StakingError
  invalid_buffer_bps math_overflow stale_oracle_price unstake_not_ready unauthorized : StakingError
  already_migrated no_rewards_to_claim invalid_governance_config epoch_not_advanced : StakingError

abbrev pub Outcome : Type 0 → Type 0
Outcome = Result StakingError

-- `.ok_or(StakingError::MathOverflow)?`
abbrev pub or_overflow : {A : Type 0} → Option A → Outcome A
or_overflow o = ok_or o math_overflow

pub record StakeRewardsConfig : Type 0 where
  pub authority : Pubkey
  pub rise_mint : Pubkey
  pub rewards_vault : Pubkey
  pub reward_per_token : ℕ
  pub epoch_emissions : ℕ
  pub slots_per_epoch : ℕ
  pub total_staking_supply : ℕ
  pub last_checkpoint_slot : ℕ
  pub bump : ℕ

abbrev pub reward_scale : ℕ
reward_scale = 1_000_000_000_000

pub record UserStakeRewards : Type 0 where
  pub owner : Pubkey
  pub rise_sol_amount : ℕ
  pub reward_debt : ℕ
  pub pending_rewards : ℕ
  pub total_claimed : ℕ
  pub bump : ℕ

unfoldable pub settle : UserStakeRewards → ℕ → Outcome UserStakeRewards
settle u reward_per_token = do
  product ← or_overflow (checked_mul u128 u.rise_sol_amount reward_per_token)
  accrued ← or_overflow (checked_div product reward_scale)
  difference ← or_overflow (checked_sub accrued u.reward_debt)
  earned ← or_overflow (try_from u64 difference)
  pending ← or_overflow (checked_add u64 u.pending_rewards earned)
  ok (record u { pending_rewards = pending })

unfoldable pub sync_debt : UserStakeRewards → ℕ → ℕ → Outcome UserStakeRewards
sync_debt u reward_per_token new_amount = do
  product ← or_overflow (checked_mul u128 new_amount reward_per_token)
  debt ← or_overflow (checked_div product reward_scale)
  ok (record u { rise_sol_amount = new_amount; reward_debt = debt })

pub record GlobalPool : Type 0 where
  pub authority : Pubkey
  pub rise_sol_mint : Pubkey
  pub total_sol_staked : ℕ
  pub staking_rise_sol_supply : ℕ
  pub exchange_rate : ℕ
  pub last_rate_update_epoch : ℕ
  pub liquid_buffer_lamports : ℕ
  pub liquid_buffer_target_bps : ℕ
  pub protocol_fee_bps : ℕ
  pub paused : Bool
  pub pending_withdrawals_lamports : ℕ
  pub bump : ℕ
  pub cdp_config_pubkey : Pubkey
  pub prev_exchange_rate : ℕ
  pub prev_rate_update_slot : ℕ
  pub unstake_nonce : ℕ

abbrev pub rate_scale : ℕ
rate_scale = 1_000_000_000

abbrev pub unstake_epoch_delay : ℕ
unstake_epoch_delay = 2

abbrev pub min_liquid_buffer_bps : ℕ
min_liquid_buffer_bps = 500

unfoldable pub sol_to_rise_sol : GlobalPool → ℕ → Option ℕ
sol_to_rise_sol p sol_lamports =
    and_then (checked_mul u128 sol_lamports rate_scale)
      λ product. and_then (checked_div product p.exchange_rate) λ rise_sol. try_from u64 rise_sol

unfoldable pub rise_sol_to_sol : GlobalPool → ℕ → Option ℕ
rise_sol_to_sol p rise_sol_amount =
    and_then (checked_mul u128 rise_sol_amount p.exchange_rate)
      λ product. and_then (checked_div product rate_scale) λ sol. try_from u64 sol

pub record WithdrawalTicket : Type 0 where
  pub owner : Pubkey
  pub sol_amount : ℕ
  pub claimable_epoch : ℕ
  pub nonce : ℕ
  pub bump : ℕ

pub record ProtocolTreasury : Type 0 where
  pub authority : Pubkey
  pub team_wallet : Pubkey
  pub team_fee_bps : ℕ
  pub verise_share_bps : ℕ
  pub reserve_lamports : ℕ
  pub revenue_index : ℕ
  pub total_distributed : ℕ
  pub last_collection_epoch : ℕ
  pub bump : ℕ

abbrev pub index_scale : ℕ
index_scale = 1_000_000_000_000

unfoldable pub team_cut : ProtocolTreasury → ℕ → Option ℕ
team_cut t total_fees =
    and_then (checked_mul u128 total_fees t.team_fee_bps)
      λ product. and_then (checked_div product 10_000) λ cut. try_from u64 cut

unfoldable pub verise_cut : ProtocolTreasury → ℕ → Option ℕ
verise_cut t total_fees =
    and_then (checked_mul u128 total_fees t.verise_share_bps)
      λ product. and_then (checked_div product 10_000) λ cut. try_from u64 cut
