-- ===== src/Staking/Rewards.antt =====
-- programs/rise-staking/src/instructions/initialize_stake_rewards.rs, checkpoint_stake_rewards.rs,
-- register_stake_rewards.rs, claim_stake_rewards.rs and close_stake_rewards.rs: RISE for stakers.
use rise_protocol.Prelude.{
  ℕ, ◌-◌, ltb, ◌==◌, if◌then◌else◌, ◌>>=◌, ◌>>◌, ok, cpi, require, or_fault, checked_add,
  checked_mul, checked_div, try_from, u64, u128,
}
use rise_protocol.Solana.{Pubkey, Runtime}
use rise_protocol.Staking.State.{
  GlobalPool, StakeRewardsConfig, UserStakeRewards, Outcome, or_overflow, reward_scale, settle,
  sync_debt, zero_amount, unauthorized, no_rewards_to_claim,
}

pub record InitializeStakeRewards : Type 0 where
  pub authority : Pubkey
  pub pool : GlobalPool
  pub config_bump : ℕ
  pub rewards_vault : Pubkey
  pub rise_mint : Pubkey

pub record RegisterStakeRewards : Type 0 where
  pub user : Pubkey
  pub pool : GlobalPool
  pub stake_rewards_config : StakeRewardsConfig
  pub tracker_bump : ℕ
  pub user_rise_sol_account : Pubkey

pub record ClaimStakeRewards : Type 0 where
  pub user : Pubkey
  pub config_key : Pubkey
  pub stake_rewards_config : StakeRewardsConfig
  pub user_stake_rewards : UserStakeRewards
  pub rewards_vault : Pubkey
  pub user_rise_account : Pubkey

pub record CloseStakeRewards : Type 0 where
  pub authority : Pubkey
  pub pool : GlobalPool
  pub config_key : Pubkey
  pub stake_rewards_config : StakeRewardsConfig
  pub rewards_vault : Pubkey
  pub authority_rise_account : Pubkey

-- `reward_per_token += emissions * REWARD_SCALE / total_staking_supply`, if RISE was emitted.
unfoldable pub accumulate : StakeRewardsConfig → ℕ → Outcome ℕ
accumulate c emissions =
    if ltb 0 emissions
    then (do
      scaled ← or_overflow (checked_mul u128 emissions reward_scale)
      reward_increase ← or_overflow (checked_div scaled c.total_staking_supply)
      or_overflow (checked_add u128 c.reward_per_token reward_increase))
    else ok c.reward_per_token

-- The handler after its early returns.
unfoldable pub emit_rewards : StakeRewardsConfig → ℕ → ℕ → Outcome StakeRewardsConfig
emit_rewards c slots_elapsed current_slot = do
  product ← or_overflow (checked_mul u128 c.epoch_emissions slots_elapsed)
  emissions ← or_overflow (checked_div product c.slots_per_epoch)
  reward_per_token ← accumulate c emissions
  ok (record c { reward_per_token = reward_per_token; last_checkpoint_slot = current_slot })

unfoldable pub checkpoint_stake_rewards : StakeRewardsConfig → ℕ → Outcome StakeRewardsConfig
checkpoint_stake_rewards c current_slot =
    if current_slot - c.last_checkpoint_slot == 0
    then ok c
    else if c.total_staking_supply == 0
    then ok (record c { last_checkpoint_slot = current_slot })
    else emit_rewards c (current_slot - c.last_checkpoint_slot) current_slot

module _ {B : Type 0} (rt : Runtime B) where
  unfoldable pub initialize_stake_rewards :
      InitializeStakeRewards → ℕ → ℕ → B → Outcome StakeRewardsConfig
  initialize_stake_rewards a epoch_emissions slots_per_epoch b = do
    require (a.authority == a.pool.authority) unauthorized
    require (ltb 0 epoch_emissions) zero_amount
    require (ltb 0 slots_per_epoch) zero_amount
    supply ← or_overflow (try_from u64 a.pool.staking_rise_sol_supply)
    ok (record {
      authority = a.authority;
      rise_mint = a.rise_mint;
      rewards_vault = a.rewards_vault;
      reward_per_token = 0;
      epoch_emissions = epoch_emissions;
      slots_per_epoch = slots_per_epoch;
      total_staking_supply = supply;
      last_checkpoint_slot = rt.slot b;
      bump = a.config_bump;
    })

  unfoldable pub register_stake_rewards : RegisterStakeRewards → B → Outcome UserStakeRewards
  register_stake_rewards a b = do
    require ((rt.token b a.user_rise_sol_account).mint == a.pool.rise_sol_mint) unauthorized
    require ((rt.token b a.user_rise_sol_account).owner == a.user) unauthorized
    sync_debt
        (record {
          owner = a.user;
          rise_sol_amount = 0;
          reward_debt = 0;
          pending_rewards = 0;
          total_claimed = 0;
          bump = a.tracker_bump;
        })
        a.stake_rewards_config.reward_per_token (rt.token b a.user_rise_sol_account).amount

  unfoldable pub claim_stake_rewards : ClaimStakeRewards → B → Outcome (UserStakeRewards × B)
  claim_stake_rewards a b = do
    require (a.user_stake_rewards.owner == a.user) unauthorized
    require ((rt.token b a.rewards_vault).mint == a.stake_rewards_config.rise_mint) unauthorized
    require ((rt.token b a.user_rise_account).mint == a.stake_rewards_config.rise_mint) unauthorized
    require ((rt.token b a.user_rise_account).owner == a.user) unauthorized
    settled ← settle a.user_stake_rewards a.stake_rewards_config.reward_per_token
    require (ltb 0 settled.pending_rewards) no_rewards_to_claim
    paid ←
        or_fault
          (rt.token_transfer a.rewards_vault a.user_rise_account a.config_key
            settled.pending_rewards b)
          cpi
    claimed ← or_overflow (checked_add u64 settled.total_claimed settled.pending_rewards)
    synced ←
        sync_debt (record settled { pending_rewards = 0; total_claimed = claimed })
          a.stake_rewards_config.reward_per_token settled.rise_sol_amount
    ok (synced, paid)

  -- "Return any remaining RISE to the authority wallet."
  unfoldable pub return_remaining : CloseStakeRewards → B → Outcome B
  return_remaining a b =
      if ltb 0 (rt.token b a.rewards_vault).amount
      then or_fault
          (rt.token_transfer a.rewards_vault a.authority_rise_account a.config_key
            (rt.token b a.rewards_vault).amount b)
          cpi
      else ok b

  -- The config account is closed by its `close = authority` constraint.
  unfoldable pub close_stake_rewards : CloseStakeRewards → B → Outcome B
  close_stake_rewards a b = do
    require (a.authority == a.pool.authority) unauthorized
    require ((rt.token b a.rewards_vault).mint == a.stake_rewards_config.rise_mint) unauthorized
    require ((rt.token b a.authority_rise_account).mint == a.stake_rewards_config.rise_mint)
        unauthorized
    require ((rt.token b a.authority_rise_account).owner == a.authority) unauthorized
    returned ← return_remaining a b
    or_fault (rt.close_account a.rewards_vault a.authority a.config_key returned) cpi
