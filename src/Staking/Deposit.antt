-- ===== src/Staking/Deposit.antt =====
-- programs/rise-staking/src/instructions/stake_sol.rs, and the settlement of RISE rewards that
-- unstake_rise_sol.rs shares with it.
use rise_protocol.Prelude.{
  ℕ, ltb, ◌==◌, not, Option, none, some, ◌>>=◌, ◌>>◌, ok, cpi, require, or_fault, constrain,
  add_or_panic, checked_add, u64, u128,
}
use rise_protocol.Solana.{Pubkey, Runtime}
use rise_protocol.Staking.State.{
  GlobalPool, StakeRewardsConfig, UserStakeRewards, Outcome, or_overflow, settle, sync_debt,
  sol_to_rise_sol, pool_paused, zero_amount,
}

pub record StakeSol : Type 0 where
  pub user : Pubkey
  pub pool_key : Pubkey
  pub pool : GlobalPool
  pub pool_vault : Pubkey
  pub rise_sol_mint : Pubkey
  pub user_rise_sol_account : Pubkey
  pub stake_rewards_config : Option StakeRewardsConfig
  pub user_stake_rewards : Option UserStakeRewards

-- `.map(|c| c.reward_per_token).unwrap_or(0)`
unfoldable pub current_reward_per_token : Option StakeRewardsConfig → ℕ
current_reward_per_token none = 0
current_reward_per_token (some c) = c.reward_per_token

-- The block that settles the user's rewards, where the caller passed the account. The new balance
-- is computed after settling, and may fail.
unfoldable pub resync :
    Option UserStakeRewards
    → Option StakeRewardsConfig
    → Outcome ℕ
    → Outcome (Option UserStakeRewards)
resync none config new_amount = ok none
resync (some u) config new_amount = do
  settled ← settle u (current_reward_per_token config)
  amount ← new_amount
  synced ← sync_debt settled (current_reward_per_token config) amount
  ok (some synced)

unfoldable pub grow_supply : Option StakeRewardsConfig → ℕ → Outcome (Option StakeRewardsConfig)
grow_supply none minted = ok none
grow_supply (some c) minted = do
  supply ← or_overflow (checked_add u64 c.total_staking_supply minted)
  ok (some (record c { total_staking_supply = supply }))

-- "Update pool state"
unfoldable pub credit_stake : GlobalPool → ℕ → ℕ → Outcome GlobalPool
credit_stake p lamports minted = do
  total ← or_overflow (checked_add u128 p.total_sol_staked lamports)
  supply ← or_overflow (checked_add u128 p.staking_rise_sol_supply minted)
  liquid ← or_overflow (checked_add u128 p.liquid_buffer_lamports lamports)
  ok (record p {
    total_sol_staked = total;
    staking_rise_sol_supply = supply;
    liquid_buffer_lamports = liquid;
  })

module _ {B : Type 0} (rt : Runtime B) where
  -- The account constraints, then the handler.
  unfoldable pub stake_sol : StakeSol → ℕ → B → Outcome (StakeSol × B)
  stake_sol a lamports b = do
    constrain (a.rise_sol_mint == a.pool.rise_sol_mint)
    constrain ((rt.token b a.user_rise_sol_account).mint == a.pool.rise_sol_mint)
    constrain ((rt.token b a.user_rise_sol_account).owner == a.user)
    require (not a.pool.paused) pool_paused
    require (ltb 0 lamports) zero_amount
    rise_sol_to_mint ← or_overflow (sol_to_rise_sol a.pool lamports)
    require (ltb 0 rise_sol_to_mint) zero_amount
    user_rewards ←
        resync a.user_stake_rewards a.stake_rewards_config
          (add_or_panic u64 (rt.token b a.user_rise_sol_account).amount rise_sol_to_mint)
    config ← grow_supply a.stake_rewards_config rise_sol_to_mint
    paid ← or_fault (rt.transfer a.user a.pool_vault lamports b) cpi
    pool ← credit_stake a.pool lamports rise_sol_to_mint
    minted ←
        or_fault
          (rt.mint_to a.rise_sol_mint a.user_rise_sol_account a.pool_key rise_sol_to_mint paid) cpi
    ok (
      record a { pool = pool; stake_rewards_config = config; user_stake_rewards = user_rewards },
      minted,
    )
