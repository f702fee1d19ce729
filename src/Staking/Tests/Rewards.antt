-- ===== src/Staking/Tests/Rewards.antt =====
-- Theorems on the rewards of stakers, at concrete inputs.
use rise_protocol.Prelude.{
  ℕ, ◌+◌, ◌-◌, ◌*◌, ◌/◌, ◌≤◌, ◌<◌, max, ◌≡◌, ◌≢◌, refl, none, some, ok, u64, u128,
}
use rise_protocol.Sample.{Bank, sample_runtime}
use rise_protocol.Staking.State.{
  StakeRewardsConfig, UserStakeRewards, settle, sync_debt, sol_to_rise_sol, reward_scale,
}
use rise_protocol.Staking.Deposit.{
  StakeSol, stake_sol, resync, current_reward_per_token, grow_supply, credit_stake,
}
use rise_protocol.Staking.Rewards.{
  ClaimStakeRewards, claim_stake_rewards, accumulate, emit_rewards, checkpoint_stake_rewards,
}
use rise_protocol.Staking.RewardLaws.{
  settle_often, claim_stake_rewards_twice, checkpoint_stake_rewards_bounded,
  stake_sol_backdates_rewards,
}
use rise_protocol.Staking.Tests.Samples.{bank, genesis_pool, ok_value}

-- 3000 units tracked since the accumulator stood at 2.0.
abbrev tracker : UserStakeRewards
tracker = record {
  owner = 10;
  rise_sol_amount = 3_000;
  reward_debt = 6_000;
  pending_rewards = 40;
  total_claimed = 0;
  bump = 254;
}

settled_at_3 : settle tracker 3_000_000_000_000 ≡ ok (record tracker { pending_rewards = 3_040 })
unfolding settle u64 u128
settled_at_3 = refl

synced_at_3 :
    sync_debt (record tracker { pending_rewards = 3_040 }) 3_000_000_000_000 3_000
    ≡ ok (record tracker { pending_rewards = 3_040; reward_debt = 9_000 })
unfolding sync_debt u128
synced_at_3 = refl

settled_at_5 :
    settle (record tracker { pending_rewards = 3_040; reward_debt = 9_000 }) 5_000_000_000_000
    ≡ ok (record tracker { pending_rewards = 9_040; reward_debt = 9_000 })
unfolding settle u64 u128
settled_at_5 = refl

settled_once : settle tracker 5_000_000_000_000 ≡ ok (record tracker { pending_rewards = 9_040 })
unfolding settle u64 u128
settled_once = refl

settle_often_example : ◌≡◌ {A = ℕ} 9_040 9_040
settle_often_example =
    settle_often tracker (record tracker { pending_rewards = 3_040 })
      (record tracker { pending_rewards = 3_040; reward_debt = 9_000 })
      (record tracker { pending_rewards = 9_040; reward_debt = 9_000 })
      (record tracker { pending_rewards = 9_040 }) 3_000_000_000_000 5_000_000_000_000 settled_at_3
      synced_at_3 settled_at_5 settled_once

abbrev config : StakeRewardsConfig
config = record {
  authority = 8;
  rise_mint = 2;
  rewards_vault = 7;
  reward_per_token = 5_000_000_000_000;
  epoch_emissions = 1_000_000;
  slots_per_epoch = 100;
  total_staking_supply = 4_000;
  last_checkpoint_slot = 990;
  bump = 251;
}

checked : StakeRewardsConfig
unfolding checkpoint_stake_rewards emit_rewards accumulate u128
checked = ok_value (checkpoint_stake_rewards config 1_000) config

checked_runs : checkpoint_stake_rewards config 1_000 ≡ ok checked
unfolding checked
checked_runs = refl

checkpoint_stake_rewards_bounded_example :
    (5_000_000_000_000 ≤ checked.reward_per_token)
    × ((checked.reward_per_token - 5_000_000_000_000) * 4_000
        ≤ 1_000_000 * (1_000 - 990) / 100 * reward_scale)
    × (checked.last_checkpoint_slot ≡ max 990 1_000)
checkpoint_stake_rewards_bounded_example =
    checkpoint_stake_rewards_bounded config checked 1_000 checked_runs

-- The rewards vault holds a million RISE.
abbrev funded : Bank
funded = record bank { token = λ k. record { mint = 2; owner = 10; amount = 1_000_000 } }

abbrev claim : ClaimStakeRewards
claim = record {
  user = 10;
  config_key = 6;
  stake_rewards_config = config;
  user_stake_rewards = tracker;
  rewards_vault = 7;
  user_rise_account = 12;
}

claimed : UserStakeRewards × Bank
unfolding claim_stake_rewards settle sync_debt u64 u128
claimed = ok_value (claim_stake_rewards sample_runtime claim funded) (tracker, funded)

claimed_runs : claim_stake_rewards sample_runtime claim funded ≡ ok claimed
unfolding claimed
claimed_runs = refl

claim_stake_rewards_twice_example :
    claim_stake_rewards sample_runtime (record claim { user_stake_rewards = claimed.0 }) claimed.1
    ≢ ok claimed
claim_stake_rewards_twice_example =
    claim_stake_rewards_twice sample_runtime claim funded claimed.0 claimed.1 claimed.1 claimed_runs
      claimed

-- A tracker that was registered with no riseSOL.
abbrev fresh : UserStakeRewards
fresh = record tracker { rise_sol_amount = 0; reward_debt = 0; pending_rewards = 0 }

abbrev deposit : StakeSol
deposit = record {
  user = 10;
  pool_key = 1;
  pool = genesis_pool;
  pool_vault = 3;
  rise_sol_mint = 2;
  user_rise_sol_account = 11;
  stake_rewards_config = none;
  user_stake_rewards = some fresh;
}

deposited : StakeSol × Bank
unfolding stake_sol sol_to_rise_sol resync current_reward_per_token settle sync_debt grow_supply
    credit_stake u64 u128
deposited = ok_value (stake_sol sample_runtime deposit 4_000 bank) (deposit, bank)

deposited_runs : stake_sol sample_runtime deposit 4_000 bank ≡ ok deposited
unfolding deposited
deposited_runs = refl

deposited_tracker : deposited.0.user_stake_rewards ≡ some (record fresh { rise_sol_amount = 4_000 })
unfolding deposited
deposited_tracker = refl

backdated :
    settle (record fresh { rise_sol_amount = 4_000 }) 5_000_000_000_000
    ≡ ok (record fresh { rise_sol_amount = 4_000; pending_rewards = 20_000 })
unfolding settle u64 u128
backdated = refl

stake_sol_backdates_rewards_example :
    (m : ℕ) × (sol_to_rise_sol deposit.pool 4_000 ≡ some m)
    × (0 < m)
    × (4_000 ≡ (bank.token 11).amount + m)
    × (fresh.reward_debt ≡ 0)
    × (◌≡◌ {A = ℕ} 20_000 (0 + 4_000 * 5_000_000_000_000 / reward_scale))
stake_sol_backdates_rewards_example =
    stake_sol_backdates_rewards sample_runtime deposit 4_000 bank deposited fresh
      (record fresh { rise_sol_amount = 4_000 })
      (record fresh { rise_sol_amount = 4_000; pending_rewards = 20_000 }) 5_000_000_000_000 refl
      refl deposited_runs deposited_tracker backdated
