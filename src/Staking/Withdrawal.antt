-- ===== src/Staking/Withdrawal.antt =====
-- programs/rise-staking/src/instructions/unstake_rise_sol.rs and claim_unstake.rs: a withdrawal
-- is a ticket first, and lamports after the epoch delay.
use rise_protocol.Prelude.{
  ℕ, ◌-◌, ltb, leb, ◌==◌, not, Option, none, some, ◌>>=◌, ◌>>◌, ok, cpi, require, or_fault,
  constrain, add_or_panic, checked_add, checked_sub, u64, u128,
}
use rise_protocol.Solana.{Pubkey, Runtime}
use rise_protocol.Staking.State.{
  GlobalPool, StakeRewardsConfig, UserStakeRewards, WithdrawalTicket, Outcome, or_overflow,
  rise_sol_to_sol, unstake_epoch_delay, pool_paused, zero_amount, unstake_not_ready,
}
use rise_protocol.Staking.Deposit.{resync}

pub record UnstakeRiseSol : Type 0 where
  pub user : Pubkey
  pub pool : GlobalPool
  pub ticket_bump : ℕ
  pub rise_sol_mint : Pubkey
  pub user_rise_sol_account : Pubkey
  pub stake_rewards_config : Option StakeRewardsConfig
  pub user_stake_rewards : Option UserStakeRewards

unfoldable pub shrink_supply : Option StakeRewardsConfig → ℕ → Outcome (Option StakeRewardsConfig)
shrink_supply none burned = ok none
shrink_supply (some c) burned = do
  supply ← or_overflow (checked_sub c.total_staking_supply burned)
  ok (some (record c { total_staking_supply = supply }))

-- "Update pool accounting", and the nonce.
unfoldable pub queue_withdrawal : GlobalPool → ℕ → ℕ → Outcome GlobalPool
queue_withdrawal p rise_sol_amount sol_amount = do
  supply ← or_overflow (checked_sub p.staking_rise_sol_supply rise_sol_amount)
  total ← or_overflow (checked_sub p.total_sol_staked sol_amount)
  liquid ← or_overflow (checked_sub p.liquid_buffer_lamports sol_amount)
  pending ← or_overflow (checked_add u128 p.pending_withdrawals_lamports sol_amount)
  nonce ← or_overflow (checked_add u64 p.unstake_nonce 1)
  ok (record p {
    staking_rise_sol_supply = supply;
    total_sol_staked = total;
    liquid_buffer_lamports = liquid;
    pending_withdrawals_lamports = pending;
    unstake_nonce = nonce;
  })

pub record ClaimUnstake : Type 0 where
  pub owner : Pubkey
  pub pool : GlobalPool
  pub ticket : WithdrawalTicket
  pub pool_vault : Pubkey

module _ {B : Type 0} (rt : Runtime B) where
  -- The account constraints, then the handler. The ticket is a new account.
  unfoldable pub unstake_rise_sol :
      UnstakeRiseSol → ℕ → B → Outcome (UnstakeRiseSol × WithdrawalTicket × B)
  unstake_rise_sol a rise_sol_amount b = do
    constrain (a.rise_sol_mint == a.pool.rise_sol_mint)
    constrain ((rt.token b a.user_rise_sol_account).mint == a.pool.rise_sol_mint)
    constrain ((rt.token b a.user_rise_sol_account).owner == a.user)
    require (not a.pool.paused) pool_paused
    require (ltb 0 rise_sol_amount) zero_amount
    user_rewards ←
        resync a.user_stake_rewards a.stake_rewards_config
          (ok ((rt.token b a.user_rise_sol_account).amount - rise_sol_amount))
    config ← shrink_supply a.stake_rewards_config rise_sol_amount
    sol_amount ← or_overflow (rise_sol_to_sol a.pool rise_sol_amount)
    require (ltb 0 sol_amount) zero_amount
    burned ← or_fault (rt.burn a.rise_sol_mint a.user_rise_sol_account a.user rise_sol_amount b) cpi
    pool ← queue_withdrawal a.pool rise_sol_amount sol_amount
    claimable_epoch ← add_or_panic u64 (rt.epoch b) unstake_epoch_delay
    ok (
      record a { pool = pool; stake_rewards_config = config; user_stake_rewards = user_rewards },
      record {
        owner = a.user;
        sol_amount = sol_amount;
        claimable_epoch = claimable_epoch;
        nonce = a.pool.unstake_nonce;
        bump = a.ticket_bump;
      },
      burned,
    )

  -- The ticket account is closed by its `close = owner` constraint.
  unfoldable pub claim_unstake : ClaimUnstake → B → Outcome (GlobalPool × B)
  claim_unstake a b = do
    constrain (a.owner == a.ticket.owner)
    require (not a.pool.paused) pool_paused
    require (leb a.ticket.claimable_epoch (rt.epoch b)) unstake_not_ready
    pending ← or_overflow (checked_sub a.pool.pending_withdrawals_lamports a.ticket.sol_amount)
    paid ← or_fault (rt.transfer a.pool_vault a.owner a.ticket.sol_amount b) cpi
    ok (record a.pool { pending_withdrawals_lamports = pending }, paid)
