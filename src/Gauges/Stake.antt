-- ===== src/Gauges/Stake.antt =====
-- programs/rise-rewards/src/instructions/deposit_lp.rs, withdraw_lp.rs, claim_rewards.rs and
-- force_withdraw_lp.rs: the instructions on a stake.
use rise_protocol.Prelude.{
  ℕ, ◌-◌, ◌%◌, min, ltb, leb, ◌==◌, ◌||◌, if◌then◌else◌, ◌>>=◌, ◌>>◌, ok, cpi, require, constrain,
  or_fault, checked_add, checked_sub, checked_mul, checked_div, try_from, u64, u128,
}
use rise_protocol.Solana.{Pubkey, Runtime}
use rise_protocol.Gauges.State.{
  RewardsConfig, Gauge, UserStake, Outcome, or_overflow, reward_scale, zero_amount,
  gauge_not_active, insufficient_balance, no_rewards_to_claim, unauthorized,
}

-- The accounts of the instructions on a stake. A stake that does not exist is zero.
pub record StakeAccounts : Type 0 where
  pub signer : Pubkey
  pub config_key : Pubkey
  pub config : RewardsConfig
  pub gauge_key : Pubkey
  pub gauge : Gauge
  pub user_stake : UserStake
  pub stake_bump : ℕ
  pub user_lp_account : Pubkey
  pub gauge_lp_vault : Pubkey
  pub rewards_vault : Pubkey
  pub user_rise_account : Pubkey

-- `lp_amount * reward_per_token / REWARD_SCALE`
unfoldable pub accumulated : ℕ → ℕ → Outcome ℕ
accumulated lp_amount reward_per_token = do
  product ← or_overflow (checked_mul u128 lp_amount reward_per_token)
  or_overflow (checked_div product reward_scale)

-- The stake with what has accrued made pending.
unfoldable pub settle_stake : Gauge → UserStake → Outcome UserStake
settle_stake g s = do
  total ← accumulated s.lp_amount g.reward_per_token
  accrued ← or_overflow (checked_sub total s.reward_debt)
  pending ← or_overflow (try_from u64 accrued)
  pending_rewards ← or_overflow (checked_add u64 s.pending_rewards pending)
  ok (record s { pending_rewards = pending_rewards })

-- A stake of some amount, with the debt that belongs to it.
unfoldable pub with_amount : Gauge → UserStake → ℕ → Outcome UserStake
with_amount g s lp_amount = do
  reward_debt ← accumulated lp_amount g.reward_per_token
  ok (record s { lp_amount = lp_amount; reward_debt = reward_debt })

-- What is pending with what has accrued, cut to 64 bits.
unfoldable pub claimable : Gauge → UserStake → Outcome ℕ
claimable g s = do
  total ← accumulated s.lp_amount g.reward_per_token
  or_overflow (checked_add u64 s.pending_rewards ((total - s.reward_debt) % u64))

module _ {B : Type 0} (rt : Runtime B) where
  unfoldable pub deposit_lp : StakeAccounts → ℕ → B → Outcome (Gauge × UserStake × B)
  deposit_lp a amount b = do
    constrain ((rt.token b a.user_lp_account).owner == a.signer)
    require (leb 1_000 amount) zero_amount
    require a.gauge.active gauge_not_active
    settled ←
        (if ltb 0 a.user_stake.lp_amount
          then settle_stake a.gauge a.user_stake
          else ok a.user_stake)
    paid ← or_fault (rt.token_transfer a.user_lp_account a.gauge_lp_vault a.signer amount b) cpi
    lp_amount ← or_overflow (checked_add u64 settled.lp_amount amount)
    stake ←
        with_amount a.gauge
          (record settled { owner = a.signer; gauge = a.gauge_key; bump = a.stake_bump }) lp_amount
    total ← or_overflow (checked_add u64 a.gauge.total_lp_deposited amount)
    ok (record a.gauge { total_lp_deposited = total }, stake, paid)

  unfoldable pub withdraw_lp : StakeAccounts → ℕ → B → Outcome (Gauge × UserStake × B)
  withdraw_lp a amount b = do
    constrain (a.user_stake.owner == a.signer)
    constrain ((rt.token b a.user_lp_account).owner == a.signer)
    require (ltb 0 amount) zero_amount
    require (leb amount a.user_stake.lp_amount) insufficient_balance
    settled ← settle_stake a.gauge a.user_stake
    paid ←
        or_fault (rt.token_transfer a.gauge_lp_vault a.user_lp_account a.gauge_lp_vault amount b)
          cpi
    lp_amount ← or_overflow (checked_sub settled.lp_amount amount)
    require ((lp_amount == 0) || leb 1_000 lp_amount) zero_amount
    stake ← with_amount a.gauge settled lp_amount
    total ← or_overflow (checked_sub a.gauge.total_lp_deposited amount)
    ok (record a.gauge { total_lp_deposited = total }, stake, paid)

  unfoldable pub claim_rewards : StakeAccounts → B → Outcome (UserStake × B)
  claim_rewards a b = do
    constrain (a.user_stake.owner == a.signer)
    constrain ((rt.token b a.rewards_vault).mint == a.config.rise_mint)
    constrain ((rt.token b a.user_rise_account).mint == a.config.rise_mint)
    constrain ((rt.token b a.user_rise_account).owner == a.signer)
    total_claimable ← claimable a.gauge a.user_stake
    require (ltb 0 total_claimable) no_rewards_to_claim
    paid ←
        or_fault
          (rt.token_transfer a.rewards_vault a.user_rise_account a.config_key total_claimable b) cpi
    stake ← with_amount a.gauge (record a.user_stake { pending_rewards = 0 }) a.user_stake.lp_amount
    ok (stake, paid)

  -- The authority returns a depositor's tokens and pays what the vault has of the rewards; the
  -- runtime then closes the stake.
  unfoldable pub force_withdraw_lp : StakeAccounts → Pubkey → B → Outcome (Gauge × B)
  force_withdraw_lp a depositor b = do
    require (a.signer == a.config.authority) unauthorized
    require (depositor == a.user_stake.owner) unauthorized
    require ((rt.token b a.user_lp_account).owner == a.user_stake.owner) unauthorized
    require ((rt.token b a.user_rise_account).mint == a.config.rise_mint) unauthorized
    require ((rt.token b a.user_rise_account).owner == a.user_stake.owner) unauthorized
    require ((rt.token b a.rewards_vault).mint == a.config.rise_mint) unauthorized
    require (ltb 0 a.user_stake.lp_amount) zero_amount
    total_claimable ← claimable a.gauge a.user_stake
    returned ←
        or_fault
          (rt.token_transfer a.gauge_lp_vault a.user_lp_account a.gauge_lp_vault
            a.user_stake.lp_amount b)
          cpi
    paid ←
        (if ltb 0 (min total_claimable (rt.token b a.rewards_vault).amount)
          then or_fault
              (rt.token_transfer a.rewards_vault a.user_rise_account a.config_key
                (min total_claimable (rt.token b a.rewards_vault).amount) returned)
              cpi
          else ok returned)
    total ← or_overflow (checked_sub a.gauge.total_lp_deposited a.user_stake.lp_amount)
    ok (record a.gauge { total_lp_deposited = total }, paid)
