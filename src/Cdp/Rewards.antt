-- ===== src/Cdp/Rewards.antt =====
-- programs/rise-cdp/src/instructions/initialize_borrow_rewards.rs, checkpoint_borrow_rewards.rs,
-- claim_borrow_rewards.rs and close_borrow_rewards.rs: RISE for borrowers.
use rise_protocol.Prelude.{
  ℕ, ◌-◌, ltb, ◌==◌, if◌then◌else◌, ◌>>=◌, ◌>>◌, ok, cpi, require, constrain, or_fault, checked_add,
  checked_mul, checked_div, u64, u128,
}
use rise_protocol.Solana.{Pubkey, Runtime}
use rise_protocol.Cdp.State.{
  CdpConfig, CdpPosition, BorrowRewardsConfig, BorrowRewards, Outcome, or_overflow, reward_scale,
  settle, sync_debt, zero_amount, no_rewards_to_claim, borrow_rewards_not_initialized,
}

pub record InitializeBorrowRewards : Type 0 where
  pub authority : Pubkey
  pub cdp_config : CdpConfig
  pub config_bump : ℕ
  pub rewards_vault : Pubkey
  pub rise_mint : Pubkey

pub record ClaimBorrowRewards : Type 0 where
  pub borrower : Pubkey
  pub position_key : Pubkey
  pub position : CdpPosition
  pub borrow_rewards : BorrowRewards
  pub config_key : Pubkey
  pub borrow_rewards_config : BorrowRewardsConfig
  pub rewards_vault : Pubkey
  pub borrower_rise_account : Pubkey

pub record CloseBorrowRewards : Type 0 where
  pub authority : Pubkey
  pub cdp_config : CdpConfig
  pub config_key : Pubkey
  pub borrow_rewards_config : BorrowRewardsConfig
  pub rewards_vault : Pubkey
  pub old_rise_mint : Pubkey

-- `reward_per_token += emissions * REWARD_SCALE / total_cdp_debt`, if RISE was emitted.
unfoldable pub accumulate_borrow : BorrowRewardsConfig → ℕ → Outcome ℕ
accumulate_borrow c emissions =
    if ltb 0 emissions
    then (do
      scaled ← or_overflow (checked_mul u128 emissions reward_scale)
      reward_increase ← or_overflow (checked_div scaled c.total_cdp_debt)
      or_overflow (checked_add u128 c.reward_per_token reward_increase))
    else ok c.reward_per_token

-- The checkpoint after its early returns.
unfoldable pub emit_borrow_rewards : BorrowRewardsConfig → ℕ → ℕ → Outcome BorrowRewardsConfig
emit_borrow_rewards c slots_elapsed current_slot = do
  product ← or_overflow (checked_mul u128 c.epoch_emissions slots_elapsed)
  emissions ← or_overflow (checked_div product c.slots_per_epoch)
  reward_per_token ← accumulate_borrow c emissions
  ok (record c { reward_per_token = reward_per_token; last_checkpoint_slot = current_slot })

unfoldable pub checkpoint_borrow_rewards : BorrowRewardsConfig → ℕ → Outcome BorrowRewardsConfig
checkpoint_borrow_rewards c current_slot =
    if current_slot - c.last_checkpoint_slot == 0
    then ok c
    else if c.total_cdp_debt == 0
    then ok (record c { last_checkpoint_slot = current_slot })
    else emit_borrow_rewards c (current_slot - c.last_checkpoint_slot) current_slot

module _ {B : Type 0} (rt : Runtime B) where
  unfoldable pub initialize_borrow_rewards :
      InitializeBorrowRewards → ℕ → ℕ → B → Outcome BorrowRewardsConfig
  initialize_borrow_rewards a epoch_emissions slots_per_epoch b = do
    require (a.authority == a.cdp_config.authority) borrow_rewards_not_initialized
    require (ltb 0 epoch_emissions) zero_amount
    require (ltb 0 slots_per_epoch) zero_amount
    ok (record {
      authority = a.authority;
      rise_mint = a.rise_mint;
      rewards_vault = a.rewards_vault;
      reward_per_token = 0;
      epoch_emissions = epoch_emissions;
      slots_per_epoch = slots_per_epoch;
      total_cdp_debt = 0;
      last_checkpoint_slot = rt.slot b;
      bump = a.config_bump;
    })

  unfoldable pub claim_borrow_rewards : ClaimBorrowRewards → B → Outcome (BorrowRewards × B)
  claim_borrow_rewards a b = do
    constrain (a.position.owner == a.borrower)
    constrain (a.borrow_rewards.owner == a.borrower)
    constrain (a.borrow_rewards.position == a.position_key)
    constrain ((rt.token b a.rewards_vault).mint == a.borrow_rewards_config.rise_mint)
    constrain ((rt.token b a.borrower_rise_account).mint == a.borrow_rewards_config.rise_mint)
    constrain ((rt.token b a.borrower_rise_account).owner == a.borrower)
    settled ←
        settle a.borrow_rewards a.borrow_rewards_config.reward_per_token
          a.position.rise_sol_debt_principal
    require (ltb 0 settled.pending_rewards) no_rewards_to_claim
    paid ←
        or_fault
          (rt.token_transfer a.rewards_vault a.borrower_rise_account a.config_key
            settled.pending_rewards b)
          cpi
    claimed ← or_overflow (checked_add u64 settled.total_claimed settled.pending_rewards)
    synced ←
        sync_debt
          (record settled {
            pending_rewards = 0;
            total_claimed = claimed;
            last_checkpoint_slot = rt.slot paid;
          })
          a.borrow_rewards_config.reward_per_token a.position.rise_sol_debt_principal
    ok (synced, paid)

  -- "Burn any remaining balance so close_account won't fail."
  unfoldable pub burn_remaining : CloseBorrowRewards → B → Outcome B
  burn_remaining a b =
      if ltb 0 (rt.token b a.rewards_vault).amount
      then or_fault
          (rt.burn a.old_rise_mint a.rewards_vault a.config_key (rt.token b a.rewards_vault).amount
            b)
          cpi
      else ok b

  -- The config account is closed by its `close = authority` constraint.
  unfoldable pub close_borrow_rewards : CloseBorrowRewards → B → Outcome B
  close_borrow_rewards a b = do
    require (a.authority == a.cdp_config.authority) borrow_rewards_not_initialized
    constrain ((rt.token b a.rewards_vault).mint == a.borrow_rewards_config.rise_mint)
    constrain (a.old_rise_mint == a.borrow_rewards_config.rise_mint)
    burned ← burn_remaining a b
    or_fault (rt.close_account a.rewards_vault a.authority a.config_key burned) cpi
