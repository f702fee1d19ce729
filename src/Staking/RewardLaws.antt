-- ===== src/Staking/RewardLaws.antt =====
-- RISE for stakers: what settling, claiming and checkpoints come to.
use native.Mathlib.Nat.{div-mul-le_self}
use rise_protocol.Prelude.{
  ℕ, ◌+◌, ◌-◌, ◌*◌, ◌/◌, ◌≤◌, ◌<◌, max, ◌≡◌, ◌≢◌, ◌⊎◌, inl, inr, none, some, ok, arith,
  add_or_panic, u64,
}
use rise_protocol.Solana.{Runtime}
use rise_protocol.Staking.State.{
  StakeRewardsConfig, UserStakeRewards, settle, sync_debt, sol_to_rise_sol, reward_scale,
}
use rise_protocol.Staking.Deposit.{StakeSol, stake_sol, resync, current_reward_per_token}
use rise_protocol.Staking.Rewards.{
  ClaimStakeRewards, claim_stake_rewards, accumulate, emit_rewards, checkpoint_stake_rewards,
}

settle-eq :
    (u : UserStakeRewards) (rate : ℕ) (u' : UserStakeRewards)
    → settle u rate ≡ ok u'
    → (u.reward_debt ≤ u.rise_sol_amount * rate / reward_scale)
      × (u' ≡ record u {
        pending_rewards =
            u.pending_rewards + (u.rise_sol_amount * rate / reward_scale - u.reward_debt);
      })
unfolding settle
settle-eq u rate u' h = ground arith

sync_debt-eq :
    (u : UserStakeRewards) (rate amount : ℕ) (u' : UserStakeRewards)
    → sync_debt u rate amount ≡ ok u'
    → u' ≡ record u { rise_sol_amount = amount; reward_debt = amount * rate / reward_scale }
unfolding sync_debt
sync_debt-eq u rate amount u' h = ground arith

-- Settling at one accumulator value, syncing the unchanged balance, and settling at a later value
-- gives exactly the pending rewards of settling once, at the later value: how often a staker
-- settles does not matter.
pub settle_often :
    (u u1 u2 u3 u' : UserStakeRewards) (rate later : ℕ)
    → settle u rate ≡ ok u1
    → sync_debt u1 rate u.rise_sol_amount ≡ ok u2
    → settle u2 later ≡ ok u3
    → settle u later ≡ ok u'
    → u3.pending_rewards ≡ u'.pending_rewards
settle_often u u1 u2 u3 u' rate later s1 y s2 s =
    let (le1, e1) = settle-eq u rate u1 s1 in
    let e2 = sync_debt-eq u1 rate u.rise_sol_amount u2 y in
    let (le3, e3) = settle-eq u2 later u3 s2 in
    let (le, e) = settle-eq u later u' s in ground (arith, le1, e1, e2, le3, e3, le, e)

module _ {B : Type 0} (rt : Runtime B) where
  claim_stake_rewards-eq :
      (a : ClaimStakeRewards) (b : B) (u' : UserStakeRewards) (b' : B)
      → claim_stake_rewards rt a b ≡ ok (u', b')
      → (u'.pending_rewards ≡ 0)
        × (u'.rise_sol_amount ≡ a.user_stake_rewards.rise_sol_amount)
        × (u'.reward_debt
            ≡ a.user_stake_rewards.rise_sol_amount * a.stake_rewards_config.reward_per_token
              / reward_scale)
  unfolding claim_stake_rewards settle sync_debt
  claim_stake_rewards-eq a b u' b' h = ground arith

  claim_stake_rewards-settles :
      (a : ClaimStakeRewards) (b : B) (r : UserStakeRewards × B)
      → claim_stake_rewards rt a b ≡ ok r
      → (settled : UserStakeRewards) × (settle a.user_stake_rewards
            a.stake_rewards_config.reward_per_token
          ≡ ok settled)
        × (0 < settled.pending_rewards)
  unfolding claim_stake_rewards
  claim_stake_rewards-settles a b r h = ground arith

  -- A second claim at the same accumulator, from the tracker that the first one leaves, never
  -- succeeds, whatever has happened to the bank in between.
  pub claim_stake_rewards_twice :
      (a : ClaimStakeRewards) (b : B) (u' : UserStakeRewards) (b' later : B)
      → claim_stake_rewards rt a b ≡ ok (u', b')
      → (r : UserStakeRewards × B)
      → claim_stake_rewards rt (record a { user_stake_rewards = u' }) later ≢ ok r
  claim_stake_rewards_twice a b u' b' later first r second =
      let facts = claim_stake_rewards-eq a b u' b' first in
      let (settled, settling, positive) = claim_stake_rewards-settles _ later r second in
      let again = settle-eq u' a.stake_rewards_config.reward_per_token settled settling in
      ground (arith, facts, positive, again)

accumulate-cases :
    (c : StakeRewardsConfig) (emissions rate : ℕ)
    → accumulate c emissions ≡ ok rate
    → (rate ≡ c.reward_per_token)
      ⊎ (rate ≡ c.reward_per_token + emissions * reward_scale / c.total_staking_supply)
unfolding accumulate
accumulate-cases c emissions rate h = ground arith

accumulate_bounded :
    (c : StakeRewardsConfig) (emissions rate : ℕ)
    → accumulate c emissions ≡ ok rate
    → (c.reward_per_token ≤ rate)
      × ((rate - c.reward_per_token) * c.total_staking_supply ≤ emissions * reward_scale)
accumulate_bounded c emissions rate h = elim (accumulate-cases c emissions rate h) [
  | inl e ↦
      let none_added : rate - c.reward_per_token ≡ 0 = omega arith in
      (omega arith, rw none_added (omega arith))
  | inr e ↦
      let added : rate - c.reward_per_token ≡ emissions * reward_scale / c.total_staking_supply =
        omega arith in
      (omega arith, rw added (div-mul-le_self (emissions * reward_scale) c.total_staking_supply))
]

checkpoint_stake_rewards-cases :
    (c c' : StakeRewardsConfig) (slot : ℕ)
    → checkpoint_stake_rewards c slot ≡ ok c'
    → ((slot ≤ c.last_checkpoint_slot) × (c' ≡ c))
      ⊎ ((c.last_checkpoint_slot < slot) × (c' ≡ record c { last_checkpoint_slot = slot }))
      ⊎ ((rate : ℕ) × (c.last_checkpoint_slot < slot)
          × (accumulate c (c.epoch_emissions * (slot - c.last_checkpoint_slot) / c.slots_per_epoch)
              ≡ ok rate)
          × (c' ≡ record c { reward_per_token = rate; last_checkpoint_slot = slot }))
unfolding checkpoint_stake_rewards emit_rewards
checkpoint_stake_rewards-cases c c' slot h = ground arith

-- A checkpoint never lowers the accumulator; what it adds, over the whole tracked supply, is no
-- more than the emission of the elapsed slots; and its slot is the later of the two.
pub checkpoint_stake_rewards_bounded :
    (c c' : StakeRewardsConfig) (slot : ℕ)
    → checkpoint_stake_rewards c slot ≡ ok c'
    → (c.reward_per_token ≤ c'.reward_per_token)
      × ((c'.reward_per_token - c.reward_per_token) * c.total_staking_supply
          ≤ c.epoch_emissions * (slot - c.last_checkpoint_slot) / c.slots_per_epoch * reward_scale)
      × (c'.last_checkpoint_slot ≡ max c.last_checkpoint_slot slot)
checkpoint_stake_rewards_bounded c c' slot h =
    let same : c.reward_per_token - c.reward_per_token ≡ 0 = omega arith in
    elim (checkpoint_stake_rewards-cases c c' slot h) [
      | inl (early, e) ↦ rw e (omega arith, rw same (omega arith), omega arith)
      | inr (inl (late, e)) ↦ rw e (omega arith, rw same (omega arith), omega arith)
      | inr (inr (rate, late, run, e)) ↦
          let (grows, bounded) = accumulate_bounded c _ rate run in
          rw e (grows, bounded, omega arith)
    ]

module _ {B : Type 0} (rt : Runtime B) where
  stake_sol-resyncs :
      (a : StakeSol) (l : ℕ) (b : B) (r : StakeSol × B)
      → stake_sol rt a l b ≡ ok r
      → (m : ℕ) × (sol_to_rise_sol a.pool l ≡ some m)
        × (0 < m)
        × (resync a.user_stake_rewards a.stake_rewards_config
              (add_or_panic u64 (rt.token b a.user_rise_sol_account).amount m)
            ≡ ok r.0.user_stake_rewards)
  unfolding stake_sol
  stake_sol-resyncs a l b r h = ground arith

  resync_omitted :
      (u v : UserStakeRewards) (old m : ℕ)
      → resync (some u) none (add_or_panic u64 old m) ≡ ok (some v)
      → (v.reward_debt ≡ 0)
        × (v.rise_sol_amount ≡ old + m)
        × (v.pending_rewards ≡ u.pending_rewards)
  unfolding resync settle sync_debt current_reward_per_token
  resync_omitted u v old m h = ground arith

  -- A deposit that passes the staker's tracker but omits the rewards config, where it succeeds and
  -- leaves a tracker that settles, records as the balance what the staker held and the riseSOL that
  -- the deposit is worth, with no debt. The settlement credits that balance with the accumulator's
  -- whole past.
  pub stake_sol_backdates_rewards :
      (a : StakeSol) (l : ℕ) (b : B) (r : StakeSol × B) (u v u' : UserStakeRewards) (rate : ℕ)
      → a.stake_rewards_config ≡ none
      → a.user_stake_rewards ≡ some u
      → stake_sol rt a l b ≡ ok r
      → r.0.user_stake_rewards ≡ some v
      → settle v rate ≡ ok u'
      → (m : ℕ) × (sol_to_rise_sol a.pool l ≡ some m)
        × (0 < m)
        × (v.rise_sol_amount ≡ (rt.token b a.user_rise_sol_account).amount + m)
        × (v.reward_debt ≡ 0)
        × (u'.pending_rewards ≡ u.pending_rewards + v.rise_sol_amount * rate / reward_scale)
  stake_sol_backdates_rewards a l b r u v u' rate omitted passed staked left settled =
      let (m, worth, positive, synced) = stake_sol-resyncs a l b r staked in
      let synced' = rw (passed, omitted, left) at synced in
      let (debt, amount, pending) = resync_omitted u v _ m synced' in
      let credited = (settle-eq v rate u' settled).1 in
      (m, worth, positive, amount, debt, rw credited (omega (arith, debt, pending)))
