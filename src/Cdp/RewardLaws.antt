-- ===== src/Cdp/RewardLaws.antt =====
-- programs/rise-cdp: borrow rewards, settlements and second claims.
use rise_protocol.Prelude.{
  ℕ, ◌-◌, ◌*◌, ◌/◌, ◌+◌, ◌≤◌, ◌<◌, ◌≡◌, ◌≢◌, ok, arith, bind-eq_ok, require, ltb,
}
use rise_protocol.Solana.{Runtime}
use rise_protocol.Cdp.State.{
  CdpConfig, CdpPosition, BorrowRewardsConfig, BorrowRewards, settle, sync_debt, reward_scale,
  zero_amount,
}
use rise_protocol.Cdp.Rewards.{
  InitializeBorrowRewards, initialize_borrow_rewards, ClaimBorrowRewards, claim_borrow_rewards,
}
use rise_protocol.Cdp.Repay.{Repayment, to_rise_sol, settle_repayment}

pub settle-fits :
    (u : BorrowRewards) (rate debt : ℕ) (u' : BorrowRewards)
    → settle u rate debt ≡ ok u'
    → (u.reward_debt ≤ debt * rate / reward_scale)
      × (u'.pending_rewards ≡ u.pending_rewards + (debt * rate / reward_scale - u.reward_debt))
unfolding settle
settle-fits u rate debt u' h = ground arith

pub repayment-settles :
    (p : CdpPosition) (payment rate scale : ℕ) (c : CdpConfig) (rc : BorrowRewardsConfig)
    (rewards : BorrowRewards) (r : Repayment)
    → settle_repayment p payment rate scale c rc rewards ≡ ok r
    → (settled : BorrowRewards) × (settle rewards rc.reward_per_token p.rise_sol_debt_principal
        ≡ ok settled)
unfolding settle_repayment
repayment-settles p payment rate scale c rc rewards r h =
    let (worth, _, k1) = bind-eq_ok (to_rise_sol payment rate scale) _ h in
    let (_, _, k2) = bind-eq_ok (require (ltb 0 worth) zero_amount) _ k1 in
    let (settled, e, _) =
      bind-eq_ok (settle rewards rc.reward_per_token p.rise_sol_debt_principal) _ k2 in
    (settled, e)

module _ {B : Type 0} (rt : Runtime B) where
  pub fresh-accumulator :
      (a : InitializeBorrowRewards) (emissions slots : ℕ) (b : B) (rc : BorrowRewardsConfig)
      → initialize_borrow_rewards rt a emissions slots b ≡ ok rc
      → rc.reward_per_token ≡ 0
  unfolding initialize_borrow_rewards
  fresh-accumulator a emissions slots b rc h = ground arith

  claim_borrow_rewards-settles :
      (a : ClaimBorrowRewards) (b : B) (r : BorrowRewards × B)
      → claim_borrow_rewards rt a b ≡ ok r
      → (settled : BorrowRewards) × (settle a.borrow_rewards
            a.borrow_rewards_config.reward_per_token a.position.rise_sol_debt_principal
          ≡ ok settled)
        × (0 < settled.pending_rewards)
  unfolding claim_borrow_rewards
  claim_borrow_rewards-settles a b r h = ground arith

  claim_borrow_rewards-eq :
      (a : ClaimBorrowRewards) (b : B) (u' : BorrowRewards) (b' : B)
      → claim_borrow_rewards rt a b ≡ ok (u', b')
      → (u'.pending_rewards ≡ 0)
        × (u'.reward_debt
            ≡ a.position.rise_sol_debt_principal * a.borrow_rewards_config.reward_per_token
              / reward_scale)
  unfolding claim_borrow_rewards settle sync_debt
  claim_borrow_rewards-eq a b u' b' h = ground arith

  -- A borrower's second claim at the same accumulator and principal, from the tracker that the
  -- first one leaves, never succeeds, whatever has happened to the bank in between.
  pub claim_borrow_rewards_twice :
      (a : ClaimBorrowRewards) (b : B) (u' : BorrowRewards) (b' later : B)
      → claim_borrow_rewards rt a b ≡ ok (u', b')
      → (r : BorrowRewards × B)
      → claim_borrow_rewards rt (record a { borrow_rewards = u' }) later ≢ ok r
  claim_borrow_rewards_twice a b u' b' later first r second =
      let facts = claim_borrow_rewards-eq a b u' b' first in
      let (settled, settling, positive) = claim_borrow_rewards-settles _ later r second in
      let again = settle-fits u' _ _ settled settling in ground (arith, facts, positive, again)
