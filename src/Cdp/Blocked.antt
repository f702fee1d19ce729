-- ===== src/Cdp/Blocked.antt =====
-- programs/rise-cdp: initialize_borrow_rewards on loans that exist.
use rise_protocol.Prelude.{ℕ, ◌*◌, ◌/◌, ◌<◌, ◌≡◌, ◌≢◌, ok, arith, bind-eq_ok, ap, ◌∙◌}
use rise_protocol.Solana.{Runtime}
use rise_protocol.Cdp.State.{BorrowRewardsConfig, BorrowRewards, settle, reward_scale}
use rise_protocol.Cdp.Oracle.{Markets}
use rise_protocol.Cdp.Loan.{Loan, Addresses, Route}
use rise_protocol.Cdp.Rewards.{InitializeBorrowRewards, initialize_borrow_rewards}
use rise_protocol.Cdp.RepaySol.{repay_debt}
use rise_protocol.Cdp.Close.{settle_to_zero, repay_debt_rise_sol, close_position}
use rise_protocol.Cdp.Liquidate.{liquidate}
use rise_protocol.Cdp.RewardLaws.{settle-fits, repayment-settles, fresh-accumulator}
use rise_protocol.Cdp.Repayments.{repay_debt-books, repay_debt_rise_sol-books, liquidate-books}
use rise_protocol.Cdp.CloseTwice.{close_position-calls}

settle_blocked :
    (u : BorrowRewards) (rate principal : ℕ) (u' : BorrowRewards)
    → rate ≡ 0
    → 0 < u.reward_debt
    → settle u rate principal ≢ ok u'
settle_blocked u rate principal u' start owing e =
    let (fits, _) = settle-fits u rate principal u' e in
    let nothing : principal * rate / reward_scale ≡ 0 = rw start (ground arith) in omega arith

settle_to_zero_blocked :
    (l : Loan) (t : BorrowRewards)
    → l.borrow_rewards_config.reward_per_token ≡ 0
    → 0 < l.borrow_rewards.reward_debt
    → settle_to_zero l ≢ ok t
unfolding settle_to_zero
settle_to_zero_blocked l t start owing h =
    let (settled, e, _) =
      bind-eq_ok
        (settle l.borrow_rewards l.borrow_rewards_config.reward_per_token
          l.position.rise_sol_debt_principal)
        _ h in
    settle_blocked _ _ _ settled start owing e

module _ {B : Type 0} (rt : Runtime B) (mk : Markets B) where
  -- With a borrow rewards config that was just initialised, as after the close that its comment
  -- asks for before a new RISE mint, a loan whose tracker already has a reward debt can be neither
  -- repaid, in SOL or in riseSOL, nor closed, nor liquidated, whatever the payment and the bank.
  pub initialize_borrow_rewards_blocks_loan :
      (a : InitializeBorrowRewards) (emissions slots : ℕ) (b : B) (rc : BorrowRewardsConfig)
      (l : Loan)
      → initialize_borrow_rewards rt a emissions slots b ≡ ok rc
      → l.borrow_rewards_config ≡ rc
      → 0 < l.borrow_rewards.reward_debt
      → (k : Addresses) (payment : ℕ) (r : Route) (now : B) (result : Loan × B)
      → (repay_debt rt mk k l payment now ≢ ok result)
        × (repay_debt_rise_sol rt mk k l payment now ≢ ok result)
        × (close_position rt mk k l now ≢ ok result)
        × (liquidate rt mk k l r now ≢ ok result)
  initialize_borrow_rewards_blocks_loan a emissions slots b rc l initial same owing k payment r now
        (l', b') =
      let start : l.borrow_rewards_config.reward_per_token ≡ 0 =
        ap (λ c. c.reward_per_token) same ∙ fresh-accumulator rt a emissions slots b rc initial in
      (
        λ h.
            let (_, accrued, _, r, settles, _, _, _) =
              repay_debt-books rt mk k l payment now l' b' h in
            let (u, e) = repayment-settles _ _ _ _ _ _ _ r settles in
            settle_blocked _ _ _ u start owing e,
        λ h.
            let (_, accrued, _, u, e, _, _, _, _, _, _) =
              repay_debt_rise_sol-books rt mk k l payment now l' b' h in
            settle_blocked _ _ _ u start owing e,
        λ h.
            let (_, _, _, _, _, t, e, _, _) = close_position-calls rt mk k l now l' b' h in
            settle_to_zero_blocked l t start owing e,
        λ h.
            let (t, e, _) = liquidate-books rt mk k l r now l' b' h in
            settle_to_zero_blocked l t start owing e,
      )
