-- ===== src/Cdp/RepaySucceeds.antt =====
-- programs/rise-cdp, repay_debt: when a repayment in SOL goes through.
use rise_protocol.Prelude.{ℕ, ◌+◌, ◌*◌, ◌/◌, ◌≤◌, ◌<◌, min, ◌≡◌, ok, arith, u64, u128}
use rise_protocol.Solana.{Runtime}
use rise_protocol.Staking.State.{rate_scale as staking_rate_scale}
use rise_protocol.Cdp.State.{CdpConfig, CdpPosition, BorrowRewardsConfig, BorrowRewards, settle}
use rise_protocol.Cdp.Repay.{
  Repayment, accrue_before_repayment, book_repayment, clear_debt, settle_repayment,
}
use rise_protocol.Cdp.RepaySol.{
  compute_shortfall_divert, route_native_sol, check_sol_repayment, book_settlement, repay_accrued,
  repay_debt,
}
use rise_protocol.Cdp.Oracle.{Markets}
use rise_protocol.Cdp.Loan.{Loan, Addresses, interest_accounts}
use rise_protocol.Cdp.RepayLaws.{debt, settle_repayment_books_at_most}
use rise_protocol.Cdp.RepayTotal.{settle_repayment_succeeds}
use rise_protocol.Cdp.Effects.{accrued-keeps}

settle_repayment-collateral :
    (p : CdpPosition) (payment rate scale : ℕ) (c : CdpConfig) (rc : BorrowRewardsConfig)
    (rewards : BorrowRewards) (r : Repayment)
    → settle_repayment p payment rate scale c rc rewards ≡ ok r
    → r.position.collateral_amount_original ≡ p.collateral_amount_original
unfolding settle_repayment book_repayment clear_debt
settle_repayment-collateral p payment rate scale c rc rewards r h = ground arith

module _ {B : Type 0} (rt : Runtime B) (mk : Markets B) where
  shortfall_none :
      (k : Addresses) (l : Loan) (n : ℕ) (b : B)
      → l.position.collateral_amount_original ≤ (rt.token b k.collateral_vault).amount
      → compute_shortfall_divert rt mk k l n b ≡ ok 0
  unfolding compute_shortfall_divert
  shortfall_none k l n b covered = ground arith

  repay_accrued-runs :
      (k : Addresses) (l : Loan) (n : ℕ) (b b' : B) (r : Repayment)
      → settle_repayment l.position n l.global_pool.exchange_rate staking_rate_scale l.cdp_config
          l.borrow_rewards_config l.borrow_rewards
        ≡ ok r
      → r.position.collateral_amount_original ≤ (rt.token b k.collateral_vault).amount
      → route_native_sol rt mk k r.settlement.interest_sol r.settlement.principal_sol 0 b ≡ ok b'
      → repay_accrued rt mk k l n b ≡ ok (book_settlement rt mk l r 0, b')
  unfolding repay_accrued
  repay_accrued-runs k l n b b' r settles covered routed =
      let none_lacks =
        shortfall_none k (record l { position = r.position }) r.settlement.principal_sol b
          covered in
      ground arith

  repay_debt-runs :
      (k : Addresses) (l : Loan) (n : ℕ) (b : B) (accrued : CdpPosition) (result : Loan × B)
      → check_sol_repayment rt mk k l b ≡ ok tt
      → 0 < n
      → accrue_before_repayment (interest_accounts l) (rt.slot b) ≡ ok accrued
      → repay_accrued rt mk k (record l { position = accrued }) n b ≡ ok result
      → repay_debt rt mk k l n b ≡ ok result
  unfolding repay_debt
  repay_debt-runs k l n b accrued result checked positive accrual runs = ground arith

  book_settlement-debt :
      (l : Loan) (r : Repayment) (divert : ℕ)
      → debt (book_settlement rt mk l r divert).position ≡ debt r.position
  unfolding book_settlement
  book_settlement-debt l r divert = ground arith

  -- A repayment in SOL goes through, and clears what it is worth or all that is owed, where its
  -- account checks and its accrual succeed, the payment is worth at least one unit of riseSOL,
  -- something is owed after the accrual, the rewards tracker settles, the vault holds the position's
  -- collateral, amounts that are together at most the payment can be transferred, and the numbers
  -- fit their types.
  pub repay_debt_succeeds :
      (k : Addresses) (l : Loan) (n : ℕ) (b : B) (accrued : CdpPosition) (settled : BorrowRewards)
      → check_sol_repayment rt mk k l b ≡ ok tt
      → accrue_before_repayment (interest_accounts l) (rt.slot b) ≡ ok accrued
      → settle l.borrow_rewards l.borrow_rewards_config.reward_per_token
          accrued.rise_sol_debt_principal
        ≡ ok settled
      → ((i m d : ℕ) → i + m + d ≤ n → (b' : B) × (route_native_sol rt mk k i m d b ≡ ok b'))
      → l.position.collateral_amount_original ≤ (rt.token b k.collateral_vault).amount
      → 0 < l.global_pool.exchange_rate
      → n * staking_rate_scale < u128
      → 0 < n * staking_rate_scale / l.global_pool.exchange_rate
      → n * staking_rate_scale / l.global_pool.exchange_rate < u64
      → 0 < debt accrued
      → debt accrued < u64
      → accrued.rise_sol_debt_principal * l.borrow_rewards_config.reward_per_token < u128
      → (l' : Loan) × (b' : B) × (repay_debt rt mk k l n b ≡ ok (l', b'))
        × (debt l'.position
              + min (n * staking_rate_scale / l.global_pool.exchange_rate) (debt accrued)
            ≡ debt accrued)
  repay_debt_succeeds k l n b accrued settled checked accrual settles payable covered rate fits
        worth narrow owing owed tracked =
      let (r, repaid, left) =
        settle_repayment_succeeds accrued n l.global_pool.exchange_rate staking_rate_scale
          l.cdp_config l.borrow_rewards_config l.borrow_rewards settled settles rate (omega arith)
          fits worth narrow owing owed tracked in
      let at_most =
        settle_repayment_books_at_most accrued n l.global_pool.exchange_rate staking_rate_scale
          l.cdp_config l.borrow_rewards_config l.borrow_rewards r repaid in
      let (b', routed) =
        payable r.settlement.interest_sol r.settlement.principal_sol 0 (omega arith) in
      let kept = accrued-keeps (interest_accounts l) (rt.slot b) accrued accrual in
      let collateral =
        settle_repayment-collateral accrued n l.global_pool.exchange_rate staking_rate_scale
          l.cdp_config l.borrow_rewards_config l.borrow_rewards r repaid in
      let runs =
        repay_accrued-runs k (record l { position = accrued }) n b b' r repaid
          (omega (arith, kept.2, collateral, covered)) routed in
      (
        book_settlement rt mk (record l { position = accrued }) r 0,
        b',
        repay_debt-runs k l n b accrued _ checked (grind arith) accrual runs,
        rw (book_settlement-debt (record l { position = accrued }) r 0) left,
      )
