-- ===== src/Cdp/DoubleClaim.antt =====
-- programs/rise-cdp: claim_collateral after close_position and after liquidate.
use rise_protocol.Prelude.{
  ok-values, ◌∙◌, sym, bind-eq_ok, ap, ◌-◌, ◌≤◌, ◌<◌, ◌≡◌, ok, some, arith, false,
}
use rise_protocol.Solana.{Runtime}
use rise_protocol.Cdp.Oracle.{Markets}
use rise_protocol.Cdp.Loan.{check_collateral_accounts, Loan, Addresses, Route}
use rise_protocol.Cdp.Close.{
  write_off, settle_to_zero, check_claim, buy_back, pay_available, claim_collateral,
}
use rise_protocol.Cdp.Liquidate.{
  sell_collateral, return_excess, price_liquidation, liquidate, check_liquidation,
}
use rise_protocol.Cdp.State.{sync_debt, BorrowRewards, settle}
use rise_protocol.Cdp.Repay.{to_sol}

-- The loan after a claim that the vault covers.
abbrev pub claimed : Loan → Loan
claimed l = record l {
  collateral_config = record l.collateral_config {
    total_collateral_entitlements =
        l.collateral_config.total_collateral_entitlements - l.position.collateral_amount_original;
  };
}

module _ {B : Type 0} (rt : Runtime B) (mk : Markets B) where
  -- Where the vault holds all that the position has on record, and the transfer succeeds, a claim
  -- on a closed position goes through, with no more asked of the position.
  pub claim_collateral-runs :
      (k : Addresses) (l : Loan) (r : Route) (b b' : B)
      → check_claim rt mk k l b ≡ ok tt
      → 0 < l.position.collateral_amount_original
      → l.position.collateral_amount_original ≤ (rt.token b k.collateral_vault).amount
      → rt.token_transfer k.collateral_vault k.borrower_collateral_account k.collateral_vault
          l.position.collateral_amount_original b
        ≡ some b'
      → claim_collateral rt mk k l r b ≡ ok (claimed l, b')
  unfolding claim_collateral pay_available buy_back
  claim_collateral-runs k l r b b' checked positive covered paid = ground arith

  -- A claim's checks, from what they read.
  pub check_claim-runs :
      (k : Addresses) (l : Loan) (b : B)
      → l.position.owner ≡ k.signer
      → l.position.is_open ≡ false
      → l.collateral_config.mint ≡ l.position.collateral_mint
      → check_collateral_accounts rt k l k.signer b ≡ ok tt
      → k.collateral_mint ≡ l.collateral_config.mint
      → l.borrow_rewards.position ≡ k.position_key
      → check_claim rt mk k l b ≡ ok tt
  unfolding check_claim
  check_claim-runs k l b owner closed mint accounts key tracker = ground arith

  pub write_off-keeps :
      (l : Loan) (t : BorrowRewards)
      → settle_to_zero l ≡ ok t
      → (t.position ≡ l.borrow_rewards.position)
  unfolding settle_to_zero settle sync_debt
  write_off-keeps l t h = ground arith

  check_liquidation-eq :
      (k : Addresses) (l : Loan) (b : B)
      → check_liquidation rt mk k l b ≡ ok tt
      → (l.collateral_config.mint ≡ l.position.collateral_mint)
        × (l.borrow_rewards.position ≡ k.position_key)
  unfolding check_liquidation
  check_liquidation-eq k l b h = ground arith

  liquidate-writes_off :
      (k : Addresses) (l : Loan) (r : Route) (b : B) (l' : Loan) (b' : B)
      → liquidate rt mk k l r b ≡ ok (l', b')
      → (check_liquidation rt mk k l b ≡ ok tt)
        × (t : BorrowRewards) × (settle_to_zero l ≡ ok t)
        × (write_off l t ≡ l')
  unfolding liquidate
  liquidate-writes_off k l r b l' b' h =
      let (_, checked, k1) = bind-eq_ok (check_liquidation rt mk k l b) _ h in
      let (excess, _, k2) = bind-eq_ok (price_liquidation mk k l b) _ k1 in
      let (principal, _, k3) = bind-eq_ok (to_sol l.position.rise_sol_debt_principal _ _) _ k2 in
      let (interest, _, k4) = bind-eq_ok (to_sol l.position.interest_accrued _ _) _ k3 in
      let (returned, _, k5) = bind-eq_ok (return_excess rt mk k excess b) _ k4 in
      let (sold, _, k6) =
        bind-eq_ok (sell_collateral rt mk k l r principal interest _ returned) _ k5 in
      let (tracker, settled, k7) = bind-eq_ok (settle_to_zero l) _ k6 in
      (checked, tracker, settled, ok-values k7)

  -- A liquidated position stays claimable: once the liquidation has sold the collateral, the
  -- borrower can still claim all of the position's collateral from the vault, which holds that of
  -- the other borrowers too. Conditions: the borrower's accounts pass the checks, the vault holds
  -- that much, and the transfer succeeds.
  pub claim_collateral_after_liquidate :
      (k : Addresses) (l : Loan) (r : Route) (b : B) (l' : Loan) (b' : B) (k' : Addresses)
      (r' : Route) (b'' : B)
      → liquidate rt mk k l r b ≡ ok (l', b')
      → k'.signer ≡ l.position.owner
      → k'.position_key ≡ k.position_key
      → k'.collateral_mint ≡ l.collateral_config.mint
      → check_collateral_accounts rt k' l' k'.signer b' ≡ ok tt
      → 0 < l.position.collateral_amount_original
      → l.position.collateral_amount_original ≤ (rt.token b' k'.collateral_vault).amount
      → rt.token_transfer k'.collateral_vault k'.borrower_collateral_account k'.collateral_vault
          l.position.collateral_amount_original b'
        ≡ some b''
      → claim_collateral rt mk k' l' r' b' ≡ ok (claimed l', b'')
  unfolding write_off
  claim_collateral_after_liquidate k l r b l' b' k' r' b'' h owner same_key mint accounts positive
        covered paid =
      let (checked, t, settled, e) = liquidate-writes_off k l r b l' b' h in
      let (config, tracker) = check_liquidation-eq k l b checked in
      let kept = write_off-keeps l t settled in
      let position : l'.position ≡ (write_off l t).position = ap (λ x. x.position) (sym e) in
      let checks =
        check_claim-runs k' l' b' (ap (λ x. x.owner) position ∙ sym owner)
          (ap (λ x. x.is_open) position)
          (ap (λ x. x.collateral_config.mint) (sym e)
            ∙ config
            ∙ sym (ap (λ x. x.collateral_mint) position))
          accounts (mint ∙ ap (λ x. x.collateral_config.mint) e)
          (ap (λ x. x.borrow_rewards.position) (sym e) ∙ kept ∙ tracker ∙ sym same_key) in
      let amount : l'.position.collateral_amount_original ≡ l.position.collateral_amount_original =
        ap (λ x. x.collateral_amount_original) position in
      claim_collateral-runs k' l' r' b' b'' checks (omega arith) (omega arith) (rw amount paid)
