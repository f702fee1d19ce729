-- ===== src/Cdp/CloseTwice.antt =====
-- programs/rise-cdp: claim_collateral after close_position.
use rise_protocol.Prelude.{
  ok-values, ok-seconds, leb, ltb, require, bind-eq_ok, cpi, or_fault, Option, ℕ, ◌+◌, ◌*◌, ◌≤◌,
  ◌<◌, ◌≡◌, ◌≢◌, ok, some, none, arith, sym, ap, ◌∙◌,
}
use rise_protocol.Solana.{Pubkey, Runtime, AmountLaws}
use rise_protocol.Cdp.Oracle.{Markets}
use rise_protocol.Cdp.Loan.{check_own_position, check_collateral_accounts, Loan, Addresses, Route}
use rise_protocol.Cdp.Close.{
  claim_collateral, notify_interest_burned, write_off, settle_to_zero, check_closing,
  close_position,
}
use rise_protocol.Staking.State.{GlobalPool}
use rise_protocol.Cdp.State.{
  insufficient_repayment_balance, zero_amount, total_rise_sol_owed, or_overflow, BorrowRewards,
  CdpError,
}
use rise_protocol.Cdp.DoubleClaim.{
  claim_collateral-runs, check_claim-runs, write_off-keeps, claimed,
}

module _ {B : Type 0} (rt : Runtime B) (mk : Markets B) where
  fault-eq : (o : Option B) (b : B) → or_fault {E = CdpError} o cpi ≡ ok b → o ≡ some b
  fault-eq (some x) b h = cc
  fault-eq none b h = cc

  pub close_position-calls :
      (k : Addresses) (l : Loan) (b : B) (l' : Loan) (b' : B)
      → close_position rt mk k l b ≡ ok (l', b')
      → (check_closing rt mk k l b ≡ ok tt)
        × (owed : ℕ) × (burned : B) × (rt.burn k.rise_sol_mint k.borrower_rise_sol_account k.signer
              owed b
            ≡ some burned)
        × (pool : GlobalPool) × (t : BorrowRewards) × (settle_to_zero l ≡ ok t)
        × (rt.token_transfer k.collateral_vault k.borrower_collateral_account k.collateral_vault
              l.position.collateral_amount_original burned
            ≡ some b')
        × (record (write_off l t) { global_pool = pool } ≡ l')
  unfolding close_position
  close_position-calls k l b l' b' h =
      let (_, checked, k1) = bind-eq_ok (check_closing rt mk k l b) _ h in
      let (owed, _, k2) = bind-eq_ok (or_overflow (total_rise_sol_owed l.position)) _ k1 in
      let (_, _, k3) = bind-eq_ok (require (ltb 0 owed) zero_amount) _ k2 in
      let (_, _, k4) =
        bind-eq_ok
          (require (leb owed (rt.token b k.borrower_rise_sol_account).amount)
            insufficient_repayment_balance)
          _ k3 in
      let (burned, burn, k5) =
        bind-eq_ok
          (or_fault (rt.burn k.rise_sol_mint k.borrower_rise_sol_account k.signer owed b) cpi) _
          k4 in
      let (pool, _, k6) =
        bind-eq_ok (notify_interest_burned k l.global_pool l.position.interest_accrued) _ k5 in
      let (t, settled, k7) = bind-eq_ok (settle_to_zero l) _ k6 in
      let (returned, paid, k8) =
        bind-eq_ok
          (or_fault
            (rt.token_transfer k.collateral_vault k.borrower_collateral_account k.collateral_vault
              l.position.collateral_amount_original burned)
            cpi)
          _ k7 in
      (
        checked,
        owed,
        burned,
        fault-eq _ burned burn,
        pool,
        t,
        settled,
        fault-eq _ b' (ok-seconds paid k8),
        ok-values k8,
      )

  check_closing-eq :
      (k : Addresses) (l : Loan) (b : B)
      → check_closing rt mk k l b ≡ ok tt
      → (l.position.owner ≡ k.signer)
        × (l.collateral_config.mint ≡ l.position.collateral_mint)
        × ((rt.token b k.borrower_collateral_account).mint ≡ l.collateral_config.mint)
        × ((rt.token b k.borrower_collateral_account).owner ≡ k.signer)
        × ((rt.token b k.collateral_vault).mint ≡ l.collateral_config.mint)
        × (l.borrow_rewards.position ≡ k.position_key)
  unfolding check_closing check_own_position check_collateral_accounts
  check_closing-eq k l b h = ground arith

  collateral_accounts-run :
      (k : Addresses) (l : Loan) (owner : Pubkey) (b : B)
      → (rt.token b k.borrower_collateral_account).mint ≡ l.collateral_config.mint
      → (rt.token b k.borrower_collateral_account).owner ≡ owner
      → (rt.token b k.collateral_vault).mint ≡ l.collateral_config.mint
      → check_collateral_accounts rt k l owner b ≡ ok tt
  unfolding check_collateral_accounts
  collateral_accounts-run k l owner b mint own vault = ground arith

  module _ (laws : AmountLaws rt) where
    -- A closed position pays out twice: once close_position has returned the collateral, the
    -- borrower can claim the same amount again from the vault, which holds that of the other
    -- borrowers too, and then has received twice the position's collateral. Conditions: the vault
    -- still holds that much, the transfer succeeds, and the three token accounts differ.
    pub claim_collateral_after_close :
        (k : Addresses) (l : Loan) (r : Route) (b : B) (l' : Loan) (b' b'' : B)
        → close_position rt mk k l b ≡ ok (l', b')
        → k.collateral_mint ≡ l.collateral_config.mint
        → k.borrower_collateral_account ≢ k.collateral_vault
        → k.borrower_collateral_account ≢ k.borrower_rise_sol_account
        → 0 < l.position.collateral_amount_original
        → l.position.collateral_amount_original ≤ (rt.token b' k.collateral_vault).amount
        → rt.token_transfer k.collateral_vault k.borrower_collateral_account k.collateral_vault
            l.position.collateral_amount_original b'
          ≡ some b''
        → (claim_collateral rt mk k l' r b' ≡ ok (claimed l', b''))
          × ((rt.token b'' k.borrower_collateral_account).amount
              ≡ (rt.token b k.borrower_collateral_account).amount
                + 2 * l.position.collateral_amount_original)
    unfolding write_off
    claim_collateral_after_close k l r b l' b' b'' h mint apart other positive covered paid =
        let (checked, owed, burned, burn, pool, t, settled, returned, e) =
          close_position-calls k l b l' b' h in
        let (owner, config, account, own, vault, tracker) = check_closing-eq k l b checked in
        let kept = write_off-keeps rt mk l t settled in
        let n = l.position.collateral_amount_original in
        let c = k.borrower_collateral_account in
        let u = laws.burn_takes _ _ _ owed b burned c burn in
        let u' = laws.burn_takes _ _ _ owed b burned k.collateral_vault burn in
        let v = laws.transfer_moves _ _ _ n burned b' c returned in
        let v' = laws.transfer_moves _ _ _ n burned b' k.collateral_vault returned in
        let w = laws.transfer_moves _ _ _ n b' b'' c paid in
        let position : l'.position ≡ (write_off l t).position = ap (λ x. x.position) (sym e) in
        let same_mint : l'.collateral_config.mint ≡ l.collateral_config.mint =
          ap (λ x. x.collateral_config.mint) (sym e) in
        let amount : l'.position.collateral_amount_original ≡ n =
          ap (λ x. x.collateral_amount_original) position in
        let accounts =
          collateral_accounts-run k l' k.signer b' (v.1 ∙ u.1 ∙ account ∙ sym same_mint)
            (v.2 ∙ u.2 ∙ own) (v'.1 ∙ u'.1 ∙ vault ∙ sym same_mint) in
        let checks =
          check_claim-runs rt mk k l' b' (ap (λ x. x.owner) position ∙ owner)
            (ap (λ x. x.is_open) position)
            (same_mint ∙ config ∙ sym (ap (λ x. x.collateral_mint) position)) accounts
            (mint ∙ sym same_mint) (ap (λ x. x.borrow_rewards.position) (sym e) ∙ kept ∙ tracker) in
        (
          claim_collateral-runs rt mk k l' r b' b'' checks (omega arith) (omega arith)
              (rw amount paid),
          ground (arith, apart, other, u.0, v.0, w.0),
        )
