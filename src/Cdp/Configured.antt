-- ===== src/Cdp/Configured.antt =====
-- programs/rise-cdp: a collateral's config over the life of the program.
use rise_protocol.Prelude.{ℕ, ◌≡◌, ok, arith, bind-eq_ok, refl, ap, sym, ◌∙◌}
use rise_protocol.Solana.{Pubkey, Runtime}
use rise_protocol.Cdp.State.{CdpConfig, CollateralConfig, BorrowRewards}
use rise_protocol.Cdp.Config.{
  CollateralTerms, CollateralChanges, initialize_collateral_config, update_collateral_config,
}
use rise_protocol.Cdp.ConfigLaws.{
  IsValid, initialize_collateral_config-IsValid, update_collateral_config-IsValid,
}
use rise_protocol.Cdp.Oracle.{Markets}
use rise_protocol.Cdp.Loan.{Loan, Addresses, Route}
use rise_protocol.Cdp.Borrow.{Opening, open_position, book_opening, check_opening, price_opening}
use rise_protocol.Cdp.Collateral.{add_collateral, withdraw_excess}
use rise_protocol.Cdp.Close.{book_rise_sol, write_off, claim_collateral}
use rise_protocol.Cdp.Repay.{Repayment}
use rise_protocol.Cdp.RepaySol.{book_settlement}
use rise_protocol.Cdp.Totals.{
  Change, borrows, adds, withdraws, repays, repays_rise_sol, closes, liquidates,
}
use rise_protocol.Cdp.Effects.{borrow_more-calls}
use rise_protocol.Cdp.Repayments.{repay_debt-books, repay_debt_rise_sol-books, liquidate-books}
use rise_protocol.Cdp.CloseTwice.{close_position-calls}
use rise_protocol.Cdp.NotLiquidatable.{book_borrowing-terms}

-- The terms are kept: at most what is owed to the borrowers differs.
abbrev HasTerms : CollateralConfig → CollateralConfig → Type 0
HasTerms c c' = c' ≡ record c { total_collateral_entitlements = c'.total_collateral_entitlements }

HasTerms-same : {c c' : CollateralConfig} → c' ≡ c → HasTerms c c'
HasTerms-same e = rw e refl

HasTerms-IsValid : (c c' : CollateralConfig) → HasTerms c c' → IsValid c → IsValid c'
HasTerms-IsValid c c' e v = rw e (record {
  ltv_below_threshold = v.ltv_below_threshold;
  ltv_limit = v.ltv_limit;
  threshold_limit = v.threshold_limit;
  penalty_limit = v.penalty_limit;
  base_limit = v.base_limit;
  slope1_limit = v.slope1_limit;
  slope2_limit = v.slope2_limit;
  optimal_limit = v.optimal_limit;
})

write_off-HasTerms :
    (l : Loan) (t : BorrowRewards) → HasTerms l.collateral_config (write_off l t).collateral_config
unfolding write_off
write_off-HasTerms l t = refl

book_rise_sol-HasTerms :
    (l : Loan) (t : BorrowRewards) (i m : ℕ) (l' : Loan)
    → book_rise_sol l t i m ≡ ok l'
    → l'.collateral_config ≡ l.collateral_config
unfolding book_rise_sol
book_rise_sol-HasTerms l t i m l' h = ground arith

module _ {B : Type 0} (rt : Runtime B) (mk : Markets B) where
  -- The configs that an initialisation leads to, with any updates and any instructions on loans
  -- after it. Whatever else an instruction reads or writes is free.
  pub data Configured : CollateralConfig → Type 0 where
    initialised :
        {c : CollateralConfig} (authority mint : Pubkey) (t : CollateralTerms) (bump : ℕ)
        → initialize_collateral_config authority mint t bump ≡ ok c
        → Configured c
    updated :
        {c c' : CollateralConfig} (authority : Pubkey) (cdp : CdpConfig) (d : CollateralChanges)
        → Configured c
        → update_collateral_config authority cdp c d ≡ ok c'
        → Configured c'
    opening_loan :
        (k : Addresses) (l : Loan) (o : Opening) (b : B) (l' : Loan) (b' : B)
        → Configured l.collateral_config
        → open_position rt mk k l o b ≡ ok (l', b')
        → Configured l'.collateral_config
    changing :
        (l l' : Loan)
        → Configured l.collateral_config
        → Change rt mk l l'
        → Configured l'.collateral_config
    claiming :
        (k : Addresses) (l : Loan) (r : Route) (b : B) (l' : Loan) (b' : B)
        → Configured l.collateral_config
        → claim_collateral rt mk k l r b ≡ ok (l', b')
        → Configured l'.collateral_config

  open_position-HasTerms :
      (k : Addresses) (l : Loan) (o : Opening) (b : B) (l' : Loan) (b' : B)
      → open_position rt mk k l o b ≡ ok (l', b')
      → HasTerms l.collateral_config l'.collateral_config
  unfolding open_position book_opening
  open_position-HasTerms k l o b l' b' h =
      let (_, _, k1) = bind-eq_ok (check_opening rt mk k l o b) _ h in
      let ((usd, sp), priced, k2) = bind-eq_ok (price_opening mk k l o b) _ k1 in ground arith

  add_collateral-HasTerms :
      (k : Addresses) (l : Loan) (n : ℕ) (b : B) (l' : Loan) (b' : B)
      → add_collateral rt mk k l n b ≡ ok (l', b')
      → HasTerms l.collateral_config l'.collateral_config
  unfolding add_collateral
  add_collateral-HasTerms k l n b l' b' h = ground arith

  withdraw_excess-HasTerms :
      (k : Addresses) (l : Loan) (n : ℕ) (b : B) (l' : Loan) (b' : B)
      → withdraw_excess rt mk k l n b ≡ ok (l', b')
      → HasTerms l.collateral_config l'.collateral_config
  unfolding withdraw_excess
  withdraw_excess-HasTerms k l n b l' b' h = ground arith

  claim_collateral-HasTerms :
      (k : Addresses) (l : Loan) (r : Route) (b : B) (l' : Loan) (b' : B)
      → claim_collateral rt mk k l r b ≡ ok (l', b')
      → HasTerms l.collateral_config l'.collateral_config
  unfolding claim_collateral
  claim_collateral-HasTerms k l r b l' b' h = ground arith

  book_settlement-HasTerms :
      (l : Loan) (r : Repayment) (divert : ℕ)
      → (book_settlement rt mk l r divert).collateral_config ≡ l.collateral_config
  unfolding book_settlement
  book_settlement-HasTerms l r divert = refl

  Change-HasTerms :
      (l l' : Loan) → Change rt mk l l' → HasTerms l.collateral_config l'.collateral_config
  Change-HasTerms l l' (borrows k n b b' h) =
      let (_, accrued, _, usd, value, _, minted, _, booked) =
        borrow_more-calls rt mk k l n b l' b' h in
      HasTerms-same
        (book_borrowing-terms rt mk (record l { position = accrued }) n minted usd value l'
          booked).2
  Change-HasTerms l l' (adds k n b b' h) = add_collateral-HasTerms k l n b l' b' h
  Change-HasTerms l l' (withdraws k n b b' h) = withdraw_excess-HasTerms k l n b l' b' h
  Change-HasTerms l l' (repays k n b b' h) =
      let (_, accrued, _, r, _, divert, _, same) = repay_debt-books rt mk k l n b l' b' h in
      HasTerms-same (
        ap (λ x. x.collateral_config) (sym same)
        ∙ book_settlement-HasTerms (record l { position = accrued }) r divert)
  Change-HasTerms l l' (repays_rise_sol k n b b' h) =
      let (_, accrued, _, settled, _, i, m, booked, books, pool, same) =
        repay_debt_rise_sol-books rt mk k l n b l' b' h in
      HasTerms-same (
        ap (λ x. x.collateral_config) (sym same)
        ∙ book_rise_sol-HasTerms (record l { position = accrued }) settled i m booked books)
  Change-HasTerms l l' (closes k b b' h) =
      let (_, owed, burned, _, pool, t, _, _, same) = close_position-calls rt mk k l b l' b' h in
      rw (← same) (write_off-HasTerms l t)
  Change-HasTerms l l' (liquidates k r b b' h) =
      let (t, _, same) = liquidate-books rt mk k l r b l' b' h in
      rw (← same) (write_off-HasTerms l t)

  -- A collateral's config stays within its limits over every history of its initialisation, its
  -- updates and the instructions on loans that are steps here: the loan-to-value stays below the
  -- liquidation threshold, and that below the whole value.
  pub Configured-IsValid : (c : CollateralConfig) → Configured c → IsValid c
  Configured-IsValid c (initialised authority mint t bump h) =
      initialize_collateral_config-IsValid authority mint t bump c h
  Configured-IsValid c (updated {c = c₀} authority cdp d before h) =
      update_collateral_config-IsValid authority cdp c₀ d c h (Configured-IsValid c₀ before)
  Configured-IsValid c (opening_loan k l o b l' b' before h) =
      HasTerms-IsValid _ _ (open_position-HasTerms k l o b l' b' h)
        (Configured-IsValid l.collateral_config before)
  Configured-IsValid c (changing l l' before h) =
      HasTerms-IsValid _ _ (Change-HasTerms l l' h) (Configured-IsValid l.collateral_config before)
  Configured-IsValid c (claiming k l r b l' b' before h) =
      HasTerms-IsValid _ _ (claim_collateral-HasTerms k l r b l' b' h)
        (Configured-IsValid l.collateral_config before)
