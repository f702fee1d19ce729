-- ===== src/Cdp/Effects.antt =====
-- What each instruction on a loan does to its principal and to the two totals of principal.
use rise_protocol.Prelude.{
  ℕ, ◌+◌, ◌≤◌, ◌≡◌, true, false, ok, arith, bind-eq_ok, refl, checked_add, u64, ok-fst, or_fault,
  checked_sub,
}
use rise_protocol.Solana.{Runtime}
use rise_protocol.Cdp.State.{CdpPosition, Outcome, or_overflow}
use rise_protocol.Cdp.Interest.{AccrueInterest, add_interest}
use rise_protocol.Cdp.Repay.{accrue_before_repayment}
use rise_protocol.Cdp.Oracle.{Markets}
use rise_protocol.Cdp.Loan.{Loan, Addresses, interest_accounts, check_own_position, check_ceiling}
use rise_protocol.Cdp.Borrow.{
  Opening, open_position, borrow_more, check_borrowing, book_opening, new_position, book_borrowing,
  check_opening, price_opening, price_borrowing, mint_loan,
}
use rise_protocol.Cdp.Collateral.{
  price_withdrawal, add_collateral, withdraw_excess, check_collateral_change, revalue,
}

-- A position's principal is moved as the two totals are.
pub record Tracks (l l' : Loan) : Type 0 where
  pub minted_tracks :
      l.position.rise_sol_debt_principal ≤ l.cdp_config.cdp_rise_sol_minted
      → l'.cdp_config.cdp_rise_sol_minted + l.position.rise_sol_debt_principal
        ≡ l.cdp_config.cdp_rise_sol_minted + l'.position.rise_sol_debt_principal
  pub debt_tracks :
      l.position.rise_sol_debt_principal ≤ l.borrow_rewards_config.total_cdp_debt
      → l'.borrow_rewards_config.total_cdp_debt + l.position.rise_sol_debt_principal
        ≡ l.borrow_rewards_config.total_cdp_debt + l'.position.rise_sol_debt_principal
  pub closed_clear : (l'.position.is_open ≡ false) → l'.position.rise_sol_debt_principal ≡ 0

pub accrued-keeps :
    (a : AccrueInterest) (t : ℕ) (p : CdpPosition)
    → accrue_before_repayment a t ≡ ok p
    → (p.rise_sol_debt_principal ≡ a.position.rise_sol_debt_principal)
      × (p.is_open ≡ a.position.is_open)
      × (p.collateral_amount_original ≡ a.position.collateral_amount_original)
      × (p.collateral_mint ≡ a.position.collateral_mint)
      × (p.owner ≡ a.position.owner)
unfolding accrue_before_repayment add_interest
accrued-keeps a t p h = ground arith

check_ceiling-eq :
    (l : Loan) (n : ℕ) (principal : Outcome ℕ) (m : ℕ)
    → check_ceiling l n principal ≡ ok m
    → m ≡ l.cdp_config.cdp_rise_sol_minted + n
unfolding check_ceiling
check_ceiling-eq l n principal m h = ground arith

pub own_position-open :
    (k : Addresses) (l : Loan) → check_own_position k l ≡ ok tt → l.position.is_open ≡ true
unfolding check_own_position
own_position-open k l h = ground arith

book_borrowing-eq :
    (l : Loan) (n minted usd debt : ℕ) (l' : Loan)
    → book_borrowing l n minted usd debt ≡ ok l'
    → (l'.position.is_open ≡ l.position.is_open)
      × (l'.position.rise_sol_debt_principal ≡ l.position.rise_sol_debt_principal + n)
      × (l'.cdp_config.cdp_rise_sol_minted ≡ minted)
      × (l'.borrow_rewards_config.total_cdp_debt ≡ l.borrow_rewards_config.total_cdp_debt + n)
unfolding book_borrowing
book_borrowing-eq l n minted usd debt l' h = ground arith

module _ {B : Type 0} (rt : Runtime B) (mk : Markets B) where
  pub open_position-eq :
      (k : Addresses) (l : Loan) (o : Opening) (b : B) (l' : Loan) (b' : B)
      → open_position rt mk k l o b ≡ ok (l', b')
      → (l'.position.rise_sol_debt_principal ≡ o.rise_sol_to_mint)
        × (l'.position.is_open ≡ true)
        × (l'.cdp_config.cdp_rise_sol_minted
            ≡ l.cdp_config.cdp_rise_sol_minted + o.rise_sol_to_mint)
        × (l'.borrow_rewards_config.total_cdp_debt
            ≡ l.borrow_rewards_config.total_cdp_debt + o.rise_sol_to_mint)
  unfolding open_position book_opening new_position
  open_position-eq k l o b l' b' h =
      let (_, _, k1) = bind-eq_ok (check_opening rt mk k l o b) _ h in
      let ((usd, price), _, k2) = bind-eq_ok (price_opening mk k l o b) _ k1 in
      let (minted, ceiling, k3) =
        bind-eq_ok (check_ceiling l o.rise_sol_to_mint (ok o.rise_sol_to_mint)) _ k2 in
      let e = check_ceiling-eq l o.rise_sol_to_mint _ minted ceiling in ground arith

  pub borrow_more-calls :
      (k : Addresses) (l : Loan) (n : ℕ) (b : B) (l' : Loan) (b' : B)
      → borrow_more rt mk k l n b ≡ ok (l', b')
      → (check_borrowing rt mk k l n b ≡ ok tt)
        × (accrued : CdpPosition) × (accrue_before_repayment (interest_accounts l) (rt.slot b)
            ≡ ok accrued)
        × (usd : ℕ) × (debt : ℕ) × (price_borrowing mk k (record l { position = accrued }) n b
            ≡ ok (usd, debt))
        × (minted : ℕ) × (check_ceiling l n
              (or_overflow (checked_add u64 accrued.rise_sol_debt_principal n))
            ≡ ok minted)
        × (book_borrowing (record l { position = accrued }) n minted usd debt ≡ ok l')
  unfolding borrow_more
  borrow_more-calls k l n b l' b' h =
      let (_, checked, k1) = bind-eq_ok (check_borrowing rt mk k l n b) _ h in
      let (accrued, e, k2) =
        bind-eq_ok (accrue_before_repayment (interest_accounts l) (rt.slot b)) _ k1 in
      let ((usd, debt), priced, k3) =
        bind-eq_ok (price_borrowing mk k (record l { position = accrued }) n b) _ k2 in
      let (minted, ceiling, k4) = bind-eq_ok (check_ceiling l n _) _ k3 in
      let (booked, books, k5) =
        bind-eq_ok (book_borrowing (record l { position = accrued }) n minted usd debt) _ k4 in
      let (bank, _, k6) = bind-eq_ok (mint_loan rt mk k l n b) _ k5 in
      (checked, accrued, e, usd, debt, priced, minted, ceiling, ok-fst _ books _ refl k6)

  pub borrow_more-eq :
      (k : Addresses) (l : Loan) (n : ℕ) (b : B) (l' : Loan) (b' : B)
      → borrow_more rt mk k l n b ≡ ok (l', b')
      → (l'.position.is_open ≡ true)
        × (l'.position.rise_sol_debt_principal ≡ l.position.rise_sol_debt_principal + n)
        × (l'.cdp_config.cdp_rise_sol_minted ≡ l.cdp_config.cdp_rise_sol_minted + n)
        × (l'.borrow_rewards_config.total_cdp_debt ≡ l.borrow_rewards_config.total_cdp_debt + n)
  unfolding check_borrowing
  borrow_more-eq k l n b l' b' h =
      let (checked, accrued, e, usd, debt, _, minted, ceiling, booked) =
        borrow_more-calls k l n b l' b' h in
      let (_, own, _) = bind-eq_ok (check_own_position k l) _ checked in
      let is_open = own_position-open k l own in
      let kept = accrued-keeps (interest_accounts l) (rt.slot b) accrued e in
      let total = check_ceiling-eq l n _ minted ceiling in
      let books = book_borrowing-eq _ n minted usd debt l' booked in
      (cc, omega (arith, books, kept), omega (arith, books, total), omega (arith, books))

  -- The two instructions on collateral leave the principal and the totals.
  pub add_collateral-eq :
      (k : Addresses) (l : Loan) (n : ℕ) (b : B) (l' : Loan) (b' : B)
      → add_collateral rt mk k l n b ≡ ok (l', b')
      → (l'.position.is_open ≡ l.position.is_open)
        × (l'.position.rise_sol_debt_principal ≡ l.position.rise_sol_debt_principal)
        × (l'.cdp_config ≡ l.cdp_config)
        × (l'.borrow_rewards_config ≡ l.borrow_rewards_config)
  unfolding add_collateral revalue
  add_collateral-eq k l n b l' b' h = ground arith

  revalue-keeps :
      (k : Addresses) (l : Loan) (amount price debt : ℕ) (b : B) (p : CdpPosition)
      → revalue rt mk k l amount price debt b ≡ ok p
      → (p.is_open ≡ l.position.is_open)
        × (p.rise_sol_debt_principal ≡ l.position.rise_sol_debt_principal)
        × (p.collateral_amount_original ≡ amount)
  unfolding revalue
  revalue-keeps k l amount price debt b p h = ground arith

  pub withdraw_excess-eq :
      (k : Addresses) (l : Loan) (n : ℕ) (b : B) (l' : Loan) (b' : B)
      → withdraw_excess rt mk k l n b ≡ ok (l', b')
      → (l'.position.is_open ≡ l.position.is_open)
        × (l'.position.rise_sol_debt_principal ≡ l.position.rise_sol_debt_principal)
        × (l'.cdp_config ≡ l.cdp_config)
        × (l'.borrow_rewards_config ≡ l.borrow_rewards_config)
  unfolding withdraw_excess
  withdraw_excess-eq k l n b l' b' h =
      let (_, _, k1) = bind-eq_ok (check_collateral_change rt mk k l n b) _ h in
      let (accrued, e, k2) =
        bind-eq_ok (accrue_before_repayment (interest_accounts l) (rt.slot b)) _ k1 in
      let ((price, debt), _, k3) =
        bind-eq_ok (price_withdrawal mk k (record l { position = accrued }) n b) _ k2 in
      let (paid, _, k4) = bind-eq_ok (or_fault (rt.token_transfer _ _ _ n b) _) _ k3 in
      let (amount, _, k5) = bind-eq_ok (or_overflow (checked_sub _ n)) _ k4 in
      let (p, valued, k6) =
        bind-eq_ok (revalue rt mk k (record l { position = accrued }) amount price debt paid) _
          k5 in
      let kept = accrued-keeps (interest_accounts l) (rt.slot b) accrued e in
      let moved =
        revalue-keeps k (record l { position = accrued }) amount price debt paid p valued in
      ground (arith, kept, moved)
