-- ===== src/Cdp/Repayments.antt =====
-- programs/rise-cdp: what repaying, closing and liquidating do to the principal and to the totals.
use rise_protocol.Staking.State.{rate_scale as staking_rate_scale}
use rise_protocol.Prelude.{
  ok-seconds, if◌then◌else◌, ◌∙◌, min, leb, ltb, or_fault, ok-values, require, ℕ, ◌+◌, ◌-◌, ◌≤◌,
  ◌≡◌, true, false, ok, arith, bind-eq_ok, refl,
}
use rise_protocol.Solana.{Runtime}
use rise_protocol.Cdp.Oracle.{Markets}
use rise_protocol.Cdp.Loan.{check_own_position, interest_accounts, Loan, Addresses, Route}
use rise_protocol.Cdp.Close.{
  notify_interest_burned, settle_to_zero, check_rise_sol_repayment, repay_debt_rise_sol,
  close_position, close_if_repaid, book_rise_sol, write_off,
}
use rise_protocol.Cdp.Effects.{accrued-keeps, own_position-open, Tracks}
use rise_protocol.Cdp.Repay.{
  settle_repayment, Repayment, split_cleared, to_sol, accrue_before_repayment, reduce_debt,
  reduce_minted, clear_debt,
}
use rise_protocol.Cdp.State.{
  insufficient_repayment_balance, zero_amount, total_rise_sol_owed, or_overflow, settle,
  BorrowRewards, CdpPosition,
}
use rise_protocol.Cdp.Liquidate.{
  sell_collateral, return_excess, price_liquidation, check_liquidation, liquidate,
}
use rise_protocol.Staking.State.{GlobalPool}
use rise_protocol.Cdp.RepaySol.{
  compute_shortfall_divert, book_settlement, route_native_sol, check_sol_repayment, repay_accrued,
  repay_debt,
}
use rise_protocol.Cdp.RepayLaws.{book_repayment-open, book_repayment-eq, settle_repayment-eq}

pub write_off-Tracks : (l : Loan) (t : BorrowRewards) → Tracks l (write_off l t)
unfolding write_off reduce_minted reduce_debt
write_off-Tracks l t = record {
  minted_tracks = λ le. omega arith;
  debt_tracks = λ le. omega arith;
  closed_clear = λ closed. refl;
}

-- A loan with a part of its debt cleared.
record IsCleared (l l' : Loan) : Type 0 where
  less : l'.position.rise_sol_debt_principal ≤ l.position.rise_sol_debt_principal
  minted_less :
      l'.cdp_config.cdp_rise_sol_minted
      ≡ l.cdp_config.cdp_rise_sol_minted
        - (l.position.rise_sol_debt_principal - l'.position.rise_sol_debt_principal)
  debt_less :
      l'.borrow_rewards_config.total_cdp_debt
      ≡ l.borrow_rewards_config.total_cdp_debt
        - (l.position.rise_sol_debt_principal - l'.position.rise_sol_debt_principal)
  closed_clear : (l'.position.is_open ≡ false) → l'.position.rise_sol_debt_principal ≡ 0

IsCleared-Tracks : (l l' : Loan) → IsCleared l l' → Tracks l l'
IsCleared-Tracks l l' c =
    let less = c.less in
    let minted = c.minted_less in
    let debt = c.debt_less in
    record {
      minted_tracks = λ le. omega arith;
      debt_tracks = λ le. omega arith;
      closed_clear = c.closed_clear;
    }

clear_debt-eq :
    (p : CdpPosition) (i m : ℕ) (p' : CdpPosition)
    → clear_debt p i m ≡ ok p'
    → (p'.rise_sol_debt_principal + m ≡ p.rise_sol_debt_principal)
      × (p'.interest_accrued + i ≡ p.interest_accrued)
      × (p'.is_open ≡ p.is_open)
unfolding clear_debt
clear_debt-eq p i m p' h = ground arith

book_rise_sol-eq :
    (l : Loan) (t : BorrowRewards) (i m : ℕ) (l' : Loan)
    → book_rise_sol l t i m ≡ ok l'
    → (l'.position.rise_sol_debt_principal + m ≡ l.position.rise_sol_debt_principal)
      × (l'.position.is_open ≡ l.position.is_open)
      × (l'.cdp_config.cdp_rise_sol_minted ≡ l.cdp_config.cdp_rise_sol_minted - m)
      × (l'.borrow_rewards_config.total_cdp_debt ≡ l.borrow_rewards_config.total_cdp_debt - m)
unfolding book_rise_sol clear_debt reduce_minted reduce_debt
book_rise_sol-eq l t i m l' h = ground arith

close_if_repaid-eq :
    (p : CdpPosition)
    → ((close_if_repaid p).rise_sol_debt_principal ≡ p.rise_sol_debt_principal)
      × (p.is_open ≡ true → (close_if_repaid p).is_open ≡ false → p.rise_sol_debt_principal ≡ 0)
unfolding close_if_repaid
close_if_repaid-eq p = (ground arith, λ opened closed. ground arith)

module _ {B : Type 0} (rt : Runtime B) (mk : Markets B) where
  pub close_position-Tracks :
      (k : Addresses) (l : Loan) (b : B) (l' : Loan) (b' : B)
      → close_position rt mk k l b ≡ ok (l', b')
      → Tracks l l'
  unfolding close_position write_off reduce_minted reduce_debt
  close_position-Tracks k l b l' b' h =
      let eqs : (l'.position.rise_sol_debt_principal ≡ 0)
          × (l'.cdp_config.cdp_rise_sol_minted
              ≡ l.cdp_config.cdp_rise_sol_minted - l.position.rise_sol_debt_principal)
          × (l'.borrow_rewards_config.total_cdp_debt
              ≡ l.borrow_rewards_config.total_cdp_debt - l.position.rise_sol_debt_principal) =
        ground arith in
      record {
        minted_tracks = λ le. omega (arith, eqs);
        debt_tracks = λ le. omega (arith, eqs);
        closed_clear = λ closed. eqs.0;
      }

  pub liquidate-books :
      (k : Addresses) (l : Loan) (r : Route) (b : B) (l' : Loan) (b' : B)
      → liquidate rt mk k l r b ≡ ok (l', b')
      → (t : BorrowRewards) × (settle_to_zero l ≡ ok t) × (write_off l t ≡ l')
  unfolding liquidate
  liquidate-books k l r b l' b' h =
      let (_, _, k1) = bind-eq_ok (check_liquidation rt mk k l b) _ h in
      let (excess, _, k2) = bind-eq_ok (price_liquidation mk k l b) _ k1 in
      let (principal, _, k3) = bind-eq_ok (to_sol l.position.rise_sol_debt_principal _ _) _ k2 in
      let (interest, _, k4) = bind-eq_ok (to_sol l.position.interest_accrued _ _) _ k3 in
      let (returned, _, k5) = bind-eq_ok (return_excess rt mk k excess b) _ k4 in
      let (sold, _, k6) =
        bind-eq_ok (sell_collateral rt mk k l r principal interest _ returned) _ k5 in
      let (tracker, settled, k7) = bind-eq_ok (settle_to_zero l) _ k6 in
      (tracker, settled, ok-values k7)

  pub liquidate-Tracks :
      (k : Addresses) (l : Loan) (r : Route) (b : B) (l' : Loan) (b' : B)
      → liquidate rt mk k l r b ≡ ok (l', b')
      → Tracks l l'
  liquidate-Tracks k l r b l' b' h =
      let (tracker, _, same) = liquidate-books k l r b l' b' h in
      rw (← same) (write_off-Tracks l tracker)

  -- A repayment in riseSOL, after the accrual.
  pub repay_debt_rise_sol-books :
      (k : Addresses) (l : Loan) (n : ℕ) (b : B) (l' : Loan) (b' : B)
      → repay_debt_rise_sol rt mk k l n b ≡ ok (l', b')
      → (l.position.is_open ≡ true)
        × (accrued : CdpPosition) × (accrue_before_repayment (interest_accounts l) (rt.slot b)
            ≡ ok accrued)
        × (settled : BorrowRewards) × (settle l.borrow_rewards
              l.borrow_rewards_config.reward_per_token accrued.rise_sol_debt_principal
            ≡ ok settled)
        × (i : ℕ) × (m : ℕ) × (booked : Loan) × (book_rise_sol
              (record l { position = accrued })
              settled
              i
              m
            ≡ ok booked)
        × (pool : GlobalPool) × (record booked {
          position = close_if_repaid booked.position;
          global_pool = pool;
        }
            ≡ l')
  unfolding repay_debt_rise_sol check_rise_sol_repayment
  repay_debt_rise_sol-books k l n b l' b' h =
      let (_, checked, k1) = bind-eq_ok (check_rise_sol_repayment rt mk k l b) _ h in
      let (_, own, _) = bind-eq_ok (check_own_position k l) _ checked in
      let (_, _, k2) = bind-eq_ok (require (ltb 0 n) zero_amount) _ k1 in
      let (accrued, e, k3) =
        bind-eq_ok (accrue_before_repayment (interest_accounts l) (rt.slot b)) _ k2 in
      let (settled, settles, k4) = bind-eq_ok (settle l.borrow_rewards _ _) _ k3 in
      let (owed, _, k5) = bind-eq_ok (or_overflow (total_rise_sol_owed accrued)) _ k4 in
      let (_, _, k6) = bind-eq_ok (require (ltb 0 owed) zero_amount) _ k5 in
      let (_, _, k7) =
        bind-eq_ok
          (require (leb (min n owed) (rt.token b k.borrower_rise_sol_account).amount)
            insufficient_repayment_balance)
          _ k6 in
      let ((i, m), _, k8) = bind-eq_ok (split_cleared accrued _) _ k7 in
      let (booked, books, k9) =
        bind-eq_ok (book_rise_sol (record l { position = accrued }) settled i m) _ k8 in
      let (burned, _, k10) = bind-eq_ok (or_fault (rt.burn _ _ _ _ b) _) _ k9 in
      let (pool, _, k11) = bind-eq_ok (notify_interest_burned k l.global_pool i) _ k10 in
      (
        own_position-open k l own,
        accrued,
        e,
        settled,
        settles,
        i,
        m,
        booked,
        books,
        pool,
        ok-values k11,
      )

  pub repay_debt_rise_sol-Tracks :
      (k : Addresses) (l : Loan) (n : ℕ) (b : B) (l' : Loan) (b' : B)
      → repay_debt_rise_sol rt mk k l n b ≡ ok (l', b')
      → Tracks l l'
  repay_debt_rise_sol-Tracks k l n b l' b' h =
      let (opened, accrued, e, settled, _, i, m, booked, books, pool, same) =
        repay_debt_rise_sol-books k l n b l' b' h in
      let kept = accrued-keeps (interest_accounts l) (rt.slot b) accrued e in
      let eqs = book_rise_sol-eq (record l { position = accrued }) settled i m booked books in
      let closing = close_if_repaid-eq booked.position in
      rw (← same) (record {
        minted_tracks = λ le. omega (arith, kept, eqs, closing.0);
        debt_tracks = λ le. omega (arith, kept, eqs, closing.0);
        closed_clear = λ closed. closing.0 ∙ closing.1 (eqs.1 ∙ kept.1 ∙ opened) closed;
      })

  pub repay_debt-books :
      (k : Addresses) (l : Loan) (n : ℕ) (b : B) (l' : Loan) (b' : B)
      → repay_debt rt mk k l n b ≡ ok (l', b')
      → (l.position.is_open ≡ true)
        × (accrued : CdpPosition) × (accrue_before_repayment (interest_accounts l) (rt.slot b)
            ≡ ok accrued)
        × (r : Repayment) × (settle_repayment accrued n l.global_pool.exchange_rate
              staking_rate_scale l.cdp_config l.borrow_rewards_config l.borrow_rewards
            ≡ ok r)
        × (divert : ℕ) × (route_native_sol rt mk k r.settlement.interest_sol
              (r.settlement.principal_sol - divert)
              divert
              b
            ≡ ok b')
        × (book_settlement rt mk (record l { position = accrued }) r divert ≡ l')
  unfolding repay_debt repay_accrued check_sol_repayment
  repay_debt-books k l n b l' b' h =
      let (_, checked, k1) = bind-eq_ok (check_sol_repayment rt mk k l b) _ h in
      let (_, own, _) = bind-eq_ok (check_own_position k l) _ checked in
      let (_, _, k2) = bind-eq_ok (require (ltb 0 n) zero_amount) _ k1 in
      let (accrued, e, k3) =
        bind-eq_ok (accrue_before_repayment (interest_accounts l) (rt.slot b)) _ k2 in
      let (r, settled, k4) =
        bind-eq_ok
          (settle_repayment accrued n l.global_pool.exchange_rate staking_rate_scale l.cdp_config
            l.borrow_rewards_config l.borrow_rewards)
          _ k3 in
      let (divert, _, k5) =
        bind-eq_ok
          (if r.settlement.is_fully_repaid
            then compute_shortfall_divert rt mk k (record l { position = r.position })
                r.settlement.principal_sol b
            else ok 0)
          _ k4 in
      let (routed, paid, k6) =
        bind-eq_ok
          (route_native_sol rt mk k r.settlement.interest_sol (r.settlement.principal_sol - divert)
            divert b)
          _ k5 in
      (own_position-open k l own, accrued, e, r, settled, divert, ok-seconds paid k6, ok-values k6)

  book_settlement-eq :
      (l : Loan) (r : Repayment) (divert : ℕ)
      → ((book_settlement rt mk l r divert).position.rise_sol_debt_principal
          ≡ r.position.rise_sol_debt_principal)
        × (r.position.is_open ≡ true
            → (book_settlement rt mk l r divert).position.is_open ≡ false
            → r.settlement.is_fully_repaid ≡ true)
  unfolding book_settlement
  book_settlement-eq l r divert = (ground arith, λ opened closed. ground arith)

  pub repay_debt-Tracks :
      (k : Addresses) (l : Loan) (n : ℕ) (b : B) (l' : Loan) (b' : B)
      → repay_debt rt mk k l n b ≡ ok (l', b')
      → Tracks l l'
  unfolding book_settlement
  repay_debt-Tracks k l n b l' b' h =
      let (opened, accrued, e, r, settles, divert, _, same) = repay_debt-books k l n b l' b' h in
      let kept = accrued-keeps (interest_accounts l) (rt.slot b) accrued e in
      let (positive, settled, booked) = settle_repayment-eq accrued n _ _ _ _ _ r settles in
      let (within, owed, interest, minted, total, full) =
        book_repayment-eq accrued _ _ _ _ _ settled r booked in
      let closing = book_settlement-eq (record l { position = accrued }) r divert in
      let less : r.position.rise_sol_debt_principal ≤ accrued.rise_sol_debt_principal =
        omega arith in
      rw (← same) (record {
        minted_tracks = λ le. omega (arith, kept, minted, closing.0);
        debt_tracks = λ le. omega (arith, kept, total, closing.0);
        closed_clear = λ closed.
            let clear = full.0 (
              closing.1 (book_repayment-open accrued _ _ _ _ _ settled r booked ∙ kept.1 ∙ opened)
                closed) in
            omega (arith, clear, closing.0);
      })
