-- ===== src/Cdp/RepayAccrual.antt =====
-- programs/rise-cdp: the accrual of a repayment against that of the crank.
use rise_protocol.Prelude.{ℕ, ◌≡◌, ◌⊎◌, ok, arith}
use rise_protocol.Cdp.State.{CdpPosition}
use rise_protocol.Cdp.Interest.{AccrueInterest, interest_on, add_interest, accrue, accrue_interest}
use rise_protocol.Cdp.Repay.{accrue_before_repayment}

-- Where the crank's accrual would succeed, a repayment's own accrual succeeds. It leaves the same
-- position, or, where the crank would charge nothing, the position as it was: unlike the crank, it
-- does not give up the slots for which less than one unit is due.
pub accrue_before_repayment_agrees :
    (a : AccrueInterest) (t : ℕ) (p : CdpPosition)
    → accrue_interest a t ≡ ok p
    → (accrue_before_repayment a t ≡ ok p)
      ⊎ ((accrue_before_repayment a t ≡ ok a.position)
          × (p.interest_accrued ≡ a.position.interest_accrued))
unfolding accrue_interest accrue interest_on add_interest accrue_before_repayment
accrue_before_repayment_agrees a t p h = ground arith
