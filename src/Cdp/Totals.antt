-- ===== src/Cdp/Totals.antt =====
-- programs/rise-cdp: the program's books, that is its two configs with totals and its positions,
-- and the steps that its instructions make.
use rise_protocol.Prelude.{Removed, Replaced, ℕ, ◌≡◌, ok, List, ◌∷◌}
use rise_protocol.Solana.{Pubkey, Runtime}
use rise_protocol.Cdp.State.{CdpPosition, CdpConfig, BorrowRewardsConfig}
use rise_protocol.Cdp.Oracle.{Markets}
use rise_protocol.Cdp.Loan.{Loan, Addresses, Route}
use rise_protocol.Cdp.Borrow.{open_position, Opening, borrow_more}
use rise_protocol.Cdp.Collateral.{withdraw_excess, add_collateral}
use rise_protocol.Cdp.Close.{close_position, repay_debt_rise_sol, claim_collateral}
use rise_protocol.Cdp.RepaySol.{repay_debt}
use rise_protocol.Cdp.Interest.{accrue_interest, AccrueInterest}
use rise_protocol.Cdp.Config.{update_debt_ceiling}
use rise_protocol.Cdp.Liquidate.{liquidate}
use rise_protocol.Cdp.Rewards.{checkpoint_borrow_rewards}

pub record Books : Type 0 where
  pub config : CdpConfig
  pub rewards : BorrowRewardsConfig
  pub positions : List CdpPosition

-- The totals of a loan are those of the books.
pub record Holds (w : Books) (l : Loan) : Type 0 where
  pub same_config : w.config ≡ l.cdp_config
  pub same_rewards : w.rewards ≡ l.borrow_rewards_config

module _ {B : Type 0} (rt : Runtime B) (mk : Markets B) where
  -- The instructions on a loan that exists.
  pub data Change (l l' : Loan) : Type 0 where
    borrows :
        (k : Addresses) (n : ℕ) (b b' : B) → borrow_more rt mk k l n b ≡ ok (l', b') → Change l l'
    adds :
        (k : Addresses) (n : ℕ) (b b' : B)
        → add_collateral rt mk k l n b ≡ ok (l', b')
        → Change l l'
    withdraws :
        (k : Addresses) (n : ℕ) (b b' : B)
        → withdraw_excess rt mk k l n b ≡ ok (l', b')
        → Change l l'
    repays :
        (k : Addresses) (n : ℕ) (b b' : B) → repay_debt rt mk k l n b ≡ ok (l', b') → Change l l'
    repays_rise_sol :
        (k : Addresses) (n : ℕ) (b b' : B)
        → repay_debt_rise_sol rt mk k l n b ≡ ok (l', b')
        → Change l l'
    closes : (k : Addresses) (b b' : B) → close_position rt mk k l b ≡ ok (l', b') → Change l l'
    liquidates :
        (k : Addresses) (r : Route) (b b' : B) → liquidate rt mk k l r b ≡ ok (l', b') → Change l l'

  -- A step of the program. Whatever else an instruction reads or writes is free.
  pub data Step (w w' : Books) : Type 0 where
    opens :
        (k : Addresses) (l : Loan) (o : Opening) (b : B) (l' : Loan) (b' : B)
        → open_position rt mk k l o b ≡ ok (l', b')
        → Holds w l
        → Holds w' l'
        → w'.positions ≡ l'.position ∷ w.positions
        → Step w w'
    changes :
        (l l' : Loan)
        → Change l l'
        → Holds w l
        → Holds w' l'
        → Replaced l.position l'.position w.positions w'.positions
        → Step w w'
    claims :
        (k : Addresses) (l : Loan) (r : Route) (b : B) (l' : Loan) (b' : B)
        → claim_collateral rt mk k l r b ≡ ok (l', b')
        → Holds w l
        → Holds w' l'
        → Removed l.position w.positions w'.positions
        → Step w w'
    accrues :
        (a : AccrueInterest) (slot : ℕ) (p : CdpPosition)
        → accrue_interest a slot ≡ ok p
        → w'.config ≡ w.config
        → w'.rewards ≡ w.rewards
        → Replaced a.position p w.positions w'.positions
        → Step w w'
    sets_ceiling :
        (signer : Pubkey) (multiplier_bps : ℕ) (c : CdpConfig)
        → update_debt_ceiling signer w.config multiplier_bps ≡ ok c
        → w' ≡ record w { config = c }
        → Step w w'
    checkpoints :
        (slot : ℕ) (c : BorrowRewardsConfig)
        → checkpoint_borrow_rewards w.rewards slot ≡ ok c
        → w' ≡ record w { rewards = c }
        → Step w w'

  pub data Reach (w : Books) : Books → Type 0 where
    start : Reach w w
    step : {v v' : Books} → Reach w v → Step v v' → Reach w v'
