-- ===== src/Cdp/History.antt =====
-- programs/rise-cdp: the totals over every history of loans.
use rise_protocol.Cdp.Totals.{Reach, Books, start, step}
use rise_protocol.Prelude.{[], ℕ, ◌≡◌, ok, arith}
use rise_protocol.Solana.{Pubkey, Runtime}
use rise_protocol.Cdp.Oracle.{Markets}
use rise_protocol.Cdp.State.{CdpConfig, BorrowRewardsConfig}
use rise_protocol.Cdp.Config.{initialize_cdp_config}
use rise_protocol.Cdp.Tracking.{Step-IsTracked, IsTracked}
use rise_protocol.Cdp.Rewards.{InitializeBorrowRewards, initialize_borrow_rewards}

module _ {B : Type 0} (rt : Runtime B) (mk : Markets B) where
  Reach-IsTracked : {w w' : Books} → IsTracked w → Reach rt mk w w' → IsTracked w'
  Reach-IsTracked i start = i
  Reach-IsTracked i (step {v = v} {v' = v'} r s) = Step-IsTracked rt mk v v' s (Reach-IsTracked i r)

  -- From the two initialisations, with no position yet, every history of the loans' instructions
  -- (opening, borrowing, adding and withdrawing collateral, the repayments in SOL and in riseSOL,
  -- closing, liquidating, claiming, accruing), of changes of the ceiling and of checkpoints keeps
  -- the global total of minted riseSOL and the rewards program's total debt each equal to the sum
  -- of the positions' principals; and a position that is closed owes no principal.
  pub history-IsTracked :
      (authority : Pubkey) (multiplier bump : ℕ) (c : CdpConfig) (a : InitializeBorrowRewards)
      (emissions slots : ℕ) (b : B) (rc : BorrowRewardsConfig) (w : Books)
      → initialize_cdp_config authority multiplier bump ≡ ok c
      → initialize_borrow_rewards rt a emissions slots b ≡ ok rc
      → Reach rt mk (record { config = c; rewards = rc; positions = [] }) w
      → IsTracked w
  unfolding initialize_cdp_config initialize_borrow_rewards
  history-IsTracked authority multiplier bump c a emissions slots b rc w hc hr r =
      Reach-IsTracked
        (record { minted_total = ground arith; debt_total = ground arith; all_clear = tt }) r
