-- ===== src/Gauges/Totals.antt =====
-- programs/rise-rewards: the books of one gauge, that is the gauge with its stakes, and the steps
-- that the program's instructions make. They count the rewards that were paid and the changes of
-- a stake's amount.
use rise_protocol.Prelude.{ℕ, ◌+◌, ◌≤◌, ◌≡◌, ok, List, [], ◌∷◌, Replaced, Removed}
use rise_protocol.Solana.{Pubkey, Runtime}
use rise_protocol.Gauges.State.{RewardsConfig, Gauge, UserStake}
use rise_protocol.Gauges.Emission.{create_gauge, set_gauge_weight, checkpoint_gauge}
use rise_protocol.Gauges.Stake.{
  StakeAccounts, claimable, deposit_lp, withdraw_lp, claim_rewards, force_withdraw_lp,
}

pub record Books : Type 0 where
  pub gauge : Gauge
  pub stakes : List UserStake
  pub paid : ℕ
  pub changes : ℕ

-- An account that was just created.
abbrev pub no_stake : UserStake
no_stake = record {
  owner = 0;
  gauge = 0;
  lp_amount = 0;
  reward_debt = 0;
  pending_rewards = 0;
  bump = 0;
}

module _ {B : Type 0} (rt : Runtime B) where
  -- Whatever else an instruction reads or writes is free.
  pub data Step (w w' : Books) : Type 0 where
    joins :
        (a : StakeAccounts) (n : ℕ) (b : B) (s : UserStake) (b' : B)
        → deposit_lp rt a n b ≡ ok (w'.gauge, s, b')
        → a.gauge ≡ w.gauge
        → a.user_stake ≡ no_stake
        → w'.stakes ≡ s ∷ w.stakes
        → w'.paid ≡ w.paid
        → w'.changes ≡ w.changes + 1
        → Step w w'
    deposits :
        (a : StakeAccounts) (n : ℕ) (b : B) (s : UserStake) (b' : B)
        → deposit_lp rt a n b ≡ ok (w'.gauge, s, b')
        → a.gauge ≡ w.gauge
        → Replaced a.user_stake s w.stakes w'.stakes
        → w'.paid ≡ w.paid
        → w'.changes ≡ w.changes + 1
        → Step w w'
    withdraws :
        (a : StakeAccounts) (n : ℕ) (b : B) (s : UserStake) (b' : B)
        → withdraw_lp rt a n b ≡ ok (w'.gauge, s, b')
        → a.gauge ≡ w.gauge
        → Replaced a.user_stake s w.stakes w'.stakes
        → w'.paid ≡ w.paid
        → w'.changes ≡ w.changes + 1
        → Step w w'
    claims :
        (a : StakeAccounts) (b : B) (s : UserStake) (b' : B) (n : ℕ)
        → claim_rewards rt a b ≡ ok (s, b')
        → claimable a.gauge a.user_stake ≡ ok n
        → a.gauge ≡ w.gauge
        → w'.gauge ≡ w.gauge
        → Replaced a.user_stake s w.stakes w'.stakes
        → w'.paid ≡ w.paid + n
        → w'.changes ≡ w.changes
        → Step w w'
    forces :
        (a : StakeAccounts) (depositor : Pubkey) (b b' : B) (n paid : ℕ)
        → force_withdraw_lp rt a depositor b ≡ ok (w'.gauge, b')
        → claimable a.gauge a.user_stake ≡ ok n
        → paid ≤ n
        → a.gauge ≡ w.gauge
        → Removed a.user_stake w.stakes w'.stakes
        → w'.paid ≡ w.paid + paid
        → w'.changes ≡ w.changes
        → Step w w'
    checkpoints :
        (c c' : RewardsConfig) (slot : ℕ)
        → checkpoint_gauge c w.gauge slot ≡ ok (c', w'.gauge)
        → w'.stakes ≡ w.stakes
        → w'.paid ≡ w.paid
        → w'.changes ≡ w.changes
        → Step w w'
    weighs :
        (authority : Pubkey) (c : RewardsConfig) (weight_bps : ℕ)
        → set_gauge_weight authority c w.gauge weight_bps ≡ ok w'.gauge
        → w'.stakes ≡ w.stakes
        → w'.paid ≡ w.paid
        → w'.changes ≡ w.changes
        → Step w w'

  -- The histories of a gauge from its creation on.
  pub data History : Books → Type 0 where
    creates :
        (authority : Pubkey) (c : RewardsConfig) (pool : Pubkey) (bump : ℕ) (c' : RewardsConfig)
        (g : Gauge)
        → create_gauge authority c pool bump ≡ ok (c', g)
        → History (record { gauge = g; stakes = []; paid = 0; changes = 0 })
    step : {w w' : Books} → History w → Step w w' → History w'
