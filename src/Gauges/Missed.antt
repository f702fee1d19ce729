-- ===== src/Gauges/Missed.antt =====
-- programs/rise-rewards: claims and checkpoints that are repeated or missed.
use rise_protocol.Prelude.{◌+◌, ◌*◌, ◌/◌, ◌%◌, ◌<◌, ◌≡◌, ◌≢◌, ok, arith, u64}
use rise_protocol.Solana.{Runtime}
use rise_protocol.Gauges.State.{RewardsConfig, Gauge, UserStake}
use rise_protocol.Gauges.Emission.{allocate, distribute, checkpoint_epoch}
use rise_protocol.Gauges.Stake.{StakeAccounts, accumulated, with_amount, claimable, claim_rewards}

-- The epochs that a gauge missed are lost: however many have passed since its last checkpoint, a
-- checkpoint that succeeds adds to what was distributed and what is pending together exactly the
-- gauge's share of one epoch's emissions, as 64 bits hold it. With deposits in the gauge nothing
-- stays pending, without any nothing is distributed; and the epoch is recorded.
pub checkpoint_epoch_pays_once :
    (c : RewardsConfig) (g g' : Gauge)
    → checkpoint_epoch c g ≡ ok g'
    → g.last_checkpoint_epoch < c.current_epoch
    → (g'.total_distributed + g'.pending_emissions
        ≡ g.total_distributed
          + g.pending_emissions
          + c.epoch_emissions * g.weight_bps / 10_000 % u64)
      × (0 < g.total_lp_deposited → g'.pending_emissions ≡ 0)
      × (g.total_lp_deposited ≡ 0 → g'.total_distributed ≡ g.total_distributed)
      × (g'.last_checkpoint_epoch ≡ c.current_epoch)
unfolding checkpoint_epoch allocate distribute
checkpoint_epoch_pays_once c g g' h late =
    (ground arith, λ some_in. ground arith, λ none_in. ground arith, ground arith)

module _ {B : Type 0} (rt : Runtime B) where
  -- Right after a claim, with the gauge as it was, another claim fails, whatever the bank.
  pub claim_rewards_twice :
      (a : StakeAccounts) (b : B) (s : UserStake) (b' b'' : B)
      → claim_rewards rt a b ≡ ok (s, b')
      → (result : UserStake × B) → claim_rewards rt (record a { user_stake = s }) b'' ≢ ok result
  unfolding claim_rewards with_amount claimable accumulated
  claim_rewards_twice a b s b' b'' h result again = ground arith
