-- ===== src/Gauges/Tests.antt =====
-- Theorems on gauges and stakes, at concrete inputs.
use rise_protocol.Prelude.{
  ◌+◌, ◌*◌, ◌/◌, ◌%◌, ◌<◌, ◌≡◌, ◌≢◌, refl, true, ok, err, if◌then◌else◌, ◌==◌, [], ◌∷◌, arith, u64,
  u128,
}
use rise_protocol.Solana.{Pubkey, TokenAccount}
use rise_protocol.Sample.{Bank, sample_runtime}
use rise_protocol.Gauges.State.{RewardsConfig, Gauge, UserStake, Outcome}
use rise_protocol.Gauges.Emission.{
  checkpoint_gauge, advance_epoch, checkpoint_epoch, allocate, distribute,
}
use rise_protocol.Gauges.Stake.{
  StakeAccounts, accumulated, with_amount, claimable, deposit_lp, claim_rewards,
}
use rise_protocol.Gauges.Totals.{Books, History, no_stake}
use rise_protocol.Gauges.Missed.{checkpoint_epoch_pays_once, claim_rewards_twice}

abbrev ok_value : {A : Type 0} → Outcome A → A → A
ok_value (ok a) before = a
ok_value (err e) before = before

abbrev config : RewardsConfig
config = record {
  authority = 1;
  rise_mint = 5;
  epoch_emissions = 1_000_000;
  current_epoch = 0;
  epoch_start_slot = 0;
  slots_per_epoch = 604_800;
  gauge_count = 0;
  bump = 255;
}

abbrev new_gauge : Gauge
new_gauge = record {
  pool = 30;
  index = 0;
  weight_bps = 0;
  active = true;
  reward_per_token = 0;
  total_lp_deposited = 0;
  last_checkpoint_epoch = 0;
  total_distributed = 0;
  pending_emissions = 0;
  bump = 254;
}

-- The user's tokens, the gauge's vault, and the rewards.
abbrev token_accounts : Pubkey → TokenAccount
token_accounts key =
    if key == 61
    then record { mint = 60; owner = 40; amount = 9_000 }
    else if key == 62
    then record { mint = 60; owner = 62; amount = 0 }
    else if key == 63
    then record { mint = 5; owner = 6; amount = 5_000_000 }
    else record { mint = 5; owner = 40; amount = 0 }

abbrev bank : Bank
bank = record { balance = λ k. 890_880; token = token_accounts; epoch = 7; slot = 700_000 }

abbrev accounts : Gauge → UserStake → StakeAccounts
accounts g s = record {
  signer = 40;
  config_key = 6;
  config = config;
  gauge_key = 31;
  gauge = g;
  user_stake = s;
  stake_bump = 253;
  user_lp_account = 61;
  gauge_lp_vault = 62;
  rewards_vault = 63;
  user_rise_account = 64;
}

deposited : Gauge × UserStake × Bank
unfolding deposit_lp with_amount accumulated u64 u128
deposited =
    ok_value (deposit_lp sample_runtime (accounts new_gauge no_stake) 7_000 bank)
      (new_gauge, no_stake, bank)

weighed : Gauge
unfolding deposited
weighed = record deposited.0 { weight_bps = 5_000 }

checkpointed : RewardsConfig × Gauge
unfolding checkpoint_gauge advance_epoch checkpoint_epoch allocate distribute weighed u64 u128
checkpointed = ok_value (checkpoint_gauge config weighed 700_000) (config, weighed)

-- Half of the emissions.
distributed : checkpointed.1.total_distributed ≡ 500_000
unfolding checkpointed
distributed = refl

claimed : UserStake × Bank
unfolding claim_rewards claimable with_amount accumulated checkpointed deposited u64 u128
claimed =
    ok_value (claim_rewards sample_runtime (accounts checkpointed.1 deposited.1) bank)
      (deposited.1, bank)

claims_rewards :
    claim_rewards sample_runtime (accounts checkpointed.1 deposited.1) bank ≡ ok claimed
unfolding claimed
claims_rewards = refl

abbrev books : Books
books = record { gauge = checkpointed.1; stakes = claimed.0 ∷ []; paid = 499_999; changes = 1 }

-- Nine epochs on, with deposits in the gauge.
checkpoint_example : Gauge
unfolding checkpoint_epoch allocate distribute weighed u64 u128
checkpoint_example =
    ok_value (checkpoint_epoch (record config { current_epoch = 9 }) weighed) weighed

checkpoints_epoch :
    checkpoint_epoch (record config { current_epoch = 9 }) weighed ≡ ok checkpoint_example
unfolding checkpoint_example
checkpoints_epoch = refl

before_ninth : weighed.last_checkpoint_epoch < 9
unfolding weighed
before_ninth = omega arith

checkpoint_epoch_pays_once_example :
    (checkpoint_example.total_distributed + checkpoint_example.pending_emissions
      ≡ weighed.total_distributed
        + weighed.pending_emissions
        + 1_000_000 * weighed.weight_bps / 10_000 % u64)
    × (0 < weighed.total_lp_deposited → checkpoint_example.pending_emissions ≡ 0)
    × (weighed.total_lp_deposited ≡ 0
        → checkpoint_example.total_distributed ≡ weighed.total_distributed)
    × (checkpoint_example.last_checkpoint_epoch ≡ 9)
checkpoint_epoch_pays_once_example =
    checkpoint_epoch_pays_once (record config { current_epoch = 9 }) weighed checkpoint_example
      checkpoints_epoch before_ninth

claim_rewards_twice_example :
    claim_rewards sample_runtime (accounts checkpointed.1 claimed.0) claimed.1 ≢ ok claimed
claim_rewards_twice_example =
    claim_rewards_twice sample_runtime (accounts checkpointed.1 deposited.1) bank claimed.0
      claimed.1 claimed.1 claims_rewards claimed
