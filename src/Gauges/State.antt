-- ===== src/Gauges/State.antt =====
-- programs/rise-rewards/src/state.rs and errors.rs: the accounts of the program.
use rise_protocol.Prelude.{ℕ, Bool, Option, Result, ok_or}
use rise_protocol.Solana.{Pubkey}

pub data RewardsError : Type 0 where
  zero_amount gauge_not_active no_rewards_to_claim math_overflow epoch_not_ended : RewardsError
  unauthorized insufficient_balance invalid_weight gauge_has_active_deposits : RewardsError

abbrev pub Outcome : Type 0 → Type 0
Outcome = Result RewardsError

-- `.ok_or(RewardsError::MathOverflow)?`
abbrev pub or_overflow : {A : Type 0} → Option A → Outcome A
or_overflow o = ok_or o math_overflow

pub record RewardsConfig : Type 0 where
  pub authority : Pubkey
  pub rise_mint : Pubkey
  pub epoch_emissions : ℕ
  pub current_epoch : ℕ
  pub epoch_start_slot : ℕ
  pub slots_per_epoch : ℕ
  pub gauge_count : ℕ
  pub bump : ℕ

pub record Gauge : Type 0 where
  pub pool : Pubkey
  pub index : ℕ
  pub weight_bps : ℕ
  pub active : Bool
  pub reward_per_token : ℕ
  pub total_lp_deposited : ℕ
  pub last_checkpoint_epoch : ℕ
  pub total_distributed : ℕ
  pub pending_emissions : ℕ
  pub bump : ℕ

pub record UserStake : Type 0 where
  pub owner : Pubkey
  pub gauge : Pubkey
  pub lp_amount : ℕ
  pub reward_debt : ℕ
  pub pending_rewards : ℕ
  pub bump : ℕ

abbrev pub default_slots_per_epoch : ℕ
default_slots_per_epoch = 604_800

abbrev pub reward_scale : ℕ
reward_scale = 1_000_000_000_000
