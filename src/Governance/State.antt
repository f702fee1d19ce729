-- ===== src/Governance/State.antt =====
-- programs/rise-governance/src/state.rs and errors.rs: the config and the locks.
use rise_protocol.Prelude.{
  ℕ, ◌-◌, ◌*◌, ◌/◌, ◌%◌, min, max, Option, Result, leb, ◌==◌, if◌then◌else◌, ◌>>=◌, ok, panic,
  ok_or, or_fault, and_then, checked_sub, checked_mul, checked_div, try_from, u64, u128,
}
use rise_protocol.Solana.{Pubkey}

pub data GovernanceError : Type 0 where
  lock_too_short lock_too_long lock_not_expired lock_expired zero_amount : GovernanceError
  invalid_gauge_weights voting_ended voting_not_ended already_executed : GovernanceError
  proposal_failed timelock_not_elapsed insufficient_ve_rise math_overflow : GovernanceError
  no_rewards_to_claim already_voted invalid_config transfer_amount_mismatch : GovernanceError
  too_many_active_proposals unauthorized : GovernanceError

abbrev pub Outcome : Type 0 → Type 0
Outcome = Result GovernanceError

-- `.ok_or(GovernanceError::MathOverflow)?`
abbrev pub or_overflow : {A : Type 0} → Option A → Outcome A
or_overflow o = ok_or o math_overflow

pub record GovernanceConfig : Type 0 where
  pub authority : Pubkey
  pub rise_mint : Pubkey
  pub total_verise : ℕ
  pub min_lock_slots : ℕ
  pub max_lock_slots : ℕ
  pub proposal_threshold : ℕ
  pub voting_period_slots : ℕ
  pub timelock_slots : ℕ
  pub quorum_bps : ℕ
  pub proposal_count : ℕ
  pub lock_count : ℕ
  pub active_proposal_count : ℕ
  pub bump : ℕ

pub record VeLock : Type 0 where
  pub owner : Pubkey
  pub rise_locked : ℕ
  pub verise_amount : ℕ
  pub lock_start_slot : ℕ
  pub lock_end_slot : ℕ
  pub last_revenue_index : ℕ
  pub total_revenue_claimed : ℕ
  pub nft_mint : Pubkey
  pub lock_number : ℕ
  pub nonce : ℕ
  pub bump : ℕ

abbrev pub min_proposal_threshold : ℕ
min_proposal_threshold = 100_000

abbrev pub slots_per_week : ℕ
slots_per_week = 604_800

abbrev pub max_lock_slots_limit : ℕ
max_lock_slots_limit = 315_360_000

-- Four years for one veRISE each.
unfoldable pub calculate_verise : ℕ → ℕ → Option ℕ
calculate_verise rise_amount lock_slots =
    and_then (checked_mul u128 rise_amount lock_slots) (λ product.
      and_then (checked_div product max_lock_slots_limit) (λ verise. try_from u64 verise))

-- The voting weight, which falls to zero at the lock's end; at least one until then. The
-- subtraction of the slots panics where it overflows.
unfoldable pub current_verise : VeLock → ℕ → Outcome ℕ
current_verise l current_slot =
    if leb l.lock_end_slot current_slot
    then ok 0
    else or_fault (checked_sub l.lock_end_slot l.lock_start_slot) panic >>= (λ total_slots.
      if total_slots == 0
      then ok 0
      else ok (
          max
            (min (l.verise_amount * (l.lock_end_slot - current_slot)) (u128 - 1)
              / total_slots
              % u64)
            1))
