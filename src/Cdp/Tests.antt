-- ===== src/Cdp/Tests.antt =====
-- Theorems on the loans, at concrete inputs.
mod Repayments
mod Opened
mod Loans
mod Liquidations
use rise_protocol.Prelude.{
  ◌+◌, ◌*◌, ◌/◌, ◌≤◌, ◌<◌, ◌≡◌, ◌↔◌, ◌⊎◌, refl, true, false, some, none, ok, err, arith, u64, u128,
  [], ◌∷◌,
}
use rise_protocol.Staking.State.{GlobalPool}
use rise_protocol.Cdp.State.{
  CdpPosition, CollateralConfig, CdpConfig, Outcome, compute_health_factor, rate_scale,
}
use rise_protocol.Cdp.Interest.{
  AccrueInterest, accrue_interest, accrue, current_rate, debt_ceiling, global_utilization,
  effective_rate, slope1_contribution, slope2_contribution, interest_on, add_interest,
}
use rise_protocol.Cdp.Config.{
  CollateralTerms, CollateralChanges, initialize_collateral_config, update_collateral_config,
  check_terms, replace_within,
}
use rise_protocol.Cdp.ConfigLaws.{
  IsValid, initialize_collateral_config-IsValid, update_collateral_config-IsValid,
}
use rise_protocol.Cdp.InterestLaws.{effective_rate_monotone, compute_health_factor_threshold}
use rise_protocol.Cdp.Permission.{ConfigChange, collateral_change, Kept, ConfigChange-Kept}
use rise_protocol.Cdp.Repay.{accrue_before_repayment}
use rise_protocol.Cdp.RepayAccrual.{accrue_before_repayment_agrees}
use rise_protocol.Cdp.Accrual.{FitsCeiling}
use rise_protocol.Cdp.AccrualLaws.{interest_over, accrue_interest-succeeds, accrue_interest_twice}
use rise_protocol.Cdp.Often.{
  accrue_at_each, IsFrequent, done, next, last_slot, highest_rate, accrue_at_each_charges_nothing,
}

abbrev pub ok_value : {A : Type 0} → Outcome A → A → A
ok_value (ok a) before = a
ok_value (err e) before = before

abbrev pub terms : CollateralTerms
terms = record {
  feed_id = 70;
  max_ltv_bps = 7_000;
  liquidation_threshold_bps = 8_500;
  liquidation_penalty_bps = 500;
  base_rate_bps = 200;
  rate_slope1_bps = 400;
  rate_slope2_bps = 5_000;
  optimal_utilization_bps = 8_000;
  conversion_slippage_bps = 100;
}

abbrev pub changes : CollateralChanges
changes = record {
  feed_id = none;
  max_ltv_bps = none;
  liquidation_threshold_bps = some 8_000;
  liquidation_penalty_bps = none;
  base_rate_bps = none;
  rate_slope1_bps = none;
  rate_slope2_bps = some 6_000;
  optimal_utilization_bps = none;
  conversion_slippage_bps = none;
  active = some true;
}

abbrev pub loans : CdpConfig
loans = record {
  authority = 1;
  cdp_rise_sol_minted = 1_200_000_000_000;
  debt_ceiling_multiplier_bps = 30_000;
  bump = 255;
}

abbrev pub initial_config : CollateralConfig
initial_config = record {
  mint = 60;
  pyth_price_feed = 70;
  max_ltv_bps = 7_000;
  liquidation_threshold_bps = 8_500;
  liquidation_penalty_bps = 500;
  base_rate_bps = 200;
  rate_slope1_bps = 400;
  rate_slope2_bps = 5_000;
  optimal_utilization_bps = 8_000;
  conversion_slippage_bps = 100;
  active = true;
  total_positions = 0;
  total_collateral_entitlements = 0;
  bump = 253;
}

abbrev pub config : CollateralConfig
config = record initial_config { liquidation_threshold_bps = 8_000; rate_slope2_bps = 6_000 }

pub initialises : initialize_collateral_config 1 60 terms 253 ≡ ok initial_config
unfolding initialize_collateral_config check_terms
initialises = refl

pub updates : update_collateral_config 1 loans initial_config changes ≡ ok config
unfolding update_collateral_config replace_within
updates = refl

pub config-IsValid : IsValid config
config-IsValid =
    update_collateral_config-IsValid 1 loans initial_config changes config updates
      (initialize_collateral_config-IsValid 1 60 terms 253 initial_config initialises)

-- With the collateral of the sample position on its books.
abbrev held_config : CollateralConfig
held_config = record config { total_collateral_entitlements = 20_000_000_000_000 }

held_config-IsValid : IsValid held_config
held_config-IsValid =
    let v = config-IsValid in
    record {
      ltv_below_threshold = v.ltv_below_threshold;
      ltv_limit = v.ltv_limit;
      threshold_limit = v.threshold_limit;
      penalty_limit = v.penalty_limit;
      base_limit = v.base_limit;
      slope1_limit = v.slope1_limit;
      slope2_limit = v.slope2_limit;
      optimal_limit = v.optimal_limit;
    }

abbrev pub pool : GlobalPool
pool = record {
  authority = 1;
  rise_sol_mint = 2;
  total_sol_staked = 1_000_000_000_000;
  staking_rise_sol_supply = 1_000_000_000_000;
  exchange_rate = 1_000_000_000;
  last_rate_update_epoch = 500;
  liquid_buffer_lamports = 1_000_000_000_000;
  liquid_buffer_target_bps = 1_000;
  protocol_fee_bps = 1_000;
  paused = false;
  pending_withdrawals_lamports = 0;
  bump = 255;
  cdp_config_pubkey = 3;
  prev_exchange_rate = 1_000_000_000;
  prev_rate_update_slot = 0;
  unstake_nonce = 0;
}

-- A loan of 1000 riseSOL.
abbrev pub position : CdpPosition
position = record {
  owner = 40;
  collateral_mint = 60;
  collateral_amount_original = 20_000_000_000_000;
  collateral_usd_value = 300_000_000_000;
  rise_sol_debt_principal = 1_000_000_000_000;
  interest_accrued = 0;
  last_accrual_slot = 1_000;
  health_factor = 1_500_000_000_000_000_000;
  opened_at_slot = 1_000;
  nonce = 0;
  is_open = true;
  excess_withdrawal_queued = 0;
  excess_withdrawal_available_slot = 0;
  pending_buyback_lamports = 0;
  bump = 252;
}

abbrev accounts : AccrueInterest
accounts = record {
  position = position;
  collateral_config = config;
  cdp_config = loans;
  global_pool = pool;
}

rate_at_40 : effective_rate config 4_000 ≡ ok 400
unfolding effective_rate slope1_contribution u128
rate_at_40 = refl

rate_at_90 : effective_rate config 9_000 ≡ ok 3_600
unfolding effective_rate slope2_contribution u128
rate_at_90 = refl

effective_rate_monotone_example : (200 ≤ 400) × (400 ≤ 3_600) × (3_600 ≤ 200 + 400 + 6_000)
effective_rate_monotone_example =
    effective_rate_monotone config 4_000 9_000 400 3_600 (omega arith) (omega arith) rate_at_40
      rate_at_90

health_of_923 :
    compute_health_factor 1_500_000_000 1_300_000_000 8_000 ≡ some 923_076_923_076_923_076
unfolding compute_health_factor u128
health_of_923 = refl

compute_health_factor_threshold_example :
    (923_076_923_076_923_076 < rate_scale) ↔ (1_500_000_000 * 8_000 / 10_000 < 1_300_000_000)
compute_health_factor_threshold_example =
    compute_health_factor_threshold 1_500_000_000 1_300_000_000 8_000 923_076_923_076_923_076
      health_of_923

fits : FitsCeiling pool loans
unfolding u128
fits = record { ceiling_fits = omega arith; utilization_fits = omega arith }

below_u64 : 1_000_000_000_000 < u64
unfolding u64
below_u64 = omega arith

zero_fits : 0 < u64
unfolding u64
zero_fits = omega arith

room : 0 + interest_over 1_000_000_000_000 80_000 4_000 < u64
unfolding u64
room = omega arith

accrue_interest-succeeds_example :
    (p : CdpPosition) × (accrue_interest (record accounts { collateral_config = held_config }) 5_000
      ≡ ok p)
    × (p.last_accrual_slot ≡ 5_000)
    × (p.rise_sol_debt_principal ≡ 1_000_000_000_000)
    × (0 ≤ p.interest_accrued)
    × (p.interest_accrued ≤ 0 + interest_over 1_000_000_000_000 80_000 4_000)
accrue_interest-succeeds_example =
    accrue_interest-succeeds (record accounts { collateral_config = held_config }) 5_000
      held_config-IsValid fits refl (omega arith) (omega arith) below_u64 room

abbrev after_first : CdpPosition
after_first = record position { interest_accrued = 507_356; last_accrual_slot = 2_000 }

abbrev after_second : CdpPosition
after_second = record position { interest_accrued = 2_029_426; last_accrual_slot = 5_000 }

abbrev after_once : CdpPosition
after_once = record position { interest_accrued = 2_029_426; last_accrual_slot = 5_000 }

accrues_first : accrue_interest accounts 2_000 ≡ ok after_first
unfolding accrue_interest accrue current_rate debt_ceiling global_utilization effective_rate
    slope1_contribution interest_on add_interest u64 u128
accrues_first = refl

accrues_second :
    accrue_interest (record accounts { position = after_first }) 5_000 ≡ ok after_second
unfolding accrue_interest accrue current_rate debt_ceiling global_utilization effective_rate
    slope1_contribution interest_on add_interest u64 u128
accrues_second = refl

accrues_once : accrue_interest accounts 5_000 ≡ ok after_once
unfolding accrue_interest accrue current_rate debt_ceiling global_utilization effective_rate
    slope1_contribution interest_on add_interest u64 u128
accrues_once = refl

accrue_interest_twice_example : (2_029_426 ≤ 2_029_426) × (2_029_426 ≤ 2_029_426 + 1)
accrue_interest_twice_example =
    accrue_interest_twice accounts 2_000 5_000 after_first after_second after_once (omega arith)
      (omega arith) accrues_first accrues_second accrues_once

-- A loan of 0.05 riseSOL, for which anyone accrues the interest at every other slot.
abbrev small_accounts : AccrueInterest
small_accounts = record accounts {
  collateral_config = held_config;
  position = record position { rise_sol_debt_principal = 50_000_000 };
}

frequent : IsFrequent 2 1_000 (1_002 ∷ 1_004 ∷ 1_005 ∷ [])
frequent =
    next (omega arith) (omega arith)
      (next (omega arith) (omega arith) (next (omega arith) (omega arith) done))

below_one_unit : 50_000_000 * highest_rate held_config * 2 < 10_000 * 78_840_000
unfolding highest_rate
below_one_unit = omega arith

accrue_at_each_charges_nothing_example :
    accrue_at_each small_accounts (1_002 ∷ 1_004 ∷ 1_005 ∷ [])
    ≡ ok (record small_accounts.position {
      last_accrual_slot = last_slot 1_000 (1_002 ∷ 1_004 ∷ 1_005 ∷ []);
    })
accrue_at_each_charges_nothing_example =
    accrue_at_each_charges_nothing small_accounts (1_002 ∷ 1_004 ∷ 1_005 ∷ []) 2 held_config-IsValid
      fits refl zero_fits below_one_unit frequent

ConfigChange-Kept_example :
    (loans.authority ≡ loans.authority)
    × Kept {signer = 1} {loans = loans} (collateral_change initial_config config changes updates)
ConfigChange-Kept_example =
    ConfigChange-Kept 1 loans (collateral_change initial_config config changes updates)

accrue_before_repayment_agrees_example :
    (accrue_before_repayment accounts 2_000 ≡ ok after_first)
    ⊎ ((accrue_before_repayment accounts 2_000 ≡ ok position)
        × (507_356 ≡ position.interest_accrued))
accrue_before_repayment_agrees_example =
    accrue_before_repayment_agrees accounts 2_000 after_first accrues_first
