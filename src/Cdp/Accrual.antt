-- ===== src/Cdp/Accrual.antt =====
-- programs/rise-cdp, accrue_interest: lemmas on its arithmetic and on its branches.
use native.Mathlib.Nat.{mul-le-mul}
use rise_protocol.Prelude.{
  ℕ, ◌+◌, ◌-◌, ◌*◌, ◌/◌, ◌≤◌, ◌<◌, ◌≡◌, ◌⊎◌, inl, inr, true, ok, arith, u64, u128, bind-eq_ok,
  Result-cases, Bool-cases, leb, leb→le,
}
use rise_protocol.Staking.State.{GlobalPool}
use rise_protocol.Cdp.State.{CdpPosition, CollateralConfig, CdpConfig, slots_per_year, rate_scale}
use rise_protocol.Cdp.Interest.{
  AccrueInterest, current_rate, accrue_interest, accrue, effective_rate, slope1_contribution,
  debt_ceiling, slope2_contribution, interest_on, add_interest, global_utilization,
}
use rise_protocol.Cdp.ConfigLaws.{IsValid}
use rise_protocol.Cdp.InterestLaws.{effective_rate_monotone, u128-big, slope1-le, slope2-le}

interest_on-eq :
    (principal rate slots i : ℕ)
    → interest_on principal rate slots ≡ ok i
    → i ≡ principal * rate * slots / 10_000 / slots_per_year
unfolding interest_on
interest_on-eq principal rate slots i h = ground arith

interest_on-total :
    (principal rate slots : ℕ)
    → principal * rate < u128
    → principal * rate * slots < u128
    → principal * rate * slots / 10_000 / slots_per_year < u64
    → interest_on principal rate slots ≡ ok (principal * rate * slots / 10_000 / slots_per_year)
unfolding interest_on
interest_on-total principal rate slots h1 h2 h3 = ground arith

utilization-le :
    (ceiling : ℕ) (c : CdpConfig) (u : ℕ) → global_utilization ceiling c ≡ ok u → u ≤ 10_000
unfolding global_utilization
utilization-le ceiling c u h = ground arith

utilization-total :
    (ceiling : ℕ) (c : CdpConfig)
    → c.cdp_rise_sol_minted * 10_000 < u128
    → (u : ℕ) × (global_utilization ceiling c ≡ ok u)
unfolding global_utilization
utilization-total ceiling c h = elim (Result-cases (global_utilization ceiling c)) [
  | inl found ↦ found
  | inr (e, failed) ↦ ground arith
]

ceiling-total :
    (g : GlobalPool) (c : CdpConfig)
    → g.staking_rise_sol_supply * c.debt_ceiling_multiplier_bps < u128
    → debt_ceiling g c ≡ ok (g.staking_rise_sol_supply * c.debt_ceiling_multiplier_bps / 10_000)
unfolding debt_ceiling
ceiling-total g c h = ground arith

small-product : {a b m n : ℕ} → a ≤ m → b ≤ n → m * n ≤ rate_scale → a * b < u128
small-product le le' small = let big = u128-big in let product = mul-le-mul le le' in grind arith

slope1-total :
    (c : CollateralConfig) (u : ℕ)
    → IsValid c
    → u ≤ 10_000
    → (s : ℕ) × (slope1_contribution c u ≡ ok s)
unfolding slope1_contribution
slope1-total c u v le =
    let product = small-product {n = 10_000} v.slope1_limit le (omega arith) in
    elim (Result-cases (slope1_contribution c u)) [
      | inl found ↦ found
      | inr (e, failed) ↦ ground arith
    ]

slope2-total :
    (c : CollateralConfig) (u : ℕ)
    → IsValid c
    → u ≤ 10_000
    → c.optimal_utilization_bps < u
    → (s : ℕ) × (slope2_contribution c u ≡ ok s)
unfolding slope2_contribution
slope2-total c u v le above =
    let part : u - c.optimal_utilization_bps ≤ 10_000 = omega arith in
    let product = small-product {n = 10_000} v.slope2_limit part (omega arith) in
    elim (Result-cases (slope2_contribution c u)) [
      | inl found ↦ found
      | inr (e, failed) ↦ ground arith
    ]

rate-below :
    (c : CollateralConfig) (u s : ℕ)
    → u ≤ c.optimal_utilization_bps
    → slope1_contribution c u ≡ ok s
    → c.base_rate_bps + s < u128
    → effective_rate c u ≡ ok (c.base_rate_bps + s)
unfolding effective_rate
rate-below c u s le slope fits = ground arith

rate-above :
    (c : CollateralConfig) (u s : ℕ)
    → c.optimal_utilization_bps < u
    → slope2_contribution c u ≡ ok s
    → c.base_rate_bps + c.rate_slope1_bps + s < u128
    → effective_rate c u ≡ ok (c.base_rate_bps + c.rate_slope1_bps + s)
unfolding effective_rate
rate-above c u s above slope fits = ground arith

rate-found :
    (c : CollateralConfig) (u : ℕ) → IsValid c → u ≤ 10_000 → (r : ℕ) × (effective_rate c u ≡ ok r)
rate-found c u v le =
    let big = u128-big in
    let base = v.base_limit in
    let slope1 = v.slope1_limit in
    let slope2 = v.slope2_limit in
    elim (Bool-cases (leb u c.optimal_utilization_bps)) [
      | inl within ↦
          let under = leb→le u c.optimal_utilization_bps within in
          let (s, slope) = slope1-total c u v le in
          let bound = slope1-le c u s slope under in
          (c.base_rate_bps + s, rate-below c u s under slope (omega arith))
      | inr outside ↦
          let above : c.optimal_utilization_bps < u = ground arith in
          let (s, slope) = slope2-total c u v le above in
          let bound = slope2-le c u s slope le above in
          (c.base_rate_bps + c.rate_slope1_bps + s, rate-above c u s above slope (omega arith))
    ]

-- In a valid config, at most 800% a year.
rate-total :
    (c : CollateralConfig) (u : ℕ)
    → IsValid c
    → u ≤ 10_000
    → (r : ℕ) × (effective_rate c u ≡ ok r) × (r ≤ 80_000)
rate-total c u v le =
    let (r, found) = rate-found c u v le in
    let bounds = effective_rate_monotone c u u r r (omega arith) le found found in
    let base = v.base_limit in
    let slope1 = v.slope1_limit in
    let slope2 = v.slope2_limit in (r, found, omega (arith, bounds.2))

pub current_rate-le :
    (a : AccrueInterest) (r : ℕ)
    → current_rate a ≡ ok r
    → (a.collateral_config.base_rate_bps ≤ r)
      × (r
          ≤ a.collateral_config.base_rate_bps + a.collateral_config.rate_slope1_bps
            + a.collateral_config.rate_slope2_bps)
unfolding current_rate
current_rate-le a r h =
    let (ceiling, at_ceiling, rest) = bind-eq_ok (debt_ceiling a.global_pool a.cdp_config) _ h in
    let (u, used, found) = bind-eq_ok (global_utilization ceiling a.cdp_config) _ rest in
    let bounds =
      effective_rate_monotone a.collateral_config u u r r (omega arith)
        (utilization-le ceiling a.cdp_config u used) found found in
    (bounds.0, bounds.2)

-- What the runtime state keeps within its integer types: the supply and the debt in units of
-- riseSOL, against the factors of the ceiling and of the utilization.
pub record FitsCeiling (g : GlobalPool) (c : CdpConfig) : Type 0 where
  pub ceiling_fits : g.staking_rise_sol_supply * c.debt_ceiling_multiplier_bps < u128
  pub utilization_fits : c.cdp_rise_sol_minted * 10_000 < u128

pub current_rate-total :
    (a : AccrueInterest)
    → IsValid a.collateral_config
    → FitsCeiling a.global_pool a.cdp_config
    → (r : ℕ) × (current_rate a ≡ ok r) × (r ≤ 80_000)
unfolding current_rate
current_rate-total a v fits =
    let ceiling =
      a.global_pool.staking_rise_sol_supply * a.cdp_config.debt_ceiling_multiplier_bps / 10_000 in
    let at_ceiling = ceiling-total a.global_pool a.cdp_config fits.ceiling_fits in
    let (u, used) = utilization-total ceiling a.cdp_config fits.utilization_fits in
    let (r, found, le) =
      rate-total a.collateral_config u v (utilization-le ceiling a.cdp_config u used) in
    (r, rw at_ceiling (rw used found), le)

-- An accrual by its branches.
pub accrue_interest-eq :
    (a : AccrueInterest) (t : ℕ) (p : CdpPosition)
    → accrue_interest a t ≡ ok p
    → ((t ≤ a.position.last_accrual_slot) × (p ≡ a.position))
      ⊎ ((a.position.last_accrual_slot < t)
          × (r : ℕ) × (current_rate a ≡ ok r)
          × (p ≡ record a.position {
            interest_accrued =
                a.position.interest_accrued
                + a.position.rise_sol_debt_principal
                  * r
                  * (t - a.position.last_accrual_slot)
                  / 10_000
                  / slots_per_year;
            last_accrual_slot = t;
          }))
unfolding accrue_interest accrue interest_on add_interest
accrue_interest-eq a t p h = ground arith

-- An accrual that is due goes through when the numbers fit.
pub accrue_interest-total :
    (a : AccrueInterest) (t r : ℕ)
    → a.position.is_open ≡ true
    → a.position.last_accrual_slot < t
    → current_rate a ≡ ok r
    → a.position.rise_sol_debt_principal * r < u128
    → a.position.rise_sol_debt_principal * r * (t - a.position.last_accrual_slot) < u128
    → a.position.interest_accrued
        + a.position.rise_sol_debt_principal
          * r
          * (t - a.position.last_accrual_slot)
          / 10_000
          / slots_per_year
      < u64
    → accrue_interest a t
      ≡ ok (record a.position {
        interest_accrued =
            a.position.interest_accrued
            + a.position.rise_sol_debt_principal
              * r
              * (t - a.position.last_accrual_slot)
              / 10_000
              / slots_per_year;
        last_accrual_slot = t;
      })
unfolding accrue_interest accrue interest_on add_interest
accrue_interest-total a t r open_position due found f1 f2 f3 = ground arith
