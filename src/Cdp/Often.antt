-- ===== src/Cdp/Often.antt =====
-- programs/rise-cdp, accrue_interest: accruals that come so often that each one rounds to nothing.
use native.Mathlib.Nat.{div-div-eq-div-mul, mul-le-mul, mul-le-mul_left, div-lt_iff_lt-mul}
use rise_protocol.Prelude.{
  ℕ, ◌+◌, ◌-◌, ◌*◌, ◌/◌, ◌≤◌, ◌<◌, ◌≡◌, refl, true, ok, arith, u64, List, [], ◌∷◌, ◌>>=◌,
}
use rise_protocol.Cdp.State.{CdpPosition, Outcome, slots_per_year, CollateralConfig}
use rise_protocol.Cdp.Interest.{AccrueInterest, accrue_interest}
use rise_protocol.Cdp.ConfigLaws.{IsValid}
use rise_protocol.Cdp.InterestLaws.{u128-big}
use rise_protocol.Cdp.Accrual.{
  FitsCeiling, current_rate-le, current_rate-total, accrue_interest-total,
}

-- An accrual at each of the slots, with the rest of the accounts unchanged.
unfoldable pub accrue_at_each : AccrueInterest → List ℕ → Outcome CdpPosition
accrue_at_each a [] = ok a.position
accrue_at_each a (t ∷ ts) =
    accrue_interest a t >>= λ p. accrue_at_each (record a { position = p }) ts

-- The slots follow one another, and `last`, by at most `gap`.
pub data IsFrequent (gap : ℕ) : ℕ → List ℕ → Type 0 where
  done : {last : ℕ} → IsFrequent gap last []
  next :
      {last t : ℕ} {ts : List ℕ}
      → last < t
      → t ≤ last + gap
      → IsFrequent gap t ts
      → IsFrequent gap last (t ∷ ts)

unfoldable pub last_slot : ℕ → List ℕ → ℕ
last_slot t [] = t
last_slot t (s ∷ ss) = last_slot s ss

-- The most that a config can charge, in basis points a year.
unfoldable pub highest_rate : CollateralConfig → ℕ
highest_rate c = c.base_rate_bps + c.rate_slope1_bps + c.rate_slope2_bps

nothing-due : (x : ℕ) → x < 10_000 * slots_per_year → x / 10_000 / slots_per_year ≡ 0
nothing-due x small = rw (div-div-eq-div-mul x 10_000 slots_per_year) (
    let below : x / (10_000 * slots_per_year) < 1 =
      (div-lt_iff_lt-mul {k = 10_000 * slots_per_year} (omega arith)).1 (omega arith) in
    omega arith)

accrue_interest-nothing :
    (a : AccrueInterest) (t gap : ℕ)
    → IsValid a.collateral_config
    → FitsCeiling a.global_pool a.cdp_config
    → a.position.is_open ≡ true
    → a.position.interest_accrued < u64
    → a.position.rise_sol_debt_principal * highest_rate a.collateral_config * gap
      < 10_000 * slots_per_year
    → a.position.last_accrual_slot < t
    → t ≤ a.position.last_accrual_slot + gap
    → accrue_interest a t ≡ ok (record a.position { last_accrual_slot = t })
unfolding highest_rate
accrue_interest-nothing a t gap valid fits open_position room small due soon =
    let P = a.position.rise_sol_debt_principal in
    let elapsed = t - a.position.last_accrual_slot in
    let (r, found, _) = current_rate-total a valid fits in
    let bounds = current_rate-le a r found in
    let yearly = mul-le-mul_left P bounds.1 in
    let product : P * r * elapsed
        ≤ P
          * (a.collateral_config.base_rate_bps + a.collateral_config.rate_slope1_bps
              + a.collateral_config.rate_slope2_bps)
          * gap =
      mul-le-mul yearly (omega arith) in
    let once : P * r * 1 ≤ P * r * elapsed = mul-le-mul_left (P * r) (omega arith) in
    let big = u128-big in
    let zero_interest = nothing-due (P * r * elapsed) (omega arith) in
    let accrued =
      accrue_interest-total a t r open_position due found (omega arith) (omega arith)
        (omega arith) in
    let same : a.position.interest_accrued + P * r * elapsed / 10_000 / slots_per_year
        ≡ a.position.interest_accrued =
      omega arith in
    rw same at accrued

-- Interest can be kept from accruing: where the principal at the config's highest rate earns less
-- than one unit in `gap` slots, accruals that follow one another by at most `gap` slots all go
-- through, move the last accrual to their last slot, however late, and charge nothing. The position
-- is open, the collateral's config is within its limits (IsValid), the staking supply and the minted
-- riseSOL are small enough for the debt ceiling and the utilization to be computed in 128 bits
-- (FitsCeiling), and the interest so far fits 64 bits.
pub accrue_at_each_charges_nothing :
    (a : AccrueInterest) (ts : List ℕ) (gap : ℕ)
    → IsValid a.collateral_config
    → FitsCeiling a.global_pool a.cdp_config
    → a.position.is_open ≡ true
    → a.position.interest_accrued < u64
    → a.position.rise_sol_debt_principal * highest_rate a.collateral_config * gap
      < 10_000 * slots_per_year
    → IsFrequent gap a.position.last_accrual_slot ts
    → accrue_at_each a ts
      ≡ ok (record a.position { last_accrual_slot = last_slot a.position.last_accrual_slot ts })
unfolding accrue_at_each last_slot
accrue_at_each_charges_nothing a [] gap valid fits open_position room small done = refl
accrue_at_each_charges_nothing a (t ∷ ts) gap valid fits open_position room small
      (next due soon rest) =
    rw (accrue_interest-nothing a t gap valid fits open_position room small due soon) (
      accrue_at_each_charges_nothing
        (record a { position = record a.position { last_accrual_slot = t } }) ts gap valid fits
        open_position room small rest)
