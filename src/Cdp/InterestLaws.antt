-- ===== src/Cdp/InterestLaws.antt =====
-- programs/rise-cdp: what the kinked rate, the accrual of interest and the health factor come to.
use native.Mathlib.Nat.{div-le_of_le-mul, mul-le-mul_left, div-lt_iff_lt-mul}
use rise_protocol.Prelude.{
  le-div, ℕ, ◌+◌, ◌-◌, ◌*◌, ◌/◌, ◌≤◌, ◌<◌, ◌≡◌, ◌⊎◌, ◌↔◌, inl, inr, some, ok, arith, u128,
}
use rise_protocol.Cdp.State.{CollateralConfig, compute_health_factor, rate_scale}
use rise_protocol.Cdp.Interest.{effective_rate, slope1_contribution, slope2_contribution}

-- Of a slope, no more than the part of its range that is used.
share-le : (slope part range : ℕ) → part ≤ range → 0 < range → slope * part / range ≤ slope
share-le slope part range le positive =
    div-le_of_le-mul range (grind (arith, mul-le-mul_left slope le))

share_mono : (slope range : ℕ) {u v : ℕ} → u ≤ v → 0 < range → slope * u / range ≤ slope * v / range
share_mono slope range le positive = le-div (mul-le-mul_left slope le) positive

slope1-eq :
    (c : CollateralConfig) (u s : ℕ)
    → slope1_contribution c u ≡ ok s
    → ((c.optimal_utilization_bps ≡ 0) × (s ≡ 0))
      ⊎ ((0 < c.optimal_utilization_bps) × (s ≡ c.rate_slope1_bps * u / c.optimal_utilization_bps))
unfolding slope1_contribution
slope1-eq c u s h = ground arith

slope2-eq :
    (c : CollateralConfig) (u s : ℕ)
    → slope2_contribution c u ≡ ok s
    → u ≤ 10_000
    → (c.optimal_utilization_bps < u)
    → s ≡ c.rate_slope2_bps * (u - c.optimal_utilization_bps) / (10_000 - c.optimal_utilization_bps)
unfolding slope2_contribution
slope2-eq c u s h le above = ground arith

-- The rate by its two branches.
rate-eq :
    (c : CollateralConfig) (u r : ℕ)
    → effective_rate c u ≡ ok r
    → ((u ≤ c.optimal_utilization_bps)
        × (s : ℕ) × (slope1_contribution c u ≡ ok s)
        × (r ≡ c.base_rate_bps + s))
      ⊎ ((c.optimal_utilization_bps < u)
          × (s : ℕ) × (slope2_contribution c u ≡ ok s)
          × (r ≡ c.base_rate_bps + c.rate_slope1_bps + s))
unfolding effective_rate
rate-eq c u r h = ground arith

pub slope1-le :
    (c : CollateralConfig) (u s : ℕ)
    → slope1_contribution c u ≡ ok s
    → u ≤ c.optimal_utilization_bps
    → s ≤ c.rate_slope1_bps
slope1-le c u s h le = elim (slope1-eq c u s h) [
  | inl (zero_kink, e) ↦ omega arith
  | inr (positive, e) ↦ rw e (share-le c.rate_slope1_bps u c.optimal_utilization_bps le positive)
]

slope1_mono :
    (c : CollateralConfig) (u v s t : ℕ)
    → slope1_contribution c u ≡ ok s
    → slope1_contribution c v ≡ ok t
    → u ≤ v
    → s ≤ t
slope1_mono c u v s t hu hv le = elim (slope1-eq c u s hu) [
  | inl (zero_kink, e) ↦ omega arith
  | inr (positive, e) ↦ elim (slope1-eq c v t hv) [
    | inl (zero_kink, e') ↦ omega arith
    | inr (positive', e') ↦
        rw e (rw e' (share_mono c.rate_slope1_bps c.optimal_utilization_bps le positive))
  ]
]

pub slope2-le :
    (c : CollateralConfig) (u s : ℕ)
    → slope2_contribution c u ≡ ok s
    → u ≤ 10_000
    → c.optimal_utilization_bps < u
    → s ≤ c.rate_slope2_bps
slope2-le c u s h le above =
    rw (slope2-eq c u s h le above) (share-le c.rate_slope2_bps _ _ (omega arith) (omega arith))

slope2_mono :
    (c : CollateralConfig) (u v s t : ℕ)
    → slope2_contribution c u ≡ ok s
    → slope2_contribution c v ≡ ok t
    → u ≤ v
    → v ≤ 10_000
    → c.optimal_utilization_bps < u
    → s ≤ t
slope2_mono c u v s t hu hv le full above = rw (slope2-eq c u s hu (omega arith) above) (
    rw (slope2-eq c v t hv full (omega arith))
      (share_mono c.rate_slope2_bps _ (omega arith) (omega arith)))

-- The rate never falls as the utilization grows, across the kink too; it is at least the base rate
-- and at most the base rate with both slopes.
pub effective_rate_monotone :
    (c : CollateralConfig) (u v r r' : ℕ)
    → u ≤ v
    → v ≤ 10_000
    → effective_rate c u ≡ ok r
    → effective_rate c v ≡ ok r'
    → (c.base_rate_bps ≤ r)
      × (r ≤ r')
      × (r' ≤ c.base_rate_bps + c.rate_slope1_bps + c.rate_slope2_bps)
effective_rate_monotone c u v r r' le full hu hv = elim (rate-eq c u r hu) [
  | inl (under, s, slope, e) ↦ elim (rate-eq c v r' hv) [
    | inl (under', s', slope', e') ↦
        ground (arith, slope1_mono c u v s s' slope slope' le, slope1-le c v s' slope' under')
    | inr (over', s', slope', e') ↦
        ground (arith, slope1-le c u s slope under, slope2-le c v s' slope' full over')
  ]
  | inr (over, s, slope, e) ↦ elim (rate-eq c v r' hv) [
    | inl (under', s', slope', e') ↦ omega arith
    | inr (over', s', slope', e') ↦ ground (
      arith,
      slope2_mono c u v s s' slope slope' le full over,
      slope2-le c v s' slope' full over',
    )
  ]
]

health-eq :
    (collateral debt threshold h : ℕ)
    → compute_health_factor collateral debt threshold ≡ some h
    → ((debt ≡ 0) × (h ≡ u128 - 1))
      ⊎ ((0 < debt) × (h ≡ collateral * threshold / 10_000 * rate_scale / debt))
unfolding compute_health_factor
health-eq collateral debt threshold h e = ground arith

pub u128-big : rate_scale < u128
unfolding u128
u128-big = omega arith

-- A health factor that is computed is below 1.0, so that the position can be liquidated, exactly
-- when the debt's value exceeds the collateral's value at the liquidation threshold.
pub compute_health_factor_threshold :
    (collateral debt threshold h : ℕ)
    → compute_health_factor collateral debt threshold ≡ some h
    → (h < rate_scale) ↔ (collateral * threshold / 10_000 < debt)
compute_health_factor_threshold collateral debt threshold h e =
    elim (health-eq collateral debt threshold h e) [
      | inl (no_debt, top) ↦ let big = u128-big in (λ low. omega arith, λ low. omega arith)
      | inr (positive, scaled) ↦ rw scaled (
          let either = div-lt_iff_lt-mul positive in
          (λ low. grind (arith, either.0 low), λ low. either.1 (grind arith)))
    ]
