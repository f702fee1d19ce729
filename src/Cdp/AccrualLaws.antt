-- ===== src/Cdp/AccrualLaws.antt =====
-- programs/rise-cdp, accrue_interest: theorems on one accrual and on two.
use native.Mathlib.Nat.{
  div-mul-le_self, le-div_iff_mul-le, div-div-eq-div-mul, mul-le-mul, mul-le-mul_right,
  mul-le-mul_left, lt-div-mul-add, div-lt_iff_lt-mul,
}
use rise_protocol.Prelude.{
  le-div, ℕ, ◌+◌, ◌-◌, ◌*◌, ◌/◌, ◌≤◌, ◌<◌, ◌≡◌, inl, inr, true, ok, arith, u64, u128, refl, sym, ap,
  ◌∙◌,
}
use rise_protocol.Cdp.State.{CdpPosition, slots_per_year, Outcome}
use rise_protocol.Cdp.Interest.{AccrueInterest, current_rate, accrue_interest}
use rise_protocol.Cdp.ConfigLaws.{IsValid}
use rise_protocol.Cdp.Accrual.{
  FitsCeiling, current_rate-total, accrue_interest-eq, accrue_interest-total,
}

-- The interest on a principal over some slots, at a yearly rate in basis points.
abbrev pub interest_over : ℕ → ℕ → ℕ → ℕ
interest_over principal rate slots = principal * rate * slots / 10_000 / slots_per_year

interest_mono :
    (principal slots : ℕ) {r r' : ℕ}
    → r ≤ r'
    → interest_over principal r slots ≤ interest_over principal r' slots
interest_mono principal slots le =
    le-div (le-div (mul-le-mul_right slots (mul-le-mul_left principal le)) (omega arith))
      (omega arith)

wide : u64 * 80_000 * 70_368_744_177_664 < u128
unfolding u64 u128
wide = omega arith

-- An accrual that is due goes through, on an open position, where the collateral's config is within
-- its limits (IsValid), the staking supply and the minted riseSOL are small enough for the debt
-- ceiling and the utilization to be computed in 128 bits (FitsCeiling), the last accrual is at most
-- 2^46 slots (over 800,000 years) ago, the principal fits 64 bits, and the interest at 800% a year
-- would still fit; it records the slot, leaves the principal, and adds no more than that.
pub accrue_interest-succeeds :
    (a : AccrueInterest) (t : ℕ)
    → IsValid a.collateral_config
    → FitsCeiling a.global_pool a.cdp_config
    → a.position.is_open ≡ true
    → a.position.last_accrual_slot < t
    → t - a.position.last_accrual_slot ≤ 70_368_744_177_664
    → a.position.rise_sol_debt_principal < u64
    → a.position.interest_accrued
        + interest_over a.position.rise_sol_debt_principal 80_000 (t - a.position.last_accrual_slot)
      < u64
    → (p : CdpPosition) × (accrue_interest a t ≡ ok p)
      × (p.last_accrual_slot ≡ t)
      × (p.rise_sol_debt_principal ≡ a.position.rise_sol_debt_principal)
      × (a.position.interest_accrued ≤ p.interest_accrued)
      × (p.interest_accrued
          ≤ a.position.interest_accrued
            + interest_over a.position.rise_sol_debt_principal 80_000
                (t - a.position.last_accrual_slot))
accrue_interest-succeeds a t valid fits open_position due soon u64_principal room =
    let principal = a.position.rise_sol_debt_principal in
    let slots = t - a.position.last_accrual_slot in
    let (r, found, le) = current_rate-total a valid fits in
    let more = interest_mono principal slots le in
    let yearly : principal * r ≤ u64 * 80_000 = mul-le-mul (omega arith) le in
    let product : principal * r * slots ≤ u64 * 80_000 * 70_368_744_177_664 =
      mul-le-mul yearly soon in
    let limit = wide in
    (
      _,
      accrue_interest-total a t r open_position due found (omega arith) (omega arith) (omega arith),
      refl,
      refl,
      omega arith,
      omega arith,
    )

div-add-le : {k : ℕ} (m n : ℕ) → 0 < k → m / k + n / k ≤ (m + n) / k
div-add-le {k} m n positive =
    (le-div_iff_mul-le positive).1 (grind (arith, div-mul-le_self m k, div-mul-le_self n k))

div-add-ge : {k : ℕ} (m n : ℕ) → 0 < k → (m + n) / k < m / k + n / k + 2
div-add-ge {k} m n positive =
    let first : m < m / k * k + k = lt-div-mul-add positive in
    let second : n < n / k * k + k = lt-div-mul-add positive in
    (div-lt_iff_lt-mul positive).1 (grind arith)

interest-split :
    (principal rate s t : ℕ)
    → (interest_over principal rate s + interest_over principal rate t
        ≤ interest_over principal rate (s + t))
      × (interest_over principal rate (s + t)
          ≤ interest_over principal rate s + interest_over principal rate t + 1)
interest-split principal rate s t =
    let x = principal * rate * s in
    let y = principal * rate * t in
    let sum : principal * rate * (s + t) ≡ x + y = grind arith in
    rw sum (
      rw (div-div-eq-div-mul (x + y) 10_000 slots_per_year) (
        rw (div-div-eq-div-mul x 10_000 slots_per_year) (
          rw (div-div-eq-div-mul y 10_000 slots_per_year) (
            div-add-le x y (omega arith),
            omega (arith, div-add-ge {k = 10_000 * slots_per_year} x y (omega arith)),
          ))))

ok_unique : (m : Outcome ℕ) {x y : ℕ} → m ≡ ok x → m ≡ ok y → x ≡ y
ok_unique m e e' = cc

accrue_interest-due :
    (a : AccrueInterest) (t : ℕ) (p : CdpPosition)
    → accrue_interest a t ≡ ok p
    → a.position.last_accrual_slot < t
    → (r : ℕ) × (current_rate a ≡ ok r)
      × (p.interest_accrued
          ≡ a.position.interest_accrued
            + interest_over a.position.rise_sol_debt_principal r (t - a.position.last_accrual_slot))
      × (p.last_accrual_slot ≡ t)
      × (p.rise_sol_debt_principal ≡ a.position.rise_sol_debt_principal)
      × (p.is_open ≡ a.position.is_open)
accrue_interest-due a t p h due = elim (accrue_interest-eq a t p h) [
  | inl (late, same) ↦ let contradiction : ⊥ = omega arith in elim contradiction [ ]
  | inr (later, r, found, e) ↦ (
    r,
    found,
    ap (λ x. x.interest_accrued) e,
    ap (λ x. x.last_accrual_slot) e,
    ap (λ x. x.rise_sol_debt_principal) e,
    ap (λ x. x.is_open) e,
  )
]

-- The rate does not depend on the position.
current_rate-position :
    (a : AccrueInterest) (p : CdpPosition)
    → current_rate (record a { position = p }) ≡ current_rate a
unfolding current_rate
current_rate-position a p = refl

-- Accruing twice, where nothing else changes between, charges as much as accruing once at the
-- later slot, or one unit less: rounding is in the borrower's favour, by at most one unit for each
-- accrual.
pub accrue_interest_twice :
    (a : AccrueInterest) (s t : ℕ) (first second once : CdpPosition)
    → a.position.last_accrual_slot < s
    → s < t
    → accrue_interest a s ≡ ok first
    → accrue_interest (record a { position = first }) t ≡ ok second
    → accrue_interest a t ≡ ok once
    → (second.interest_accrued ≤ once.interest_accrued)
      × (once.interest_accrued ≤ second.interest_accrued + 1)
accrue_interest_twice a s t first second once le lt h1 h2 h3 =
    let (r, found, paid, slot, kept, _) = accrue_interest-due a s first h1 le in
    let (r', found', paid', _, _, _) = accrue_interest-due _ t second h2 (omega (arith, slot)) in
    let (r'', found'', paid'', _, _, _) = accrue_interest-due a t once h3 (omega arith) in
    let same : r' ≡ r = ok_unique _ (sym (current_rate-position a first) ∙ found') found in
    let same' : r'' ≡ r = ok_unique _ found'' found in
    let split =
      interest-split a.position.rise_sol_debt_principal r (s - a.position.last_accrual_slot)
        (t - s) in
    let elapsed : s - a.position.last_accrual_slot + (t - s) ≡ t - a.position.last_accrual_slot =
      omega arith in
    let P = a.position.rise_sol_debt_principal in
    let later : second.interest_accrued ≡ first.interest_accrued + interest_over P r (t - s) = cc in
    let whole : once.interest_accrued
        ≡ a.position.interest_accrued
          + interest_over P r (s - a.position.last_accrual_slot + (t - s)) =
      cc in
    omega (arith, split, paid, later, whole)
