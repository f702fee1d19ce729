-- ===== src/Cdp/Safe.antt =====
-- programs/rise-cdp: that opening and borrowing leave a position that cannot be liquidated at the
-- same prices.
use rise_protocol.Staking.State.{rate_scale as staking_rate_scale}
use rise_protocol.Cdp.RepayLaws.{debt}
use rise_protocol.Cdp.State.{total_rise_sol_owed, CdpPosition}
use native.Mathlib.Nat.{le-div_iff_mul-le, div-le_of_le-mul, mul-le-mul_left}
use rise_protocol.Prelude.{
  le-div, u64, checked_add, ok-last, ok-values, leb, ok-same, ltb, ok-pairs, require, Option, ℕ,
  ◌+◌, ◌*◌, ◌/◌, ◌≤◌, ◌<◌, ◌≡◌, ◌≢◌, ok, some, none, arith, bind-eq_ok, ap, ◌∙◌,
}
use rise_protocol.Cdp.Oracle.{Markets, pow_ten}
use rise_protocol.Cdp.Loan.{
  lamports_per_sol, read_prices, health_of, collateral_value, mul_div, Loan, Addresses,
}
use rise_protocol.Cdp.ConfigLaws.{IsValid}
use rise_protocol.Cdp.State.{
  exceeds_max_ltv, position_healthy, rate_scale, compute_health_factor, or_overflow,
  CollateralConfig,
}
use rise_protocol.Cdp.Liquidate.{price_liquidation}
use rise_protocol.Cdp.InterestLaws.{compute_health_factor_threshold}
use rise_protocol.Cdp.Collateral.{debt_at_par}
use rise_protocol.Cdp.Borrow.{price_borrowing, Opening, price_opening}

pub mul_div-eq : (a b d x : ℕ) → mul_div a b d ≡ ok x → (0 < d) × (x ≡ a * b / d)
unfolding mul_div
mul_div-eq a b d x h = ground arith

-- What an amount of lamports is worth at most, if it is within what the value buys.
worth-le :
    (n price value : ℕ)
    → 0 < price
    → n ≤ value * 1_000_000_000 / price
    → n * price / 1_000_000_000 ≤ value
worth-le n price value positive le =
    let within : n * price ≤ value * 1_000_000_000 = (le-div_iff_mul-le positive).0 le in
    div-le_of_le-mul 1_000_000_000 (grind arith)

-- The value at the maximal LTV is within that at the liquidation threshold.
pub ltv-le :
    (c : CollateralConfig) (usd : ℕ)
    → IsValid c
    → usd * c.max_ltv_bps / 10_000 ≤ usd * c.liquidation_threshold_bps / 10_000
ltv-le c usd v =
    let below = v.ltv_below_threshold in le-div (mul-le-mul_left usd (omega arith)) (omega arith)

overflow-eq : (o : Option ℕ) (x : ℕ) → or_overflow o ≡ ok x → o ≡ some x
overflow-eq (some y) x h = cc
overflow-eq none x h = cc

le_by : {a b x y : ℕ} → a ≤ b → a ≡ x → b ≡ y → x ≤ y
le_by le e e' = omega arith

debt_at_par-eq :
    (p : CdpPosition) (sp d : ℕ) → debt_at_par p sp ≡ ok d → d ≡ debt p * sp / 1_000_000_000
unfolding debt_at_par total_rise_sol_owed mul_div
debt_at_par-eq p sp d h = ground arith

module _ {B : Type 0} (mk : Markets B) where
  -- A liquidation that is priced found the position unhealthy.
  pub price_liquidation-eq :
      (k : Addresses) (l : Loan) (b : B) (n : ℕ)
      → price_liquidation mk k l b ≡ ok n
      → (cp : ℕ) × (sp : ℕ) × (read_prices mk k l b ≡ ok (cp, sp))
        × (usd : ℕ) × (collateral_value l.position.collateral_amount_original cp
              (mk.decimals k.collateral_mint b)
            ≡ ok usd)
        × (debt : ℕ) × (debt_at_par l.position sp ≡ ok debt)
        × (usd * l.collateral_config.liquidation_threshold_bps / 10_000 < debt)
  unfolding price_liquidation collateral_value health_of
  price_liquidation-eq k l b n h =
      let ((cp, sp), read, k1) = bind-eq_ok (read_prices mk k l b) _ h in
      let (scale, scaled, k2) = bind-eq_ok (pow_ten (mk.decimals k.collateral_mint b)) _ k1 in
      let (usd, valued, k3) =
        bind-eq_ok (mul_div l.position.collateral_amount_original cp scale) _ k2 in
      let (debt, owed, k4) = bind-eq_ok (debt_at_par l.position sp) _ k3 in
      let (hf, health, k5) =
        bind-eq_ok
          (or_overflow
            (compute_health_factor usd debt l.collateral_config.liquidation_threshold_bps))
          _ k4 in
      let (_, low, _) = bind-eq_ok (require (ltb hf rate_scale) position_healthy) _ k5 in
      let below : hf < rate_scale = ground (arith, low) in
      let computed = overflow-eq _ hf health in
      (
        cp,
        sp,
        read,
        usd,
        rw scaled valued,
        debt,
        owed,
        (compute_health_factor_threshold usd debt _ hf computed).0 below,
      )

  -- A debt within the threshold is no reason to liquidate.
  pub price_liquidation-healthy :
      (k : Addresses) (l : Loan) (b : B) (cp sp usd : ℕ)
      → read_prices mk k l b ≡ ok (cp, sp)
      → collateral_value l.position.collateral_amount_original cp (mk.decimals k.collateral_mint b)
        ≡ ok usd
      → debt l.position * sp / 1_000_000_000
        ≤ usd * l.collateral_config.liquidation_threshold_bps / 10_000
      → (n : ℕ) → price_liquidation mk k l b ≢ ok n
  price_liquidation-healthy k l b cp sp usd prices value within n h =
      let (cp', sp', prices', usd', value', owed, par, low) = price_liquidation-eq k l b n h in
      let (same_cp, same_sp) : (cp' ≡ cp) × (sp' ≡ sp) = ok-pairs prices' prices in
      let same_usd : usd' ≡ usd = ok-same value' (rw same_cp value) in
      let owed_is : owed ≡ debt l.position * sp / 1_000_000_000 =
        debt_at_par-eq l.position sp owed (rw (← same_sp) par) in
      let low_here : usd * l.collateral_config.liquidation_threshold_bps / 10_000 < owed =
        rw (← same_usd) low in
      omega arith

  pub price_opening-eq :
      (k : Addresses) (l : Loan) (o : Opening) (b : B) (usd sp : ℕ)
      → price_opening mk k l o b ≡ ok (usd, sp)
      → (cp : ℕ) × (read_prices mk k l b ≡ ok (cp, sp))
        × (collateral_value o.collateral_amount cp (mk.decimals k.collateral_mint b) ≡ ok usd)
        × (o.rise_sol_to_mint * sp / 1_000_000_000 ≤ usd * l.collateral_config.max_ltv_bps / 10_000)
  unfolding price_opening
  price_opening-eq k l o b usd sp h =
      let ((cp, sp'), read, k1) = bind-eq_ok (read_prices mk k l b) _ h in
      let (usd', valued, k2) =
        bind-eq_ok (collateral_value o.collateral_amount cp (mk.decimals k.collateral_mint b)) _
          k1 in
      let (limit, limited, k3) =
        bind-eq_ok (mul_div usd' l.collateral_config.max_ltv_bps 10_000) _ k2 in
      let (most, within, k4) = bind-eq_ok (mul_div limit lamports_per_sol sp') _ k3 in
      let (_, checked, k5) =
        bind-eq_ok (require (leb o.rise_sol_to_mint most) exceeds_max_ltv) _ k4 in
      let le : o.rise_sol_to_mint ≤ most = ground (arith, checked) in
      let limit_is = mul_div-eq usd' l.collateral_config.max_ltv_bps 10_000 limit limited in
      let most_is = mul_div-eq limit lamports_per_sol sp' most within in
      let same_usd : usd' ≡ usd = ok-values k5 in
      let same_sp : sp' ≡ sp = ok-last k5 in
      let bound = worth-le o.rise_sol_to_mint sp' limit most_is.0 (rw (← most_is.1) le) in
      (
        cp,
        rw (← same_sp) read,
        rw (← same_usd) valued,
        rw (← same_sp) (rw (← same_usd) (rw (← limit_is.1) bound)),
      )

  pub price_borrowing-eq :
      (k : Addresses) (l : Loan) (n : ℕ) (b : B) (usd owed : ℕ)
      → price_borrowing mk k l n b ≡ ok (usd, owed)
      → (cp : ℕ) × (sp : ℕ) × (read_prices mk k l b ≡ ok (cp, sp))
        × (collateral_value l.position.collateral_amount_original cp
              (mk.decimals k.collateral_mint b)
            ≡ ok usd)
        × ((debt l.position + n) * l.global_pool.exchange_rate / 1_000_000_000 * sp / 1_000_000_000
            ≤ usd * l.collateral_config.max_ltv_bps / 10_000)
  unfolding price_borrowing total_rise_sol_owed
  price_borrowing-eq k l n b usd owed h =
      let ((cp, sp), read, k1) = bind-eq_ok (read_prices mk k l b) _ h in
      let (usd', valued, k2) =
        bind-eq_ok
          (collateral_value l.position.collateral_amount_original cp
            (mk.decimals k.collateral_mint b))
          _ k1 in
      let (current, summed, k3) =
        bind-eq_ok
          (or_overflow
            (checked_add u64 l.position.rise_sol_debt_principal l.position.interest_accrued))
          _ k2 in
      let (total, added, k4) = bind-eq_ok (or_overflow (checked_add u64 current n)) _ k3 in
      let (sol, in_sol, k5) =
        bind-eq_ok (mul_div total l.global_pool.exchange_rate staking_rate_scale) _ k4 in
      let (value, in_usd, k6) = bind-eq_ok (mul_div sol sp lamports_per_sol) _ k5 in
      let (limit, limited, k7) =
        bind-eq_ok (mul_div usd' l.collateral_config.max_ltv_bps 10_000) _ k6 in
      let (_, checked, k8) = bind-eq_ok (require (leb value limit) exceeds_max_ltv) _ k7 in
      let le : value ≤ limit = ground (arith, checked) in
      let total_is : total ≡ debt l.position + n = ground (arith, summed, added) in
      let sol_is = mul_div-eq total l.global_pool.exchange_rate staking_rate_scale sol in_sol in
      let value_is = mul_div-eq sol sp lamports_per_sol value in_usd in
      let limit_is = mul_div-eq usd' l.collateral_config.max_ltv_bps 10_000 limit limited in
      let same_usd : usd' ≡ usd = ok-values k8 in
      let value_of =
        value_is.1
        ∙ ap (λ x. x * sp / 1_000_000_000)
            (sol_is.1 ∙ ap (λ x. x * l.global_pool.exchange_rate / 1_000_000_000) total_is) in
      let limit_of = limit_is.1 ∙ ap (λ x. x * l.collateral_config.max_ltv_bps / 10_000) same_usd in
      (cp, sp, read, valued ∙ ap (λ x. ok x) same_usd, le_by le value_of limit_of)
