-- ===== src/Cdp/NotLiquidatable.antt =====
-- programs/rise-cdp: no liquidation right after an opening or a borrowing.
use native.Mathlib.Nat.{le-div_iff_mul-le, mul-le-mul_left, mul-le-mul_right}
use rise_protocol.Prelude.{le-div, ℕ, ◌+◌, ◌*◌, ◌/◌, ◌≤◌, ◌≡◌, ◌≢◌, ok, arith, bind-eq_ok, ◌∙◌}
use rise_protocol.Solana.{Runtime}
use rise_protocol.Cdp.Oracle.{Markets}
use rise_protocol.Cdp.Loan.{read_prices, Loan, Addresses, Route}
use rise_protocol.Cdp.ConfigLaws.{IsValid}
use rise_protocol.Staking.State.{rate_scale as staking_rate_scale}
use rise_protocol.Cdp.Liquidate.{check_liquidation, price_liquidation, liquidate}
use rise_protocol.Cdp.Borrow.{
  check_opening, price_opening, new_position, book_opening, borrow_more, book_borrowing, Opening,
  open_position,
}
use rise_protocol.Cdp.RepayLaws.{debt}
use rise_protocol.Cdp.Safe.{price_liquidation-healthy, price_borrowing-eq, ltv-le, price_opening-eq}
use rise_protocol.Cdp.Effects.{borrow_more-calls}

module _ {B : Type 0} (rt : Runtime B) (mk : Markets B) where
  liquidate-priced :
      (k : Addresses) (l : Loan) (r : Route) (b : B) (result : Loan × B)
      → liquidate rt mk k l r b ≡ ok result
      → (n : ℕ) × (price_liquidation mk k l b ≡ ok n)
  unfolding liquidate
  liquidate-priced k l r b result h =
      let (_, _, k1) = bind-eq_ok (check_liquidation rt mk k l b) _ h in
      let (n, priced, _) = bind-eq_ok (price_liquidation mk k l b) _ k1 in (n, priced)

  open_position-priced :
      (k : Addresses) (l : Loan) (o : Opening) (b : B) (l' : Loan) (b' : B)
      → open_position rt mk k l o b ≡ ok (l', b')
      → (usd : ℕ) × (sp : ℕ) × (price_opening mk k l o b ≡ ok (usd, sp))
        × (l'.position.collateral_amount_original ≡ o.collateral_amount)
        × (debt l'.position ≡ o.rise_sol_to_mint)
        × (l'.collateral_config.liquidation_threshold_bps
            ≡ l.collateral_config.liquidation_threshold_bps)
  unfolding open_position book_opening new_position
  open_position-priced k l o b l' b' h =
      let (_, _, k1) = bind-eq_ok (check_opening rt mk k l o b) _ h in
      let ((usd, sp), priced, k2) = bind-eq_ok (price_opening mk k l o b) _ k1 in
      (usd, sp, priced, ground arith, ground arith, ground arith)

  -- A position that was just opened, with a collateral config within its limits, cannot be
  -- liquidated while the prices and the decimals read the same, whoever calls and with whatever
  -- route.
  pub open_position_not_liquidatable :
      (k : Addresses) (l : Loan) (o : Opening) (b : B) (l' : Loan) (b' : B) (k' : Addresses)
      (r : Route) (b'' : B)
      → open_position rt mk k l o b ≡ ok (l', b')
      → IsValid l.collateral_config
      → read_prices mk k' l' b'' ≡ read_prices mk k l b
      → mk.decimals k'.collateral_mint b'' ≡ mk.decimals k.collateral_mint b
      → (result : Loan × B) → liquidate rt mk k' l' r b'' ≢ ok result
  open_position_not_liquidatable k l o b l' b' k' r b'' h valid prices decimals result liquidated =
      let (usd, sp, priced, amount, owed, threshold) = open_position-priced k l o b l' b' h in
      let (cp, read, value, within) = price_opening-eq mk k l o b usd sp priced in
      let (n, found) = liquidate-priced k' l' r b'' result liquidated in
      let limit = ltv-le l.collateral_config usd valid in
      let bound : debt l'.position * sp / 1_000_000_000
          ≤ usd * l'.collateral_config.liquidation_threshold_bps / 10_000 =
        rw owed (rw threshold (omega arith)) in
      price_liquidation-healthy mk k' l' b'' cp sp usd (prices ∙ read)
        (rw amount (rw decimals value)) bound n found

  pub book_borrowing-terms :
      (l : Loan) (n minted usd value : ℕ) (l' : Loan)
      → book_borrowing l n minted usd value ≡ ok l'
      → (l'.position.collateral_amount_original ≡ l.position.collateral_amount_original)
        × (debt l'.position ≡ debt l.position + n)
        × (l'.collateral_config ≡ l.collateral_config)
  unfolding book_borrowing
  book_borrowing-terms l n minted usd value l' h = ground arith

  -- At a rate of at least 1.0, a debt is worth at least its amount at par.
  par-le :
      (d rate sp : ℕ)
      → staking_rate_scale ≤ rate
      → d * sp / 1_000_000_000 ≤ d * rate / 1_000_000_000 * sp / 1_000_000_000
  par-le d rate sp floor =
      let worth : d ≤ d * rate / 1_000_000_000 =
        (le-div_iff_mul-le (omega arith)).1 (mul-le-mul_left d floor) in
      le-div (mul-le-mul_right sp worth) (omega arith)

  -- A borrowing leaves a position, with a collateral config within its limits and at an exchange
  -- rate of at least 1.0, that cannot be liquidated while the prices and the decimals read the
  -- same, whoever calls and with whatever route.
  pub borrow_more_not_liquidatable :
      (k : Addresses) (l : Loan) (m : ℕ) (b : B) (l' : Loan) (b' : B) (k' : Addresses) (r : Route)
      (b'' : B)
      → borrow_more rt mk k l m b ≡ ok (l', b')
      → IsValid l.collateral_config
      → staking_rate_scale ≤ l.global_pool.exchange_rate
      → read_prices mk k' l' b'' ≡ read_prices mk k l b
      → mk.decimals k'.collateral_mint b'' ≡ mk.decimals k.collateral_mint b
      → (result : Loan × B) → liquidate rt mk k' l' r b'' ≢ ok result
  unfolding read_prices
  borrow_more_not_liquidatable k l m b l' b' k' r b'' h valid floor prices decimals result
        liquidated =
      let (_, accrued, _, usd, value, priced, minted, _, booked) =
        borrow_more-calls rt mk k l m b l' b' h in
      let l₁ = record l { position = accrued } in
      let (cp, sp, read, valued, within) = price_borrowing-eq mk k l₁ m b usd value priced in
      let (amount, owed, config) = book_borrowing-terms l₁ m minted usd value l' booked in
      let (n, found) = liquidate-priced k' l' r b'' result liquidated in
      let limit = ltv-le l.collateral_config usd valid in
      let par = par-le (debt accrued + m) l.global_pool.exchange_rate sp floor in
      let bound : debt l'.position * sp / 1_000_000_000
          ≤ usd * l'.collateral_config.liquidation_threshold_bps / 10_000 =
        rw owed (rw config (omega arith)) in
      price_liquidation-healthy mk k' l' b'' cp sp usd (prices ∙ read)
        (rw amount (rw decimals valued)) bound n found
