-- ===== src/Cdp/RepayLaws.antt =====
-- programs/rise-cdp, settle_repayment: what a repayment clears.
use native.Mathlib.Nat.{le-div_iff_mul-le, div-le_of_le-mul, mod-le}
use rise_protocol.Prelude.{
  ℕ, ◌+◌, ◌-◌, ◌*◌, ◌/◌, ◌≤◌, min, true, ◌≡◌, ◌↔◌, ok, arith, ◌<◌, ◌%◌, u64, sym, bind-eq_ok,
  Result-cases, inl, inr, require, ltb,
}
use rise_protocol.Cdp.State.{
  CdpConfig, CdpPosition, BorrowRewardsConfig, BorrowRewards, or_overflow, settle, zero_amount,
  total_rise_sol_owed,
}
use rise_protocol.Cdp.Repay.{
  Repayment, to_rise_sol, to_sol, split_cleared, clear_debt, reduce_minted, reduce_debt,
  book_repayment, settle_repayment,
}

-- The riseSOL that a position owes.
abbrev pub debt : CdpPosition → ℕ
debt p = p.rise_sol_debt_principal + p.interest_accrued

pub book_repayment-eq :
    (p : CdpPosition) (cleared rate scale : ℕ) (c : CdpConfig) (rc : BorrowRewardsConfig)
    (rewards : BorrowRewards) (r : Repayment)
    → book_repayment p cleared rate scale c rc rewards ≡ ok r
    → (cleared ≤ debt p)
      × (debt r.position ≡ debt p - cleared)
      × (r.position.interest_accrued ≡ p.interest_accrued - cleared)
      × (r.cdp_config.cdp_rise_sol_minted ≡ c.cdp_rise_sol_minted - (cleared - p.interest_accrued))
      × (r.borrow_rewards_config.total_cdp_debt
          ≡ rc.total_cdp_debt - (cleared - p.interest_accrued))
      × ((r.settlement.is_fully_repaid ≡ true) ↔ (debt r.position ≡ 0))
unfolding book_repayment split_cleared clear_debt reduce_minted reduce_debt
book_repayment-eq p cleared rate scale c rc rewards r h = ground arith

pub book_repayment-open :
    (p : CdpPosition) (cleared rate scale : ℕ) (c : CdpConfig) (rc : BorrowRewardsConfig)
    (rewards : BorrowRewards) (r : Repayment)
    → book_repayment p cleared rate scale c rc rewards ≡ ok r
    → r.position.is_open ≡ p.is_open
unfolding book_repayment clear_debt
book_repayment-open p cleared rate scale c rc rewards r h = ground arith

to_rise_sol-eq :
    (payment rate scale m : ℕ)
    → to_rise_sol payment rate scale ≡ ok m
    → (0 < rate) × (m ≡ payment * scale / rate)
unfolding to_rise_sol
to_rise_sol-eq payment rate scale m h = ground arith

owed-eq : (p : CdpPosition) (m : ℕ) → or_overflow (total_rise_sol_owed p) ≡ ok m → m ≡ debt p
unfolding total_rise_sol_owed
owed-eq p m h = ground arith

pub settle_repayment-eq :
    (p : CdpPosition) (payment rate scale : ℕ) (c : CdpConfig) (rc : BorrowRewardsConfig)
    (rewards : BorrowRewards) (r : Repayment)
    → settle_repayment p payment rate scale c rc rewards ≡ ok r
    → (0 < rate)
      × (settled : BorrowRewards) × (book_repayment p
            (min (payment * scale / rate) (debt p))
            rate
            scale
            c
            rc
            settled
          ≡ ok r)
unfolding settle_repayment
settle_repayment-eq p payment rate scale c rc rewards r h =
    let (worth, e, k1) = bind-eq_ok (to_rise_sol payment rate scale) _ h in
    let (_, _, k2) = bind-eq_ok (require (ltb 0 worth) zero_amount) _ k1 in
    let (settled, _, k3) =
      bind-eq_ok (settle rewards rc.reward_per_token p.rise_sol_debt_principal) _ k2 in
    let (total, owed, k4) = bind-eq_ok (or_overflow (total_rise_sol_owed p)) _ k3 in
    let (_, _, booked) = bind-eq_ok (require (ltb 0 total) zero_amount) _ k4 in
    let (positive, same) = to_rise_sol-eq payment rate scale worth e in
    let same_debt = owed-eq p total owed in
    (positive, settled, rw (sym same) (rw (sym same_debt) booked))

-- A repayment that succeeds clears what the payment is worth in riseSOL, or all that is owed if
-- that is less: the interest first, then the principal. The global total of minted principal and
-- the rewards program's total debt, where they cover this loan's principal, fall by exactly what
-- its principal falls. It counts as fully repaid exactly when the payment covers what was owed.
pub settle_repayment_clears :
    (p : CdpPosition) (payment rate scale : ℕ) (c : CdpConfig) (rc : BorrowRewardsConfig)
    (rewards : BorrowRewards) (r : Repayment)
    → settle_repayment p payment rate scale c rc rewards ≡ ok r
    → p.rise_sol_debt_principal ≤ c.cdp_rise_sol_minted
    → p.rise_sol_debt_principal ≤ rc.total_cdp_debt
    → (debt r.position + min (payment * scale / rate) (debt p) ≡ debt p)
      × (r.position.interest_accrued ≡ p.interest_accrued - min (payment * scale / rate) (debt p))
      × (r.cdp_config.cdp_rise_sol_minted + p.rise_sol_debt_principal
          ≡ c.cdp_rise_sol_minted + r.position.rise_sol_debt_principal)
      × (r.borrow_rewards_config.total_cdp_debt + p.rise_sol_debt_principal
          ≡ rc.total_cdp_debt + r.position.rise_sol_debt_principal)
      × ((r.settlement.is_fully_repaid ≡ true) ↔ (debt p ≤ payment * scale / rate))
settle_repayment_clears p payment rate scale c rc rewards r h minted tracked =
    let (positive, settled, booked) = settle_repayment-eq p payment rate scale c rc rewards r h in
    let (within, owed, interest, total, total', full) =
      book_repayment-eq p (min (payment * scale / rate) (debt p)) rate scale c rc settled r
        booked in
    (
      omega arith,
      interest,
      omega arith,
      omega arith,
      ((λ repaid. let zero_debt = full.0 repaid in omega arith), (λ enough. full.1 (omega arith))),
    )

book_repayment-interest :
    (p : CdpPosition) (cleared rate scale : ℕ) (c : CdpConfig) (rc : BorrowRewardsConfig)
    (rewards : BorrowRewards) (r : Repayment)
    → book_repayment p cleared rate scale c rc rewards ≡ ok r
    → to_sol (min cleared p.interest_accrued) rate scale ≡ ok r.settlement.interest_sol
unfolding book_repayment split_cleared clear_debt
book_repayment-interest p cleared rate scale c rc rewards r h = ground arith

book_repayment-principal :
    (p : CdpPosition) (cleared rate scale : ℕ) (c : CdpConfig) (rc : BorrowRewardsConfig)
    (rewards : BorrowRewards) (r : Repayment) (sol : ℕ)
    → book_repayment p cleared rate scale c rc rewards ≡ ok r
    → to_sol cleared rate scale ≡ ok sol
    → r.settlement.principal_sol ≡ sol - r.settlement.interest_sol
unfolding book_repayment split_cleared clear_debt
book_repayment-principal p cleared rate scale c rc rewards r sol h e = ground arith

book_repayment-whole :
    (p : CdpPosition) (cleared rate scale : ℕ) (c : CdpConfig) (rc : BorrowRewardsConfig)
    (rewards : BorrowRewards) (r : Repayment)
    → book_repayment p cleared rate scale c rc rewards ≡ ok r
    → (sol : ℕ) × (to_sol cleared rate scale ≡ ok sol)
unfolding book_repayment split_cleared clear_debt
book_repayment-whole p cleared rate scale c rc rewards r h =
    elim (Result-cases (to_sol cleared rate scale)) [
      | inl found ↦ found
      | inr (e, failed) ↦ ground arith
    ]

to_sol-eq :
    (m rate scale sol : ℕ)
    → to_sol m rate scale ≡ ok sol
    → (0 < scale) × (sol ≡ m * rate / scale % u64)
unfolding to_sol
to_sol-eq m rate scale sol h = ground arith

-- What was worth no more than the payment is worth no more than the payment.
to_sol-le :
    (m rate scale sol payment : ℕ)
    → to_sol m rate scale ≡ ok sol
    → 0 < rate
    → m ≤ payment * scale / rate
    → sol ≤ payment
to_sol-le m rate scale sol payment h positive le =
    let (scaled, e) = to_sol-eq m rate scale sol h in
    let worth : m * rate ≤ payment * scale = (le-div_iff_mul-le positive).0 le in
    let whole : m * rate / scale ≤ payment = div-le_of_le-mul scale (grind arith) in
    rw e (let cut = mod-le (m * rate / scale) u64 in omega arith)

-- The lamports that a repayment books, as interest and as principal, are together no more than the
-- payment.
pub settle_repayment_books_at_most :
    (p : CdpPosition) (payment rate scale : ℕ) (c : CdpConfig) (rc : BorrowRewardsConfig)
    (rewards : BorrowRewards) (r : Repayment)
    → settle_repayment p payment rate scale c rc rewards ≡ ok r
    → r.settlement.interest_sol + r.settlement.principal_sol ≤ payment
settle_repayment_books_at_most p payment rate scale c rc rewards r h =
    let (positive, settled, booked) = settle_repayment-eq p payment rate scale c rc rewards r h in
    let cleared = min (payment * scale / rate) (debt p) in
    let part = min cleared p.interest_accrued in
    let interest = book_repayment-interest p cleared rate scale c rc settled r booked in
    let (whole, total) = book_repayment-whole p cleared rate scale c rc settled r booked in
    let rest = book_repayment-principal p cleared rate scale c rc settled r whole booked total in
    let first =
      to_sol-le part rate scale r.settlement.interest_sol payment interest positive (omega arith) in
    let second = to_sol-le cleared rate scale whole payment total positive (omega arith) in
    omega arith
