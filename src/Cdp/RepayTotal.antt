-- ===== src/Cdp/RepayTotal.antt =====
-- programs/rise-cdp: when the settlement of a repayment goes through.
use native.Mathlib.Nat.{mul-le-mul_right, div-mul-le_self}
use rise_protocol.Prelude.{
  ℕ, ◌+◌, ◌-◌, ◌*◌, ◌/◌, ◌≤◌, ◌<◌, min, ◌≡◌, inl, inr, ok, arith, Result-cases, u64, u128,
}
use rise_protocol.Cdp.State.{
  CdpConfig, CdpPosition, BorrowRewardsConfig, BorrowRewards, settle, sync_debt,
  total_rise_sol_owed,
}
use rise_protocol.Cdp.Repay.{
  Repayment, to_rise_sol, to_sol, split_cleared, clear_debt, book_repayment, settle_repayment,
}
use rise_protocol.Cdp.RepayLaws.{debt, book_repayment-eq}

sync-total :
    (u : BorrowRewards) (rate m : ℕ)
    → m * rate < u128
    → (u' : BorrowRewards) × (sync_debt u rate m ≡ ok u')
unfolding sync_debt
sync-total u rate m fits = elim (Result-cases (sync_debt u rate m)) [
  | inl found ↦ found
  | inr (e, failed) ↦ ground arith
]

to_sol-total :
    (m rate scale : ℕ) → m * rate < u128 → 0 < scale → (s : ℕ) × (to_sol m rate scale ≡ ok s)
unfolding to_sol
to_sol-total m rate scale fits positive = elim (Result-cases (to_sol m rate scale)) [
  | inl found ↦ found
  | inr (e, failed) ↦ ground arith
]

book_repayment-total :
    (p : CdpPosition) (cleared rate scale : ℕ) (c : CdpConfig) (rc : BorrowRewardsConfig)
    (rewards : BorrowRewards)
    → cleared ≤ debt p
    → cleared * rate < u128
    → 0 < scale
    → p.rise_sol_debt_principal * rc.reward_per_token < u128
    → (r : Repayment) × (book_repayment p cleared rate scale c rc rewards ≡ ok r)
unfolding book_repayment split_cleared clear_debt
book_repayment-total p cleared rate scale c rc rewards within fits positive tracked =
    let part = min cleared p.interest_accrued in
    let less : part * rate ≤ cleared * rate = mul-le-mul_right rate (omega arith) in
    let left = p.rise_sol_debt_principal - (cleared - p.interest_accrued) in
    let fewer : left * rc.reward_per_token ≤ p.rise_sol_debt_principal * rc.reward_per_token =
      mul-le-mul_right rc.reward_per_token (omega arith) in
    let (sol, e1) = to_sol-total part rate scale (omega arith) positive in
    let (sol', e2) = to_sol-total cleared rate scale fits positive in
    let (synced, e3) = sync-total rewards rc.reward_per_token left (omega arith) in
    elim (Result-cases (book_repayment p cleared rate scale c rc rewards)) [
      | inl found ↦ found
      | inr (e, failed) ↦ ground arith
    ]

-- The settlement of a repayment succeeds, and clears what it is worth or all that is owed: where the
-- payment is worth at least one unit of riseSOL, something is owed, the rewards tracker settles, and
-- the numbers fit their types.
pub settle_repayment_succeeds :
    (p : CdpPosition) (payment rate scale : ℕ) (c : CdpConfig) (rc : BorrowRewardsConfig)
    (rewards settled : BorrowRewards)
    → settle rewards rc.reward_per_token p.rise_sol_debt_principal ≡ ok settled
    → 0 < rate
    → 0 < scale
    → payment * scale < u128
    → 0 < payment * scale / rate
    → payment * scale / rate < u64
    → 0 < debt p
    → debt p < u64
    → p.rise_sol_debt_principal * rc.reward_per_token < u128
    → (r : Repayment) × (settle_repayment p payment rate scale c rc rewards ≡ ok r)
      × (debt r.position + min (payment * scale / rate) (debt p) ≡ debt p)
unfolding settle_repayment to_rise_sol total_rise_sol_owed
settle_repayment_succeeds p payment rate scale c rc rewards settled e positive scaled fits worth
      narrow owing owed tracked =
    let cleared = min (payment * scale / rate) (debt p) in
    let part : cleared * rate ≤ payment * scale / rate * rate =
      mul-le-mul_right rate (omega arith) in
    let whole = div-mul-le_self (payment * scale) rate in
    let (r, booked) =
      book_repayment-total p cleared rate scale c rc settled (omega arith) (omega arith) scaled
        tracked in
    let (within, left, _, _, _, _) = book_repayment-eq p cleared rate scale c rc settled r booked in
    (r, ground arith, omega arith)
