-- ===== src/Gauges/Preserve.antt =====
-- programs/rise-rewards: each kind of step keeps a gauge solvent.
use rise_protocol.Prelude.{
  ℕ, ◌+◌, ◌-◌, ◌*◌, ◌/◌, ◌≤◌, ◌≡◌, ok, arith, ◌∷◌, Replaced, Removed, Replaced-sum, Removed-sum, ap,
  ◌∙◌,
}
use rise_protocol.Gauges.State.{UserStake}
use rise_protocol.Gauges.Stake.{claimable}
use rise_protocol.Gauges.Settlement.{worth, IsSettled, HasTotal, claimable-le}
use rise_protocol.Gauges.Growth.{Grows}
use rise_protocol.Gauges.Totals.{Books, no_stake}
use rise_protocol.Gauges.Solvency.{
  IsSolvent, lp_total, pending_total, debt_total, settled_within, claimed_within, times_sum,
  all_later, Replaced-AllWithin, Removed-AllWithin,
}

-- A stake that was settled, with another amount.
pub changed :
    (w w' : Books) (s s' : UserStake)
    → IsSolvent w
    → Replaced s s' w.stakes w'.stakes
    → IsSettled w.gauge s s' 0
    → w'.gauge.total_lp_deposited + s.lp_amount ≡ w.gauge.total_lp_deposited + s'.lp_amount
    → w'.gauge.reward_per_token ≡ w.gauge.reward_per_token
    → w'.gauge.total_distributed ≡ w.gauge.total_distributed
    → w'.paid ≡ w.paid
    → w'.changes ≡ w.changes + 1
    → IsSolvent w'
changed w w' s s' i r settled total rate distributed paid changes =
    let (lp_same, _) = Replaced-sum (λ s. s.lp_amount) r in
    let (pending_same, _) = Replaced-sum (λ s. s.pending_rewards) r in
    let (debt_same, _) = Replaced-sum (λ s. s.reward_debt) r in
    let product =
      times_sum (lp_total w.stakes) (lp_total w'.stakes) s.lp_amount s'.lp_amount
        w.gauge.reward_per_token lp_same in
    let total_is = i.total_is in
    let bound =
      settled_within (pending_total w.stakes) (pending_total w'.stakes) (debt_total w.stakes)
        (debt_total w'.stakes) s.pending_rewards s'.pending_rewards s.reward_debt s'.reward_debt
        (lp_total w.stakes * w.gauge.reward_per_token)
        (lp_total w'.stakes * w.gauge.reward_per_token) (s.lp_amount * w.gauge.reward_per_token)
        (s'.lp_amount * w.gauge.reward_per_token) 0 w.paid w.gauge.total_distributed w.changes
        i.bounded pending_same debt_same product settled.credit_within settled.debt_is in
    let within = settled.debt_is in
    record {
      total_is = omega arith;
      debts_within =
          all_later w.gauge w'.gauge w'.stakes (omega arith)
            (Replaced-AllWithin w.gauge r (omega arith) i.debts_within);
      bounded = rw rate (rw distributed (rw paid (rw changes (omega arith))));
    }

-- An empty stake changes no total.
pub with_no_stake :
    (w : Books) → IsSolvent w → IsSolvent (record w { stakes = no_stake ∷ w.stakes })
with_no_stake w i =
    let total_is = i.total_is in
    let bounded = i.bounded in
    record {
      total_is = omega arith;
      debts_within = (omega arith, i.debts_within);
      bounded = omega arith;
    }

-- A stake that was paid, with the same amount.
pub claimed :
    (w w' : Books) (s s' : UserStake) (n : ℕ)
    → IsSolvent w
    → Replaced s s' w.stakes w'.stakes
    → IsSettled w.gauge s s' n
    → s'.lp_amount ≡ s.lp_amount
    → w'.gauge ≡ w.gauge
    → w'.paid ≡ w.paid + n
    → w'.changes ≡ w.changes
    → IsSolvent w'
claimed w w' s s' n i r settled same_amount same_gauge paid changes =
    let (lp_same, _) = Replaced-sum (λ s. s.lp_amount) r in
    let (pending_same, _) = Replaced-sum (λ s. s.pending_rewards) r in
    let (debt_same, _) = Replaced-sum (λ s. s.reward_debt) r in
    let lp_is : lp_total w'.stakes ≡ lp_total w.stakes = omega arith in
    let total_is = i.total_is in
    let bound =
      claimed_within (pending_total w.stakes) (pending_total w'.stakes) (debt_total w.stakes)
        (debt_total w'.stakes) s.pending_rewards s'.pending_rewards s.reward_debt s'.reward_debt
        (lp_total w.stakes * w.gauge.reward_per_token) (s.lp_amount * w.gauge.reward_per_token) n
        w.paid w.gauge.total_distributed w.changes i.bounded pending_same debt_same
        settled.credit_within (settled.debt_is ∙ ap (worth w.gauge) same_amount) in
    let within = settled.debt_is in
    record {
      total_is = rw same_gauge (omega arith);
      debts_within = rw same_gauge (Replaced-AllWithin w.gauge r (omega arith) i.debts_within);
      bounded = rw same_gauge (rw lp_is (rw paid (rw changes bound)));
    }

-- The arithmetic of a stake that leaves: X and Y are the tokens times the accumulator.
left_within :
    (P P' D D' p d X X' x n m paid dist changes : ℕ)
    → 1_000_000_000_000 * P + X + 1_000_000_000_000 * paid
      ≤ 1_000_000_000_000 * dist + 1_000_000_000_000 * changes + 1_000_000_000_000 * D
    → P' + p ≡ P
    → D' + d ≡ D
    → X' + x ≡ X
    → n + d ≤ p + x / 1_000_000_000_000
    → m ≤ n
    → 1_000_000_000_000 * P' + X' + 1_000_000_000_000 * (paid + m)
      ≤ 1_000_000_000_000 * dist + 1_000_000_000_000 * changes + 1_000_000_000_000 * D'
left_within P P' D D' p d X X' x n m paid dist changes bound pending debt product claim le =
    omega arith

pub removed :
    (w w' : Books) (s : UserStake) (n m : ℕ)
    → IsSolvent w
    → Removed s w.stakes w'.stakes
    → HasTotal w.gauge w'.gauge (w.gauge.total_lp_deposited - s.lp_amount)
    → claimable w.gauge s ≡ ok n
    → m ≤ n
    → w'.paid ≡ w.paid + m
    → w'.changes ≡ w.changes
    → IsSolvent w'
removed w w' s n m i r t claim le paid changes =
    let lp_same = Removed-sum (λ s. s.lp_amount) r in
    let pending_same = Removed-sum (λ s. s.pending_rewards) r in
    let debt_same = Removed-sum (λ s. s.reward_debt) r in
    let (within, rest) = Removed-AllWithin w.gauge r i.debts_within in
    let product =
      times_sum (lp_total w.stakes) (lp_total w'.stakes) s.lp_amount 0 w.gauge.reward_per_token
        (omega arith) in
    let total_is = i.total_is in
    let total = t.total_is in
    let rate = t.same_rate in
    let bound =
      left_within (pending_total w.stakes) (pending_total w'.stakes) (debt_total w.stakes)
        (debt_total w'.stakes) s.pending_rewards s.reward_debt
        (lp_total w.stakes * w.gauge.reward_per_token)
        (lp_total w'.stakes * w.gauge.reward_per_token) (s.lp_amount * w.gauge.reward_per_token) n m
        w.paid w.gauge.total_distributed w.changes i.bounded pending_same debt_same (omega arith)
        (claimable-le w.gauge s n claim within) le in
    record {
      total_is = omega arith;
      debts_within = all_later w.gauge w'.gauge w'.stakes (omega arith) rest;
      bounded = rw rate (rw t.same_distributed (rw paid (rw changes bound)));
    }

pub grown :
    (w w' : Books)
    → IsSolvent w
    → Grows w.gauge w'.gauge
    → w'.stakes ≡ w.stakes
    → w'.paid ≡ w.paid
    → w'.changes ≡ w.changes
    → IsSolvent w'
grown w w' i g stakes paid changes =
    let total_is = i.total_is in
    let bounded = i.bounded in
    let total = g.same_total in
    let growth : lp_total w.stakes * w'.gauge.reward_per_token
          + 1_000_000_000_000 * w.gauge.total_distributed
        ≤ lp_total w.stakes * w.gauge.reward_per_token
          + 1_000_000_000_000 * w'.gauge.total_distributed =
      rw (← total_is) g.growth_within in
    record {
      total_is = rw stakes (omega arith);
      debts_within = rw stakes (all_later w.gauge w'.gauge w.stakes g.rate_within i.debts_within);
      bounded = rw stakes (rw paid (rw changes (omega arith)));
    }
