-- ===== src/Gauges/Solvency.antt =====
-- programs/rise-rewards: what the stakers can claim is covered by what was distributed.
use native.Mathlib.Nat.{mul-le-mul_left}
use rise_protocol.Prelude.{
  le-div, ℕ, ◌+◌, ◌*◌, ◌/◌, ◌≤◌, ◌≡◌, arith, List, [], ◌∷◌, sum_by, Replaced, Removed,
  replaced_here, replaced_later, removed_here, removed_later, ap,
}
use rise_protocol.Gauges.State.{Gauge, UserStake}
use rise_protocol.Gauges.Settlement.{worth}
use rise_protocol.Gauges.Totals.{Books}

abbrev pub lp_total : List UserStake → ℕ
lp_total = sum_by (λ s. s.lp_amount)

abbrev pub pending_total : List UserStake → ℕ
pending_total = sum_by (λ s. s.pending_rewards)

abbrev pub debt_total : List UserStake → ℕ
debt_total = sum_by (λ s. s.reward_debt)

-- No stake's debt is above what its tokens have accumulated.
abbrev pub AllWithin : Gauge → List UserStake → Type 0
AllWithin g [] = Unit {0}
AllWithin g (s ∷ ss) = (s.reward_debt ≤ worth g s.lp_amount) × AllWithin g ss

-- The bound on the rewards is in units of 1 / REWARD_SCALE.
pub record IsSolvent (w : Books) : Type 0 where
  pub total_is : w.gauge.total_lp_deposited ≡ lp_total w.stakes
  pub debts_within : AllWithin w.gauge w.stakes
  pub bounded :
      1_000_000_000_000 * pending_total w.stakes
        + lp_total w.stakes * w.gauge.reward_per_token
        + 1_000_000_000_000 * w.paid
      ≤ 1_000_000_000_000 * w.gauge.total_distributed
        + 1_000_000_000_000 * w.changes
        + 1_000_000_000_000 * debt_total w.stakes

-- The arithmetic of a settled stake among the totals: P, L and D are the totals of the pending
-- rewards, of the tokens times the accumulator, and of the debts.
pub settled_within :
    (P P' D D' p p' d d' X X' x x' n paid dist changes : ℕ)
    → 1_000_000_000_000 * P + X + 1_000_000_000_000 * paid
      ≤ 1_000_000_000_000 * dist + 1_000_000_000_000 * changes + 1_000_000_000_000 * D
    → P' + p ≡ P + p'
    → D' + d ≡ D + d'
    → X' + x ≡ X + x'
    → p' + n + d ≤ p + x / 1_000_000_000_000
    → d' ≡ x' / 1_000_000_000_000
    → 1_000_000_000_000 * P' + X' + 1_000_000_000_000 * (paid + n)
      ≤ 1_000_000_000_000 * dist + 1_000_000_000_000 * (changes + 1) + 1_000_000_000_000 * D'
settled_within P P' D D' p p' d d' X X' x x' n paid dist changes bound pending debt worth credit
      is =
    omega arith

-- So where the stake keeps its amount, and then without the unit for rounding.
pub claimed_within :
    (P P' D D' p p' d d' X x n paid dist changes : ℕ)
    → 1_000_000_000_000 * P + X + 1_000_000_000_000 * paid
      ≤ 1_000_000_000_000 * dist + 1_000_000_000_000 * changes + 1_000_000_000_000 * D
    → P' + p ≡ P + p'
    → D' + d ≡ D + d'
    → p' + n + d ≤ p + x / 1_000_000_000_000
    → d' ≡ x / 1_000_000_000_000
    → 1_000_000_000_000 * P' + X + 1_000_000_000_000 * (paid + n)
      ≤ 1_000_000_000_000 * dist + 1_000_000_000_000 * changes + 1_000_000_000_000 * D'
claimed_within P P' D D' p p' d d' X x n paid dist changes bound pending debt credit is =
    omega arith

pub times_sum : (L L' l l' rate : ℕ) → L' + l ≡ L + l' → L' * rate + l * rate ≡ L * rate + l' * rate
times_sum L L' l l' rate same = let scaled = ap (λ x. x * rate) same in grind arith

worth_monotone :
    (g g' : Gauge) (n : ℕ) → g.reward_per_token ≤ g'.reward_per_token → worth g n ≤ worth g' n
worth_monotone g g' n le = le-div (mul-le-mul_left n le) (omega arith)

pub all_later :
    (g g' : Gauge) (ss : List UserStake)
    → g.reward_per_token ≤ g'.reward_per_token
    → AllWithin g ss
    → AllWithin g' ss
all_later g g' [] le all = tt
all_later g g' (s ∷ ss) le all =
    let grown = worth_monotone g g' s.lp_amount le in
    let within = all.0 in (omega arith, all_later g g' ss le all.1)

pub Replaced-AllWithin :
    (g : Gauge) {s s' : UserStake} {ss ss' : List UserStake}
    → Replaced s s' ss ss'
    → s'.reward_debt ≤ worth g s'.lp_amount
    → AllWithin g ss
    → AllWithin g ss'
Replaced-AllWithin g replaced_here within all = (within, all.1)
Replaced-AllWithin g (replaced_later r) within all = (all.0, Replaced-AllWithin g r within all.1)

pub Replaced-within :
    (g : Gauge) {s s' : UserStake} {ss ss' : List UserStake}
    → Replaced s s' ss ss'
    → AllWithin g ss
    → s.reward_debt ≤ worth g s.lp_amount
Replaced-within g replaced_here all = all.0
Replaced-within g (replaced_later r) all = Replaced-within g r all.1

pub Removed-AllWithin :
    (g : Gauge) {s : UserStake} {ss ss' : List UserStake}
    → Removed s ss ss'
    → AllWithin g ss
    → (s.reward_debt ≤ worth g s.lp_amount) × AllWithin g ss'
Removed-AllWithin g removed_here all = all
Removed-AllWithin g (removed_later r) all =
    let (one, rest) = Removed-AllWithin g r all.1 in (one, (all.0, rest))
