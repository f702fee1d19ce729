-- ===== src/Gauges/Growth.antt =====
-- programs/rise-rewards: what a checkpoint does to a gauge.
use native.Mathlib.Nat.{div-mul-le_self}
use rise_protocol.Prelude.{
  ◌∙◌, ◌==◌, checked_add, leb, ok-last, test_cases, inr, inl, ◌⊎◌, ℕ, ◌+◌, ◌*◌, ◌/◌, ◌≤◌, ◌≡◌, ok,
  arith, bind-eq_ok, u64,
}
use rise_protocol.Gauges.State.{or_overflow, RewardsConfig, Gauge}
use rise_protocol.Gauges.Emission.{
  advance_epoch, allocate, distribute, checkpoint_epoch, checkpoint_gauge,
}

-- The accumulator does not fall, and what it adds over the deposited tokens is no more than what
-- was distributed.
pub record Grows (g g' : Gauge) : Type 0 where
  pub same_total : g'.total_lp_deposited ≡ g.total_lp_deposited
  pub rate_within : g.reward_per_token ≤ g'.reward_per_token
  pub growth_within :
      g.total_lp_deposited * g'.reward_per_token + 1_000_000_000_000 * g.total_distributed
      ≤ g.total_lp_deposited * g.reward_per_token + 1_000_000_000_000 * g'.total_distributed

pub Grows-same :
    (g g' : Gauge)
    → g'.total_lp_deposited ≡ g.total_lp_deposited
    → g'.reward_per_token ≡ g.reward_per_token
    → g'.total_distributed ≡ g.total_distributed
    → Grows g g'
Grows-same g g' total rate distributed = record {
  same_total = total;
  rate_within = omega arith;
  growth_within = rw rate (rw distributed (omega arith));
}

growth_of :
    (lp rate n : ℕ) → lp * (rate + n * 1_000_000_000_000 / lp) ≤ lp * rate + n * 1_000_000_000_000
growth_of lp rate n = let within = div-mul-le_self (n * 1_000_000_000_000) lp in grind arith

distribute-eq :
    (g : Gauge) (n : ℕ) (g' : Gauge)
    → distribute g n ≡ ok g'
    → (g'.total_lp_deposited ≡ g.total_lp_deposited)
      × (((g'.reward_per_token ≡ g.reward_per_token + n * 1_000_000_000_000 / g.total_lp_deposited)
            × (g'.total_distributed ≡ g.total_distributed + n))
          ⊎ ((g'.reward_per_token ≡ g.reward_per_token)
              × (g'.total_distributed ≡ g.total_distributed)))
unfolding distribute
distribute-eq g n g' h = ground arith

distribute-Grows : (g : Gauge) (n : ℕ) (g' : Gauge) → distribute g n ≡ ok g' → Grows g g'
distribute-Grows g n g' h =
    let (total, cases) = distribute-eq g n g' h in
    elim cases [
      | inl (rate, distributed) ↦
          let growth = growth_of g.total_lp_deposited g.reward_per_token n in
          record {
            same_total = total;
            rate_within = omega arith;
            growth_within = rw rate (rw distributed (omega arith));
          }
      | inr (rate, distributed) ↦ Grows-same g g' total rate distributed
    ]

-- A gauge that grew, with its epoch moved.
with_epoch-Grows :
    (g d g' : Gauge)
    → Grows g d
    → g'.total_lp_deposited ≡ d.total_lp_deposited
    → g'.reward_per_token ≡ d.reward_per_token
    → g'.total_distributed ≡ d.total_distributed
    → Grows g g'
with_epoch-Grows g d g' grows total rate distributed = record {
  same_total = total ∙ grows.same_total;
  rate_within = rw rate grows.rate_within;
  growth_within = rw rate (rw distributed grows.growth_within);
}

checkpoint_epoch-Grows :
    (c : RewardsConfig) (g g' : Gauge) → checkpoint_epoch c g ≡ ok g' → Grows g g'
unfolding checkpoint_epoch
checkpoint_epoch-Grows c g g' h =
    elim (test_cases (leb c.current_epoch g.last_checkpoint_epoch) h) [
      | inl same ↦
          Grows-same g g' (ground (arith, same)) (ground (arith, same)) (ground (arith, same))
      | inr early ↦
          let (share, _, k1) = bind-eq_ok (allocate c g) _ early in
          let (n, _, k2) =
            bind-eq_ok (or_overflow (checked_add u64 share g.pending_emissions)) _ k1 in
          elim (test_cases (g.total_lp_deposited == 0) k2) [
            | inl rolled ↦
                Grows-same g g' (ground (arith, rolled)) (ground (arith, rolled))
                  (ground (arith, rolled))
            | inr spread ↦
                let (d, distributed, k3) = bind-eq_ok (distribute g n) _ spread in
                with_epoch-Grows g d g' (distribute-Grows g n d distributed) (ground (arith, k3))
                  (ground (arith, k3)) (ground (arith, k3))
          ]
    ]

pub checkpoint_gauge-Grows :
    (c : RewardsConfig) (g : Gauge) (slot : ℕ) (c' : RewardsConfig) (g' : Gauge)
    → checkpoint_gauge c g slot ≡ ok (c', g')
    → Grows g g'
unfolding checkpoint_gauge
checkpoint_gauge-Grows c g slot c' g' h =
    let (advanced, _, k1) = bind-eq_ok (advance_epoch c slot) _ h in
    let (d, checkpointed, k2) = bind-eq_ok (checkpoint_epoch advanced g) _ k1 in
    rw (← ok-last k2) (checkpoint_epoch-Grows advanced g d checkpointed)
