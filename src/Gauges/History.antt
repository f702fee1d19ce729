-- ===== src/Gauges/History.antt =====
-- programs/rise-rewards: the solvency of a gauge over every history.
use rise_protocol.Prelude.{◌-◌, ℕ, ◌+◌}
use rise_protocol.Gauges.State.{Gauge, UserStake}
use rise_protocol.Gauges.Settlement.{worth}

-- What a stake could be paid.
abbrev pub owed : Gauge → UserStake → ℕ
owed g s = s.pending_rewards + (worth g s.lp_amount - s.reward_debt)
