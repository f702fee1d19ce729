-- ===== src/Gauges/Emission.antt =====
-- The instructions of programs/rise-rewards/src/instructions on the config and on a gauge:
-- initialize_rewards, set_epoch_emissions, create_gauge, set_gauge_weight, checkpoint_gauge,
-- close_gauge and close_rewards_config.
use rise_protocol.Prelude.{
  ℕ, ◌+◌, ◌-◌, ◌%◌, min, true, ltb, leb, ◌==◌, if◌then◌else◌, ◌>>=◌, ◌>>◌, ok, require, checked_add,
  checked_mul, checked_div, u64, u128,
}
use rise_protocol.Solana.{Pubkey}
use rise_protocol.Gauges.State.{
  RewardsConfig, Gauge, Outcome, or_overflow, default_slots_per_epoch, reward_scale, zero_amount,
  unauthorized, invalid_weight, gauge_has_active_deposits,
}

-- The authority, the mint, the emissions, the slot, the bump.
unfoldable pub initialize_rewards : Pubkey → Pubkey → ℕ → ℕ → ℕ → Outcome RewardsConfig
initialize_rewards authority rise_mint epoch_emissions current_slot bump = do
  require (ltb 0 epoch_emissions) zero_amount
  ok (record {
    authority = authority;
    rise_mint = rise_mint;
    epoch_emissions = epoch_emissions;
    current_epoch = 0;
    epoch_start_slot = current_slot;
    slots_per_epoch = default_slots_per_epoch;
    gauge_count = 0;
    bump = bump;
  })

unfoldable pub set_epoch_emissions : Pubkey → RewardsConfig → ℕ → Outcome RewardsConfig
set_epoch_emissions authority c epoch_emissions = do
  require (authority == c.authority) unauthorized
  require (ltb 0 epoch_emissions) zero_amount
  ok (record c { epoch_emissions = epoch_emissions })

-- The new gauge, with the config. The field that the handler does not write is zero in a new
-- account.
unfoldable pub create_gauge : Pubkey → RewardsConfig → Pubkey → ℕ → Outcome (RewardsConfig × Gauge)
create_gauge authority c pool bump = do
  require (c.authority == authority) unauthorized
  gauge_count ← or_overflow (checked_add u64 c.gauge_count 1)
  ok (
    record c { gauge_count = gauge_count },
    record {
      pool = pool;
      index = c.gauge_count;
      weight_bps = 0;
      active = true;
      reward_per_token = 0;
      total_lp_deposited = 0;
      last_checkpoint_epoch = c.current_epoch;
      total_distributed = 0;
      pending_emissions = 0;
      bump = bump;
    },
  )

unfoldable pub set_gauge_weight : Pubkey → RewardsConfig → Gauge → ℕ → Outcome Gauge
set_gauge_weight authority c g weight_bps = do
  require (authority == c.authority) unauthorized
  require (leb weight_bps 10_000) invalid_weight
  ok (record g { weight_bps = weight_bps })

-- The config in the next epoch, if enough slots have elapsed.
unfoldable pub advance_epoch : RewardsConfig → ℕ → Outcome RewardsConfig
advance_epoch c current_slot =
    if leb c.slots_per_epoch (current_slot - c.epoch_start_slot)
    then (do
      current_epoch ← or_overflow (checked_add u64 c.current_epoch 1)
      ok (record c {
        current_epoch = current_epoch;
        epoch_start_slot = min (c.epoch_start_slot + c.slots_per_epoch) (u64 - 1);
      }))
    else ok c

-- The gauge's share of an epoch's emissions.
unfoldable pub allocate : RewardsConfig → Gauge → Outcome ℕ
allocate c g = if g.weight_bps == 0 then ok 0 else (do
  product ← or_overflow (checked_mul u128 c.epoch_emissions g.weight_bps)
  share ← or_overflow (checked_div product 10_000)
  ok (share % u64))

-- The amount goes to the depositors, if there is any.
unfoldable pub distribute : Gauge → ℕ → Outcome Gauge
distribute g total_to_distribute =
    if ltb 0 total_to_distribute
    then (do
      scaled ← or_overflow (checked_mul u128 total_to_distribute reward_scale)
      reward_increase ← or_overflow (checked_div scaled g.total_lp_deposited)
      reward_per_token ← or_overflow (checked_add u128 g.reward_per_token reward_increase)
      total_distributed ← or_overflow (checked_add u64 g.total_distributed total_to_distribute)
      ok (record g {
        reward_per_token = reward_per_token;
        total_distributed = total_distributed;
        pending_emissions = 0;
      }))
    else ok g

-- The checkpoint of a gauge in an epoch.
unfoldable pub checkpoint_epoch : RewardsConfig → Gauge → Outcome Gauge
checkpoint_epoch c g = if leb c.current_epoch g.last_checkpoint_epoch then ok g else (do
  epoch_allocation ← allocate c g
  total_to_distribute ← or_overflow (checked_add u64 epoch_allocation g.pending_emissions)
  if g.total_lp_deposited == 0
      then ok (record g {
        pending_emissions = total_to_distribute;
        last_checkpoint_epoch = c.current_epoch;
      })
      else (do
        distributed ← distribute g total_to_distribute
        ok (record distributed { last_checkpoint_epoch = c.current_epoch })))

unfoldable pub checkpoint_gauge : RewardsConfig → Gauge → ℕ → Outcome (RewardsConfig × Gauge)
checkpoint_gauge c g current_slot = do
  advanced ← advance_epoch c current_slot
  checkpointed ← checkpoint_epoch advanced g
  ok (advanced, checkpointed)

-- What an instruction that closes an account checks; the runtime then drops the account.
unfoldable pub close_gauge : Pubkey → RewardsConfig → Gauge → Outcome (Unit {0})
close_gauge authority c g = do
  require (authority == c.authority) unauthorized
  require (g.total_lp_deposited == 0) gauge_has_active_deposits

unfoldable pub close_rewards_config : Pubkey → RewardsConfig → Outcome (Unit {0})
close_rewards_config authority c = require (authority == c.authority) unauthorized
