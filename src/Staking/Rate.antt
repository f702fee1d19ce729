-- ===== src/Staking/Rate.antt =====
-- programs/rise-staking/src/instructions/update_exchange_rate.rs, credit_staking_revenue.rs and
-- receive_cdp_liquidity.rs: what recognises lamports that have come into the pool's vault.
use rise_protocol.Prelude.{
  ℕ, ltb, leb, if◌then◌else◌, ◌>>=◌, ◌>>◌, ok, require, add_or_panic, checked_add, checked_sub,
  checked_mul, checked_div, u128,
}
use rise_protocol.Solana.{Pubkey, Runtime}
use rise_protocol.Staking.State.{
  GlobalPool, Outcome, or_overflow, rate_scale, zero_amount, insufficient_liquidity,
}

-- `total_sol_staked * RATE_SCALE / staking_rise_sol_supply`
unfoldable pub backing_rate : ℕ → ℕ → Outcome ℕ
backing_rate total supply = do
  scaled ← or_overflow (checked_mul u128 total rate_scale)
  or_overflow (checked_div scaled supply)

-- The rate after revenue was credited, where there is a supply.
unfoldable pub refresh_rate : GlobalPool → Outcome GlobalPool
unfolding backing_rate
refresh_rate p =
    if ltb 0 p.staking_rise_sol_supply
    then (do
      rate ← backing_rate p.total_sol_staked p.staking_rise_sol_supply
      ok (record p { exchange_rate = rate }))
    else ok p

-- "Snapshot current rate before overwriting", where there is a supply.
unfoldable pub snapshot_rate : GlobalPool → ℕ → Outcome GlobalPool
unfolding backing_rate
snapshot_rate p slot =
    if ltb 0 p.staking_rise_sol_supply
    then (do
      rate ← backing_rate p.total_sol_staked p.staking_rise_sol_supply
      ok (record p {
        prev_exchange_rate = p.exchange_rate;
        prev_rate_update_slot = slot;
        exchange_rate = rate;
      }))
    else ok p

-- The rest of `update_exchange_rate` once there are rewards: the protocol's fee stays in the vault.
unfoldable pub credit_rewards : GlobalPool → ℕ → ℕ → ℕ → Outcome GlobalPool
unfolding snapshot_rate
credit_rewards p rewards current_epoch slot = do
  product ← or_overflow (checked_mul u128 rewards p.protocol_fee_bps)
  protocol_fee ← or_overflow (checked_div product 10_000)
  credited_rewards ← or_overflow (checked_sub rewards protocol_fee)
  total ← or_overflow (checked_add u128 p.total_sol_staked credited_rewards)
  liquid ← or_overflow (checked_add u128 p.liquid_buffer_lamports credited_rewards)
  rated ←
      snapshot_rate (record p { total_sol_staked = total; liquid_buffer_lamports = liquid }) slot
  ok (record rated { last_rate_update_epoch = current_epoch })

-- The handler after its test of the epoch, on the lamports that are not pending withdrawals.
unfoldable pub recognise : GlobalPool → ℕ → ℕ → ℕ → Outcome GlobalPool
recognise p available current_epoch slot =
    if leb available p.liquid_buffer_lamports
    then ok (record p { last_rate_update_epoch = current_epoch })
    else (do
      rewards ← or_overflow (checked_sub available p.liquid_buffer_lamports)
      credit_rewards p rewards current_epoch slot)

module _ {B : Type 0} (rt : Runtime B) where
  -- The argument `stake_lamports_total` is not used by the handler.
  unfoldable pub update_exchange_rate : GlobalPool → Pubkey → B → Outcome GlobalPool
  update_exchange_rate p pool_vault b =
      if leb (rt.epoch b) p.last_rate_update_epoch then ok p else (do
        available ←
            or_overflow (checked_sub (rt.lamports b pool_vault) p.pending_withdrawals_lamports)
        recognise p available (rt.epoch b) (rt.slot b))

  -- The vault holds `amount` above what the pool has accounted for.
  unfoldable pub check_deposit : GlobalPool → Pubkey → ℕ → B → Outcome (Unit {0})
  check_deposit p pool_vault amount b = do
    require (ltb 0 amount) zero_amount
    accounted ←
        or_overflow (checked_add u128 p.liquid_buffer_lamports p.pending_withdrawals_lamports)
    needed ← add_or_panic u128 accounted amount
    require (leb needed (rt.lamports b pool_vault)) insufficient_liquidity

  unfoldable pub credit_staking_revenue : GlobalPool → Pubkey → ℕ → B → Outcome GlobalPool
  unfolding check_deposit
  credit_staking_revenue p pool_vault amount b = do
    check_deposit p pool_vault amount b
    total ← or_overflow (checked_add u128 p.total_sol_staked amount)
    liquid ← or_overflow (checked_add u128 p.liquid_buffer_lamports amount)
    refresh_rate (record p { total_sol_staked = total; liquid_buffer_lamports = liquid })

  unfoldable pub receive_cdp_liquidity : GlobalPool → Pubkey → ℕ → B → Outcome GlobalPool
  unfolding check_deposit
  receive_cdp_liquidity p pool_vault sol_amount b = do
    check_deposit p pool_vault sol_amount b
    liquid ← or_overflow (checked_add u128 p.liquid_buffer_lamports sol_amount)
    ok (record p { liquid_buffer_lamports = liquid })
