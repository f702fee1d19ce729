-- ===== src/Staking/Cdp.antt =====
-- programs/rise-staking/src/instructions/initialize_pool.rs, set_cdp_config.rs,
-- notify_rise_sol_burned.rs and mint_for_cdp.rs: the pool's birth, and the entry points that only
-- the CDP program's config PDA may sign.
use rise_protocol.Prelude.{
  ℕ, ltb, leb, ◌==◌, ◌&&◌, false, ◌>>=◌, ◌>>◌, ok, cpi, require, or_fault, constrain, checked_sub,
}
use rise_protocol.Solana.{Pubkey, Runtime}
use rise_protocol.Staking.State.{
  GlobalPool, Outcome, or_overflow, rate_scale, min_liquid_buffer_bps, zero_amount, unauthorized,
  invalid_fee_bps, invalid_buffer_bps,
}

-- `init` gives a zeroed account; the handler leaves the fields that it does not write at zero.
unfoldable pub initialize_pool : Pubkey → Pubkey → ℕ → ℕ → ℕ → ℕ → Outcome GlobalPool
initialize_pool authority rise_sol_mint pool_bump epoch protocol_fee_bps liquid_buffer_target_bps =
    do
      require (leb protocol_fee_bps 10_000) invalid_fee_bps
      require
          (leb min_liquid_buffer_bps liquid_buffer_target_bps
            && leb liquid_buffer_target_bps 10_000)
          invalid_buffer_bps
      ok (record {
        authority = authority;
        rise_sol_mint = rise_sol_mint;
        total_sol_staked = 0;
        staking_rise_sol_supply = 0;
        exchange_rate = rate_scale;
        last_rate_update_epoch = epoch;
        liquid_buffer_lamports = 0;
        liquid_buffer_target_bps = liquid_buffer_target_bps;
        protocol_fee_bps = protocol_fee_bps;
        paused = false;
        pending_withdrawals_lamports = 0;
        bump = pool_bump;
        cdp_config_pubkey = 0;
        prev_exchange_rate = 0;
        prev_rate_update_slot = 0;
        unstake_nonce = 0;
      })

unfoldable pub set_cdp_config : Pubkey → Pubkey → GlobalPool → Outcome GlobalPool
set_cdp_config authority cdp_config_pubkey p = do
  require (authority == p.authority) unauthorized
  ok (record p { cdp_config_pubkey = cdp_config_pubkey })

unfoldable pub notify_rise_sol_burned : Pubkey → ℕ → GlobalPool → Outcome GlobalPool
notify_rise_sol_burned cdp_config amount p = do
  require (cdp_config == p.cdp_config_pubkey) unauthorized
  require (ltb 0 amount) zero_amount
  supply ← or_overflow (checked_sub p.staking_rise_sol_supply amount)
  ok (record p { staking_rise_sol_supply = supply })

pub record MintForCdp : Type 0 where
  pub cdp_config : Pubkey
  pub pool_key : Pubkey
  pub global_pool : GlobalPool
  pub rise_sol_mint : Pubkey
  pub recipient : Pubkey

module _ {B : Type 0} (rt : Runtime B) where
  unfoldable pub mint_for_cdp : MintForCdp → ℕ → B → Outcome B
  mint_for_cdp a amount b = do
    require (a.cdp_config == a.global_pool.cdp_config_pubkey) unauthorized
    constrain (a.rise_sol_mint == a.global_pool.rise_sol_mint)
    constrain ((rt.token b a.recipient).mint == a.global_pool.rise_sol_mint)
    require (ltb 0 amount) zero_amount
    or_fault (rt.mint_to a.rise_sol_mint a.recipient a.pool_key amount b) cpi
