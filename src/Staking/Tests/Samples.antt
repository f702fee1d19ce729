-- ===== src/Staking/Tests/Samples.antt =====
-- A sample world of the staking program and two runs in it.
use rise_protocol.Prelude.{
  ◌≡◌, ◌==◌, refl, none, [], false, if◌then◌else◌, ok, err, arith, u64, u128,
}
use rise_protocol.Sample.{Bank, sample_runtime}
use rise_protocol.Staking.State.{
  GlobalPool, ProtocolTreasury, Outcome, sol_to_rise_sol, rise_sol_to_sol,
}
use rise_protocol.Staking.Deposit.{stake_sol, resync, grow_supply, credit_stake}
use rise_protocol.Staking.Withdrawal.{unstake_rise_sol, shrink_supply, queue_withdrawal}
use rise_protocol.Staking.Cdp.{initialize_pool}
use rise_protocol.Staking.World.{
  World, Addresses, stakes, unstakes, load_optional, store_optional, store_tracker, find_ticket,
  check_absent,
}
use rise_protocol.Staking.Process.{process, process_stake, process_unstake}
use rise_protocol.Staking.Reachable.{IsApart}

abbrev pub addresses : Addresses
addresses = record {
  global_pool = 1;
  pool_vault = 3;
  reserve_vault = 4;
  verise_vault = 5;
  stake_rewards_config = 6;
  stake_rewards_vault = 7;
  config_bump = 255;
  tracker_bump = λ k. 254;
  ticket_bump = λ k n. 253;
  governance_program_id = 40;
}

pub addresses-IsApart : IsApart addresses
addresses-IsApart = omega arith

-- Account 10 owns the riseSOL account 11; 2 is the mint. Account 3, the vault, holds its rent.
abbrev pub bank : Bank
bank = record {
  balance = λ k. if k == 10 then 50_000_000_000 else if k == 3 then 890_880 else 0;
  token = λ k. record { mint = 2; owner = 10; amount = 0 };
  epoch = 7;
  slot = 1_000;
}

abbrev pub genesis_pool : GlobalPool
genesis_pool = record {
  authority = 8;
  rise_sol_mint = 2;
  total_sol_staked = 0;
  staking_rise_sol_supply = 0;
  exchange_rate = 1_000_000_000;
  last_rate_update_epoch = 5;
  liquid_buffer_lamports = 0;
  liquid_buffer_target_bps = 1_000;
  protocol_fee_bps = 500;
  paused = false;
  pending_withdrawals_lamports = 0;
  bump = 255;
  cdp_config_pubkey = 0;
  prev_exchange_rate = 0;
  prev_rate_update_slot = 0;
  unstake_nonce = 0;
}

pub genesis : initialize_pool 8 2 255 5 500 1_000 ≡ ok genesis_pool
unfolding initialize_pool
genesis = refl

abbrev pub treasury : ProtocolTreasury
treasury = record {
  authority = 8;
  team_wallet = 9;
  team_fee_bps = 2_500;
  verise_share_bps = 2_500;
  reserve_lamports = 0;
  revenue_index = 0;
  total_distributed = 0;
  last_collection_epoch = 5;
  bump = 252;
}

abbrev pub start : World Bank
start = record {
  pool = genesis_pool;
  treasury = treasury;
  config = none;
  trackers = λ k. none;
  tickets = [];
  bank = bank;
}

-- The value of an outcome, or the one before.
abbrev pub ok_value : {A : Type 0} → Outcome A → A → A
ok_value (ok a) before = a
ok_value (err e) before = before

unfoldable pub staked : World Bank
unfolding process process_stake load_optional stake_sol sol_to_rise_sol resync grow_supply
    credit_stake store_optional store_tracker u64 u128
staked =
    ok_value (process sample_runtime addresses start (stakes 10 2 11 false false 5_000_000_000))
      start

pub staked_runs :
    process sample_runtime addresses start (stakes 10 2 11 false false 5_000_000_000) ≡ ok staked
unfolding staked
staked_runs = refl

unfoldable pub unstaked : World Bank
unfolding staked process_unstake shrink_supply unstake_rise_sol rise_sol_to_sol queue_withdrawal
    find_ticket check_absent
unstaked =
    ok_value (process sample_runtime addresses staked (unstakes 10 2 11 false false 2_000_000_000))
      staked

pub unstaked_runs :
    process sample_runtime addresses staked (unstakes 10 2 11 false false 2_000_000_000)
    ≡ ok unstaked
unfolding unstaked
unstaked_runs = refl

unstaked_pool :
    (unstaked.pool.liquid_buffer_lamports ≡ 3_000_000_000)
    × (unstaked.pool.pending_withdrawals_lamports ≡ 2_000_000_000)
unfolding unstaked
unstaked_pool = (refl, refl)
