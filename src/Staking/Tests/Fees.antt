-- ===== src/Staking/Tests/Fees.antt =====
-- Theorems on the exchange rate and the fees, at concrete inputs: a pool of 5 SOL whose vault has
-- earned 1 SOL.
use rise_protocol.Prelude.{
  ℕ, ◌+◌, ◌-◌, ◌*◌, ◌/◌, ◌≤◌, ◌<◌, ◌≡◌, ◌≢◌, ◌==◌, if◌then◌else◌, refl, ok, arith, u64, u128, List,
  [], ◌∷◌, ◌++◌, zero, suc, from_le_bytes,
}
use rise_protocol.Solana.{Runtime, TransferLaws}
use rise_protocol.Sample.{Bank, sample_runtime}
use rise_protocol.Staking.State.{GlobalPool, ProtocolTreasury, team_cut, verise_cut}
use rise_protocol.Staking.Rate.{
  update_exchange_rate, recognise, credit_rewards, credit_staking_revenue,
}
use rise_protocol.Staking.Treasury.{
  initialize_treasury, add_reserve, read_total_verise, advance_index,
}
use rise_protocol.Staking.Fees.{
  CollectFees, Shares, split_fees, send_team, send_reserve, send_verise, distribute, sweepable,
  collect_fees,
}
use rise_protocol.Staking.Sweep.{
  IsElsewhere, collect_fees_sweeps, initialize_treasury_may_block_fees,
}
use rise_protocol.Staking.RateLaws.{
  excess, update_exchange_rate_earns, update_exchange_rate_again, credit_staking_revenue_takes_fees,
}
use rise_protocol.Staking.Tests.Samples.{bank, genesis_pool, treasury, ok_value}

abbrev pool : GlobalPool
pool = record genesis_pool {
  total_sol_staked = 5_000_000_000;
  staking_rise_sol_supply = 5_000_000_000;
  liquid_buffer_lamports = 5_000_000_000;
}

abbrev earned : Bank
earned = record bank { balance = λ k. if k == 3 then 6_000_000_000 else 0 }

abbrev later : Bank
later = record earned { epoch = 8 }

updated : GlobalPool
unfolding update_exchange_rate recognise credit_rewards u128
updated = ok_value (update_exchange_rate sample_runtime pool 3 earned) pool

updated_runs : update_exchange_rate sample_runtime pool 3 earned ≡ ok updated
unfolding updated
updated_runs = refl

updated_again : GlobalPool
unfolding updated
updated_again = ok_value (update_exchange_rate sample_runtime updated 3 later) pool

updated_again_runs : update_exchange_rate sample_runtime updated 3 later ≡ ok updated_again
unfolding updated_again
updated_again_runs = refl

-- The rate goes from 1.0 to 1.19.
updated_rate : updated.exchange_rate ≡ 1_190_000_000
unfolding updated
updated_rate = refl

update_exchange_rate_earns_example :
    (updated.total_sol_staked ≡ 5_000_000_000 + (1_000_000_000 - 1_000_000_000 * 500 / 10_000))
    × (updated.liquid_buffer_lamports
        ≡ 5_000_000_000 + (1_000_000_000 - 1_000_000_000 * 500 / 10_000))
    × (updated.staking_rise_sol_supply ≡ 5_000_000_000)
    × (updated.pending_withdrawals_lamports ≡ 0)
    × (updated.last_rate_update_epoch ≡ 7)
update_exchange_rate_earns_example =
    update_exchange_rate_earns sample_runtime 3 pool updated earned (omega arith) updated_runs

update_exchange_rate_again_example :
    (excess sample_runtime 3 updated later ≡ 50_000_000)
    × (updated_again.total_sol_staked
        ≡ updated.total_sol_staked + (50_000_000 - 50_000_000 * 500 / 10_000))
update_exchange_rate_again_example =
    update_exchange_rate_again sample_runtime 3 pool updated updated_again earned later 50_000_000
      (omega arith) updated_runs (omega arith) refl updated_again_runs refl (omega arith)

zeros : ℕ → List ℕ
zeros zero = []
zeros (suc n) = 0 ∷ zeros n

-- A governance config with 1000000000 units of veRISE.
governance_bytes : List ℕ
unfolding zeros
governance_bytes = zeros 72 ++ (0 ∷ 202 ∷ 154 ∷ 59 ∷ zeros 60)

abbrev governed_runtime : Runtime Bank
governed_runtime = record sample_runtime { bytes = λ b k. governance_bytes }

governed_transfers : TransferLaws governed_runtime
governed_transfers = record { moves = λ from to n b b' k h. ground arith }

abbrev collection : CollectFees
collection = record {
  pool = pool;
  treasury = record treasury { verise_share_bps = 1_000 };
  pool_vault = 3;
  reserve_vault = 4;
  verise_vault = 5;
  team_wallet = 9;
  governance_config = 40;
}

collection_fees : sweepable sample_runtime collection earned ≡ ok 1_000_000_000
unfolding sweepable
collection_fees = refl

collected : ProtocolTreasury × Bank
unfolding collect_fees sweepable split_fees team_cut verise_cut distribute send_team send_reserve
    send_verise add_reserve read_total_verise from_le_bytes advance_index governance_bytes u64 u128
collected = ok_value (collect_fees governed_runtime 40 collection earned) (treasury, earned)

collected_runs : collect_fees governed_runtime 40 collection earned ≡ ok collected
unfolding collected
collected_runs = refl

collection-IsElsewhere : IsElsewhere collection
collection-IsElsewhere = omega arith

collect_fees_sweeps_example :
    (n : ℕ) × (s : Shares) × (earned.balance 3 ≡ collected.1.balance 3 + n)
    × (collected.1.balance 3 ≡ 5_000_000_000 + 0)
    × (s.team ≡ n * 2_500 / 10_000)
    × (s.verise ≡ n * 1_000 / 10_000)
    × (s.team + s.reserve + s.verise ≡ n)
    × (collected.0.reserve_lamports ≡ 0 + s.reserve)
    × (collected.1.balance 9 ≡ earned.balance 9 + s.team)
    × (collected.1.balance 4 ≡ earned.balance 4 + s.reserve)
    × (collected.1.balance 5 ≡ earned.balance 5 + s.verise)
    × (collected.0.total_distributed ≡ 0 + s.verise)
collect_fees_sweeps_example =
    collect_fees_sweeps governed_runtime governed_transfers collection collection-IsElsewhere 40
      earned collected collected_runs

-- The holders get a tenth, and the index grows by 0.1.
collected_index : collected.0.revenue_index ≡ 100_000_000_000
unfolding collected
collected_index = refl

below_u128 : (n : ℕ) → n ≤ 1_000_000_000_000_000_000_000 → n < u128
unfolding u128
below_u128 n h = omega arith

credit_staking_revenue_takes_fees_example :
    (p' : GlobalPool) × (credit_staking_revenue sample_runtime pool 3 1_000_000_000 earned ≡ ok p')
    × (p'.total_sol_staked ≡ 5_000_000_000 + 1_000_000_000)
    × (sweepable sample_runtime (record collection { pool = p' }) earned ≡ ok 0)
credit_staking_revenue_takes_fees_example =
    credit_staking_revenue_takes_fees sample_runtime collection 1_000_000_000 earned collection_fees
      (omega arith) (below_u128 _ (omega arith)) (below_u128 _ (omega arith))

-- Half for the team and all for the veRISE holders.
abbrev greedy : ProtocolTreasury
greedy = record treasury { team_fee_bps = 5_000; verise_share_bps = 10_000 }

greedy_accepted : initialize_treasury 8 252 5 9 5_000 10_000 ≡ ok greedy
unfolding initialize_treasury
greedy_accepted = refl

greedy_fees :
    sweepable sample_runtime (record collection { treasury = greedy }) earned ≡ ok 1_000_000_000
unfolding sweepable
greedy_fees = refl

initialize_treasury_may_block_fees_example :
    collect_fees sample_runtime 40 (record collection { treasury = greedy }) earned
    ≢ ok (greedy, earned)
initialize_treasury_may_block_fees_example =
    initialize_treasury_may_block_fees 8 252 5 9 5_000 10_000 sample_runtime 40
      (record collection { treasury = greedy }) earned 1_000_000_000 greedy_accepted (omega arith)
      greedy_fees (omega arith) (greedy, earned)
