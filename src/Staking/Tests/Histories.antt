-- ===== src/Staking/Tests/Histories.antt =====
-- Theorems on histories and withdrawals, at the sample runs.
use rise_protocol.Prelude.{
  ℕ, ◌==◌, if◌then◌else◌, ◌≤◌, ◌<◌, ◌+◌, ◌-◌, ◌≡◌, refl, none, some, false, ok, arith, u64, u128,
}
use rise_protocol.Sample.{sample_runtime, sample_transfers, sample_tokens, Bank, shift, add_tokens}
use rise_protocol.Staking.State.{WithdrawalTicket, sol_to_rise_sol, rise_sol_to_sol}
use rise_protocol.Staking.Deposit.{StakeSol, stake_sol, resync, grow_supply, credit_stake}
use rise_protocol.Staking.Withdrawal.{UnstakeRiseSol, unstake_rise_sol}
use rise_protocol.Staking.World.{
  World, stakes, unstakes, sets_cdp_config, find_ticket, remove_ticket,
}
use rise_protocol.Staking.Process.{process, process_claim}
use rise_protocol.Staking.Cdp.{set_cdp_config}
use rise_protocol.Staking.Invariant.{IsSolvent}
use rise_protocol.Staking.History.{Reach, executes, elsewhere, here, next, history-IsSolvent}
use rise_protocol.Staking.Authority.{SameSettings, Reach-SameSettings}
use rise_protocol.Staking.Permission.{process-IsPermitted, IsPermitted}
use rise_protocol.Staking.Availability.{claim_pays, unstake_rise_sol-succeeds}
use rise_protocol.Staking.Tests.Samples.{
  addresses, addresses-IsApart, ok_value, genesis, start, staked_runs, unstaked, unstaked_runs,
  bank, genesis_pool,
}

run : Reach sample_runtime addresses start unstaked
run =
    next (next here (executes (stakes 10 2 11 false false 5_000_000_000) (omega arith) staked_runs))
      (executes (unstakes 10 2 11 false false 2_000_000_000) tt unstaked_runs)

history-IsSolvent_example :
    IsSolvent sample_runtime addresses unstaked
    × (start.pool.exchange_rate ≤ unstaked.pool.exchange_rate)
history-IsSolvent_example =
    history-IsSolvent sample_runtime addresses sample_transfers sample_tokens addresses-IsApart 8 2
      255 5 500 1_000 genesis refl run

Reach-SameSettings_example : SameSettings start.pool unstaked.pool
Reach-SameSettings_example = Reach-SameSettings sample_runtime addresses run

set_cdp_config_runs :
    process sample_runtime addresses start (sets_cdp_config 8 70)
    ≡ ok (record start { pool = record start.pool { cdp_config_pubkey = 70 } })
unfolding process set_cdp_config
set_cdp_config_runs = refl

process-IsPermitted_example : IsPermitted start (sets_cdp_config 8 70)
process-IsPermitted_example =
    process-IsPermitted sample_runtime addresses start
      (record start { pool = record start.pool { cdp_config_pubkey = 70 } }) (sets_cdp_config 8 70)
      set_cdp_config_runs

-- Two epochs later the ticket is due.
abbrev due : World Bank
due = record unstaked { bank = record (unstaked.bank) { epoch = 9 } }

abbrev due_ticket : WithdrawalTicket
due_ticket = record {
  owner = 10;
  sol_amount = 2_000_000_000;
  claimable_epoch = 9;
  nonce = 0;
  bump = 253;
}

due-IsSolvent : IsSolvent sample_runtime addresses due
due-IsSolvent =
    (history-IsSolvent sample_runtime addresses sample_transfers sample_tokens addresses-IsApart 8 2
      255 5 500 1_000 genesis refl
      (next run
        (elsewhere (record (unstaked.bank) { epoch = 9 }) (unfold unstaked in omega arith)))).0

due_found : find_ticket 10 0 due.tickets ≡ some due_ticket
unfolding unstaked
due_found = refl

abbrev paid : Bank
paid = record (due.bank) { balance = shift due.bank.balance 3 10 2_000_000_000 }

claim_pays_example :
    (2_000_000_000 ≤ due.bank.balance 3)
    × (process_claim sample_runtime addresses due 10 0
        ≡ ok (record due {
          pool = record due.pool {
            pending_withdrawals_lamports = due.pool.pending_withdrawals_lamports - 2_000_000_000;
          };
          tickets = remove_ticket 10 0 due.tickets;
          bank = paid;
        }))
unfolding unstaked
claim_pays_example =
    claim_pays sample_runtime addresses due due-IsSolvent 10 0 due_ticket due_found paid refl
      (omega arith) refl

-- A deposit of 5 SOL, and the withdrawal of 2 of the riseSOL that it minted.
abbrev deposit : StakeSol
deposit = record {
  user = 10;
  pool_key = 1;
  pool = genesis_pool;
  pool_vault = 3;
  rise_sol_mint = 2;
  user_rise_sol_account = 11;
  stake_rewards_config = none;
  user_stake_rewards = none;
}

deposited : StakeSol × Bank
unfolding stake_sol sol_to_rise_sol resync grow_supply credit_stake u64 u128
deposited = ok_value (stake_sol sample_runtime deposit 5_000_000_000 bank) (deposit, bank)

abbrev withdrawal : UnstakeRiseSol
withdrawal = record {
  user = 10;
  pool = record genesis_pool {
    total_sol_staked = 5_000_000_000;
    staking_rise_sol_supply = 5_000_000_000;
    liquid_buffer_lamports = 5_000_000_000;
  };
  ticket_bump = 253;
  rise_sol_mint = 2;
  user_rise_sol_account = 11;
  stake_rewards_config = none;
  user_stake_rewards = none;
}

abbrev holding : Bank
holding = add_tokens 11 5_000_000_000 bank

withdrawal_price : rise_sol_to_sol withdrawal.pool 2_000_000_000 ≡ some 2_000_000_000
unfolding rise_sol_to_sol u64 u128
withdrawal_price = refl

below_u64 : (n : ℕ) → n ≤ 1_000_000_000_000 → n < u64
unfolding u64
below_u64 n h = omega arith

below_u128 : (n : ℕ) → n ≤ 1_000_000_000_000 → n < u128
unfolding u128
below_u128 n h = omega arith

abbrev burned : Bank
burned = record holding {
  token = λ k. record (holding.token k) {
    amount = (holding.token k).amount - (if k == 11 then 2_000_000_000 else 0);
  };
}

unstake_rise_sol-succeeds_example :
    (a' : UnstakeRiseSol) × (ticket : WithdrawalTicket) × (unstake_rise_sol sample_runtime
        withdrawal 2_000_000_000 holding
      ≡ ok (a', ticket, burned))
    × (ticket.sol_amount ≡ 2_000_000_000)
    × (ticket.owner ≡ 10)
    × (ticket.claimable_epoch ≡ 7 + 2)
unstake_rise_sol-succeeds_example =
    unstake_rise_sol-succeeds sample_runtime withdrawal 5_000_000_000 2_000_000_000 2_000_000_000
      holding burned (omega arith) refl refl refl refl refl refl (omega arith) withdrawal_price
      (omega arith) refl (below_u128 _ (omega arith)) (below_u64 _ (omega arith))
      (below_u64 _ (omega arith))
