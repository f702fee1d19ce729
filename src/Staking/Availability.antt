-- ===== src/Staking/Availability.antt =====
-- In a solvent world the pool's accounting never stands in the way of a withdrawal.
use rise_protocol.Prelude.{
  ℕ, ◌+◌, ◌-◌, ◌*◌, ◌≤◌, ◌<◌, ◌≡◌, refl, zero, suc, false, none, some, ok, arith, List, [], ◌∷◌,
  u64, u128,
}
use rise_protocol.Solana.{Pubkey, Runtime}
use rise_protocol.Staking.State.{GlobalPool, WithdrawalTicket, rise_sol_to_sol}
use rise_protocol.Staking.Withdrawal.{
  UnstakeRiseSol, unstake_rise_sol, queue_withdrawal, shrink_supply, claim_unstake,
}
use rise_protocol.Staking.Deposit.{resync}
use rise_protocol.Staking.World.{World, Addresses, find_ticket, remove_ticket}
use rise_protocol.Staking.Process.{process_claim}
use rise_protocol.Staking.Sound.{IsSound, rise_sol_to_sol-le}
use rise_protocol.Staking.Invariant.{IsSolvent, owed-remove_ticket}

find_ticket-owner :
    (owner : Pubkey) (nonce : ℕ) (ts : List WithdrawalTicket) (t : WithdrawalTicket)
    → find_ticket owner nonce ts ≡ some t
    → t.owner ≡ owner
unfolding find_ticket
find_ticket-owner owner nonce [] t h = cc
find_ticket-owner owner nonce (x ∷ ts) t h = ground (arith, find_ticket-owner owner nonce ts t)

module _ {B : Type 0} (rt : Runtime B) (addr : Addresses) (w : World B) (inv : IsSolvent rt addr w)
    (owner : Pubkey) (nonce : ℕ) (t : WithdrawalTicket)
    (found : find_ticket owner nonce w.tickets ≡ some t) where
  pub ticket_covered :
      (t.sol_amount ≤ w.pool.pending_withdrawals_lamports)
      × (t.sol_amount ≤ rt.lamports w.bank addr.pool_vault)
  ticket_covered =
      omega (arith, owed-remove_ticket owner nonce w.tickets t found, inv.tickets_owed, inv.sound)

  claim_runs :
      (b' : B)
      → w.pool.paused ≡ false
      → t.claimable_epoch ≤ rt.epoch w.bank
      → rt.transfer addr.pool_vault owner t.sol_amount w.bank ≡ some b'
      → process_claim rt addr w owner nonce
        ≡ ok (record w {
          pool = record w.pool {
            pending_withdrawals_lamports = w.pool.pending_withdrawals_lamports - t.sol_amount;
          };
          tickets = remove_ticket owner nonce w.tickets;
          bank = b';
        })
  unfolding process_claim claim_unstake
  claim_runs b' running due paid =
      rw found (ground (arith, find_ticket-owner owner nonce w.tickets t found, ticket_covered))

  -- In a solvent world, the claim of an open ticket succeeds where the pool is not paused, the
  -- ticket's epoch has come and the vault's transfer of the ticket's lamports to its owner succeeds:
  -- the vault held at least that much, the ticket is gone, and its lamports are no longer set aside.
  pub claim_pays :
      (b' : B)
      → w.pool.paused ≡ false
      → t.claimable_epoch ≤ rt.epoch w.bank
      → rt.transfer addr.pool_vault owner t.sol_amount w.bank ≡ some b'
      → (t.sol_amount ≤ rt.lamports w.bank addr.pool_vault)
        × (process_claim rt addr w owner nonce
            ≡ ok (record w {
              pool = record w.pool {
                pending_withdrawals_lamports = w.pool.pending_withdrawals_lamports - t.sol_amount;
              };
              tickets = remove_ticket owner nonce w.tickets;
              bank = b';
            }))
  claim_pays b' running due paid = (ticket_covered.1, claim_runs b' running due paid)

-- What is redeemed from a sound pool is covered by the staked SOL.
redeem_covered :
    (p : GlobalPool) (vault n s : ℕ)
    → IsSound p vault
    → n ≤ p.staking_rise_sol_supply
    → rise_sol_to_sol p n ≡ some s
    → s ≤ p.total_sol_staked
redeem_covered p vault n s sound le price =
    let worth = rise_sol_to_sol-le p n s price in
    let share : n * p.exchange_rate ≤ p.staking_rise_sol_supply * p.exchange_rate = grind arith in
    omega (arith, worth, share, sound.backed)

redeem_positive : (p : GlobalPool) (n s : ℕ) → rise_sol_to_sol p n ≡ some s → 0 < s → 0 < n
redeem_positive p zero s price worth = omega (arith, rise_sol_to_sol-le p 0 s price)
redeem_positive p (suc n) s price worth = omega arith

-- In a sound pool that is not paused, whoever holds riseSOL of the staking supply can queue its
-- withdrawal: the staked SOL and the liquid buffer always suffice. Conditions: the account
-- constraints hold, the amount is worth at least a lamport, the burn succeeds, the reward accounts
-- are omitted, and the three counters do not overflow.
pub unstake_rise_sol-succeeds :
    {B : Type 0} (rt : Runtime B) (a : UnstakeRiseSol) (vault n s : ℕ) (b b' : B)
    → IsSound a.pool vault
    → a.pool.paused ≡ false
    → a.stake_rewards_config ≡ none
    → a.user_stake_rewards ≡ none
    → a.rise_sol_mint ≡ a.pool.rise_sol_mint
    → (rt.token b a.user_rise_sol_account).mint ≡ a.pool.rise_sol_mint
    → (rt.token b a.user_rise_sol_account).owner ≡ a.user
    → n ≤ a.pool.staking_rise_sol_supply
    → rise_sol_to_sol a.pool n ≡ some s
    → 0 < s
    → rt.burn a.rise_sol_mint a.user_rise_sol_account a.user n b ≡ some b'
    → a.pool.pending_withdrawals_lamports + s < u128
    → a.pool.unstake_nonce + 1 < u64
    → rt.epoch b + 2 < u64
    → (a' : UnstakeRiseSol) × (ticket : WithdrawalTicket) × (unstake_rise_sol rt a n b
        ≡ ok (a', ticket, b'))
      × (ticket.sol_amount ≡ s)
      × (ticket.owner ≡ a.user)
      × (ticket.claimable_epoch ≡ rt.epoch b + 2)
unfolding unstake_rise_sol resync shrink_supply queue_withdrawal
unstake_rise_sol-succeeds rt a vault n s b b' sound running e1 e2 c1 c2 c3 le price worth burned o1
      o2 o3 =
    let covered = redeem_covered a.pool vault n s sound le price in
    let positive = redeem_positive a.pool n s price worth in
    (
      record a {
        pool = record a.pool {
          staking_rise_sol_supply = a.pool.staking_rise_sol_supply - n;
          total_sol_staked = a.pool.total_sol_staked - s;
          liquid_buffer_lamports = a.pool.liquid_buffer_lamports - s;
          pending_withdrawals_lamports = a.pool.pending_withdrawals_lamports + s;
          unstake_nonce = a.pool.unstake_nonce + 1;
        };
      },
      record {
        owner = a.user;
        sol_amount = s;
        claimable_epoch = rt.epoch b + 2;
        nonce = a.pool.unstake_nonce;
        bump = a.ticket_bump;
      },
      ground (arith, covered, positive, sound.buffer_covers),
      refl,
      refl,
      refl,
    )
