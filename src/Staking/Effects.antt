-- ===== src/Staking/Effects.antt =====
-- What each handler that calls another program has done when it succeeds: the calls that it made,
-- with the arithmetic between them.
use rise_protocol.Prelude.{ℕ, ◌+◌, ◌-◌, ◌≤◌, ◌≡◌, ◌⊎◌, some, ok, bind-eq_ok, arith}
use rise_protocol.Solana.{Pubkey, Runtime, TransferLaws, transfer-debit}
use rise_protocol.Staking.State.{
  GlobalPool, ProtocolTreasury, WithdrawalTicket, sol_to_rise_sol, rise_sol_to_sol,
}
use rise_protocol.Staking.Deposit.{StakeSol, stake_sol, credit_stake}
use rise_protocol.Staking.Withdrawal.{
  UnstakeRiseSol, unstake_rise_sol, queue_withdrawal, ClaimUnstake, claim_unstake,
}
use rise_protocol.Staking.Fees.{
  CollectFees, Shares, split_fees, send_team, send_reserve, send_verise, distribute, sweepable,
  collect_fees,
}

module _ {B : Type 0} (rt : Runtime B) where
  pub stake_sol-calls :
      (a a' : StakeSol) (l : ℕ) (b b' : B)
      → stake_sol rt a l b ≡ ok (a', b')
      → (m : ℕ) × (paid : B) × (sol_to_rise_sol a.pool l ≡ some m)
        × (credit_stake a.pool l m ≡ ok a'.pool)
        × (rt.transfer a.user a.pool_vault l b ≡ some paid)
        × (rt.mint_to a.rise_sol_mint a.user_rise_sol_account a.pool_key m paid ≡ some b')
  unfolding stake_sol
  stake_sol-calls a a' l b b' h = ground arith

  pub unstake_rise_sol-calls :
      (a a' : UnstakeRiseSol) (n : ℕ) (ticket : WithdrawalTicket) (b b' : B)
      → unstake_rise_sol rt a n b ≡ ok (a', ticket, b')
      → (rise_sol_to_sol a.pool n ≡ some ticket.sol_amount)
        × (queue_withdrawal a.pool n ticket.sol_amount ≡ ok a'.pool)
        × (rt.burn a.rise_sol_mint a.user_rise_sol_account a.user n b ≡ some b')
        × (ticket.owner ≡ a.user)
        × (ticket.claimable_epoch ≡ rt.epoch b + 2)
        × (ticket.nonce ≡ a.pool.unstake_nonce)
  unfolding unstake_rise_sol
  unstake_rise_sol-calls a a' n ticket b b' h = ground arith

  pub claim_unstake-calls :
      (a : ClaimUnstake) (b : B) (p' : GlobalPool) (b' : B)
      → claim_unstake rt a b ≡ ok (p', b')
      → (a.owner ≡ a.ticket.owner)
        × (a.ticket.claimable_epoch ≤ rt.epoch b)
        × (a.ticket.sol_amount ≤ a.pool.pending_withdrawals_lamports)
        × (rt.transfer a.pool_vault a.owner a.ticket.sol_amount b ≡ some b')
        × (p' ≡ record a.pool {
          pending_withdrawals_lamports = a.pool.pending_withdrawals_lamports - a.ticket.sol_amount;
        })
  unfolding claim_unstake
  claim_unstake-calls a b p' b' h = ground arith

  pub distribute-calls :
      (a : CollectFees) (s : Shares) (b : B) (r : ProtocolTreasury × B)
      → distribute rt a s b ≡ ok r
      → (b1 : B) × (r2 r3 : ProtocolTreasury × B) × (send_team rt a s.team b ≡ ok b1)
        × (send_reserve rt a s.reserve (a.treasury, b1) ≡ ok r2)
        × (send_verise rt a s.verise r2 ≡ ok r3)
        × (r ≡ (record (r3.0) { last_collection_epoch = rt.epoch b }, r3.1))
  unfolding distribute
  distribute-calls a s b r h =
      let (b1, team, rest) = bind-eq_ok (send_team rt a s.team b) _ h in
      let (r2, reserve, rest') = bind-eq_ok (send_reserve rt a s.reserve (a.treasury, b1)) _ rest in
      let (r3, verise, last) = bind-eq_ok (send_verise rt a s.verise r2) _ rest' in
      (b1, r2, r3, team, reserve, verise, cc)

  pub sweepable-eq :
      (a : CollectFees) (b : B) (n : ℕ)
      → sweepable rt a b ≡ ok n
      → rt.lamports b a.pool_vault
        ≡ a.pool.liquid_buffer_lamports + a.pool.pending_withdrawals_lamports + n
  unfolding sweepable
  sweepable-eq a b n h = ground arith

  pub collect_fees-cases :
      (governance : Pubkey) (a : CollectFees) (b : B) (r : ProtocolTreasury × B)
      → collect_fees rt governance a b ≡ ok r
      → ((sweepable rt a b ≡ ok 0) × (r ≡ (a.treasury, b)))
        ⊎ ((n : ℕ) × (s : Shares) × (sweepable rt a b ≡ ok n)
            × (split_fees a.treasury n ≡ ok s)
            × (distribute rt a s b ≡ ok r))
  unfolding collect_fees
  collect_fees-cases governance a b r h = ground arith

-- The three shares add up to what is swept.
pub split_fees-sum :
    (t : ProtocolTreasury) (n : ℕ) (s : Shares)
    → split_fees t n ≡ ok s
    → s.team + s.reserve + s.verise ≡ n
unfolding split_fees
split_fees-sum t n s h = ground arith

module _ {B : Type 0} (rt : Runtime B) (laws : TransferLaws rt) (a : CollectFees) where
  abbrev Takes : ℕ → B → B → Type 0
  Takes n b b' = rt.lamports b a.pool_vault ≤ rt.lamports b' a.pool_vault + n

  send_team-Takes : (n : ℕ) (b b' : B) → send_team rt a n b ≡ ok b' → Takes n b b'
  unfolding send_team
  send_team-Takes n b b' h =
      ground (arith, transfer-debit rt laws a.pool_vault a.team_wallet n b b')

  send_reserve-Takes :
      (n : ℕ) (x r : ProtocolTreasury × B) → send_reserve rt a n x ≡ ok r → Takes n x.1 r.1
  unfolding send_reserve
  send_reserve-Takes n x r h =
      ground (arith, transfer-debit rt laws a.pool_vault a.reserve_vault n x.1 r.1)

  send_verise-Takes :
      (n : ℕ) (x r : ProtocolTreasury × B) → send_verise rt a n x ≡ ok r → Takes n x.1 r.1
  unfolding send_verise
  send_verise-Takes n x r h =
      ground (arith, transfer-debit rt laws a.pool_vault a.verise_vault n x.1 r.1)

  pub distribute-Takes :
      (s : Shares) (b : B) (r : ProtocolTreasury × B)
      → distribute rt a s b ≡ ok r
      → Takes (s.team + s.reserve + s.verise) b r.1
  distribute-Takes s b r h =
      let (b1, r2, r3, team, reserve, verise, e) = distribute-calls rt a s b r h in
      let sent = send_team-Takes s.team b b1 team in
      rw e (
        omega (
          arith,
          sent,
          send_reserve-Takes s.reserve (a.treasury, b1) r2 reserve,
          send_verise-Takes s.verise r2 r3 verise,
        ))
