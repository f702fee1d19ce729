-- ===== src/Staking/Preserve.antt =====
-- Every handler that touches the pool or its vault keeps the pool sound, and never lowers the rate.
use rise_protocol.Prelude.{ℕ, ◌+◌, ◌-◌, ◌≤◌, ◌≡◌, ◌≢◌, ◌⊎◌, inl, inr, ok, arith}
use rise_protocol.Solana.{
  Pubkey, Runtime, TransferLaws, TokenLaws, transfer-debit, transfer-credit, transfer-others,
}
use rise_protocol.Staking.State.{GlobalPool, ProtocolTreasury, WithdrawalTicket}
use rise_protocol.Staking.Deposit.{StakeSol, stake_sol}
use rise_protocol.Staking.Withdrawal.{UnstakeRiseSol, unstake_rise_sol, ClaimUnstake, claim_unstake}
use rise_protocol.Staking.Rate.{
  update_exchange_rate, credit_staking_revenue, refresh_rate, receive_cdp_liquidity, recognise,
}
use rise_protocol.Staking.Cdp.{notify_rise_sol_burned}
use rise_protocol.Staking.Treasury.{
  WithdrawReserve, withdraw_reserve, WithdrawTreasuryForCdpBuyback,
  withdraw_treasury_for_cdp_buyback,
}
use rise_protocol.Staking.Fees.{CollectFees, collect_fees}
use rise_protocol.Staking.Sound.{
  IsSound, Rerated, earn, credit_rewards-Rerated, recognise-cases, sol_to_rise_sol-le,
  rise_sol_to_sol-le, credit_stake-IsSound, credit_stake-eq, queue_withdrawal-IsSound,
  queue_withdrawal-eq,
}
use rise_protocol.Staking.Effects.{
  stake_sol-calls, unstake_rise_sol-calls, claim_unstake-calls, collect_fees-cases, sweepable-eq,
  split_fees-sum, distribute-Takes,
}

-- More lamports in the vault do no harm.
pub IsSound-mono : (p : GlobalPool) (v v' : ℕ) → v ≤ v' → IsSound p v → IsSound p v'
IsSound-mono p v v' h s = omega arith

module _ {B : Type 0} (rt : Runtime B) where
  abbrev pub Grows : Pubkey → GlobalPool → GlobalPool → B → Type 0
  Grows vault p p' b' = IsSound p' (rt.lamports b' vault) × (p.exchange_rate ≤ p'.exchange_rate)

  pub stake_sol-Grows :
      (transfers : TransferLaws rt) (tokens : TokenLaws rt) (a : StakeSol) (l : ℕ) (b : B)
      (r : StakeSol × B)
      → a.user ≢ a.pool_vault
      → IsSound a.pool (rt.lamports b a.pool_vault)
      → stake_sol rt a l b ≡ ok r
      → Grows a.pool_vault a.pool r.0.pool r.1
        × (r.0.pool.pending_withdrawals_lamports ≡ a.pool.pending_withdrawals_lamports)
  stake_sol-Grows transfers tokens a l b r outside sound h =
      let (m, paid, price, credit, paying, minting) = stake_sol-calls rt a r.0 l b r.1 h in
      let e = credit_stake-eq a.pool l m r.0.pool credit in
      (
        (
          rw
              (
                tokens.mint_keeps _ _ _ _ paid r.1 a.pool_vault minting,
                transfer-credit rt transfers a.user a.pool_vault l b paid outside paying,
              )
              (credit_stake-IsSound a.pool _ sound l m r.0.pool
                (sol_to_rise_sol-le a.pool l m price) credit),
          rw e (omega arith),
        ),
        rw e,
      )

  pub unstake_rise_sol-Grows :
      (tokens : TokenLaws rt) (vault : Pubkey) (a : UnstakeRiseSol) (n : ℕ) (b : B)
      (a' : UnstakeRiseSol) (ticket : WithdrawalTicket) (b' : B)
      → IsSound a.pool (rt.lamports b vault)
      → unstake_rise_sol rt a n b ≡ ok (a', ticket, b')
      → Grows vault a.pool a'.pool b'
        × (a'.pool.pending_withdrawals_lamports
            ≡ a.pool.pending_withdrawals_lamports + ticket.sol_amount)
  unstake_rise_sol-Grows tokens vault a n b a' ticket b' sound h =
      let (price, queue, burning, _, _, _) = unstake_rise_sol-calls rt a a' n ticket b b' h in
      let e = (queue_withdrawal-eq a.pool n ticket.sol_amount a'.pool queue).0 in
      (
        (
          rw (tokens.burn_keeps _ _ _ _ b b' vault burning) (
              queue_withdrawal-IsSound a.pool _ sound n ticket.sol_amount a'.pool
                (rise_sol_to_sol-le a.pool n ticket.sol_amount price) queue),
          rw e (omega arith),
        ),
        rw e,
      )

  pub claim_unstake-Grows :
      (transfers : TransferLaws rt) (a : ClaimUnstake) (b : B) (r : GlobalPool × B)
      → IsSound a.pool (rt.lamports b a.pool_vault)
      → claim_unstake rt a b ≡ ok r
      → Grows a.pool_vault a.pool r.0 r.1
        × (r.0.pending_withdrawals_lamports + a.ticket.sol_amount
            ≡ a.pool.pending_withdrawals_lamports)
  claim_unstake-Grows transfers a b r sound h =
      let (_, _, enough, paying, e) = claim_unstake-calls rt a b r.0 r.1 h in
      let left =
        transfer-debit rt transfers a.pool_vault a.owner a.ticket.sol_amount b r.1 paying in
      rw e (omega (arith, left))

  pub collect_fees-Keeps :
      (transfers : TransferLaws rt) (governance : Pubkey) (a : CollectFees) (b : B)
      (r : ProtocolTreasury × B)
      → IsSound a.pool (rt.lamports b a.pool_vault)
      → collect_fees rt governance a b ≡ ok r
      → IsSound a.pool (rt.lamports r.1 a.pool_vault)
  collect_fees-Keeps transfers governance a b r sound h =
      elim (collect_fees-cases rt governance a b r h) [
        | inl (_, e) ↦ rw e sound
        | inr (n, s, fees, split, sent) ↦ omega (
          arith,
          sweepable-eq rt a b n fees,
          split_fees-sum a.treasury n s split,
          distribute-Takes rt transfers a s b r sent,
        )
      ]

  -- What leaves the reserve vault does not come out of the pool's vault.
  pub withdraw_reserve-le :
      (transfers : TransferLaws rt) (vault : Pubkey) (a : WithdrawReserve) (n : ℕ) (b : B)
      (r : ProtocolTreasury × B)
      → vault ≢ a.reserve_vault
      → withdraw_reserve rt a n b ≡ ok r
      → rt.lamports b vault ≤ rt.lamports r.1 vault
  unfolding withdraw_reserve
  withdraw_reserve-le transfers vault a n b r apart h =
      ground (arith, transfer-others rt transfers a.reserve_vault a.destination n b r.1 vault apart)

  pub withdraw_treasury_for_cdp_buyback-le :
      (transfers : TransferLaws rt) (vault : Pubkey) (a : WithdrawTreasuryForCdpBuyback) (n : ℕ)
      (b : B) (r : ProtocolTreasury × B)
      → vault ≢ a.reserve_vault
      → withdraw_treasury_for_cdp_buyback rt a n b ≡ ok r
      → rt.lamports b vault ≤ rt.lamports r.1 vault
  unfolding withdraw_treasury_for_cdp_buyback
  withdraw_treasury_for_cdp_buyback-le transfers vault a n b r apart h = ground (
    arith,
    transfer-others rt transfers a.reserve_vault a.cdp_wsol_buyback_vault n b r.1 vault apart,
  )

module _ {B : Type 0} (rt : Runtime B) (vault : Pubkey) (p p' : GlobalPool) (b : B) where
  update_exchange_rate-run :
      update_exchange_rate rt p vault b ≡ ok p'
      → (p' ≡ p)
        ⊎ ((p.pending_withdrawals_lamports ≤ rt.lamports b vault)
            × (recognise p
                  (rt.lamports b vault - p.pending_withdrawals_lamports)
                  (rt.epoch b)
                  (rt.slot b)
                ≡ ok p'))
  unfolding update_exchange_rate
  update_exchange_rate-run h = ground arith

  -- What `update_exchange_rate` does: nothing to the totals, or it earns the rewards.
  pub update_exchange_rate-cases :
      update_exchange_rate rt p vault b ≡ ok p'
      → (p' ≡ p)
        ⊎ (p' ≡ record p { last_rate_update_epoch = rt.epoch b })
        ⊎ ((n : ℕ) × (p.liquid_buffer_lamports + p.pending_withdrawals_lamports + n
              ≤ rt.lamports b vault)
            × Rerated (earn p n) p')
  update_exchange_rate-cases h = elim (update_exchange_rate-run h) [
    | inl same ↦ inl same
    | inr (fits, run) ↦
        elim (recognise-cases p (rt.lamports b vault - p.pending_withdrawals_lamports) (rt.epoch b)
          (rt.slot b) p' run) [
            | inl (_, e) ↦ inr (inl e)
            | inr (more, credit) ↦ inr (
                inr (_, omega arith, credit_rewards-Rerated p _ (rt.epoch b) (rt.slot b) p' credit))
          ]
  ]

  pub credit_staking_revenue-Rerated :
      (n : ℕ)
      → credit_staking_revenue rt p vault n b ≡ ok p'
      → (p.liquid_buffer_lamports + p.pending_withdrawals_lamports + n ≤ rt.lamports b vault)
        × Rerated (earn p n) p'
  unfolding credit_staking_revenue refresh_rate
  credit_staking_revenue-Rerated n h = ground arith

  pub receive_cdp_liquidity-eq :
      (n : ℕ)
      → receive_cdp_liquidity rt p vault n b ≡ ok p'
      → (p.liquid_buffer_lamports + p.pending_withdrawals_lamports + n ≤ rt.lamports b vault)
        × (p' ≡ record p { liquid_buffer_lamports = p.liquid_buffer_lamports + n })
  unfolding receive_cdp_liquidity
  receive_cdp_liquidity-eq n h = ground arith

  pub notify_rise_sol_burned-eq :
      (cdp_config : Pubkey) (n : ℕ)
      → notify_rise_sol_burned cdp_config n p ≡ ok p'
      → (p' ≡ record p { staking_rise_sol_supply = p.staking_rise_sol_supply - n })
        × (n ≤ p.staking_rise_sol_supply)
  unfolding notify_rise_sol_burned
  notify_rise_sol_burned-eq cdp_config n h = ground arith
