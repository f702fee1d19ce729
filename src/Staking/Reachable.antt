-- ===== src/Staking/Reachable.antt =====
-- The invariant over every entry point of programs/rise-staking/src/lib.rs, and over histories.
use rise_protocol.Prelude.{
  ℕ, ◌+◌, ◌≤◌, ◌≡◌, ◌≢◌, inl, inr, refl, some, ok, arith, bind-eq_ok, ◌>>=◌, or_fault,
  uninitialized,
}
use rise_protocol.Solana.{Pubkey, Runtime, TransferLaws, TokenLaws}
use rise_protocol.Staking.State.{GlobalPool, ProtocolTreasury, Outcome}
use rise_protocol.Staking.World.{
  World, Addresses, Instruction, stakes, unstakes, claims, updates_rate, collects_fees,
  configures_treasury, registers_revenue, receives_liquidity, notifies_burn, sets_cdp_config,
  withdraws_for_buyback, mints_for_cdp, credits_revenue, initializes_rewards, checkpoints,
  registers_rewards, claims_rewards, closes_rewards, withdraws_reserve, check_absent,
}
use rise_protocol.Staking.Process.{process, set_pool, set_treasury}
use rise_protocol.Staking.Cdp.{set_cdp_config, mint_for_cdp}
use rise_protocol.Staking.Rewards.{
  claim_stake_rewards, return_remaining, close_stake_rewards, ClaimStakeRewards, CloseStakeRewards,
}
use rise_protocol.Staking.Sound.{IsSound, Rerated, earn, Rerated-IsSound}
use rise_protocol.Staking.Preserve.{
  IsSound-mono, update_exchange_rate-cases, credit_staking_revenue-Rerated,
  receive_cdp_liquidity-eq, notify_rise_sol_burned-eq, collect_fees-Keeps, withdraw_reserve-le,
  withdraw_treasury_for_cdp_buyback-le,
}
use rise_protocol.Staking.Invariant.{
  IsSolvent, Keeps, pool-Keeps, bank-Keeps, process_stake-Keeps, process_unstake-Keeps,
  process_claim-Keeps,
}

-- The pool's vault is an account of its own.
pub record IsApart (addr : Addresses) : Type 0 where
  pub from_reserve : addr.pool_vault ≢ addr.reserve_vault
  pub from_rewards : addr.pool_vault ≢ addr.stake_rewards_vault

-- Who signs as the depositor is not the pool's vault, which has no private key.
abbrev pub IsSigned : Addresses → Instruction → Type 0
IsSigned addr (stakes user _ _ _ _ _) = user ≢ addr.pool_vault
IsSigned addr _ = Unit {0}

module _ {B : Type 0} (rt : Runtime B) (tokens : TokenLaws rt) where
  mint_for_cdp-keeps :
      (a : _) (n : ℕ) (b b' : B) (k : Pubkey)
      → mint_for_cdp rt a n b ≡ ok b'
      → rt.lamports b' k ≡ rt.lamports b k
  unfolding mint_for_cdp
  mint_for_cdp-keeps a n b b' k h =
      ground (arith, tokens.mint_keeps a.rise_sol_mint a.recipient a.pool_key n b b' k)

  claim_stake_rewards-keeps :
      (a : ClaimStakeRewards) (b : B) (r : _) (k : Pubkey)
      → claim_stake_rewards rt a b ≡ ok r
      → rt.lamports r.1 k ≡ rt.lamports b k
  unfolding claim_stake_rewards
  claim_stake_rewards-keeps a b r k h = grind (arith, tokens.transfer_keeps)

  return_remaining-keeps :
      (a : CloseStakeRewards) (b b' : B) (k : Pubkey)
      → return_remaining rt a b ≡ ok b'
      → rt.lamports b' k ≡ rt.lamports b k
  unfolding return_remaining
  return_remaining-keeps a b b' k h = grind (arith, tokens.transfer_keeps)

  close_stake_rewards-calls :
      (a : CloseStakeRewards) (b b' : B)
      → close_stake_rewards rt a b ≡ ok b'
      → (returned : B) × (return_remaining rt a b ≡ ok returned)
        × (rt.close_account a.rewards_vault a.authority a.config_key returned ≡ some b')
  unfolding close_stake_rewards
  close_stake_rewards-calls a b b' h = ground arith

  close_stake_rewards-le :
      (a : CloseStakeRewards) (b b' : B) (k : Pubkey)
      → k ≢ a.rewards_vault
      → close_stake_rewards rt a b ≡ ok b'
      → rt.lamports b k ≤ rt.lamports b' k
  close_stake_rewards-le a b b' k apart h =
      let (mid, returned, closed) = close_stake_rewards-calls a b b' h in
      let closing = tokens.close_keeps _ _ _ mid b' k apart closed in
      omega (arith, return_remaining-keeps a b mid k returned, closing)

set_cdp_config-eq :
    (a k : Pubkey) (p p' : GlobalPool)
    → set_cdp_config a k p ≡ ok p'
    → p' ≡ record p { cdp_config_pubkey = k }
unfolding set_cdp_config
set_cdp_config-eq a k p p' h = ground arith

module _ {B : Type 0} (rt : Runtime B) (addr : Addresses) (transfers : TransferLaws rt)
    (tokens : TokenLaws rt) (apart : IsApart addr) (w w' : World B)
    (inv : IsSolvent rt addr w) where
  -- A change of the pool alone.
  set_pool-Keeps :
      (m : Outcome GlobalPool)
      → ((p' : GlobalPool)
          → m ≡ ok p'
          → IsSound p' (rt.lamports w.bank addr.pool_vault)
            × (w.pool.exchange_rate ≤ p'.exchange_rate)
            × (p'.pending_withdrawals_lamports ≡ w.pool.pending_withdrawals_lamports))
      → set_pool w m ≡ ok w'
      → Keeps rt addr w w'
  set_pool-Keeps m keeps h =
      let (p', run, last) = bind-eq_ok m _ h in
      let (sound, grows, pending) = keeps p' run in
      pool-Keeps rt addr w w' inv p' w.bank sound grows pending (cc) (cc) (cc)

  -- A change of the treasury, with a bank that spares the vault.
  set_treasury-Keeps :
      (m : Outcome (ProtocolTreasury × B))
      → ((r : ProtocolTreasury × B) → m ≡ ok r → IsSound w.pool (rt.lamports r.1 addr.pool_vault))
      → set_treasury w m ≡ ok w'
      → Keeps rt addr w w'
  set_treasury-Keeps m keeps h =
      let (r, run, last) = bind-eq_ok m _ h in
      pool-Keeps rt addr w w' inv w.pool r.1 (keeps r run) (omega arith) refl (cc) (cc) (cc)

  -- A last step that leaves the pool and the tickets alone, and spares the vault.
  spares-Keeps :
      {A : Type 0} (m : Outcome A) (f : A → World B)
      → ((a : A)
          → m ≡ ok a
          → (rt.lamports w.bank addr.pool_vault ≤ rt.lamports (f a).bank addr.pool_vault)
            × ((f a).pool ≡ w.pool)
            × ((f a).tickets ≡ w.tickets))
      → (m >>= λ a. ok (f a)) ≡ ok w'
      → Keeps rt addr w w'
  spares-Keeps m f spares h =
      let (a, run, last) = bind-eq_ok m _ h in
      let (le, e_pool, e_tickets) = spares a run in
      let e : w' ≡ f a = cc in bank-Keeps rt addr w w' inv (rw e le) (rw e e_pool) (rw e e_tickets)

  pool_instruction-Keeps :
      (p' : GlobalPool) (n : ℕ)
      → w.pool.liquid_buffer_lamports + w.pool.pending_withdrawals_lamports + n
        ≤ rt.lamports w.bank addr.pool_vault
      → Rerated (earn w.pool n) p'
      → IsSound p' (rt.lamports w.bank addr.pool_vault)
        × (w.pool.exchange_rate ≤ p'.exchange_rate)
        × (p'.pending_withdrawals_lamports ≡ w.pool.pending_withdrawals_lamports)
  pool_instruction-Keeps p' n fits r =
      let (sound, grows) = Rerated-IsSound w.pool p' _ n _ inv.sound fits r in (sound, grows, r.3)

  updates_rate-Keeps : process rt addr w updates_rate ≡ ok w' → Keeps rt addr w w'
  unfolding process
  updates_rate-Keeps h =
      set_pool-Keeps _
        (λ p' run. elim (update_exchange_rate-cases rt addr.pool_vault w.pool p' w.bank run) [
          | inl e ↦ rw e (inv.sound, omega arith, refl)
          | inr (inl e) ↦ rw e (omega (arith, inv.sound))
          | inr (inr (n, fits, r)) ↦ pool_instruction-Keeps p' n fits r
        ])
        h

  -- An instruction that succeeds keeps the invariant, and the rate does not fall.
  pub process-Keeps :
      (i : Instruction) → IsSigned addr i → process rt addr w i ≡ ok w' → Keeps rt addr w w'
  unfolding process
  process-Keeps (stakes user mint account c t n) s h =
      process_stake-Keeps rt addr w w' inv transfers tokens user mint account c t n s h
  process-Keeps (unstakes user mint account c t n) s h =
      process_unstake-Keeps rt addr w w' inv transfers tokens user mint account c t n h
  process-Keeps (claims owner nonce) s h =
      process_claim-Keeps rt addr w w' inv transfers tokens owner nonce h
  process-Keeps updates_rate s h = updates_rate-Keeps h
  process-Keeps (collects_fees team gov) s h =
      set_treasury-Keeps _ (λ r run. collect_fees-Keeps rt transfers _ _ w.bank r inv.sound run) h
  process-Keeps (configures_treasury authority team fee share) s h =
      spares-Keeps _ _ (λ t run. (omega arith, refl, refl)) h
  process-Keeps (registers_revenue c g v r) s h =
      spares-Keeps _ _ (λ t run. (omega arith, refl, refl)) h
  process-Keeps (receives_liquidity n) s h =
      set_pool-Keeps _
        (λ p' run.
          let (fits, e) = receive_cdp_liquidity-eq rt addr.pool_vault w.pool p' w.bank n run in
          rw e (omega (arith, inv.sound, fits)))
        h
  process-Keeps (notifies_burn c n) s h =
      set_pool-Keeps _
        (λ p' run.
          let (e, le) = notify_rise_sol_burned-eq rt addr.pool_vault w.pool p' w.bank c n run in
          rw e (grind (arith, inv.sound)))
        h
  process-Keeps (sets_cdp_config a k) s h =
      set_pool-Keeps _
        (λ p' run. rw (set_cdp_config-eq a k w.pool p' run) (omega (arith, inv.sound))) h
  process-Keeps (withdraws_for_buyback c v n) s h =
      set_treasury-Keeps _
        (λ r run.
          IsSound-mono w.pool _ _
            (withdraw_treasury_for_cdp_buyback-le rt transfers addr.pool_vault _ n w.bank r
              apart.from_reserve run)
            inv.sound)
        h
  process-Keeps (mints_for_cdp c m r n) s h =
      spares-Keeps _ _
        (λ b run.
          let same = mint_for_cdp-keeps rt tokens _ n w.bank b addr.pool_vault run in
          (omega (arith, same), refl, refl))
        h
  process-Keeps (credits_revenue n) s h =
      set_pool-Keeps _
        (λ p' run.
          let (fits, r) =
            credit_staking_revenue-Rerated rt addr.pool_vault w.pool p' w.bank n run in
          pool_instruction-Keeps p' n fits r)
        h
  process-Keeps (initializes_rewards a m e sl) s h =
      let (_, _, h1) = bind-eq_ok (check_absent w.config) _ h in
      spares-Keeps _ _ (λ t run. (omega arith, refl, refl)) h1
  process-Keeps checkpoints s h =
      let (c, _, h1) = bind-eq_ok (or_fault w.config uninitialized) _ h in
      spares-Keeps _ _ (λ t run. (omega arith, refl, refl)) h1
  process-Keeps (registers_rewards u a) s h =
      let (_, _, h0) = bind-eq_ok (check_absent (w.trackers u)) _ h in
      let (c, _, h1) = bind-eq_ok (or_fault w.config uninitialized) _ h0 in
      spares-Keeps _ _ (λ t run. (omega arith, refl, refl)) h1
  process-Keeps (claims_rewards u a) s h =
      let (c, _, h0) = bind-eq_ok (or_fault w.config uninitialized) _ h in
      let (t, _, h1) = bind-eq_ok (or_fault (w.trackers u) uninitialized) _ h0 in
      spares-Keeps _ _
        (λ r run.
          let same = claim_stake_rewards-keeps rt tokens _ w.bank r addr.pool_vault run in
          (omega (arith, same), refl, refl))
        h1
  process-Keeps (closes_rewards au a) s h =
      let (c, _, h0) = bind-eq_ok (or_fault w.config uninitialized) _ h in
      spares-Keeps _ _
        (λ b run. (
          close_stake_rewards-le rt tokens _ w.bank b addr.pool_vault apart.from_rewards run,
          refl,
          refl,
        ))
        h0
  process-Keeps (withdraws_reserve au d n) s h =
      set_treasury-Keeps _
        (λ r run.
          IsSound-mono w.pool _ _
            (withdraw_reserve-le rt transfers addr.pool_vault _ n w.bank r apart.from_reserve run)
            inv.sound)
        h
