-- ===== src/Staking/Permission.antt =====
-- The signer that each guarded instruction asks for.
use rise_protocol.Prelude.{ℕ, ◌≡◌, ok, arith, Option, bind-eq_ok, or_fault, uninitialized}
use rise_protocol.Solana.{Pubkey, Runtime}
use rise_protocol.Staking.State.{GlobalPool, ProtocolTreasury, StakeRewardsConfig}
use rise_protocol.Staking.Cdp.{MintForCdp, mint_for_cdp, set_cdp_config, notify_rise_sol_burned}
use rise_protocol.Staking.Treasury.{
  update_treasury_config, RegisterExternalRevenue, register_external_revenue, WithdrawReserve,
  withdraw_reserve, WithdrawTreasuryForCdpBuyback, withdraw_treasury_for_cdp_buyback,
}
use rise_protocol.Staking.Rewards.{
  InitializeStakeRewards, initialize_stake_rewards, CloseStakeRewards, close_stake_rewards,
}
use rise_protocol.Staking.World.{
  World, Addresses, Instruction, configures_treasury, registers_revenue, notifies_burn,
  sets_cdp_config, withdraws_for_buyback, mints_for_cdp, initializes_rewards, closes_rewards,
  withdraws_reserve, check_absent,
}
use rise_protocol.Staking.Process.{process}

-- The authority of the pool or of the treasury, or the registered CDP config, signs what is theirs.
abbrev pub IsPermitted : {B : Type 0} → World B → Instruction → Type 0
IsPermitted w (configures_treasury authority _ _ _) = authority ≡ w.treasury.authority
IsPermitted w (withdraws_reserve authority _ _) = authority ≡ w.treasury.authority
IsPermitted w (sets_cdp_config authority _) = authority ≡ w.pool.authority
IsPermitted w (initializes_rewards authority _ _ _) = authority ≡ w.pool.authority
IsPermitted w (closes_rewards authority _) = authority ≡ w.pool.authority
IsPermitted w (registers_revenue cdp_config _ _ _) = cdp_config ≡ w.pool.cdp_config_pubkey
IsPermitted w (notifies_burn cdp_config _) = cdp_config ≡ w.pool.cdp_config_pubkey
IsPermitted w (withdraws_for_buyback cdp_config _ _) = cdp_config ≡ w.pool.cdp_config_pubkey
IsPermitted w (mints_for_cdp cdp_config _ _ _) = cdp_config ≡ w.pool.cdp_config_pubkey
IsPermitted w _ = Unit {0}

update_treasury_config-authority :
    (a : Pubkey) (wallet : Option Pubkey) (fee share : Option ℕ) (t t' : ProtocolTreasury)
    → update_treasury_config a wallet fee share t ≡ ok t'
    → a ≡ t.authority
unfolding update_treasury_config
update_treasury_config-authority a wallet fee share t t' h = ground arith

set_cdp_config-authority :
    (a k : Pubkey) (p p' : GlobalPool) → set_cdp_config a k p ≡ ok p' → a ≡ p.authority
unfolding set_cdp_config
set_cdp_config-authority a k p p' h = ground arith

notify_rise_sol_burned-signer :
    (c : Pubkey) (n : ℕ) (p p' : GlobalPool)
    → notify_rise_sol_burned c n p ≡ ok p'
    → c ≡ p.cdp_config_pubkey
unfolding notify_rise_sol_burned
notify_rise_sol_burned-signer c n p p' h = ground arith

module _ {B : Type 0} (rt : Runtime B) where
  register_external_revenue-signer :
      (g : Pubkey) (a : RegisterExternalRevenue) (v r : ℕ) (b : B) (t' : ProtocolTreasury)
      → register_external_revenue rt g a v r b ≡ ok t'
      → a.cdp_config ≡ a.global_pool.cdp_config_pubkey
  unfolding register_external_revenue
  register_external_revenue-signer g a v r b t' h = ground arith

  withdraw_reserve-authority :
      (a : WithdrawReserve) (n : ℕ) (b : B) (r : ProtocolTreasury × B)
      → withdraw_reserve rt a n b ≡ ok r
      → a.authority ≡ a.treasury.authority
  unfolding withdraw_reserve
  withdraw_reserve-authority a n b r h = ground arith

  withdraw_treasury_for_cdp_buyback-signer :
      (a : WithdrawTreasuryForCdpBuyback) (n : ℕ) (b : B) (r : ProtocolTreasury × B)
      → withdraw_treasury_for_cdp_buyback rt a n b ≡ ok r
      → a.cdp_config ≡ a.global_pool.cdp_config_pubkey
  unfolding withdraw_treasury_for_cdp_buyback
  withdraw_treasury_for_cdp_buyback-signer a n b r h = ground arith

  mint_for_cdp-signer :
      (a : MintForCdp) (n : ℕ) (b b' : B)
      → mint_for_cdp rt a n b ≡ ok b'
      → a.cdp_config ≡ a.global_pool.cdp_config_pubkey
  unfolding mint_for_cdp
  mint_for_cdp-signer a n b b' h = ground arith

  initialize_stake_rewards-authority :
      (a : InitializeStakeRewards) (e s : ℕ) (b : B) (c : StakeRewardsConfig)
      → initialize_stake_rewards rt a e s b ≡ ok c
      → a.authority ≡ a.pool.authority
  unfolding initialize_stake_rewards
  initialize_stake_rewards-authority a e s b c h = ground arith

  close_stake_rewards-authority :
      (a : CloseStakeRewards) (b b' : B)
      → close_stake_rewards rt a b ≡ ok b'
      → a.authority ≡ a.pool.authority
  unfolding close_stake_rewards
  close_stake_rewards-authority a b b' h = ground arith

module _ {B : Type 0} (rt : Runtime B) (addr : Addresses) (w w' : World B) where
  -- A guarded instruction succeeds only with its signer: the treasury's settings and its reserve want
  -- the treasury's authority; registering the CDP config, and opening and closing the rewards, want
  -- the pool's; and the four instructions for the CDP program want the config that was registered.
  pub process-IsPermitted : (i : Instruction) → process rt addr w i ≡ ok w' → IsPermitted w i
  unfolding process
  process-IsPermitted (configures_treasury a t f s) h =
      let (_, run, _) = bind-eq_ok _ _ h in
      update_treasury_config-authority a t f s w.treasury _ run
  process-IsPermitted (withdraws_reserve a d n) h =
      let (_, run, _) = bind-eq_ok _ _ h in withdraw_reserve-authority rt _ n w.bank _ run
  process-IsPermitted (sets_cdp_config a k) h =
      let (_, run, _) = bind-eq_ok _ _ h in set_cdp_config-authority a k w.pool _ run
  process-IsPermitted (initializes_rewards a m e s) h =
      let (_, _, h1) = bind-eq_ok (check_absent w.config) _ h in
      let (_, run, _) = bind-eq_ok _ _ h1 in
      initialize_stake_rewards-authority rt _ e s w.bank _ run
  process-IsPermitted (closes_rewards a k) h =
      let (_, _, h1) = bind-eq_ok (or_fault w.config uninitialized) _ h in
      let (_, run, _) = bind-eq_ok _ _ h1 in close_stake_rewards-authority rt _ w.bank _ run
  process-IsPermitted (registers_revenue c g v r) h =
      let (_, run, _) = bind-eq_ok _ _ h in
      register_external_revenue-signer rt addr.governance_program_id _ v r w.bank _ run
  process-IsPermitted (notifies_burn c n) h =
      let (_, run, _) = bind-eq_ok _ _ h in notify_rise_sol_burned-signer c n w.pool _ run
  process-IsPermitted (withdraws_for_buyback c v n) h =
      let (_, run, _) = bind-eq_ok _ _ h in
      withdraw_treasury_for_cdp_buyback-signer rt _ n w.bank _ run
  process-IsPermitted (mints_for_cdp c m r n) h =
      let (_, run, _) = bind-eq_ok _ _ h in mint_for_cdp-signer rt _ n w.bank _ run
  process-IsPermitted _ h = tt
