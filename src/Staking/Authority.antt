-- ===== src/Staking/Authority.antt =====
-- Who may do what, and what no instruction can change.
use rise_protocol.Prelude.{
  ℕ, ◌≡◌, refl, ok, arith, Bool, bind-eq_ok, or_fault, uninitialized, ◌>>=◌,
}
use rise_protocol.Solana.{Pubkey, Runtime}
use rise_protocol.Staking.State.{GlobalPool, Outcome}
use rise_protocol.Staking.Rate.{
  update_exchange_rate, recognise, credit_rewards, credit_staking_revenue, refresh_rate,
  receive_cdp_liquidity,
}
use rise_protocol.Staking.Cdp.{set_cdp_config, notify_rise_sol_burned}
use rise_protocol.Staking.World.{
  World, Addresses, Instruction, stakes, unstakes, claims, updates_rate, collects_fees,
  configures_treasury, registers_revenue, receives_liquidity, notifies_burn, sets_cdp_config,
  withdraws_for_buyback, mints_for_cdp, credits_revenue, initializes_rewards, checkpoints,
  registers_rewards, claims_rewards, closes_rewards, withdraws_reserve, check_absent, load_optional,
  find_ticket,
}
use rise_protocol.Staking.Process.{process, process_stake, process_unstake, process_claim, set_pool}
use rise_protocol.Staking.Sound.{credit_stake-eq, queue_withdrawal-eq}
use rise_protocol.Staking.Effects.{stake_sol-calls, unstake_rise_sol-calls, claim_unstake-calls}
use rise_protocol.Staking.History.{Reach, executes, elsewhere, here, next}

-- The settings of the pool that its initialisation fixes.
pub record SameSettings (p p' : GlobalPool) : Type 0 where
  pub authority : p'.authority ≡ p.authority
  pub mint : p'.rise_sol_mint ≡ p.rise_sol_mint
  pub fee : p'.protocol_fee_bps ≡ p.protocol_fee_bps
  pub buffer_target : p'.liquid_buffer_target_bps ≡ p.liquid_buffer_target_bps
  pub paused : p'.paused ≡ p.paused

SameSettings-refl : (p : GlobalPool) → SameSettings p p
SameSettings-refl p = ground arith

SameSettings-trans : (p q r : GlobalPool) → SameSettings p q → SameSettings q r → SameSettings p r
SameSettings-trans p q r h k = ground arith

module _ {B : Type 0} (rt : Runtime B) (vault : Pubkey) (p p' : GlobalPool) (b : B) where
  pub update_exchange_rate-SameSettings :
      update_exchange_rate rt p vault b ≡ ok p' → SameSettings p p'
  unfolding update_exchange_rate recognise credit_rewards
  update_exchange_rate-SameSettings h = ground arith

  credit_staking_revenue-SameSettings :
      (n : ℕ) → credit_staking_revenue rt p vault n b ≡ ok p' → SameSettings p p'
  unfolding credit_staking_revenue refresh_rate
  credit_staking_revenue-SameSettings n h = ground arith

  receive_cdp_liquidity-SameSettings :
      (n : ℕ) → receive_cdp_liquidity rt p vault n b ≡ ok p' → SameSettings p p'
  unfolding receive_cdp_liquidity
  receive_cdp_liquidity-SameSettings n h = ground arith

notify_rise_sol_burned-SameSettings :
    (c : Pubkey) (n : ℕ) (p p' : GlobalPool)
    → notify_rise_sol_burned c n p ≡ ok p'
    → SameSettings p p'
unfolding notify_rise_sol_burned
notify_rise_sol_burned-SameSettings c n p p' h = ground arith

set_cdp_config-SameSettings :
    (a k : Pubkey) (p p' : GlobalPool) → set_cdp_config a k p ≡ ok p' → SameSettings p p'
unfolding set_cdp_config
set_cdp_config-SameSettings a k p p' h = ground arith

module _ {B : Type 0} (rt : Runtime B) (addr : Addresses) (w w' : World B) where
  set_pool-SameSettings :
      (m : Outcome GlobalPool)
      → ((p' : GlobalPool) → m ≡ ok p' → SameSettings w.pool p')
      → set_pool w m ≡ ok w'
      → SameSettings w.pool w'.pool
  set_pool-SameSettings m keeps h =
      let (p', run, last) = bind-eq_ok m _ h in let e : w'.pool ≡ p' = cc in rw e (keeps p' run)

  -- A last step that leaves the pool alone.
  leaves_pool :
      {A : Type 0} (m : Outcome A) (f : A → World B)
      → ((a : A) → (f a).pool ≡ w.pool)
      → (m >>= λ a. ok (f a)) ≡ ok w'
      → SameSettings w.pool w'.pool
  leaves_pool m f same h =
      let (a, _, last) = bind-eq_ok m _ h in
      let e : w' ≡ f a = cc in rw (e, same a) (SameSettings-refl w.pool)

  stakes-SameSettings :
      (user mint account : Pubkey) (c t : Bool) (n : ℕ)
      → process_stake rt addr w user mint account c t n ≡ ok w'
      → SameSettings w.pool w'.pool
  unfolding process_stake
  stakes-SameSettings user mint account c t n h =
      let (_, _, h1) = bind-eq_ok (load_optional c w.config) _ h in
      let (_, _, h2) = bind-eq_ok (load_optional t (w.trackers user)) _ h1 in
      let (r, run, last) = bind-eq_ok _ _ h2 in
      let (m, _, _, credit, _, _) = stake_sol-calls rt _ r.0 n w.bank r.1 run in
      let e : w'.pool ≡ r.0.pool = cc in
      rw (e, credit_stake-eq w.pool n m r.0.pool credit) (ground arith)

  unstakes-SameSettings :
      (user mint account : Pubkey) (c t : Bool) (n : ℕ)
      → process_unstake rt addr w user mint account c t n ≡ ok w'
      → SameSettings w.pool w'.pool
  unfolding process_unstake
  unstakes-SameSettings user mint account c t n h =
      let (_, _, h0) =
        bind-eq_ok (check_absent (find_ticket user w.pool.unstake_nonce w.tickets)) _ h in
      let (_, _, h1) = bind-eq_ok (load_optional c w.config) _ h0 in
      let (_, _, h2) = bind-eq_ok (load_optional t (w.trackers user)) _ h1 in
      let (r, run, last) = bind-eq_ok _ _ h2 in
      let (_, queue, _, _, _, _) = unstake_rise_sol-calls rt _ r.0 n r.1 w.bank r.2 run in
      let e : w'.pool ≡ r.0.pool = cc in
      rw (e, (queue_withdrawal-eq w.pool n r.1.sol_amount r.0.pool queue).0) (ground arith)

  claims-SameSettings :
      (owner : Pubkey) (nonce : ℕ)
      → process_claim rt addr w owner nonce ≡ ok w'
      → SameSettings w.pool w'.pool
  unfolding process_claim
  claims-SameSettings owner nonce h =
      let (t, _, h1) =
        bind-eq_ok (or_fault (find_ticket owner nonce w.tickets) uninitialized) _ h in
      let (r, run, last) = bind-eq_ok _ _ h1 in
      let (_, _, _, _, e') = claim_unstake-calls rt _ w.bank r.0 r.1 run in
      let e : w'.pool ≡ r.0 = cc in rw (e, e') (ground arith)

  process-SameSettings :
      (i : Instruction) → process rt addr w i ≡ ok w' → SameSettings w.pool w'.pool
  unfolding process
  process-SameSettings (stakes u m a c t n) h = stakes-SameSettings u m a c t n h
  process-SameSettings (unstakes u m a c t n) h = unstakes-SameSettings u m a c t n h
  process-SameSettings (claims owner nonce) h = claims-SameSettings owner nonce h
  process-SameSettings updates_rate h =
      set_pool-SameSettings _
        (λ p' run. update_exchange_rate-SameSettings rt addr.pool_vault w.pool p' w.bank run) h
  process-SameSettings (collects_fees t g) h = leaves_pool _ _ (λ r. refl) h
  process-SameSettings (configures_treasury a t f s) h = leaves_pool _ _ (λ r. refl) h
  process-SameSettings (registers_revenue c g v r) h = leaves_pool _ _ (λ r. refl) h
  process-SameSettings (receives_liquidity n) h =
      set_pool-SameSettings _
        (λ p' run. receive_cdp_liquidity-SameSettings rt addr.pool_vault w.pool p' w.bank n run) h
  process-SameSettings (notifies_burn c n) h =
      set_pool-SameSettings _ (λ p' run. notify_rise_sol_burned-SameSettings c n w.pool p' run) h
  process-SameSettings (sets_cdp_config a k) h =
      set_pool-SameSettings _ (λ p' run. set_cdp_config-SameSettings a k w.pool p' run) h
  process-SameSettings (withdraws_for_buyback c v n) h = leaves_pool _ _ (λ r. refl) h
  process-SameSettings (mints_for_cdp c m r n) h = leaves_pool _ _ (λ r. refl) h
  process-SameSettings (credits_revenue n) h =
      set_pool-SameSettings _
        (λ p' run. credit_staking_revenue-SameSettings rt addr.pool_vault w.pool p' w.bank n run) h
  process-SameSettings (initializes_rewards a m e s) h =
      let (_, _, h1) = bind-eq_ok (check_absent w.config) _ h in leaves_pool _ _ (λ r. refl) h1
  process-SameSettings checkpoints h =
      let (c, _, h1) = bind-eq_ok (or_fault w.config uninitialized) _ h in
      leaves_pool _ _ (λ r. refl) h1
  process-SameSettings (registers_rewards u a) h =
      let (_, _, h0) = bind-eq_ok (check_absent (w.trackers u)) _ h in
      let (c, _, h1) = bind-eq_ok (or_fault w.config uninitialized) _ h0 in
      leaves_pool _ _ (λ r. refl) h1
  process-SameSettings (claims_rewards u a) h =
      let (c, _, h0) = bind-eq_ok (or_fault w.config uninitialized) _ h in
      let (t, _, h1) = bind-eq_ok (or_fault (w.trackers u) uninitialized) _ h0 in
      leaves_pool _ _ (λ r. refl) h1
  process-SameSettings (closes_rewards au a) h =
      let (c, _, h0) = bind-eq_ok (or_fault w.config uninitialized) _ h in
      leaves_pool _ _ (λ r. refl) h0
  process-SameSettings (withdraws_reserve au d n) h = leaves_pool _ _ (λ r. refl) h

-- No history changes the pool's authority, its mint, its fee, its buffer target or whether it is
-- paused: the program has no instruction that pauses a pool.
pub Reach-SameSettings :
    {B : Type 0} (rt : Runtime B) (addr : Addresses) {w w' : World B}
    → Reach rt addr w w'
    → SameSettings w.pool w'.pool
Reach-SameSettings rt addr {w} here = SameSettings-refl w.pool
Reach-SameSettings rt addr {w} {w'} (next {u = u} r (executes i _ run)) =
    SameSettings-trans w.pool u.pool w'.pool (Reach-SameSettings rt addr r)
      (process-SameSettings rt addr u w' i run)
Reach-SameSettings rt addr (next r (elsewhere b le)) = Reach-SameSettings rt addr r
