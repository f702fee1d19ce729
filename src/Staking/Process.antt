-- ===== src/Staking/Process.antt =====
-- programs/rise-staking/src/lib.rs: the entry points. Each loads its accounts from the world, runs
-- the handler and stores what it changed; an instruction that fails changes nothing.
use rise_protocol.Prelude.{ℕ, Bool, some, ◌∷◌, ◌>>=◌, ◌>>◌, ok, none, uninitialized, or_fault}
use rise_protocol.Solana.{Pubkey, Runtime}
use rise_protocol.Staking.State.{GlobalPool, ProtocolTreasury, Outcome}
use rise_protocol.Staking.World.{
  World, Addresses, Instruction, find_ticket, remove_ticket, load_optional, store_optional,
  store_tracker, check_absent, stakes, unstakes, claims, updates_rate, collects_fees,
  configures_treasury, registers_revenue, receives_liquidity, notifies_burn, sets_cdp_config,
  withdraws_for_buyback, mints_for_cdp, credits_revenue, initializes_rewards, checkpoints,
  registers_rewards, claims_rewards, closes_rewards, withdraws_reserve,
}
use rise_protocol.Staking.Deposit.{stake_sol}
use rise_protocol.Staking.Withdrawal.{unstake_rise_sol, claim_unstake}
use rise_protocol.Staking.Rate.{update_exchange_rate, credit_staking_revenue, receive_cdp_liquidity}
use rise_protocol.Staking.Cdp.{set_cdp_config, notify_rise_sol_burned, mint_for_cdp}
use rise_protocol.Staking.Treasury.{
  update_treasury_config, register_external_revenue, withdraw_reserve,
  withdraw_treasury_for_cdp_buyback,
}
use rise_protocol.Staking.Fees.{collect_fees}
use rise_protocol.Staking.Rewards.{
  initialize_stake_rewards, checkpoint_stake_rewards, register_stake_rewards, claim_stake_rewards,
  close_stake_rewards,
}

module _ {B : Type 0} where
  abbrev pub set_pool : World B → Outcome GlobalPool → Outcome (World B)
  set_pool w m = do pool ← m; ok (record w { pool = pool })

  abbrev pub set_treasury : World B → Outcome (ProtocolTreasury × B) → Outcome (World B)
  set_treasury w m = do (treasury, b) ← m; ok (record w { treasury = treasury; bank = b })

module _ {B : Type 0} (rt : Runtime B) (addr : Addresses) where
  unfoldable pub process_stake :
      World B → Pubkey → Pubkey → Pubkey → Bool → Bool → ℕ → Outcome (World B)
  process_stake w user mint account with_config with_tracker lamports = do
    config ← load_optional with_config w.config
    tracker ← load_optional with_tracker (w.trackers user)
    (a, b) ←
        stake_sol rt
          (record {
            user = user;
            pool_key = addr.global_pool;
            pool = w.pool;
            pool_vault = addr.pool_vault;
            rise_sol_mint = mint;
            user_rise_sol_account = account;
            stake_rewards_config = config;
            user_stake_rewards = tracker;
          })
          lamports w.bank
    ok (record w {
      pool = a.pool;
      config = store_optional a.stake_rewards_config w.config;
      trackers = store_tracker user a.user_stake_rewards w.trackers;
      bank = b;
    })

  unfoldable pub process_unstake :
      World B → Pubkey → Pubkey → Pubkey → Bool → Bool → ℕ → Outcome (World B)
  process_unstake w user mint account with_config with_tracker amount = do
    check_absent (find_ticket user w.pool.unstake_nonce w.tickets)
    config ← load_optional with_config w.config
    tracker ← load_optional with_tracker (w.trackers user)
    (a, ticket, b) ←
        unstake_rise_sol rt
          (record {
            user = user;
            pool = w.pool;
            ticket_bump = addr.ticket_bump user w.pool.unstake_nonce;
            rise_sol_mint = mint;
            user_rise_sol_account = account;
            stake_rewards_config = config;
            user_stake_rewards = tracker;
          })
          amount w.bank
    ok (record w {
      pool = a.pool;
      config = store_optional a.stake_rewards_config w.config;
      trackers = store_tracker user a.user_stake_rewards w.trackers;
      tickets = ticket ∷ w.tickets;
      bank = b;
    })

  unfoldable pub process_claim : World B → Pubkey → ℕ → Outcome (World B)
  process_claim w owner nonce = do
    ticket ← or_fault (find_ticket owner nonce w.tickets) uninitialized
    (pool, b) ←
        claim_unstake rt
          (record { owner = owner; pool = w.pool; ticket = ticket; pool_vault = addr.pool_vault })
          w.bank
    ok (record w { pool = pool; tickets = remove_ticket owner nonce w.tickets; bank = b })

  unfoldable pub process : World B → Instruction → Outcome (World B)
  process w (stakes user mint account with_config with_tracker lamports) =
      process_stake w user mint account with_config with_tracker lamports
  process w (unstakes user mint account with_config with_tracker amount) =
      process_unstake w user mint account with_config with_tracker amount
  process w (claims owner nonce) = process_claim w owner nonce
  process w updates_rate = set_pool w (update_exchange_rate rt w.pool addr.pool_vault w.bank)
  process w (collects_fees team_wallet governance_config) = set_treasury w (
      collect_fees rt addr.governance_program_id
        (record {
          pool = w.pool;
          treasury = w.treasury;
          pool_vault = addr.pool_vault;
          reserve_vault = addr.reserve_vault;
          verise_vault = addr.verise_vault;
          team_wallet = team_wallet;
          governance_config = governance_config;
        })
        w.bank)
  process w (configures_treasury authority team_wallet fee share) = do
    treasury ← update_treasury_config authority team_wallet fee share w.treasury
    ok (record w { treasury = treasury })
  process w (registers_revenue cdp_config governance_config verise reserve) = do
    treasury ←
        register_external_revenue rt addr.governance_program_id
          (record {
            cdp_config = cdp_config;
            global_pool = w.pool;
            treasury = w.treasury;
            governance_config = governance_config;
          })
          verise reserve w.bank
    ok (record w { treasury = treasury })
  process w (receives_liquidity amount) =
      set_pool w (receive_cdp_liquidity rt w.pool addr.pool_vault amount w.bank)
  process w (notifies_burn cdp_config amount) =
      set_pool w (notify_rise_sol_burned cdp_config amount w.pool)
  process w (sets_cdp_config authority key) = set_pool w (set_cdp_config authority key w.pool)
  process w (withdraws_for_buyback cdp_config vault amount) = set_treasury w (
      withdraw_treasury_for_cdp_buyback rt
        (record {
          cdp_config = cdp_config;
          global_pool = w.pool;
          treasury = w.treasury;
          reserve_vault = addr.reserve_vault;
          cdp_wsol_buyback_vault = vault;
        })
        amount w.bank)
  process w (mints_for_cdp cdp_config mint recipient amount) = do
    b ←
        mint_for_cdp rt
          (record {
            cdp_config = cdp_config;
            pool_key = addr.global_pool;
            global_pool = w.pool;
            rise_sol_mint = mint;
            recipient = recipient;
          })
          amount w.bank
    ok (record w { bank = b })
  process w (credits_revenue amount) =
      set_pool w (credit_staking_revenue rt w.pool addr.pool_vault amount w.bank)
  process w (initializes_rewards authority rise_mint emissions slots) = do
    check_absent w.config
    config ←
        initialize_stake_rewards rt
          (record {
            authority = authority;
            pool = w.pool;
            config_bump = addr.config_bump;
            rewards_vault = addr.stake_rewards_vault;
            rise_mint = rise_mint;
          })
          emissions slots w.bank
    ok (record w { config = some config })
  process w checkpoints = do
    config ← or_fault w.config uninitialized
    config' ← checkpoint_stake_rewards config (rt.slot w.bank)
    ok (record w { config = some config' })
  process w (registers_rewards user account) = do
    check_absent (w.trackers user)
    config ← or_fault w.config uninitialized
    tracker ←
        register_stake_rewards rt
          (record {
            user = user;
            pool = w.pool;
            stake_rewards_config = config;
            tracker_bump = addr.tracker_bump user;
            user_rise_sol_account = account;
          })
          w.bank
    ok (record w { trackers = store_tracker user (some tracker) w.trackers })
  process w (claims_rewards user account) = do
    config ← or_fault w.config uninitialized
    tracker ← or_fault (w.trackers user) uninitialized
    (tracker', b) ←
        claim_stake_rewards rt
          (record {
            user = user;
            config_key = addr.stake_rewards_config;
            stake_rewards_config = config;
            user_stake_rewards = tracker;
            rewards_vault = addr.stake_rewards_vault;
            user_rise_account = account;
          })
          w.bank
    ok (record w { trackers = store_tracker user (some tracker') w.trackers; bank = b })
  process w (closes_rewards authority account) = do
    config ← or_fault w.config uninitialized
    b ←
        close_stake_rewards rt
          (record {
            authority = authority;
            pool = w.pool;
            config_key = addr.stake_rewards_config;
            stake_rewards_config = config;
            rewards_vault = addr.stake_rewards_vault;
            authority_rise_account = account;
          })
          w.bank
    ok (record w { config = none; bank = b })
  process w (withdraws_reserve authority destination amount) = set_treasury w (
      withdraw_reserve rt
        (record {
          authority = authority;
          treasury = w.treasury;
          reserve_vault = addr.reserve_vault;
          destination = destination;
        })
        amount w.bank)
