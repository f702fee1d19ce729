-- ===== src/Governance/Lock.antt =====
-- programs/rise-governance/src/instructions on the config and on a lock: initialize_governance,
-- update_governance_config, lock_rise, extend_lock, unlock_rise and claim_revenue_share. The token
-- metadata program, and what nft_cpi.rs sends to the token program, are parameters.
use rise_protocol.Prelude.{
  ℕ, ◌-◌, ◌%◌, Option, none, some, ltb, leb, ◌==◌, if◌then◌else◌, ◌>>=◌, ◌>>◌, ok, cpi, require,
  constrain, or_fault, checked_add, checked_sub, checked_mul, checked_div, u64, u128,
}
use rise_protocol.Solana.{Pubkey, Runtime}
use rise_protocol.Staking.State.{ProtocolTreasury, index_scale}
use rise_protocol.Governance.State.{
  GovernanceConfig, VeLock, Outcome, or_overflow, calculate_verise, current_verise,
  min_proposal_threshold, slots_per_week, max_lock_slots_limit, zero_amount, lock_too_short,
  lock_too_long, lock_not_expired, lock_expired, no_rewards_to_claim, invalid_gauge_weights,
  invalid_config, transfer_amount_mismatch, unauthorized, GovernanceError,
}

-- The calls that concern the lock's NFT.
pub record Nfts (B : Type 0) : Type 0 where
  -- nft_cpi.rs, create_metadata_v3: metadata account, mint, authority and payer, update authority,
  -- the number in the name
  pub create_metadata : Pubkey → Pubkey → Pubkey → Pubkey → ℕ → B → Option B
  -- `token::set_authority` of the minting authority to none: mint, authority
  pub drop_mint_authority : Pubkey → Pubkey → B → Option B
  -- nft_cpi.rs, burn_nft_token: token account, mint, owner
  pub burn_nft_token : Pubkey → Pubkey → Pubkey → B → Option B

pub record LockAccounts : Type 0 where
  pub user : Pubkey
  pub config_key : Pubkey
  pub config : GovernanceConfig
  pub lock : VeLock
  pub lock_bump : ℕ
  pub user_rise_account : Pubkey
  pub rise_vault : Pubkey
  pub nft_mint : Pubkey
  pub user_nft_ata : Pubkey
  pub nft_metadata : Pubkey
  pub treasury : ProtocolTreasury
  pub verise_vault : Pubkey
  pub vault_bump : ℕ

-- The addresses that the runtime derives from the seed "verise_vault" and a bump: under the staking
-- program, and under this one.
pub record VaultAddresses : Type 0 where
  pub under_staking : ℕ → Pubkey
  pub under_governance : ℕ → Pubkey

-- The authority, the mint, the threshold, the quorum, the bump.
unfoldable pub initialize_governance : Pubkey → Pubkey → ℕ → ℕ → ℕ → Outcome GovernanceConfig
initialize_governance authority rise_mint proposal_threshold quorum_bps bump = do
  require (leb quorum_bps 10_000) invalid_gauge_weights
  require (leb min_proposal_threshold proposal_threshold) invalid_config
  ok (record {
    authority = authority;
    rise_mint = rise_mint;
    total_verise = 0;
    min_lock_slots = slots_per_week;
    max_lock_slots = max_lock_slots_limit;
    proposal_threshold = proposal_threshold;
    voting_period_slots = 302_400;
    timelock_slots = 201_600;
    quorum_bps = quorum_bps;
    proposal_count = 0;
    lock_count = 0;
    active_proposal_count = 0;
    bump = bump;
  })

-- `if let Some(v) = o`, with a bound or two, and the field replaced. A bound that the code does not
-- have is one of the type's.
unfoldable pub replace_bounded : ℕ → ℕ → GovernanceError → ℕ → Option ℕ → Outcome ℕ
replace_bounded low high e old none = ok old
replace_bounded low high e old (some v) = do require (leb low v) e; require (leb v high) e; ok v

unfoldable pub update_governance_config :
    Pubkey → GovernanceConfig → Option ℕ → Option ℕ → Option ℕ → Option ℕ → Outcome GovernanceConfig
update_governance_config authority c threshold quorum voting timelock = do
  constrain (authority == c.authority)
  proposal_threshold ←
      replace_bounded min_proposal_threshold (u64 - 1) invalid_config c.proposal_threshold threshold
  quorum_bps ← replace_bounded 0 10_000 invalid_gauge_weights c.quorum_bps quorum
  voting_period_slots ← replace_bounded 151_200 453_600 invalid_config c.voting_period_slots voting
  timelock_slots ← replace_bounded 151_200 453_600 invalid_config c.timelock_slots timelock
  ok (record c {
    proposal_threshold = proposal_threshold;
    quorum_bps = quorum_bps;
    voting_period_slots = voting_period_slots;
    timelock_slots = timelock_slots;
  })

-- What it checks; the runtime then closes the account.
unfoldable pub close_governance_config : Pubkey → GovernanceConfig → Outcome (Unit {0})
close_governance_config authority c = require (authority == c.authority) unauthorized

unfoldable pub extend_lock : LockAccounts → ℕ → ℕ → Outcome (GovernanceConfig × VeLock)
extend_lock a additional_slots current_slot = do
  constrain (a.lock.owner == a.user)
  require (ltb 0 additional_slots) zero_amount
  require (ltb current_slot a.lock.lock_end_slot) lock_expired
  new_end_slot ← or_overflow (checked_add u64 a.lock.lock_end_slot additional_slots)
  total_slots ← or_overflow (checked_sub new_end_slot current_slot)
  require (leb total_slots a.config.max_lock_slots) lock_too_long
  new_verise ← or_overflow (calculate_verise a.lock.rise_locked total_slots)
  total_verise ←
      or_overflow (checked_add u128 (a.config.total_verise - a.lock.verise_amount) new_verise)
  ok (
    record a.config { total_verise = total_verise },
    record a.lock {
      lock_end_slot = new_end_slot;
      lock_start_slot = current_slot;
      verise_amount = new_verise;
    },
  )

-- What a lock can claim at an index, cut to 64 bits.
unfoldable pub revenue_share : VeLock → ℕ → Outcome ℕ
revenue_share l revenue_index = do
  require (ltb 0 (revenue_index - l.last_revenue_index)) no_rewards_to_claim
  product ← or_overflow (checked_mul u128 (revenue_index - l.last_revenue_index) l.verise_amount)
  share ← or_overflow (checked_div product index_scale)
  ok (share % u64)

module _ {B : Type 0} (rt : Runtime B) (nfts : Nfts B) where
  -- The lock's NFT: minted once, named, and without a minting authority.
  unfoldable pub mint_nft : LockAccounts → ℕ → B → Outcome B
  mint_nft a lock_number b = do
    minted ← or_fault (rt.mint_to a.nft_mint a.user_nft_ata a.user 1 b) cpi
    named ←
        or_fault
          (nfts.create_metadata a.nft_metadata a.nft_mint a.user a.config_key lock_number minted)
          cpi
    or_fault (nfts.drop_mint_authority a.nft_mint a.user named) cpi

  -- The transfer to the vault, which must arrive in full.
  unfoldable pub deposit_rise : LockAccounts → ℕ → B → Outcome B
  deposit_rise a amount b = do
    paid ← or_fault (rt.token_transfer a.user_rise_account a.rise_vault a.user amount b) cpi
    expected ← or_overflow (checked_add u64 (rt.token b a.rise_vault).amount amount)
    require ((rt.token paid a.rise_vault).amount == expected) transfer_amount_mismatch
    ok paid

  unfoldable pub lock_rise : LockAccounts → ℕ → ℕ → ℕ → B → Outcome (GovernanceConfig × VeLock × B)
  lock_rise a amount lock_slots nonce b = do
    constrain ((rt.token b a.user_rise_account).mint == a.config.rise_mint)
    constrain ((rt.token b a.user_rise_account).owner == a.user)
    constrain ((rt.token b a.rise_vault).mint == a.config.rise_mint)
    require (ltb 0 amount) zero_amount
    require (leb a.config.min_lock_slots lock_slots) lock_too_short
    require (leb lock_slots a.config.max_lock_slots) lock_too_long
    verise_amount ← or_overflow (calculate_verise amount lock_slots)
    require (ltb 0 verise_amount) zero_amount
    paid ← deposit_rise a amount b
    lock_number ← or_overflow (checked_add u64 a.config.lock_count 1)
    minted ← mint_nft a lock_number paid
    lock_end_slot ← or_overflow (checked_add u64 (rt.slot b) lock_slots)
    total_verise ← or_overflow (checked_add u128 a.config.total_verise verise_amount)
    ok (
      record a.config { lock_count = lock_number; total_verise = total_verise },
      record {
        owner = a.user;
        rise_locked = amount;
        verise_amount = verise_amount;
        lock_start_slot = rt.slot b;
        lock_end_slot = lock_end_slot;
        last_revenue_index = a.treasury.revenue_index;
        total_revenue_claimed = 0;
        nft_mint = a.nft_mint;
        lock_number = lock_number;
        nonce = nonce;
        bump = a.lock_bump;
      },
      minted,
    )

  unfoldable pub check_unlock : LockAccounts → B → Outcome (Unit {0})
  check_unlock a b = do
    constrain (a.lock.owner == a.user)
    constrain ((rt.token b a.user_rise_account).mint == a.config.rise_mint)
    constrain ((rt.token b a.user_rise_account).owner == a.user)
    constrain ((rt.token b a.rise_vault).mint == a.config.rise_mint)
    constrain (a.nft_mint == a.lock.nft_mint)
    require ((rt.token b a.user_nft_ata).mint == a.lock.nft_mint) zero_amount
    require ((rt.token b a.user_nft_ata).owner == a.user) zero_amount
    require ((rt.token b a.user_nft_ata).amount == 1) zero_amount
    require (leb a.lock.lock_end_slot (rt.slot b)) lock_not_expired

  -- The runtime then closes the lock.
  unfoldable pub unlock_rise : LockAccounts → B → Outcome (GovernanceConfig × B)
  unlock_rise a b = do
    check_unlock a b
    burned ← or_fault (nfts.burn_nft_token a.user_nft_ata a.nft_mint a.user b) cpi
    closed ← or_fault (rt.close_account a.user_nft_ata a.user a.user burned) cpi
    returned ←
        or_fault
          (rt.token_transfer a.rise_vault a.user_rise_account a.config_key a.lock.rise_locked
            closed)
          cpi
    ok (record a.config { total_verise = a.config.total_verise - a.lock.verise_amount }, returned)

  -- A transfer out of the vault, signed with the vault's seeds. The runtime derives the signer under
  -- the calling program: without the vault among the signers the transfer fails.
  unfoldable pub transfer_signed : VaultAddresses → LockAccounts → ℕ → B → Option B
  transfer_signed vaults a lamports b =
      if vaults.under_governance a.vault_bump == a.verise_vault
      then rt.transfer a.verise_vault a.user lamports b
      else none

  unfoldable pub claim_revenue_share : VaultAddresses → LockAccounts → B → Outcome (VeLock × B)
  claim_revenue_share vaults a b = do
    constrain (a.lock.owner == a.user)
    constrain (a.verise_vault == vaults.under_staking a.vault_bump)
    weight ← current_verise a.lock (rt.slot b)
    require (ltb 0 weight) lock_expired
    claimable ← revenue_share a.lock a.treasury.revenue_index
    require (ltb 0 claimable) no_rewards_to_claim
    paid ← or_fault (transfer_signed vaults a claimable b) cpi
    claimed ← or_overflow (checked_add u64 a.lock.total_revenue_claimed claimable)
    ok (
      record a.lock {
        last_revenue_index = a.treasury.revenue_index;
        total_revenue_claimed = claimed;
      },
      paid,
    )
