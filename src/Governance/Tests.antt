-- ===== src/Governance/Tests.antt =====
-- Theorems on locks, at concrete inputs.
mod Proposals
use rise_protocol.Prelude.{
  ◌+◌, ◌-◌, ◌*◌, ◌/◌, ◌%◌, ◌≡◌, ◌≢◌, refl, some, ok, err, if◌then◌else◌, ◌==◌, [], ◌∷◌,
  replaced_here, u64, u128, arith,
}
use rise_protocol.Solana.{Pubkey, TokenAccount}
use rise_protocol.Sample.{Bank, sample_runtime}
use rise_protocol.Staking.State.{ProtocolTreasury}
use rise_protocol.Governance.State.{
  GovernanceConfig, VeLock, Outcome, calculate_verise, current_verise,
}
use rise_protocol.Governance.Lock.{
  Nfts, LockAccounts, VaultAddresses, initialize_governance, extend_lock, revenue_share, mint_nft,
  deposit_rise, lock_rise, claim_revenue_share,
}
use rise_protocol.Governance.LockLaws.{claim_revenue_share_fails}
use rise_protocol.Governance.Totals.{
  Books, History, starts, step, locks_rise, extends, verise_sum, total_verise_is_sum,
}

abbrev pub ok_value : {A : Type 0} → Outcome A → A → A
ok_value (ok a) before = a
ok_value (err e) before = before

abbrev pub nfts : Nfts Bank
nfts = record {
  create_metadata = λ metadata mint authority config number b. some b;
  drop_mint_authority = λ mint authority b. some b;
  burn_nft_token = λ account mint owner b. some b;
}

abbrev pub config : GovernanceConfig
config = record {
  authority = 1;
  rise_mint = 5;
  total_verise = 0;
  min_lock_slots = 604_800;
  max_lock_slots = 315_360_000;
  proposal_threshold = 100_000;
  voting_period_slots = 302_400;
  timelock_slots = 201_600;
  quorum_bps = 1_000;
  proposal_count = 0;
  lock_count = 0;
  active_proposal_count = 0;
  bump = 255;
}

pub initialised : initialize_governance 1 5 100_000 1_000 255 ≡ ok config
unfolding initialize_governance
initialised = refl

abbrev pub no_lock : VeLock
no_lock = record {
  owner = 0;
  rise_locked = 0;
  verise_amount = 0;
  lock_start_slot = 0;
  lock_end_slot = 0;
  last_revenue_index = 0;
  total_revenue_claimed = 0;
  nft_mint = 0;
  lock_number = 0;
  nonce = 0;
  bump = 0;
}

abbrev pub treasury : ProtocolTreasury
treasury = record {
  authority = 1;
  team_wallet = 8;
  team_fee_bps = 1_000;
  verise_share_bps = 5_000;
  reserve_lamports = 0;
  revenue_index = 7_000_000_000;
  total_distributed = 0;
  last_collection_epoch = 0;
  bump = 249;
}

abbrev pub accounts : GovernanceConfig → VeLock → ProtocolTreasury → LockAccounts
accounts c l t = record {
  user = 40;
  config_key = 6;
  config = c;
  lock = l;
  lock_bump = 250;
  user_rise_account = 61;
  rise_vault = 62;
  nft_mint = 80;
  user_nft_ata = 81;
  nft_metadata = 82;
  treasury = t;
  verise_vault = 9;
  vault_bump = 247;
}

abbrev token_accounts : Pubkey → TokenAccount
token_accounts key =
    if key == 61
    then record { mint = 5; owner = 40; amount = 4_000_000_000 }
    else record { mint = 5; owner = 6; amount = 0 }

abbrev pub bank : Bank
bank = record { balance = λ k. 1_000_000_000; token = token_accounts; epoch = 7; slot = 1_000 }

-- A quarter of the veRISE, for one year.
unfoldable pub locked : GovernanceConfig × VeLock × Bank
unfolding lock_rise deposit_rise mint_nft calculate_verise u64 u128
locked =
    ok_value
      (lock_rise sample_runtime nfts (accounts config no_lock treasury) 4_000_000_000 78_840_000 0
        bank)
      (config, no_lock, bank)

pub locks_tokens :
    lock_rise sample_runtime nfts (accounts config no_lock treasury) 4_000_000_000 78_840_000 0 bank
    ≡ ok locked
unfolding locked
locks_tokens = refl

-- Three years more.
extended : GovernanceConfig × VeLock
unfolding extend_lock calculate_verise locked u64 u128
extended =
    ok_value (extend_lock (accounts locked.0 locked.1 treasury) 236_520_000 1_000)
      (locked.0, locked.1)

extends_lock : extend_lock (accounts locked.0 locked.1 treasury) 236_520_000 1_000 ≡ ok extended
unfolding extended
extends_lock = refl

verise_of_four_years : extended.1.verise_amount ≡ 4_000_000_000
unfolding extended
verise_of_four_years = refl

abbrev books : Books
books = record { config = extended.0; locks = extended.1 ∷ [] }

history : History sample_runtime nfts books
history =
    step
      (step (starts 1 5 100_000 1_000 255 config initialised) (
        locks_rise (accounts config no_lock treasury) 4_000_000_000 78_840_000 0 bank locked.1
          locked.2 locks_tokens refl refl))
      (extends (accounts locked.0 locked.1 treasury) 236_520_000 1_000 extended.1 extends_lock refl
        replaced_here)

total_verise_is_sum_example : extended.0.total_verise ≡ verise_sum (extended.1 ∷ [])
total_verise_is_sum_example = total_verise_is_sum sample_runtime nfts books history

-- The index after more revenue.
abbrev later : ProtocolTreasury
later = record treasury { revenue_index = 9_000_000_000 }

-- Programs that derive different addresses.
abbrev vaults : VaultAddresses
vaults = record { under_staking = λ bump. 9; under_governance = λ bump. 19 }

claim_revenue_share_fails_example :
    claim_revenue_share sample_runtime nfts vaults (accounts extended.0 extended.1 later) bank
    ≢ ok (extended.1, bank)
claim_revenue_share_fails_example =
    claim_revenue_share_fails sample_runtime nfts vaults (accounts extended.0 extended.1 later) bank
      (omega arith) (extended.1, bank)

-- What the lock would be paid.
share_is : revenue_share extended.1 9_000_000_000 ≡ ok 8_000_000
unfolding revenue_share extended u64 u128
share_is = refl
