-- ===== src/Staking/World.antt =====
-- programs/rise-staking/src/lib.rs: the program's accounts on the chain, and the instructions. An
-- account at seeds is a field of the world, so that what the framework loads and stores by a PDA
-- is a read and a write of that field.
use rise_protocol.Prelude.{
  ℕ, ◌==◌, ◌&&◌, Bool, true, false, Option, none, some, List, [], ◌∷◌, if◌then◌else◌, ok, err,
  uninitialized, constraint,
}
use rise_protocol.Solana.{Pubkey}
use rise_protocol.Staking.State.{
  GlobalPool, StakeRewardsConfig, UserStakeRewards, WithdrawalTicket, ProtocolTreasury, Outcome,
}

-- The program's derived addresses and their bumps, and the constant of the governance program.
pub record Addresses : Type 0 where
  pub global_pool : Pubkey
  pub pool_vault : Pubkey
  pub reserve_vault : Pubkey
  pub verise_vault : Pubkey
  pub stake_rewards_config : Pubkey
  pub stake_rewards_vault : Pubkey
  pub config_bump : ℕ
  pub tracker_bump : Pubkey → ℕ
  pub ticket_bump : Pubkey → ℕ → ℕ
  pub governance_program_id : Pubkey

pub record World (B : Type 0) : Type 0 where
  pub pool : GlobalPool
  pub treasury : ProtocolTreasury
  pub config : Option StakeRewardsConfig
  pub trackers : Pubkey → Option UserStakeRewards
  pub tickets : List WithdrawalTicket
  pub bank : B

-- The ticket at the seeds `owner`, `nonce`.
unfoldable pub find_ticket : Pubkey → ℕ → List WithdrawalTicket → Option WithdrawalTicket
find_ticket owner nonce [] = none
find_ticket owner nonce (t ∷ ts) =
    if t.owner == owner && t.nonce == nonce then some t else find_ticket owner nonce ts

unfoldable pub remove_ticket : Pubkey → ℕ → List WithdrawalTicket → List WithdrawalTicket
remove_ticket owner nonce [] = []
remove_ticket owner nonce (t ∷ ts) =
    if t.owner == owner && t.nonce == nonce then ts else t ∷ remove_ticket owner nonce ts

-- An `Option<Account>`: absent if the caller omits it, and otherwise it has to exist.
unfoldable pub load_optional : {A : Type 0} → Bool → Option A → Outcome (Option A)
load_optional false o = ok none
load_optional true none = err uninitialized
load_optional true (some a) = ok (some a)

-- What an `Option<Account>` leaves in its place.
unfoldable pub store_optional : {A : Type 0} → Option A → Option A → Option A
store_optional (some a) old = some a
store_optional none old = old

unfoldable pub store_tracker :
    Pubkey
    → Option UserStakeRewards
    → (Pubkey → Option UserStakeRewards)
    → Pubkey
    → Option UserStakeRewards
store_tracker user o trackers k = if k == user then store_optional o (trackers k) else trackers k

-- `init` refuses an account that exists.
unfoldable pub check_absent : {A : Type 0} → Option A → Outcome (Unit {0})
check_absent none = ok tt
check_absent (some a) = err constraint

-- The entry points with the arguments and the accounts that the caller chooses; a flag says
-- whether an optional account is passed.
pub data Instruction : Type 0 where
  stakes :
      (user rise_sol_mint user_rise_sol_account : Pubkey) (with_config with_tracker : Bool)
      (lamports : ℕ)
      → Instruction
  unstakes :
      (user rise_sol_mint user_rise_sol_account : Pubkey) (with_config with_tracker : Bool)
      (rise_sol_amount : ℕ)
      → Instruction
  claims : (owner : Pubkey) (nonce : ℕ) → Instruction
  updates_rate : Instruction
  collects_fees : (team_wallet governance_config : Pubkey) → Instruction
  configures_treasury :
      (authority : Pubkey) (team_wallet : Option Pubkey) (team_fee_bps verise_share_bps : Option ℕ)
      → Instruction
  registers_revenue :
      (cdp_config governance_config : Pubkey) (verise_lamports reserve_lamports : ℕ) → Instruction
  receives_liquidity : (sol_amount : ℕ) → Instruction
  notifies_burn : (cdp_config : Pubkey) (amount : ℕ) → Instruction
  sets_cdp_config : (authority cdp_config_pubkey : Pubkey) → Instruction
  withdraws_for_buyback :
      (cdp_config cdp_wsol_buyback_vault : Pubkey) (shortfall_sol : ℕ) → Instruction
  mints_for_cdp : (cdp_config rise_sol_mint recipient : Pubkey) (amount : ℕ) → Instruction
  credits_revenue : (amount : ℕ) → Instruction
  initializes_rewards :
      (authority rise_mint : Pubkey) (epoch_emissions slots_per_epoch : ℕ) → Instruction
  checkpoints : Instruction
  registers_rewards : (user user_rise_sol_account : Pubkey) → Instruction
  claims_rewards : (user user_rise_account : Pubkey) → Instruction
  closes_rewards : (authority authority_rise_account : Pubkey) → Instruction
  withdraws_reserve : (authority destination : Pubkey) (amount : ℕ) → Instruction
