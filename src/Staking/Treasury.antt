-- ===== src/Staking/Treasury.antt =====
-- programs/rise-staking/src/instructions/initialize_treasury.rs, update_treasury_config.rs,
-- register_external_revenue.rs, withdraw_reserve.rs and withdraw_treasury_for_cdp_buyback.rs.
use rise_protocol.Prelude.{
  ℕ, ◌+◌, ◌-◌, ltb, leb, ◌==◌, Option, none, some, if◌then◌else◌, ◌>>=◌, ◌>>◌, ok, cpi, require,
  or_fault, constrain, checked_add, checked_sub, checked_mul, checked_div, u128, List, length, take,
  drop, from_le_bytes,
}
use rise_protocol.Solana.{Pubkey, Runtime}
use rise_protocol.Staking.State.{
  GlobalPool, ProtocolTreasury, Outcome, or_overflow, index_scale, zero_amount, unauthorized,
  invalid_fee_bps, insufficient_liquidity, invalid_governance_config,
}

unfoldable pub initialize_treasury : Pubkey → ℕ → ℕ → Pubkey → ℕ → ℕ → Outcome ProtocolTreasury
initialize_treasury authority treasury_bump epoch team_wallet team_fee_bps verise_share_bps = do
  require (leb team_fee_bps 5_000) invalid_fee_bps
  require (leb verise_share_bps 10_000) invalid_fee_bps
  ok (record {
    authority = authority;
    team_wallet = team_wallet;
    team_fee_bps = team_fee_bps;
    verise_share_bps = verise_share_bps;
    reserve_lamports = 0;
    revenue_index = 0;
    total_distributed = 0;
    last_collection_epoch = epoch;
    bump = treasury_bump;
  })

unfoldable pub set_team_wallet : Option Pubkey → ProtocolTreasury → ProtocolTreasury
set_team_wallet none t = t
set_team_wallet (some wallet) t = record t { team_wallet = wallet }

unfoldable pub set_team_fee : Option ℕ → ProtocolTreasury → Outcome ProtocolTreasury
set_team_fee none t = ok t
set_team_fee (some fee) t = do
  require (leb fee 5_000) invalid_fee_bps
  ok (record t { team_fee_bps = fee })

unfoldable pub set_verise_share : Option ℕ → ProtocolTreasury → Outcome ProtocolTreasury
set_verise_share none t = ok t
set_verise_share (some share) t = do
  require (leb share 10_000) invalid_fee_bps
  ok (record t { verise_share_bps = share })

unfoldable pub update_treasury_config :
    Pubkey → Option Pubkey → Option ℕ → Option ℕ → ProtocolTreasury → Outcome ProtocolTreasury
unfolding set_team_wallet set_team_fee set_verise_share
update_treasury_config authority team_wallet team_fee_bps verise_share_bps t = do
  constrain (authority == t.authority)
  feed ← set_team_fee team_fee_bps (set_team_wallet team_wallet t)
  set_verise_share verise_share_bps feed

abbrev pub total_verise_offset : ℕ
total_verise_offset = 72

-- `total_verise`, from the raw bytes of the governance config.
unfoldable pub read_total_verise : List ℕ → Outcome ℕ
unfolding from_le_bytes
read_total_verise gov_data = do
  require (leb (total_verise_offset + 16) (length gov_data)) invalid_governance_config
  ok (from_le_bytes (take 16 (drop total_verise_offset gov_data)))

-- "Per-share revenue accumulator": the index, where there is veRISE, and the total.
unfoldable pub advance_index : ProtocolTreasury → ℕ → ℕ → Outcome ProtocolTreasury
advance_index t total_verise amount = do
  index ←
      if ltb 0 total_verise
      then (do
        scaled ← or_overflow (checked_mul u128 amount index_scale)
        index_increment ← or_overflow (checked_div scaled total_verise)
        or_overflow (checked_add u128 t.revenue_index index_increment))
      else ok t.revenue_index
  distributed ← or_overflow (checked_add u128 t.total_distributed amount)
  ok (record t { revenue_index = index; total_distributed = distributed })

unfoldable pub add_reserve : ProtocolTreasury → ℕ → Outcome ProtocolTreasury
add_reserve t amount = do
  reserve ← or_overflow (checked_add u128 t.reserve_lamports amount)
  ok (record t { reserve_lamports = reserve })

pub record RegisterExternalRevenue : Type 0 where
  pub cdp_config : Pubkey
  pub global_pool : GlobalPool
  pub treasury : ProtocolTreasury
  pub governance_config : Pubkey

pub record WithdrawReserve : Type 0 where
  pub authority : Pubkey
  pub treasury : ProtocolTreasury
  pub reserve_vault : Pubkey
  pub destination : Pubkey

pub record WithdrawTreasuryForCdpBuyback : Type 0 where
  pub cdp_config : Pubkey
  pub global_pool : GlobalPool
  pub treasury : ProtocolTreasury
  pub reserve_vault : Pubkey
  pub cdp_wsol_buyback_vault : Pubkey

-- `governance_program_id` is the address of the governance program, a constant of the source.
module _ {B : Type 0} (rt : Runtime B) (governance_program_id : Pubkey) where
  unfoldable pub register_external_revenue :
      RegisterExternalRevenue → ℕ → ℕ → B → Outcome ProtocolTreasury
  unfolding advance_index read_total_verise add_reserve
  register_external_revenue a verise_lamports reserve_lamports b = do
    require (a.cdp_config == a.global_pool.cdp_config_pubkey) unauthorized
    require (rt.program b a.governance_config == governance_program_id) invalid_governance_config
    indexed ←
        if ltb 0 verise_lamports
        then (do
          total_verise ← read_total_verise (rt.bytes b a.governance_config)
          advance_index a.treasury total_verise verise_lamports)
        else ok a.treasury
    if ltb 0 reserve_lamports then add_reserve indexed reserve_lamports else ok indexed

module _ {B : Type 0} (rt : Runtime B) where
  -- The vault's lamports above its rent floor cover `amount`.
  unfoldable pub check_reserve : Pubkey → ℕ → B → Outcome (Unit {0})
  check_reserve reserve_vault amount b =
      require (leb amount (rt.lamports b reserve_vault - rt.minimum_balance b 0))
        insufficient_liquidity

  unfoldable pub withdraw_reserve : WithdrawReserve → ℕ → B → Outcome (ProtocolTreasury × B)
  unfolding check_reserve
  withdraw_reserve a amount b = do
    require (a.authority == a.treasury.authority) unauthorized
    require (ltb 0 amount) zero_amount
    require (leb amount a.treasury.reserve_lamports) insufficient_liquidity
    check_reserve a.reserve_vault amount b
    paid ← or_fault (rt.transfer a.reserve_vault a.destination amount b) cpi
    reserve ← or_overflow (checked_sub a.treasury.reserve_lamports amount)
    ok (record a.treasury { reserve_lamports = reserve }, paid)

  unfoldable pub withdraw_treasury_for_cdp_buyback :
      WithdrawTreasuryForCdpBuyback → ℕ → B → Outcome (ProtocolTreasury × B)
  unfolding check_reserve
  withdraw_treasury_for_cdp_buyback a shortfall_sol b = do
    require (a.cdp_config == a.global_pool.cdp_config_pubkey) unauthorized
    require (ltb 0 shortfall_sol) zero_amount
    check_reserve a.reserve_vault shortfall_sol b
    paid ← or_fault (rt.transfer a.reserve_vault a.cdp_wsol_buyback_vault shortfall_sol b) cpi
    ok (record a.treasury { reserve_lamports = a.treasury.reserve_lamports - shortfall_sol }, paid)
