-- ===== src/Staking/Fees.antt =====
-- programs/rise-staking/src/instructions/collect_fees.rs: the sweep of the vault's excess, split
-- between the team, the reserve and the veRISE holders.
use rise_protocol.Prelude.{
  ℕ, ltb, ◌==◌, if◌then◌else◌, ◌>>=◌, ◌>>◌, ok, cpi, require, or_fault, constrain, checked_sub,
  try_from, u64,
}
use rise_protocol.Solana.{Pubkey, Runtime}
use rise_protocol.Staking.State.{
  GlobalPool, ProtocolTreasury, Outcome, or_overflow, team_cut, verise_cut, epoch_not_advanced,
  invalid_governance_config,
}
use rise_protocol.Staking.Treasury.{read_total_verise, advance_index, add_reserve}

pub record CollectFees : Type 0 where
  pub pool : GlobalPool
  pub treasury : ProtocolTreasury
  pub pool_vault : Pubkey
  pub reserve_vault : Pubkey
  pub verise_vault : Pubkey
  pub team_wallet : Pubkey
  pub governance_config : Pubkey

-- The three shares of a sweep.
pub record Shares : Type 0 where
  pub team : ℕ
  pub reserve : ℕ
  pub verise : ℕ

unfoldable pub split_fees : ProtocolTreasury → ℕ → Outcome Shares
split_fees t total_fees = do
  team_amount ← or_overflow (team_cut t total_fees)
  verise_amount ← or_overflow (verise_cut t total_fees)
  after_team ← or_overflow (checked_sub total_fees team_amount)
  reserve_amount ← or_overflow (checked_sub after_team verise_amount)
  ok (record { team = team_amount; reserve = reserve_amount; verise = verise_amount })

module _ {B : Type 0} (rt : Runtime B) where
  -- "Transfer team cut"
  unfoldable pub send_team : CollectFees → ℕ → B → Outcome B
  send_team a amount b =
      if ltb 0 amount then or_fault (rt.transfer a.pool_vault a.team_wallet amount b) cpi else ok b

  -- "Transfer reserve → reserve_vault"
  unfoldable pub send_reserve :
      CollectFees → ℕ → ProtocolTreasury × B → Outcome (ProtocolTreasury × B)
  send_reserve a amount (t, b) =
      if ltb 0 amount
      then (do
        sent ← or_fault (rt.transfer a.pool_vault a.reserve_vault amount b) cpi
        t' ← add_reserve t amount
        ok (t', sent))
      else ok (t, b)

  -- "Transfer veRISE share → verise_vault and update revenue index"
  unfoldable pub send_verise :
      CollectFees → ℕ → ProtocolTreasury × B → Outcome (ProtocolTreasury × B)
  send_verise a amount (t, b) =
      if ltb 0 amount
      then (do
        sent ← or_fault (rt.transfer a.pool_vault a.verise_vault amount b) cpi
        total_verise ← read_total_verise (rt.bytes sent a.governance_config)
        t' ← advance_index t total_verise amount
        ok (t', sent))
      else ok (t, b)

  -- The transfers and the treasury's accounting, on the shares.
  unfoldable pub distribute : CollectFees → Shares → B → Outcome (ProtocolTreasury × B)
  distribute a s b = do
    after_team ← send_team a s.team b
    after_reserve ← send_reserve a s.reserve (a.treasury, after_team)
    swept ← send_verise a s.verise after_reserve
    ok (record (swept.0) { last_collection_epoch = rt.epoch b }, swept.1)

  unfoldable pub sweepable : CollectFees → B → Outcome ℕ
  sweepable a b = do
    above_buffer ←
        or_overflow (checked_sub (rt.lamports b a.pool_vault) a.pool.liquid_buffer_lamports)
    or_overflow (checked_sub above_buffer a.pool.pending_withdrawals_lamports)

  module _ (governance_program_id : Pubkey) where
    unfoldable pub collect_fees : CollectFees → B → Outcome (ProtocolTreasury × B)
    collect_fees a b = do
      constrain (a.team_wallet == a.treasury.team_wallet)
      require (rt.program b a.governance_config == governance_program_id) invalid_governance_config
      require (ltb a.treasury.last_collection_epoch (rt.epoch b)) epoch_not_advanced
      fees ← sweepable a b
      if fees == 0 then ok (a.treasury, b) else (do
        total_fees ← or_overflow (try_from u64 fees)
        shares ← split_fees a.treasury total_fees
        distribute a shares b)
