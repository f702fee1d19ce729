-- ===== src/Governance/LockLaws.antt =====
-- programs/rise-governance: the claim of a revenue share.
use rise_protocol.Prelude.{◌≢◌, ok, arith}
use rise_protocol.Solana.{Runtime}
use rise_protocol.Governance.State.{VeLock}
use rise_protocol.Governance.Lock.{
  Nfts, LockAccounts, VaultAddresses, transfer_signed, claim_revenue_share,
}

module _ {B : Type 0} (rt : Runtime B) (nfts : Nfts B) where
  -- Nobody can claim a revenue share: where the vault's bump derives another address under the
  -- staking program, whose account the vault must be, than under this one, for which the transfer is
  -- signed, no claim succeeds, whatever the lock, the treasury and the bank.
  pub claim_revenue_share_fails :
      (vaults : VaultAddresses) (a : LockAccounts) (b : B)
      → vaults.under_staking a.vault_bump ≢ vaults.under_governance a.vault_bump
      → (result : VeLock × B) → claim_revenue_share rt nfts vaults a b ≢ ok result
  unfolding claim_revenue_share transfer_signed
  claim_revenue_share_fails vaults a b apart result h = ground arith
