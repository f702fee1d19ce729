-- ===== src/Cdp/Permission.antt =====
-- programs/rise-cdp: who changes a config, and what a change leaves alone.
use rise_protocol.Prelude.{ℕ, Bool, Option, ◌<◌, ◌≡◌, ok, arith}
use rise_protocol.Solana.{Pubkey}
use rise_protocol.Cdp.State.{CdpConfig, CollateralConfig, PaymentConfig}
use rise_protocol.Cdp.Config.{
  CollateralChanges, update_collateral_config, update_debt_ceiling, update_payment_config,
}

-- The instructions that change a config that exists, with the config that each of them leaves.
pub data ConfigChange (signer : Pubkey) (loans : CdpConfig) : Type 0 where
  collateral_change :
      (c c' : CollateralConfig) (d : CollateralChanges)
      → update_collateral_config signer loans c d ≡ ok c'
      → ConfigChange signer loans
  ceiling_change :
      (multiplier_bps : ℕ) (loans' : CdpConfig)
      → update_debt_ceiling signer loans multiplier_bps ≡ ok loans'
      → ConfigChange signer loans
  payment_change :
      (c c' : PaymentConfig) (feed : Option Pubkey) (active : Option Bool)
      → update_payment_config signer loans c feed active ≡ ok c'
      → ConfigChange signer loans

-- What a change leaves alone: the token that a config is for, the open positions, what is owed to
-- the borrowers, and what has been minted; and the ceiling's multiplier is positive.
pub Kept : {signer : Pubkey} {loans : CdpConfig} → ConfigChange signer loans → Type 0
Kept (collateral_change c c' d h) =
    (c'.mint ≡ c.mint)
    × (c'.total_positions ≡ c.total_positions)
    × (c'.total_collateral_entitlements ≡ c.total_collateral_entitlements)
Kept {loans = loans} (ceiling_change multiplier_bps loans' h) =
    (loans'.cdp_rise_sol_minted ≡ loans.cdp_rise_sol_minted)
    × (loans'.authority ≡ loans.authority)
    × (0 < loans'.debt_ceiling_multiplier_bps)
Kept (payment_change c c' feed active h) = c'.mint ≡ c.mint

-- Whoever changes a collateral's config, the debt ceiling or a payment token's config is the
-- authority; and the change leaves alone the token that the config is for, the open positions,
-- what is owed to the borrowers, what has been minted and the authority, with a positive multiplier
-- for the ceiling.
pub ConfigChange-Kept :
    (signer : Pubkey) (loans : CdpConfig) (change : ConfigChange signer loans)
    → (signer ≡ loans.authority) × Kept change
unfolding Kept update_collateral_config update_debt_ceiling update_payment_config
ConfigChange-Kept signer loans (collateral_change c c' d h) = ground arith
ConfigChange-Kept signer loans (ceiling_change multiplier_bps loans' h) = ground arith
ConfigChange-Kept signer loans (payment_change c c' feed active h) = ground arith
