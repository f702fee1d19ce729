-- ===== src/Cdp/Config.antt =====
-- The instructions of programs/rise-cdp/src/instructions that set the program's configuration:
-- initialize_cdp_config, update_debt_ceiling, initialize_collateral_config,
-- update_collateral_config, initialize_payment_config and update_payment_config.
use rise_protocol.Prelude.{
  ℕ, Bool, true, Option, none, some, ltb, leb, ◌==◌, ◌&&◌, ◌>>=◌, ◌>>◌, require, constrain, ok,
}
use rise_protocol.Solana.{Pubkey}
use rise_protocol.Cdp.State.{
  CdpConfig, CollateralConfig, PaymentConfig, Outcome, zero_amount, unauthorized,
}

-- The bump, last of the arguments, is what the runtime found for the new account.
unfoldable pub initialize_cdp_config : Pubkey → ℕ → ℕ → Outcome CdpConfig
initialize_cdp_config authority debt_ceiling_multiplier_bps bump = do
  require (ltb 0 debt_ceiling_multiplier_bps) zero_amount
  ok (record {
    authority = authority;
    cdp_rise_sol_minted = 0;
    debt_ceiling_multiplier_bps = debt_ceiling_multiplier_bps;
    bump = bump;
  })

unfoldable pub update_debt_ceiling : Pubkey → CdpConfig → ℕ → Outcome CdpConfig
update_debt_ceiling authority c multiplier_bps = do
  constrain (authority == c.authority)
  require (ltb 0 multiplier_bps) zero_amount
  ok (record c { debt_ceiling_multiplier_bps = multiplier_bps })

-- The arguments of an initialisation.
pub record CollateralTerms : Type 0 where
  pub feed_id : Pubkey
  pub max_ltv_bps : ℕ
  pub liquidation_threshold_bps : ℕ
  pub liquidation_penalty_bps : ℕ
  pub base_rate_bps : ℕ
  pub rate_slope1_bps : ℕ
  pub rate_slope2_bps : ℕ
  pub optimal_utilization_bps : ℕ
  pub conversion_slippage_bps : ℕ

unfoldable pub check_terms : CollateralTerms → Outcome (Unit {0})
check_terms t = do
  require (leb t.max_ltv_bps 9_500) zero_amount
  require (leb t.liquidation_threshold_bps 9_800) zero_amount
  require (ltb t.max_ltv_bps t.liquidation_threshold_bps) zero_amount
  require (leb t.liquidation_penalty_bps 2_000) zero_amount
  require (ltb 0 t.optimal_utilization_bps && ltb t.optimal_utilization_bps 10_000) zero_amount
  require (leb t.base_rate_bps 10_000) zero_amount
  require (leb t.rate_slope1_bps 20_000) zero_amount
  require (leb t.rate_slope2_bps 50_000) zero_amount

-- The first argument is the signer that pays for the account, of whom nothing is asked.
unfoldable pub initialize_collateral_config :
    Pubkey → Pubkey → CollateralTerms → ℕ → Outcome CollateralConfig
initialize_collateral_config authority collateral_mint t bump = do
  check_terms t
  ok (record {
    mint = collateral_mint;
    pyth_price_feed = t.feed_id;
    max_ltv_bps = t.max_ltv_bps;
    liquidation_threshold_bps = t.liquidation_threshold_bps;
    liquidation_penalty_bps = t.liquidation_penalty_bps;
    base_rate_bps = t.base_rate_bps;
    rate_slope1_bps = t.rate_slope1_bps;
    rate_slope2_bps = t.rate_slope2_bps;
    optimal_utilization_bps = t.optimal_utilization_bps;
    conversion_slippage_bps = t.conversion_slippage_bps;
    active = true;
    total_positions = 0;
    total_collateral_entitlements = 0;
    bump = bump;
  })

-- The arguments of an update.
pub record CollateralChanges : Type 0 where
  pub feed_id : Option Pubkey
  pub max_ltv_bps : Option ℕ
  pub liquidation_threshold_bps : Option ℕ
  pub liquidation_penalty_bps : Option ℕ
  pub base_rate_bps : Option ℕ
  pub rate_slope1_bps : Option ℕ
  pub rate_slope2_bps : Option ℕ
  pub optimal_utilization_bps : Option ℕ
  pub conversion_slippage_bps : Option ℕ
  pub active : Option Bool

-- `if let Some(v) = argument { require!(v <= limit); field = v }`: the field's value after it.
unfoldable pub replace_within : ℕ → Option ℕ → ℕ → Outcome ℕ
replace_within limit none old = ok old
replace_within limit (some v) old = require (leb v limit) zero_amount >> ok v

abbrev pub replace : {A : Type 0} → Option A → A → A
replace none old = old
replace (some v) old = v

-- The first argument is the signer, the second the authority of the program's config.
unfoldable pub update_collateral_config :
    Pubkey → CdpConfig → CollateralConfig → CollateralChanges → Outcome CollateralConfig
update_collateral_config authority cdp_config c d = do
  require (authority == cdp_config.authority) unauthorized
  max_ltv ← replace_within 9_500 d.max_ltv_bps c.max_ltv_bps
  threshold ← replace_within 9_800 d.liquidation_threshold_bps c.liquidation_threshold_bps
  penalty ← replace_within 2_000 d.liquidation_penalty_bps c.liquidation_penalty_bps
  require (ltb max_ltv threshold) zero_amount
  base_rate ← replace_within 10_000 d.base_rate_bps c.base_rate_bps
  slope1 ← replace_within 20_000 d.rate_slope1_bps c.rate_slope1_bps
  slope2 ← replace_within 50_000 d.rate_slope2_bps c.rate_slope2_bps
  optimal ← replace_within 10_000 d.optimal_utilization_bps c.optimal_utilization_bps
  slippage ← replace_within 10_000 d.conversion_slippage_bps c.conversion_slippage_bps
  ok (record c {
    pyth_price_feed = replace d.feed_id c.pyth_price_feed;
    max_ltv_bps = max_ltv;
    liquidation_threshold_bps = threshold;
    liquidation_penalty_bps = penalty;
    base_rate_bps = base_rate;
    rate_slope1_bps = slope1;
    rate_slope2_bps = slope2;
    optimal_utilization_bps = optimal;
    conversion_slippage_bps = slippage;
    active = replace d.active c.active;
  })

unfoldable pub initialize_payment_config : Pubkey → Pubkey → Pubkey → ℕ → Outcome PaymentConfig
initialize_payment_config authority mint feed_id bump =
    ok (record { mint = mint; pyth_price_feed = feed_id; active = true; bump = bump })

unfoldable pub update_payment_config :
    Pubkey → CdpConfig → PaymentConfig → Option Pubkey → Option Bool → Outcome PaymentConfig
update_payment_config authority cdp_config c pyth_price_feed active = do
  require (authority == cdp_config.authority) unauthorized
  ok (record c {
    pyth_price_feed = replace pyth_price_feed c.pyth_price_feed;
    active = replace active c.active;
  })
