-- ===== src/Cdp/ConfigLaws.antt =====
-- programs/rise-cdp: what the initialisation and the updates make of a collateral's config.
use rise_protocol.Prelude.{ℕ, some, none, ◌≤◌, ◌<◌, ◌≡◌, ok, arith, Option}
use rise_protocol.Solana.{Pubkey}
use rise_protocol.Cdp.State.{CdpConfig, CollateralConfig}
use rise_protocol.Cdp.Config.{
  CollateralTerms, CollateralChanges, initialize_collateral_config, update_collateral_config,
  check_terms, replace_within,
}

-- The limits on a collateral's terms: a position is opened below the threshold at which it is
-- liquidated, and that is below the collateral's value.
pub record IsValid (c : CollateralConfig) : Type 0 where
  pub ltv_below_threshold : c.max_ltv_bps < c.liquidation_threshold_bps
  pub ltv_limit : c.max_ltv_bps ≤ 9_500
  pub threshold_limit : c.liquidation_threshold_bps ≤ 9_800
  pub penalty_limit : c.liquidation_penalty_bps ≤ 2_000
  pub base_limit : c.base_rate_bps ≤ 10_000
  pub slope1_limit : c.rate_slope1_bps ≤ 20_000
  pub slope2_limit : c.rate_slope2_bps ≤ 50_000
  pub optimal_limit : c.optimal_utilization_bps ≤ 10_000

replace_within-le :
    (limit : ℕ) (o : Option ℕ) (old new : ℕ)
    → replace_within limit o old ≡ ok new
    → old ≤ limit
    → new ≤ limit
unfolding replace_within
replace_within-le limit none old new h le = ground arith
replace_within-le limit (some v) old new h le = ground arith

pub initialize_collateral_config-IsValid :
    (authority mint : Pubkey) (t : CollateralTerms) (bump : ℕ) (c : CollateralConfig)
    → initialize_collateral_config authority mint t bump ≡ ok c
    → IsValid c
unfolding initialize_collateral_config check_terms
initialize_collateral_config-IsValid authority mint t bump c h =
    let limits : (c.max_ltv_bps < c.liquidation_threshold_bps)
        × (c.max_ltv_bps ≤ 9_500)
        × (c.liquidation_threshold_bps ≤ 9_800)
        × (c.liquidation_penalty_bps ≤ 2_000)
        × (c.base_rate_bps ≤ 10_000)
        × (c.rate_slope1_bps ≤ 20_000)
        × (c.rate_slope2_bps ≤ 50_000)
        × (c.optimal_utilization_bps ≤ 10_000) =
      ground arith in
    let (below, ltv, threshold, penalty, base, slope1, slope2, optimal) = limits in
    record {
      ltv_below_threshold = below;
      ltv_limit = ltv;
      threshold_limit = threshold;
      penalty_limit = penalty;
      base_limit = base;
      slope1_limit = slope1;
      slope2_limit = slope2;
      optimal_limit = optimal;
    }

update_collateral_config-eq :
    (authority : Pubkey) (cdp : CdpConfig) (c : CollateralConfig) (d : CollateralChanges)
    (c' : CollateralConfig)
    → update_collateral_config authority cdp c d ≡ ok c'
    → (replace_within 9_500 d.max_ltv_bps c.max_ltv_bps ≡ ok c'.max_ltv_bps)
      × (replace_within 9_800 d.liquidation_threshold_bps c.liquidation_threshold_bps
          ≡ ok c'.liquidation_threshold_bps)
      × (replace_within 2_000 d.liquidation_penalty_bps c.liquidation_penalty_bps
          ≡ ok c'.liquidation_penalty_bps)
      × (c'.max_ltv_bps < c'.liquidation_threshold_bps)
      × (replace_within 10_000 d.base_rate_bps c.base_rate_bps ≡ ok c'.base_rate_bps)
      × (replace_within 20_000 d.rate_slope1_bps c.rate_slope1_bps ≡ ok c'.rate_slope1_bps)
      × (replace_within 50_000 d.rate_slope2_bps c.rate_slope2_bps ≡ ok c'.rate_slope2_bps)
      × (replace_within 10_000 d.optimal_utilization_bps c.optimal_utilization_bps
          ≡ ok c'.optimal_utilization_bps)
unfolding update_collateral_config
update_collateral_config-eq authority cdp c d c' h = ground arith

pub update_collateral_config-IsValid :
    (authority : Pubkey) (cdp : CdpConfig) (c : CollateralConfig) (d : CollateralChanges)
    (c' : CollateralConfig)
    → update_collateral_config authority cdp c d ≡ ok c'
    → IsValid c
    → IsValid c'
update_collateral_config-IsValid authority cdp c d c' h v =
    let (ltv, threshold, penalty, below, base, slope1, slope2, optimal) =
      update_collateral_config-eq authority cdp c d c' h in
    record {
      ltv_below_threshold = below;
      ltv_limit = replace_within-le _ _ _ _ ltv v.ltv_limit;
      threshold_limit = replace_within-le _ _ _ _ threshold v.threshold_limit;
      penalty_limit = replace_within-le _ _ _ _ penalty v.penalty_limit;
      base_limit = replace_within-le _ _ _ _ base v.base_limit;
      slope1_limit = replace_within-le _ _ _ _ slope1 v.slope1_limit;
      slope2_limit = replace_within-le _ _ _ _ slope2 v.slope2_limit;
      optimal_limit = replace_within-le _ _ _ _ optimal v.optimal_limit;
    }
