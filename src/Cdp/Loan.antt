-- ===== src/Cdp/Loan.antt =====
-- programs/rise-cdp/src/instructions: what the instructions on a loan share, that is the accounts
-- with data, the addresses, and the arithmetic that they repeat.
use rise_protocol.Prelude.{
  ℕ, leb, ◌==◌, ◌>>=◌, ◌>>◌, ok, err, cpi, Result, require, constrain, checked_add, checked_mul,
  checked_div, u128, List,
}
use rise_protocol.Solana.{Pubkey, Runtime}
use rise_protocol.Staking.State.{GlobalPool, ProtocolTreasury, StakingError}
use rise_protocol.Cdp.State.{
  CdpPosition, CollateralConfig, CdpConfig, BorrowRewardsConfig, BorrowRewards, Outcome,
  or_overflow, compute_health_factor, debt_ceiling_exceeded, exceeds_single_loan_cap,
  position_closed,
}
use rise_protocol.Cdp.Interest.{AccrueInterest, debt_ceiling}
use rise_protocol.Cdp.Oracle.{Markets, get_pyth_price, pow_ten}

-- The accounts that the instructions on a loan write. One that an instruction does not list stays
-- as it is.
pub record Loan : Type 0 where
  pub position : CdpPosition
  pub borrow_rewards : BorrowRewards
  pub collateral_config : CollateralConfig
  pub cdp_config : CdpConfig
  pub borrow_rewards_config : BorrowRewardsConfig
  pub global_pool : GlobalPool
  pub treasury : ProtocolTreasury

-- The signer and the addresses of the accounts. The feed of SOL's price is the one of the payment
-- config at the seeds of SOL.
pub record Addresses : Type 0 where
  pub signer : Pubkey
  pub position_key : Pubkey
  pub cdp_config_key : Pubkey
  pub pool_key : Pubkey
  pub collateral_mint : Pubkey
  pub borrower_collateral_account : Pubkey
  pub collateral_vault : Pubkey
  pub price_update : Pubkey
  pub sol_price_update : Pubkey
  pub sol_price_feed : Pubkey
  pub rise_sol_mint : Pubkey
  pub borrower_rise_sol_account : Pubkey
  pub cdp_fee_vault : Pubkey
  pub pool_vault : Pubkey
  pub reserve_vault : Pubkey
  pub wsol_mint : Pubkey
  pub cdp_wsol_vault : Pubkey
  pub cdp_wsol_buyback_vault : Pubkey

-- The arguments of an instruction that swaps.
pub record Route : Type 0 where
  pub route_plan_data : List ℕ
  pub quoted_out_amount : ℕ
  pub slippage_bps : ℕ

-- What an accrual reads.
abbrev pub interest_accounts : Loan → AccrueInterest
interest_accounts l = record {
  position = l.position;
  collateral_config = l.collateral_config;
  cdp_config = l.cdp_config;
  global_pool = l.global_pool;
}

-- `a.checked_mul(b)?.checked_div(d)?` on 128 bits.
unfoldable pub mul_div : ℕ → ℕ → ℕ → Outcome ℕ
mul_div a b d = do product ← or_overflow (checked_mul u128 a b); or_overflow (checked_div product d)

-- A call of the staking program: its error is passed on as it is.
abbrev pub call_staking : {A : Type 0} → Result StakingError A → Outcome A
call_staking (ok a) = ok a
call_staking (err e) = err cpi

abbrev pub lamports_per_sol : ℕ
lamports_per_sol = 1_000_000_000

abbrev pub max_single_loan_bps : ℕ
max_single_loan_bps = 500

-- The two prices, collateral first.
unfoldable pub read_prices : {B : Type 0} → Markets B → Addresses → Loan → B → Outcome (ℕ × ℕ)
read_prices mk k l b = do
  collateral_usd_price ← get_pyth_price mk k.price_update l.collateral_config.pyth_price_feed b
  sol_usd_price ← get_pyth_price mk k.sol_price_update k.sol_price_feed b
  ok (collateral_usd_price, sol_usd_price)

-- The value of an amount of collateral, at a price for one token with that many decimals.
unfoldable pub collateral_value : ℕ → ℕ → ℕ → Outcome ℕ
collateral_value amount collateral_usd_price decimals = do
  decimal_scale ← pow_ten decimals
  mul_div amount collateral_usd_price decimal_scale

-- The new total of minted principal: within the ceiling, where the loan's principal is within its
-- cap.
unfoldable pub check_ceiling : Loan → ℕ → Outcome ℕ → Outcome ℕ
check_ceiling l rise_sol principal = do
  ceiling ← debt_ceiling l.global_pool l.cdp_config
  new_minted ← or_overflow (checked_add u128 l.cdp_config.cdp_rise_sol_minted rise_sol)
  require (leb new_minted ceiling) debt_ceiling_exceeded
  single_loan_cap ← mul_div ceiling max_single_loan_bps 10_000
  new_principal ← principal
  require (leb new_principal single_loan_cap) exceeds_single_loan_cap
  ok new_minted

-- The health factor of a position with that collateral and that debt, both in USD.
unfoldable pub health_of : ℕ → ℕ → CollateralConfig → Outcome ℕ
health_of collateral_usd debt_usd c =
    or_overflow (compute_health_factor collateral_usd debt_usd c.liquidation_threshold_bps)

module _ {B : Type 0} (rt : Runtime B) where
  -- `borrower_collateral_account.mint == collateral_config.mint` and its owner, the vault's mint.
  unfoldable pub check_collateral_accounts : Addresses → Loan → Pubkey → B → Outcome (Unit {0})
  check_collateral_accounts k l owner b = do
    constrain ((rt.token b k.borrower_collateral_account).mint == l.collateral_config.mint)
    constrain ((rt.token b k.borrower_collateral_account).owner == owner)
    constrain ((rt.token b k.collateral_vault).mint == l.collateral_config.mint)

  unfoldable pub check_rise_sol_accounts : Addresses → Loan → B → Outcome (Unit {0})
  check_rise_sol_accounts k l b = do
    constrain (k.rise_sol_mint == l.global_pool.rise_sol_mint)
    constrain ((rt.token b k.borrower_rise_sol_account).mint == l.global_pool.rise_sol_mint)
    constrain ((rt.token b k.borrower_rise_sol_account).owner == k.signer)

-- The position is the signer's and open.
unfoldable pub check_own_position : Addresses → Loan → Outcome (Unit {0})
check_own_position k l = do
  constrain (l.position.owner == k.signer)
  require l.position.is_open position_closed
