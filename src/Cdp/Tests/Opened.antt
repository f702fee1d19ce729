-- ===== src/Cdp/Tests/Opened.antt =====
-- An opening at concrete inputs.
use mathlib.Core.Option
use rise_protocol.Prelude.{◌≡◌, some, refl, ok, false, if◌then◌else◌, ◌==◌, u64, u128}
use rise_protocol.Solana.{TokenAccount, Pubkey}
use rise_protocol.Sample.{sample_runtime, Bank, add_tokens, sample_burn}
use rise_protocol.Cdp.State.{CdpConfig, sync_debt, compute_health_factor, BorrowRewardsConfig}
use rise_protocol.Cdp.Interest.{debt_ceiling}
use rise_protocol.Cdp.Oracle.{
  other_error, negsuc, pos, found, pow_ten, scale_price, positive_price, check_price, read_price,
  get_pyth_price, PriceReading, Markets,
}
use rise_protocol.Cdp.Loan.{
  Loan, health_of, check_ceiling, mul_div, collateral_value, read_prices, check_rise_sol_accounts,
  check_collateral_accounts, Addresses,
}
use rise_protocol.Cdp.Rewards.{InitializeBorrowRewards}
use rise_protocol.Cdp.Borrow.{
  new_position, book_opening, new_tracker, mint_loan, price_opening, check_opening, open_position,
  Opening,
}
use rise_protocol.Staking.Cdp.{mint_for_cdp}
use rise_protocol.Cdp.Tests.{ok_value, config, pool}

-- Two feeds at an exponent of -8: the collateral's at one dollar, and SOL's at $150 in one price
-- update and at $290 in a later one.
abbrev pub sample_price : Pubkey → PriceReading
sample_price key =
    if key == 63
    then found (record { price = pos 100_000_000; conf = 10_000; exponent = negsuc 7 })
    else if key == 64
    then found (record { price = pos 15_000_000_000; conf = 1_000_000; exponent = negsuc 7 })
    else if key == 74
    then found (record { price = pos 29_000_000_000; conf = 1_000_000; exponent = negsuc 7 })
    else other_error

abbrev pub markets : Markets Bank
markets = record {
  get_price_no_older_than = λ key age feed b. sample_price key;
  decimals = λ mint b. 6;
  shared_accounts_route = λ authority from to from_mint to_mint plan amount quoted slippage b.
      Option.map (add_tokens to quoted) (sample_burn from amount b);
  sync_native = λ account b. some b;
}

abbrev pub keys : Addresses
keys = record {
  signer = 40;
  position_key = 41;
  cdp_config_key = 3;
  pool_key = 9;
  collateral_mint = 60;
  borrower_collateral_account = 61;
  collateral_vault = 62;
  price_update = 63;
  sol_price_update = 64;
  sol_price_feed = 65;
  rise_sol_mint = 2;
  borrower_rise_sol_account = 66;
  cdp_fee_vault = 67;
  pool_vault = 68;
  reserve_vault = 69;
  wsol_mint = 71;
  cdp_wsol_vault = 72;
  cdp_wsol_buyback_vault = 73;
}

-- The borrower has 50000 tokens of collateral, and the vault holds 90000 of other borrowers.
abbrev pub token_accounts : Pubkey → TokenAccount
token_accounts key =
    if key == 61
    then record { mint = 60; owner = 40; amount = 50_000_000_000 }
    else if key == 62
    then record { mint = 60; owner = 3; amount = 90_000_000_000 }
    else if key == 66
    then record { mint = 2; owner = 40; amount = 5_000_000_000 }
    else record { mint = 71; owner = 3; amount = 0 }

abbrev pub bank : Bank
bank = record { balance = λ k. 500_000_000_000; token = token_accounts; epoch = 500; slot = 1_000 }

abbrev pub new_loans : CdpConfig
new_loans = record {
  authority = 1;
  cdp_rise_sol_minted = 0;
  debt_ceiling_multiplier_bps = 30_000;
  bump = 255;
}

abbrev pub rewards_accounts : InitializeBorrowRewards
rewards_accounts = record {
  authority = 1;
  cdp_config = new_loans;
  config_bump = 251;
  rewards_vault = 7;
  rise_mint = 5;
}

abbrev pub rewards_config : BorrowRewardsConfig
rewards_config = record {
  authority = 1;
  rise_mint = 5;
  rewards_vault = 7;
  reward_per_token = 0;
  epoch_emissions = 1_000_000;
  slots_per_epoch = 432_000;
  total_cdp_debt = 0;
  last_checkpoint_slot = 1_000;
  bump = 251;
}

-- The accounts before the opening: the position and its tracker are blank.
abbrev pub blank : Loan
blank = record {
  position = record {
    owner = 0;
    collateral_mint = 0;
    collateral_amount_original = 0;
    collateral_usd_value = 0;
    rise_sol_debt_principal = 0;
    interest_accrued = 0;
    last_accrual_slot = 0;
    health_factor = 0;
    opened_at_slot = 0;
    nonce = 0;
    is_open = false;
    excess_withdrawal_queued = 0;
    excess_withdrawal_available_slot = 0;
    pending_buyback_lamports = 0;
    bump = 0;
  };
  borrow_rewards = record {
    owner = 0;
    position = 0;
    reward_debt = 0;
    pending_rewards = 0;
    last_checkpoint_slot = 0;
    total_claimed = 0;
    bump = 0;
  };
  collateral_config = config;
  cdp_config = new_loans;
  borrow_rewards_config = rewards_config;
  global_pool = pool;
  treasury = record {
    authority = 1;
    team_wallet = 8;
    team_fee_bps = 1_000;
    verise_share_bps = 5_000;
    reserve_lamports = 0;
    revenue_index = 0;
    total_distributed = 0;
    last_collection_epoch = 0;
    bump = 249;
  };
}

-- 100 riseSOL for 30000 tokens of collateral.
abbrev pub opening : Opening
opening = record {
  collateral_amount = 30_000_000_000;
  rise_sol_to_mint = 100_000_000_000;
  nonce = 0;
  position_bump = 252;
  rewards_bump = 250;
}

unfoldable pub opened : Loan × Bank
unfolding open_position check_opening check_collateral_accounts check_rise_sol_accounts
    price_opening read_prices get_pyth_price read_price check_price positive_price scale_price
    pow_ten collateral_value mul_div check_ceiling debt_ceiling health_of compute_health_factor
    mint_loan mint_for_cdp new_tracker sync_debt book_opening new_position u64 u128
opened = ok_value (open_position sample_runtime markets keys blank opening bank) (blank, bank)

pub opens_loan : open_position sample_runtime markets keys blank opening bank ≡ ok opened
unfolding opened
opens_loan = refl

opened_debt : opened.0.position.rise_sol_debt_principal ≡ 100_000_000_000
unfolding opened
opened_debt = refl
