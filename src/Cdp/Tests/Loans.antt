-- ===== src/Cdp/Tests/Loans.antt =====
-- Theorems on whole instructions on loans, at concrete inputs.
use rise_protocol.Prelude.{
  ◌≡◌, ◌≢◌, ◌<◌, ◌≤◌, ◌+◌, ◌*◌, arith, Option, some, none, [], ◌∷◌, refl, ok, u64, u128,
}
use rise_protocol.Sample.{sample_amounts, sample_runtime, Bank, add_tokens, sample_burn}
use rise_protocol.Cdp.State.{settle, total_rise_sol_owed, sync_debt}
use rise_protocol.Cdp.Loan.{
  check_own_position, Route, Loan, read_prices, check_rise_sol_accounts, check_collateral_accounts,
}
use rise_protocol.Cdp.Rewards.{initialize_borrow_rewards}
use rise_protocol.Cdp.Tests.{
  ok_value, config-IsValid, terms, changes, loans, initial_config, initialises, updates,
}
use rise_protocol.Cdp.Config.{initialize_cdp_config}
use rise_protocol.Cdp.Totals.{start, opens, step, Reach, Books, closes}
use rise_protocol.Cdp.Tracking.{IsTracked}
use rise_protocol.Cdp.Liquidate.{liquidate}
use rise_protocol.Cdp.Close.{
  notify_interest_burned, settle_to_zero, write_off, check_closing, claim_collateral,
  close_position,
}
use rise_protocol.Cdp.History.{history-IsTracked}
use rise_protocol.Cdp.NotLiquidatable.{open_position_not_liquidatable}
use rise_protocol.Cdp.DoubleClaim.{claimed}
use rise_protocol.Cdp.CloseTwice.{claim_collateral_after_close}
use rise_protocol.Cdp.ConfigLaws.{IsValid}
use rise_protocol.Cdp.Configured.{
  Configured, initialised, updated, opening_loan, changing, Configured-IsValid,
}
use rise_protocol.Cdp.Repay.{reduce_debt, reduce_minted}
use rise_protocol.Cdp.Tests.Opened.{
  markets, keys, bank, new_loans, rewards_accounts, rewards_config, blank, opening, opened,
  opens_loan,
}

rewards_start :
    initialize_borrow_rewards sample_runtime rewards_accounts 1_000_000 432_000 bank
    ≡ ok rewards_config
unfolding initialize_borrow_rewards
rewards_start = refl

config_start : initialize_cdp_config 1 30_000 255 ≡ ok new_loans
unfolding initialize_cdp_config
config_start = refl

abbrev no_books : Books
no_books = record { config = new_loans; rewards = rewards_config; positions = [] }

abbrev books : Books
books = record {
  config = opened.0.cdp_config;
  rewards = opened.0.borrow_rewards_config;
  positions = opened.0.position ∷ [];
}

opens_books : Reach sample_runtime markets no_books books
opens_books = step start (
    opens keys blank opening bank opened.0 opened.1 opens_loan
      (record { same_config = refl; same_rewards = refl })
      (record { same_config = refl; same_rewards = refl }) refl)

same_prices : read_prices markets keys opened.0 opened.1 ≡ read_prices markets keys blank bank
unfolding opened
same_prices = refl

history-IsTracked_example : IsTracked books
history-IsTracked_example =
    history-IsTracked sample_runtime markets 1 30_000 255 new_loans rewards_accounts 1_000_000
      432_000 bank rewards_config books config_start rewards_start opens_books

abbrev pub route : Route
route = record { route_plan_data = 1 ∷ []; quoted_out_amount = 99_000_000_000; slippage_bps = 50 }

open_position_not_liquidatable_example :
    liquidate sample_runtime markets keys opened.0 route opened.1 ≢ ok opened
open_position_not_liquidatable_example =
    open_position_not_liquidatable sample_runtime markets keys blank opening bank opened.0 opened.1
      keys route opened.1 opens_loan config-IsValid same_prices refl opened

closed : Loan × Bank
unfolding close_position check_closing check_own_position check_collateral_accounts
    check_rise_sol_accounts total_rise_sol_owed notify_interest_burned settle_to_zero settle
    sync_debt write_off reduce_minted reduce_debt opened u64 u128
closed = ok_value (close_position sample_runtime markets keys opened.0 opened.1) opened

closes_loan : close_position sample_runtime markets keys opened.0 opened.1 ≡ ok closed
unfolding closed
closes_loan = refl

-- An initialisation, an update, an opening and a closing.
configured : Configured sample_runtime markets closed.0.collateral_config
configured =
    changing opened.0 closed.0
      (opening_loan keys blank opening bank opened.0 opened.1
        (updated {c = initial_config} 1 loans changes (initialised 1 60 terms 253 initialises)
          updates)
        opens_loan)
      (closes keys opened.1 closed.1 closes_loan)

Configured-IsValid_example : IsValid closed.0.collateral_config
Configured-IsValid_example =
    Configured-IsValid sample_runtime markets closed.0.collateral_config configured

closed_returned : (closed.1.token 61).amount ≡ 50_000_000_000
unfolding closed opened
closed_returned = refl

abbrev pub ok_bank : Option Bank → Bank → Bank
ok_bank (some b) before = b
ok_bank none before = before

abbrev pay_again : Bank → Bank
pay_again b = add_tokens 61 30_000_000_000 (ok_bank (sample_burn 62 30_000_000_000 b) b)

same_mint : 60 ≡ opened.0.collateral_config.mint
unfolding opened
same_mint = refl

positive : 0 < opened.0.position.collateral_amount_original
unfolding opened
positive = omega arith

covered : opened.0.position.collateral_amount_original ≤ (closed.1.token 62).amount
unfolding closed opened
covered = omega arith

paid_again :
    sample_runtime.token_transfer 62 61 62 opened.0.position.collateral_amount_original closed.1
    ≡ some (pay_again closed.1)
unfolding closed opened
paid_again = refl

claim_collateral_after_close_example :
    (claim_collateral sample_runtime markets keys closed.0 route closed.1
      ≡ ok (claimed closed.0, pay_again closed.1))
    × (((pay_again closed.1).token 61).amount
        ≡ (opened.1.token 61).amount + 2 * opened.0.position.collateral_amount_original)
claim_collateral_after_close_example =
    claim_collateral_after_close sample_runtime markets sample_amounts keys opened.0 route opened.1
      closed.0 closed.1 (pay_again closed.1) closes_loan same_mint (omega arith) (omega arith)
      positive covered paid_again
