-- ===== src/Cdp/Oracle.antt =====
-- programs/rise-cdp/src/pyth.rs, and the programs behind it and behind jupiter.rs, which are not
-- part of the repository: the Pyth receiver and the Jupiter swap are parameters.
use rise_protocol.Prelude.{
  ℕ, ◌+◌, ◌-◌, ◌^◌, ltb, leb, if◌then◌else◌, ◌>>=◌, ◌>>◌, err, ok, custom, panic, require,
  checked_mul, checked_div, u128, Option, List,
}
use rise_protocol.Solana.{Pubkey}
use rise_protocol.Cdp.State.{
  Outcome, or_overflow, wrong_price_feed, stale_oracle_price, invalid_oracle_price,
  insufficient_price_confidence,
}

-- A signed integer: `pos n` is n, and `negsuc n` is -(n + 1).
pub data ℤ : Type 0 where
  pos negsuc : ℕ → ℤ

-- What `get_price_no_older_than` gives: a price with its confidence interval and its exponent, or
-- one of its errors.
pub record Price : Type 0 where
  pub price : ℤ
  pub conf : ℕ
  pub exponent : ℤ

pub data PriceReading : Type 0 where
  found : Price → PriceReading
  mismatched_feed_id other_error : PriceReading

-- What the CDP program uses beside the runtime.
pub record Markets (B : Type 0) : Type 0 where
  -- `get_price_no_older_than`: the price update's account, the age in seconds, the feed's id
  pub get_price_no_older_than : Pubkey → ℕ → Pubkey → B → PriceReading
  -- a mint's decimals
  pub decimals : Pubkey → B → ℕ
  -- jupiter.rs: authority, source, destination, source mint, destination mint, route plan,
  -- amount in, quoted amount out, slippage
  pub shared_accounts_route :
      Pubkey → Pubkey → Pubkey → Pubkey → Pubkey → List ℕ → ℕ → ℕ → ℕ → B → Option B
  -- `token::sync_native`
  pub sync_native : Pubkey → B → Option B

abbrev pub max_price_age_secs : ℕ
max_price_age_secs = 60

-- `10u128.pow(n)`, which panics when it overflows.
unfoldable pub pow_ten : ℕ → Outcome ℕ
pow_ten n = if ltb (10 ^ n) u128 then ok (10 ^ n) else err panic

-- `raw` at the exponent `expo`, at six decimals: `expo - TARGET_EXPO`, a 32-bit subtraction, is
-- `expo + 6`.
unfoldable pub scale_price : ℕ → ℤ → Outcome ℕ
scale_price raw (pos n) =
    if ltb (n + 6) (2 ^ 31)
    then pow_ten (n + 6) >>= (λ factor. or_overflow (checked_mul u128 raw factor))
    else err panic
scale_price raw (negsuc n) =
    if leb n 5
    then pow_ten (5 - n) >>= (λ factor. or_overflow (checked_mul u128 raw factor))
    else pow_ten (n - 5) >>= (λ factor. or_overflow (checked_div raw factor))

-- `price > 0`, as an unsigned number.
unfoldable pub positive_price : ℤ → Outcome ℕ
positive_price (negsuc n) = err (custom invalid_oracle_price)
positive_price (pos raw) = require (ltb 0 raw) invalid_oracle_price >> ok raw

-- A price that was read, checked and scaled: positive, with a confidence interval within 2%.
unfoldable pub check_price : Price → Outcome ℕ
check_price p = do
  raw ← positive_price p.price
  confidence ← or_overflow (checked_mul u128 p.conf 10_000)
  limit ← or_overflow (checked_mul u128 raw 200)
  require (leb confidence limit) insufficient_price_confidence
  scaled ← scale_price raw p.exponent
  require (ltb 0 scaled) invalid_oracle_price
  ok scaled

unfoldable pub read_price : PriceReading → Outcome ℕ
read_price (found p) = check_price p
read_price mismatched_feed_id = err (custom wrong_price_feed)
read_price other_error = err (custom stale_oracle_price)

unfoldable pub get_pyth_price : {B : Type 0} → Markets B → Pubkey → Pubkey → B → Outcome ℕ
get_pyth_price mk price_update feed_id b =
    read_price (mk.get_price_no_older_than price_update max_price_age_secs feed_id b)
