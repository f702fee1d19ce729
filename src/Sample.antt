-- ===== src/Sample.antt =====
-- A bank for tests: lamports and token amounts in two functions. It meets the laws that the
-- theorems assume of the runtime, so those can be met.
use mathlib.Core.Option
use rise_protocol.Prelude.{ℕ, ◌+◌, ◌-◌, ◌==◌, leb, if◌then◌else◌, Option, none, some, [], arith}
use rise_protocol.Solana.{AmountLaws, Pubkey, TokenAccount, Runtime, TransferLaws, TokenLaws}

pub record Bank : Type 0 where
  pub balance : Pubkey → ℕ
  pub token : Pubkey → TokenAccount
  pub epoch : ℕ
  pub slot : ℕ

-- `f` with `n` taken from one place and added at another.
abbrev pub shift : (Pubkey → ℕ) → Pubkey → Pubkey → ℕ → Pubkey → ℕ
shift f from to n k = f k + (if k == to then n else 0) - (if k == from then n else 0)

abbrev pub sample_transfer : Pubkey → Pubkey → ℕ → Bank → Option Bank
sample_transfer from to n b =
    if leb n (b.balance from) then some (record b { balance = shift b.balance from to n }) else none

abbrev pub add_tokens : Pubkey → ℕ → Bank → Bank
add_tokens to n b = record b {
  token = λ k. record (b.token k) { amount = (b.token k).amount + (if k == to then n else 0) };
}

abbrev pub sample_burn : Pubkey → ℕ → Bank → Option Bank
sample_burn from n b =
    if leb n (b.token from).amount
    then some (record b {
      token =
          λ k. record (b.token k) { amount = (b.token k).amount - (if k == from then n else 0) };
    })
    else none

abbrev pub sample_runtime : Runtime Bank
sample_runtime = record {
  epoch = λ b. b.epoch;
  slot = λ b. b.slot;
  minimum_balance = λ b n. 890_880;
  lamports = λ b k. b.balance k;
  token = λ b k. b.token k;
  program = λ b k. k;
  bytes = λ b k. [];
  transfer = sample_transfer;
  mint_to = λ mint to authority n b. some (add_tokens to n b);
  burn = λ mint from authority n b. sample_burn from n b;
  token_transfer = λ from to authority n b. Option.map (add_tokens to n) (sample_burn from n b);
  close_account = λ account destination authority b. some b;
}

pub sample_transfers : TransferLaws sample_runtime
sample_transfers = record { moves = λ from to n b b' k h. ground arith }

pub sample_tokens : TokenLaws sample_runtime
sample_tokens = record {
  mint_keeps = λ mint to authority n b b' k h. ground arith;
  burn_keeps = λ mint from authority n b b' k h. ground arith;
  transfer_keeps = λ from to authority n b b' k h. ground arith;
  close_keeps = λ account destination authority b b' k ne h. ground arith;
}

pub sample_amounts : AmountLaws sample_runtime
sample_amounts = record {
  transfer_moves = λ from to authority n b b' k h. ground arith;
  burn_takes = λ mint from authority n b b' k h. ground arith;
}
