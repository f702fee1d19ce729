-- ===== src/Solana.antt =====
-- What the programs use of the Solana runtime and of the SPL token program, which are not part of
-- the repository: a record of operations on an abstract bank of accounts, and the laws of them
-- that a theorem relies on.
use rise_protocol.Prelude.{ℕ, ◌+◌, ◌≤◌, ◌≡◌, ◌≢◌, ◌==◌, Option, some, List, if◌then◌else◌, arith}

abbrev pub Pubkey : Type 0
Pubkey = ℕ

-- A token account of the SPL token program.
pub record TokenAccount : Type 0 where
  pub mint : Pubkey
  pub owner : Pubkey
  pub amount : ℕ

pub record Runtime (B : Type 0) : Type 0 where
  -- the sysvars
  pub epoch : B → ℕ
  pub slot : B → ℕ
  pub minimum_balance : B → ℕ → ℕ
  -- reads of an account
  pub lamports : B → Pubkey → ℕ
  pub token : B → Pubkey → TokenAccount
  pub program : B → Pubkey → Pubkey
  pub bytes : B → Pubkey → List ℕ
  -- `system_program::transfer`: from, to, lamports
  pub transfer : Pubkey → Pubkey → ℕ → B → Option B
  -- `token::mint_to`: mint, to, authority, amount
  pub mint_to : Pubkey → Pubkey → Pubkey → ℕ → B → Option B
  -- `token::burn`: mint, from, authority, amount
  pub burn : Pubkey → Pubkey → Pubkey → ℕ → B → Option B
  -- `token::transfer`: from, to, authority, amount
  pub token_transfer : Pubkey → Pubkey → Pubkey → ℕ → B → Option B
  -- `token::close_account`: account, destination, authority
  pub close_account : Pubkey → Pubkey → Pubkey → B → Option B

-- Documented behaviour of a system transfer: it moves exactly the amount, also from an account to
-- itself, and changes no token account.
pub record TransferLaws {B : Type 0} (rt : Runtime B) : Type 0 where
  pub moves :
      (from to : Pubkey) (n : ℕ) (b b' : B) (k : Pubkey)
      → rt.transfer from to n b ≡ some b'
      → rt.lamports b' k + (if k == from then n else 0)
        ≡ rt.lamports b k + (if k == to then n else 0)

-- Documented behaviour of the token program: minting, burning and transferring move no lamports.
pub record TokenLaws {B : Type 0} (rt : Runtime B) : Type 0 where
  pub mint_keeps :
      (mint to authority : Pubkey) (n : ℕ) (b b' : B) (k : Pubkey)
      → rt.mint_to mint to authority n b ≡ some b'
      → rt.lamports b' k ≡ rt.lamports b k
  pub burn_keeps :
      (mint from authority : Pubkey) (n : ℕ) (b b' : B) (k : Pubkey)
      → rt.burn mint from authority n b ≡ some b'
      → rt.lamports b' k ≡ rt.lamports b k
  pub transfer_keeps :
      (from to authority : Pubkey) (n : ℕ) (b b' : B) (k : Pubkey)
      → rt.token_transfer from to authority n b ≡ some b'
      → rt.lamports b' k ≡ rt.lamports b k
  pub close_keeps :
      (account destination authority : Pubkey) (b b' : B) (k : Pubkey)
      → k ≢ account
      → rt.close_account account destination authority b ≡ some b'
      → rt.lamports b k ≤ rt.lamports b' k

-- Documented behaviour of the token program on token accounts: a transfer moves exactly the amount,
-- a burn takes it, and neither changes the mint or the owner of an account.
pub record AmountLaws {B : Type 0} (rt : Runtime B) : Type 0 where
  pub transfer_moves :
      (from to authority : Pubkey) (n : ℕ) (b b' : B) (k : Pubkey)
      → rt.token_transfer from to authority n b ≡ some b'
      → ((rt.token b' k).amount + (if k == from then n else 0)
          ≡ (rt.token b k).amount + (if k == to then n else 0))
        × ((rt.token b' k).mint ≡ (rt.token b k).mint)
        × ((rt.token b' k).owner ≡ (rt.token b k).owner)
  pub burn_takes :
      (mint from authority : Pubkey) (n : ℕ) (b b' : B) (k : Pubkey)
      → rt.burn mint from authority n b ≡ some b'
      → ((rt.token b' k).amount + (if k == from then n else 0) ≡ (rt.token b k).amount)
        × ((rt.token b' k).mint ≡ (rt.token b k).mint)
        × ((rt.token b' k).owner ≡ (rt.token b k).owner)

module _ {B : Type 0} (rt : Runtime B) (laws : TransferLaws rt) where
  pub transfer-debit :
      (from to : Pubkey) (n : ℕ) (b b' : B)
      → rt.transfer from to n b ≡ some b'
      → rt.lamports b from ≤ rt.lamports b' from + n
  transfer-debit from to n b b' h = ground (arith, laws.moves from to n b b' from h)

  pub transfer-debit_ne :
      (from to : Pubkey) (n : ℕ) (b b' : B)
      → from ≢ to
      → rt.transfer from to n b ≡ some b'
      → rt.lamports b' from + n ≡ rt.lamports b from
  transfer-debit_ne from to n b b' ne h = ground (arith, laws.moves from to n b b' from h)

  pub transfer-credit :
      (from to : Pubkey) (n : ℕ) (b b' : B)
      → from ≢ to
      → rt.transfer from to n b ≡ some b'
      → rt.lamports b' to ≡ rt.lamports b to + n
  transfer-credit from to n b b' ne h = ground (arith, laws.moves from to n b b' to h)

  pub transfer-others :
      (from to : Pubkey) (n : ℕ) (b b' : B) (k : Pubkey)
      → k ≢ from
      → rt.transfer from to n b ≡ some b'
      → rt.lamports b k ≤ rt.lamports b' k
  transfer-others from to n b b' k ne h = ground (arith, laws.moves from to n b b' k h)
