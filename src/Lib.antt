-- ===== src/Lib.antt =====
-- The Rise protocol: on-chain programs for liquid staking (programs/rise-staking), loans against
-- collateral (programs/rise-cdp), governance (programs/rise-governance) and liquidity rewards
-- (programs/rise-rewards).
--
-- The staking program keeps a global pool, a treasury, an optional config of RISE rewards, a
-- tracker of rewards for each registered wallet, and a withdrawal ticket for each queued unstake.
-- The pool's vault holds the lamports: vault = liquid buffer + queued withdrawals + fee excess.
-- Deposits mint riseSOL at the exchange rate, unstaking burns it for a ticket, a ticket is claimed
-- two epochs later. Permissionless cranks recognise rewards in the vault and sweep the fees. The
-- CDP program calls five of the entry points, four of them under its config's signature.
--
-- Prelude: shared names, checked integer arithmetic (Prelude/Checked), and results. An integer
-- type is the number of its values (u64, u128); a checked operation is an Option, an unchecked `+`
-- panics, since the release profile keeps overflow checks.
-- Solana: the runtime and the SPL token program, which are not part of the repository, as a record
-- of operations on an abstract bank, with the documented laws that the theorems assume. Sample is
-- a bank that meets them.
--
-- Each handler of programs/rise-staking/src/instructions is a function under its entry point's
-- name: it takes the accounts of the instruction (a record named as the Accounts struct, where
-- there are several), checks their constraints, and returns the accounts that it changes with the
-- bank, or an error. Staking/State is state.rs and errors.rs; Staking/Deposit, Withdrawal, Rate,
-- Cdp, Treasury, Fees and Rewards hold the handlers; Staking/World and Process are lib.rs: an
-- account at seeds is a field of the world, and an entry point loads, runs the handler and stores.
-- An instruction that fails is rolled back by the runtime, so an error carries no state.
-- Proofs: Sound (arithmetic of the pool), Effects (what a successful handler called), Preserve,
-- Invariant, Reachable and History (the invariant over every entry point and every history),
-- Availability, Value, Sweep, RateLaws, RewardLaws, Authority and Permission. Tests are in
-- Staking/Tests.
--
-- The CDP program keeps a config with the total of minted riseSOL, a config for each collateral,
-- the config and the trackers of the borrow rewards, and a position for each loan. Cdp/State is
-- state.rs and errors.rs, Cdp/Oracle is pyth.rs, Cdp/Interest is accrue_interest, Cdp/Config the
-- instructions that set the configs, Cdp/Rewards the four instructions of the borrow rewards, and
-- Cdp/Repay the accrual and the settlement of repay_debt.rs. The instructions on a loan share
-- Cdp/Loan: the accounts that they write (Loan), the addresses, and the arithmetic that each of
-- them repeats. Cdp/Borrow has open_position and borrow_more; Cdp/Collateral add_collateral and
-- withdraw_excess; Cdp/Close close_position, repay_debt_rise_sol and claim_collateral; Cdp/RepaySol
-- repay_debt; Cdp/Liquidate liquidate. The Pyth receiver and the Jupiter swap are parameters
-- (Markets in Cdp/Oracle).
-- Proofs: ConfigLaws, Permission, InterestLaws, Accrual, AccrualLaws, Often, RepayLaws, RepayTotal,
-- RepayAccrual and RewardLaws on the parts; RepaySucceeds and Blocked on the instructions that end a
-- debt; Effects and Repayments (what each instruction does to the totals), Totals (the steps of the
-- program), Configured (a collateral's config), Tracking and History (the totals over every
-- history), Safe and NotLiquidatable (what a priced loan is worth), DoubleClaim and CloseTwice
-- (claims on positions that are closed). Tests are in Cdp/Tests.
--
-- The rewards program keeps a config with the epoch, a gauge for each pool, and a stake for each
-- user of a gauge. Gauges/State is state.rs and errors.rs, Gauges/Emission the instructions on the
-- config and on a gauge, Gauges/Stake deposit_lp, withdraw_lp, claim_rewards and
-- force_withdraw_lp. Proofs: Settlement and Growth (what an instruction does to a stake and to a
-- gauge), Totals (the steps on one gauge), Solvency, Preserve and History (the bound on the rewards
-- over every history), Missed. Tests are in Gauges/Tests.
--
-- The governance program keeps a config with the total of veRISE, and a lock of RISE for each NFT.
-- Governance/State is the config and the locks of state.rs, with errors.rs, Governance/Lock the
-- instructions on them; what they ask of the token metadata program is a parameter (Nfts), and so
-- are the addresses that the veRISE vault's seeds derive under a program (VaultAddresses).
-- Governance/Proposal has the proposals and the votes on them. Proofs: LockLaws (the claim of a
-- revenue share), Totals (the total of veRISE over every history), Agenda (locks and proposals
-- together) and Active (the count of active proposals). Tests are in Governance/Tests.
--
-- There are no loops, so no fuel. Not modelled: the derivation and the stored bumps of addresses,
-- rent of the accounts that are created and closed, log messages, migrate_global_pool (raw bytes),
-- of the CDP program repay_debt_spl, redeem_collateral_for_liquidity, collect_cdp_fees,
-- close_stale_position and the creation of the vaults, of the rewards program the creation of the
-- vaults, and of the governance program the gauge votes, the RISE vault and the migration.
pub mod Prelude
pub mod Solana
pub mod Sample
pub mod Staking
pub mod Cdp
pub mod Gauges
pub mod Governance
