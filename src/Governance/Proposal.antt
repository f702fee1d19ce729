-- ===== src/Governance/Proposal.antt =====
-- programs/rise-governance/src/instructions/create_proposal.rs, cast_vote.rs, execute_proposal.rs
-- and close_proposal.rs, with the records of state.rs that they write.
use rise_protocol.Prelude.{
  ℕ, ◌+◌, ◌-◌, ◌*◌, ◌/◌, min, Bool, true, false, not, ◌&&◌, ◌||◌, Option, ltb, leb, ◌==◌,
  if◌then◌else◌, ◌>>=◌, ◌>>◌, ok, require, constrain, ok_or, or_fault, panic, checked_add, u64,
  u128, List, [], ◌∷◌,
}
use rise_protocol.Solana.{Pubkey}
use rise_protocol.Governance.State.{
  GovernanceConfig, VeLock, Outcome, or_overflow, current_verise, zero_amount, lock_expired,
  voting_ended, voting_not_ended, timelock_not_elapsed, already_executed, proposal_failed,
  insufficient_ve_rise, invalid_config, unauthorized, too_many_active_proposals,
}

-- The description's 128 bytes only pass through.
pub record Proposal : Type 0 where
  pub proposer : Pubkey
  pub description : List ℕ
  pub target_program : Pubkey
  pub voting_end_slot : ℕ
  pub execution_slot : ℕ
  pub votes_for : ℕ
  pub votes_against : ℕ
  pub executed : Bool
  pub index : ℕ
  pub bump : ℕ

pub record VoteRecord : Type 0 where
  pub voter : Pubkey
  pub lock : Pubkey
  pub proposal : Pubkey
  pub verise_at_vote : ℕ
  pub vote_for : Bool
  pub bump : ℕ

-- One of the remaining accounts: its address, its program, its size, and its data as a lock.
pub record LockInfo : Type 0 where
  pub key : Pubkey
  pub program : Pubkey
  pub size : ℕ
  pub lock : VeLock

abbrev pub max_active_proposals : ℕ
max_active_proposals = 10

abbrev pub ve_lock_size : ℕ
ve_lock_size = 138

-- An addition that panics, and a product cut at the end of 128 bits.
unfoldable pub is_passed : Proposal → ℕ → ℕ → Outcome Bool
is_passed p total_verise quorum_bps = do
  total_votes ← or_fault (checked_add u128 p.votes_for p.votes_against) panic
  ok (
      leb (min (total_verise * quorum_bps) (u128 - 1) / 10_000) total_votes
      && ltb p.votes_against p.votes_for)

-- `create_program_address` of the seeds of a lock (proposer, nonce, bump) is the runtime's.
module _ (program_id : Pubkey) (lock_address : Pubkey → ℕ → ℕ → Option Pubkey) where
  unfoldable pub check_lock : Pubkey → LockInfo → Outcome (Unit {0})
  check_lock proposer i = do
    require (i.program == program_id) invalid_config
    require (leb ve_lock_size i.size) invalid_config
    require (i.lock.owner == proposer) unauthorized
    expected ← ok_or (lock_address proposer i.lock.nonce i.lock.bump) invalid_config
    require (expected == i.key) invalid_config

  -- The proposer's weight, summed over the accounts as they are listed.
  unfoldable pub sum_verise : Pubkey → ℕ → List LockInfo → ℕ → Outcome ℕ
  sum_verise proposer current_slot [] total = ok total
  sum_verise proposer current_slot (i ∷ infos) total = do
    check_lock proposer i
    verise ← current_verise i.lock current_slot
    sum_verise proposer current_slot infos (min (total + verise) (u64 - 1))

  unfoldable pub check_proposer : GovernanceConfig → Pubkey → List LockInfo → ℕ → Outcome (Unit {0})
  check_proposer c proposer [] current_slot = require false insufficient_ve_rise
  check_proposer c proposer (i ∷ infos) current_slot = do
    total_verise ← sum_verise proposer current_slot (i ∷ infos) 0
    require (leb c.proposal_threshold total_verise) insufficient_ve_rise
    require (ltb c.active_proposal_count max_active_proposals) too_many_active_proposals

  -- The arguments: the description, the target program, the bump.
  unfoldable pub create_proposal :
      GovernanceConfig
      → Pubkey
      → List LockInfo
      → List ℕ
      → Pubkey
      → ℕ
      → ℕ
      → Outcome (GovernanceConfig × Proposal)
  create_proposal c proposer infos description target_program bump current_slot = do
    check_proposer c proposer infos current_slot
    voting_end_slot ← or_overflow (checked_add u64 current_slot c.voting_period_slots)
    execution_slot ← or_overflow (checked_add u64 voting_end_slot c.timelock_slots)
    proposal_count ← or_overflow (checked_add u64 c.proposal_count 1)
    active_proposal_count ← or_overflow (checked_add u64 c.active_proposal_count 1)
    ok (
      record c { proposal_count = proposal_count; active_proposal_count = active_proposal_count },
      record {
        proposer = proposer;
        description = description;
        target_program = target_program;
        voting_end_slot = voting_end_slot;
        execution_slot = execution_slot;
        votes_for = 0;
        votes_against = 0;
        executed = false;
        index = c.proposal_count;
        bump = bump;
      },
    )

-- The accounts of a vote. The record is created, so a lock votes once on a proposal.
pub record CastVote : Type 0 where
  pub voter : Pubkey
  pub lock_key : Pubkey
  pub lock : VeLock
  pub proposal_key : Pubkey
  pub proposal : Proposal
  pub record_bump : ℕ

unfoldable pub tally : Proposal → Bool → ℕ → Outcome Proposal
tally p true verise_weight = do
  votes ← or_overflow (checked_add u128 p.votes_for verise_weight)
  ok (record p { votes_for = votes })
tally p false verise_weight = do
  votes ← or_overflow (checked_add u128 p.votes_against verise_weight)
  ok (record p { votes_against = votes })

unfoldable pub cast_vote : CastVote → Bool → ℕ → Outcome (Proposal × VoteRecord)
cast_vote a vote_for current_slot = do
  constrain (a.lock.owner == a.voter)
  require (leb current_slot a.proposal.voting_end_slot) voting_ended
  require (ltb current_slot a.lock.lock_end_slot) lock_expired
  verise_weight ← current_verise a.lock current_slot
  require (ltb 0 verise_weight) zero_amount
  proposal ← tally a.proposal vote_for verise_weight
  ok (
    proposal,
    record {
      voter = a.voter;
      lock = a.lock_key;
      proposal = a.proposal_key;
      verise_at_vote = verise_weight;
      vote_for = vote_for;
      bump = a.record_bump;
    },
  )

unfoldable pub execute_proposal :
    GovernanceConfig → Proposal → ℕ → Outcome (GovernanceConfig × Proposal)
execute_proposal c p current_slot = do
  require (not p.executed) already_executed
  require (ltb p.voting_end_slot current_slot) voting_not_ended
  require (leb p.execution_slot current_slot) timelock_not_elapsed
  passed ← is_passed p c.total_verise c.quorum_bps
  require passed proposal_failed
  ok (
    record c { active_proposal_count = c.active_proposal_count - 1 },
    record p { executed = true },
  )

-- The config, as the runtime closes the proposal.
unfoldable pub close_proposal : Pubkey → GovernanceConfig → Proposal → ℕ → Outcome GovernanceConfig
close_proposal authority c p current_slot = do
  require (authority == c.authority) invalid_config
  require (p.executed || ltb p.voting_end_slot current_slot) voting_not_ended
  ok (if p.executed then c else record c { active_proposal_count = c.active_proposal_count - 1 })
