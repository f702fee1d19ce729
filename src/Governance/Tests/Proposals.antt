-- ===== src/Governance/Tests/Proposals.antt =====
-- Theorems on proposals, at concrete inputs.
use rise_protocol.Prelude.{
  ◌≤◌, ◌≡◌, refl, true, false, some, none, Option, ℕ, ok, if◌then◌else◌, ◌==◌, [], ◌∷◌, sum_by,
  replaced_here, u64, u128,
}
use rise_protocol.Solana.{Pubkey}
use rise_protocol.Governance.State.{GovernanceConfig, current_verise}
use rise_protocol.Governance.Proposal.{
  Proposal, VoteRecord, LockInfo, CastVote, check_lock, sum_verise, check_proposer, create_proposal,
  tally, cast_vote, execute_proposal, is_passed,
}
use rise_protocol.Governance.Agenda.{
  Agenda, History, starts, step, proposes, on_locks, votes, executes, pending,
}
use rise_protocol.Governance.Active.{active_count_is_pending}
use rise_protocol.Governance.Tests.{
  ok_value, config, initialised, nfts, no_lock, treasury, accounts, bank, locked, locks_tokens,
}
use rise_protocol.Governance.Totals.{locks_rise, verise_sum}
use rise_protocol.Sample.{sample_runtime}

abbrev lock_address : Pubkey → ℕ → ℕ → Option Pubkey
lock_address proposer nonce bump = if bump == 250 then some 41 else none

abbrev info : LockInfo
info = record { key = 41; program = 20; size = 138; lock = locked.1 }

proposed : GovernanceConfig × Proposal
unfolding create_proposal check_proposer sum_verise check_lock current_verise locked u64 u128
proposed = ok_value (create_proposal 20 lock_address locked.0 40 (info ∷ []) [] 21 255 2_000) (
  locked.0,
  record {
    proposer = 0;
    description = [];
    target_program = 0;
    voting_end_slot = 0;
    execution_slot = 0;
    votes_for = 0;
    votes_against = 0;
    executed = false;
    index = 0;
    bump = 0;
  },
)

proposes_one : create_proposal 20 lock_address locked.0 40 (info ∷ []) [] 21 255 2_000 ≡ ok proposed
unfolding proposed
proposes_one = refl

abbrev ballot : CastVote
ballot = record {
  voter = 40;
  lock_key = 41;
  lock = locked.1;
  proposal_key = 42;
  proposal = proposed.1;
  record_bump = 253;
}

voted : Proposal × VoteRecord
unfolding cast_vote tally current_verise proposed locked u64 u128
voted = ok_value (cast_vote ballot true 3_000) (
  proposed.1,
  record { voter = 0; lock = 0; proposal = 0; verise_at_vote = 0; vote_for = false; bump = 0 },
)

votes_for_it : cast_vote ballot true 3_000 ≡ ok voted
unfolding voted
votes_for_it = refl

executed : GovernanceConfig × Proposal
unfolding execute_proposal is_passed voted proposed locked u128
executed = ok_value (execute_proposal proposed.0 voted.0 600_000) (proposed.0, voted.0)

executes_it : execute_proposal proposed.0 voted.0 600_000 ≡ ok executed
unfolding executed
executes_it = refl

is_executed : executed.1.executed ≡ true
unfolding executed
is_executed = refl

abbrev agenda : Agenda
agenda = record { config = executed.0; locks = locked.1 ∷ []; proposals = executed.1 ∷ [] }

after_lock :
    History sample_runtime nfts 20 lock_address
      (record { config = locked.0; locks = locked.1 ∷ []; proposals = [] })
after_lock = step (starts 1 5 100_000 1_000 255 config initialised) (
    on_locks
      (locks_rise (accounts config no_lock treasury) 4_000_000_000 78_840_000 0 bank locked.1
        locked.2 locks_tokens refl refl)
      refl)

after_vote :
    History sample_runtime nfts 20 lock_address
      (record { config = proposed.0; locks = locked.1 ∷ []; proposals = voted.0 ∷ [] })
after_vote =
    step
      (step after_lock (proposes 40 (info ∷ []) [] 21 255 2_000 proposed.1 proposes_one refl refl))
      (votes ballot true 3_000 voted.0 voted.1 votes_for_it refl refl replaced_here)

history : History sample_runtime nfts 20 lock_address agenda
history = step after_vote (executes voted.0 executed.1 600_000 executes_it refl replaced_here)

active_count_is_pending_example :
    (executed.0.active_proposal_count ≡ sum_by pending (executed.1 ∷ []))
    × (executed.0.active_proposal_count ≤ 10)
    × (executed.0.total_verise ≡ verise_sum (locked.1 ∷ []))
active_count_is_pending_example =
    active_count_is_pending sample_runtime nfts 20 lock_address agenda history
