-- ===== src/Governance/Agenda.antt =====
-- programs/rise-governance: the config with the locks and the proposals, and the steps that the
-- program's instructions make.
use rise_protocol.Prelude.{
  ℕ, ◌≡◌, Bool, Option, ok, List, [], ◌∷◌, Replaced, Removed, if◌then◌else◌,
}
use rise_protocol.Solana.{Pubkey, Runtime}
use rise_protocol.Governance.State.{GovernanceConfig, VeLock}
use rise_protocol.Governance.Lock.{Nfts, initialize_governance}
use rise_protocol.Governance.Totals.{Books, Step as LockStep}
use rise_protocol.Governance.Proposal.{
  Proposal, VoteRecord, LockInfo, CastVote, create_proposal, cast_vote, execute_proposal,
  close_proposal,
}

pub record Agenda : Type 0 where
  pub config : GovernanceConfig
  pub locks : List VeLock
  pub proposals : List Proposal

abbrev pub lock_books : Agenda → Books
lock_books w = record { config = w.config; locks = w.locks }

-- One for a proposal that was not executed.
abbrev pub pending : Proposal → ℕ
pending p = if p.executed then 0 else 1

module _ {B : Type 0} (rt : Runtime B) (nfts : Nfts B) (program_id : Pubkey)
    (lock_address : Pubkey → ℕ → ℕ → Option Pubkey) where
  -- Whatever else an instruction reads is free.
  pub data Step (w w' : Agenda) : Type 0 where
    on_locks :
        LockStep rt nfts (lock_books w) (lock_books w') → w'.proposals ≡ w.proposals → Step w w'
    proposes :
        (proposer : Pubkey) (infos : List LockInfo) (description : List ℕ) (target : Pubkey)
        (bump now : ℕ) (p : Proposal)
        → create_proposal program_id lock_address w.config proposer infos description target bump
            now
          ≡ ok (w'.config, p)
        → w'.locks ≡ w.locks
        → w'.proposals ≡ p ∷ w.proposals
        → Step w w'
    votes :
        (a : CastVote) (vote_for : Bool) (now : ℕ) (p : Proposal) (r : VoteRecord)
        → cast_vote a vote_for now ≡ ok (p, r)
        → w'.config ≡ w.config
        → w'.locks ≡ w.locks
        → Replaced a.proposal p w.proposals w'.proposals
        → Step w w'
    executes :
        (p p' : Proposal) (now : ℕ)
        → execute_proposal w.config p now ≡ ok (w'.config, p')
        → w'.locks ≡ w.locks
        → Replaced p p' w.proposals w'.proposals
        → Step w w'
    closes :
        (authority : Pubkey) (p : Proposal) (now : ℕ)
        → close_proposal authority w.config p now ≡ ok w'.config
        → w'.locks ≡ w.locks
        → Removed p w.proposals w'.proposals
        → Step w w'

  pub data History : Agenda → Type 0 where
    starts :
        (authority mint : Pubkey) (threshold quorum bump : ℕ) (c : GovernanceConfig)
        → initialize_governance authority mint threshold quorum bump ≡ ok c
        → History (record { config = c; locks = []; proposals = [] })
    step : {w w' : Agenda} → History w → Step w w' → History w'
