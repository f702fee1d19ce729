-- ===== src/Governance/Active.antt =====
-- programs/rise-governance: the count of active proposals over every history.
use rise_protocol.Prelude.{
  ℕ, ◌+◌, ◌-◌, ◌≤◌, ◌<◌, ◌≡◌, Bool, true, false, Option, ok, arith, bind-eq_ok, List, [], ◌∷◌,
  sum_by, Replaced-sum, Removed-sum, refl, ap, sym, ◌∙◌, ok-values, constrain, require, leb, ltb,
  ◌==◌,
}
use rise_protocol.Solana.{Pubkey, Runtime}
use rise_protocol.Governance.State.{
  GovernanceConfig, VeLock, current_verise, voting_ended, lock_expired, zero_amount,
}
use rise_protocol.Governance.Lock.{
  Nfts, LockAccounts, initialize_governance, update_governance_config, extend_lock, lock_rise,
  unlock_rise,
}
use rise_protocol.Governance.Totals.{
  Books, Step as LockStep, locks_rise, extends, unlocks, claims, updates, verise_sum, step_total,
  initialize_governance-eq,
}
use rise_protocol.Governance.Proposal.{
  Proposal, VoteRecord, LockInfo, CastVote, check_proposer, create_proposal, tally, cast_vote,
  execute_proposal, close_proposal,
}
use rise_protocol.Governance.Agenda.{
  Agenda, lock_books, pending, Step, on_locks, proposes, votes, executes, closes, History, starts,
  step,
}

module _ {B : Type 0} (rt : Runtime B) (nfts : Nfts B) (program_id : Pubkey)
    (lock_address : Pubkey → ℕ → ℕ → Option Pubkey) where
  create_proposal-counts :
      (c : GovernanceConfig) (proposer : Pubkey) (infos : List LockInfo) (description : List ℕ)
      (target : Pubkey) (bump now : ℕ) (c' : GovernanceConfig) (p : Proposal)
      → create_proposal program_id lock_address c proposer infos description target bump now
        ≡ ok (c', p)
      → (c'.active_proposal_count ≡ c.active_proposal_count + 1)
        × (pending p ≡ 1)
        × (c'.total_verise ≡ c.total_verise)
  unfolding create_proposal
  create_proposal-counts c proposer infos description target bump now c' p h =
      (ground arith, ground arith, ground arith)

  tally-keeps :
      (p : Proposal) (vote_for : Bool) (n : ℕ) (p' : Proposal)
      → tally p vote_for n ≡ ok p'
      → p'.executed ≡ p.executed
  unfolding tally
  tally-keeps p true n p' h = ground arith
  tally-keeps p false n p' h = ground arith

  cast_vote-keeps :
      (a : CastVote) (vote_for : Bool) (now : ℕ) (p : Proposal) (r : VoteRecord)
      → cast_vote a vote_for now ≡ ok (p, r)
      → p.executed ≡ a.proposal.executed
  unfolding cast_vote
  cast_vote-keeps a vote_for now p r h =
      let (_, _, k1) = bind-eq_ok (constrain (a.lock.owner == a.voter)) _ h in
      let (_, _, k2) =
        bind-eq_ok (require (leb now a.proposal.voting_end_slot) voting_ended) _ k1 in
      let (_, _, k3) = bind-eq_ok (require (ltb now a.lock.lock_end_slot) lock_expired) _ k2 in
      let (n, _, k4) = bind-eq_ok (current_verise a.lock now) _ k3 in
      let (_, _, k5) = bind-eq_ok (require (ltb 0 n) zero_amount) _ k4 in
      let (q, tallied, k6) = bind-eq_ok (tally a.proposal vote_for n) _ k5 in
      let same : q ≡ p = ok-values k6 in
      ap (λ p. p.executed) (sym same) ∙ tally-keeps a.proposal vote_for n q tallied

  execute_proposal-counts :
      (c : GovernanceConfig) (p : Proposal) (now : ℕ) (c' : GovernanceConfig) (p' : Proposal)
      → execute_proposal c p now ≡ ok (c', p')
      → (c'.active_proposal_count ≡ c.active_proposal_count - 1)
        × (pending p ≡ 1)
        × (pending p' ≡ 0)
        × (c'.total_verise ≡ c.total_verise)
  unfolding execute_proposal
  execute_proposal-counts c p now c' p' h = (ground arith, ground arith, ground arith, ground arith)

  close_proposal-counts :
      (authority : Pubkey) (c : GovernanceConfig) (p : Proposal) (now : ℕ) (c' : GovernanceConfig)
      → close_proposal authority c p now ≡ ok c'
      → (c'.active_proposal_count ≡ c.active_proposal_count - pending p)
        × (c'.total_verise ≡ c.total_verise)
  unfolding close_proposal
  close_proposal-counts authority c p now c' h = ground arith

  initialize_governance-counts :
      (authority mint : Pubkey) (threshold quorum bump : ℕ) (c : GovernanceConfig)
      → initialize_governance authority mint threshold quorum bump ≡ ok c
      → c.active_proposal_count ≡ 0
  unfolding initialize_governance
  initialize_governance-counts authority mint threshold quorum bump c h = ground arith

  check_proposer-below :
      (c : GovernanceConfig) (proposer : Pubkey) (infos : List LockInfo) (now : ℕ)
      → check_proposer program_id lock_address c proposer infos now ≡ ok tt
      → c.active_proposal_count < 10
  unfolding check_proposer
  check_proposer-below c proposer [] now h = ground arith
  check_proposer-below c proposer (i ∷ infos) now h = ground arith

  create_proposal-below :
      (c : GovernanceConfig) (proposer : Pubkey) (infos : List LockInfo) (description : List ℕ)
      (target : Pubkey) (bump now : ℕ) (c' : GovernanceConfig) (p : Proposal)
      → create_proposal program_id lock_address c proposer infos description target bump now
        ≡ ok (c', p)
      → c.active_proposal_count < 10
  unfolding create_proposal
  create_proposal-below c proposer infos description target bump now c' p h =
      let (_, checked, _) =
        bind-eq_ok (check_proposer program_id lock_address c proposer infos now) _ h in
      check_proposer-below c proposer infos now checked

  lock_rise-counts :
      (a : LockAccounts) (n slots nonce : ℕ) (b : B) (c : GovernanceConfig) (l : VeLock) (b' : B)
      → lock_rise rt nfts a n slots nonce b ≡ ok (c, l, b')
      → c.active_proposal_count ≡ a.config.active_proposal_count
  unfolding lock_rise
  lock_rise-counts a n slots nonce b c l b' h = ground arith

  extend_lock-counts :
      (a : LockAccounts) (n now : ℕ) (c : GovernanceConfig) (l : VeLock)
      → extend_lock a n now ≡ ok (c, l)
      → c.active_proposal_count ≡ a.config.active_proposal_count
  unfolding extend_lock
  extend_lock-counts a n now c l h = ground arith

  unlock_rise-counts :
      (a : LockAccounts) (b : B) (c : GovernanceConfig) (b' : B)
      → unlock_rise rt nfts a b ≡ ok (c, b')
      → c.active_proposal_count ≡ a.config.active_proposal_count
  unfolding unlock_rise
  unlock_rise-counts a b c b' h = ground arith

  update_governance_config-counts :
      (authority : Pubkey) (c : GovernanceConfig) (threshold quorum voting timelock : Option ℕ)
      (c' : GovernanceConfig)
      → update_governance_config authority c threshold quorum voting timelock ≡ ok c'
      → c'.active_proposal_count ≡ c.active_proposal_count
  unfolding update_governance_config
  update_governance_config-counts authority c threshold quorum voting timelock c' h = ground arith

  -- The instructions on locks leave the count of proposals.
  LockStep-counts :
      (w w' : Books)
      → LockStep rt nfts w w'
      → w'.config.active_proposal_count ≡ w.config.active_proposal_count
  LockStep-counts w w' (locks_rise a n slots nonce b l b' h config locks) =
      lock_rise-counts a n slots nonce b w'.config l b' h ∙ ap (λ c. c.active_proposal_count) config
  LockStep-counts w w' (extends a n now l h config replaced) =
      extend_lock-counts a n now w'.config l h ∙ ap (λ c. c.active_proposal_count) config
  LockStep-counts w w' (unlocks a b b' h config removed) =
      unlock_rise-counts a b w'.config b' h ∙ ap (λ c. c.active_proposal_count) config
  LockStep-counts w w' (claims vaults a b l b' h config replaced) =
      ap (λ c. c.active_proposal_count) config
  LockStep-counts w w' (updates authority threshold quorum voting timelock h locks) =
      update_governance_config-counts authority w.config threshold quorum voting timelock w'.config
        h

  -- The two counts of the config agree with the accounts.
  record IsCounted (w : Agenda) : Type 0 where
    verise : w.config.total_verise ≡ verise_sum w.locks
    active : w.config.active_proposal_count ≡ sum_by pending w.proposals
    at_most_ten : w.config.active_proposal_count ≤ 10

  Step-IsCounted :
      (w w' : Agenda) → Step rt nfts program_id lock_address w w' → IsCounted w → IsCounted w'
  Step-IsCounted w w' (on_locks s proposals) i =
      let same = LockStep-counts (lock_books w) (lock_books w') s in
      let active = i.active in
      let limit = i.at_most_ten in
      record {
        verise = step_total rt nfts (lock_books w) (lock_books w') s i.verise;
        active = rw proposals (same ∙ active);
        at_most_ten = rw same limit;
      }
  Step-IsCounted w w' (proposes proposer infos description target bump now p h locks proposals) i =
      let (count, one, total) =
        create_proposal-counts w.config proposer infos description target bump now w'.config p h in
      let below =
        create_proposal-below w.config proposer infos description target bump now w'.config p h in
      let active = i.active in
      record {
        verise = rw locks (total ∙ i.verise);
        active = rw proposals (omega arith);
        at_most_ten = omega arith;
      }
  Step-IsCounted w w' (votes a vote_for now p r h config locks replaced) i =
      let kept = cast_vote-keeps a vote_for now p r h in
      let kept_one : pending p ≡ pending a.proposal = rw kept refl in
      let (same, within) = Replaced-sum pending replaced in
      let active = i.active in
      let limit = i.at_most_ten in
      let verise = i.verise in
      record {
        verise = rw config (rw locks verise);
        active = rw config (omega arith);
        at_most_ten = rw config limit;
      }
  Step-IsCounted w w' (executes p p' now h locks replaced) i =
      let (count, one, none_left, total) = execute_proposal-counts w.config p now w'.config p' h in
      let (same, within) = Replaced-sum pending replaced in
      let active = i.active in
      let limit = i.at_most_ten in
      record {
        verise = rw locks (total ∙ i.verise);
        active = omega arith;
        at_most_ten = omega arith;
      }
  Step-IsCounted w w' (closes authority p now h locks removed) i =
      let (count, total) = close_proposal-counts authority w.config p now w'.config h in
      let same = Removed-sum pending removed in
      let active = i.active in
      let limit = i.at_most_ten in
      record {
        verise = rw locks (total ∙ i.verise);
        active = omega arith;
        at_most_ten = omega arith;
      }

  History-IsCounted : (w : Agenda) → History rt nfts program_id lock_address w → IsCounted w
  History-IsCounted w (starts authority mint threshold quorum bump c h) =
      let count = initialize_governance-counts authority mint threshold quorum bump c h in
      record {
        verise = initialize_governance-eq rt nfts authority mint threshold quorum bump c h;
        active = count;
        at_most_ten = omega arith;
      }
  History-IsCounted w' (step {w = w} before s) = Step-IsCounted w w' s (History-IsCounted w before)

  -- From the initialisation on, every history of proposing, voting, executing and closing, with the
  -- instructions on locks and the updates of the config in between, keeps the count of active
  -- proposals equal to the number of the proposals that were not executed, and at most ten, and the
  -- total of veRISE equal to the sum of the locks' amounts.
  pub active_count_is_pending :
      (w : Agenda)
      → History rt nfts program_id lock_address w
      → (w.config.active_proposal_count ≡ sum_by pending w.proposals)
        × (w.config.active_proposal_count ≤ 10)
        × (w.config.total_verise ≡ verise_sum w.locks)
  active_count_is_pending w before =
      let counted = History-IsCounted w before in
      (counted.active, counted.at_most_ten, counted.verise)
