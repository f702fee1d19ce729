-- ===== src/Governance/Totals.antt =====
-- programs/rise-governance: the books of the locks, that is the config with the locks, the steps
-- that the program's instructions make, and the total of veRISE over every history.
use rise_protocol.Prelude.{
  ℕ, ◌+◌, ◌-◌, ◌≡◌, ok, arith, Option, List, [], ◌∷◌, sum_by, Replaced, Removed, Replaced-sum,
  Removed-sum, ap, ◌∙◌,
}
use rise_protocol.Solana.{Pubkey, Runtime}
use rise_protocol.Governance.State.{GovernanceConfig, VeLock}
use rise_protocol.Governance.Lock.{
  Nfts, LockAccounts, VaultAddresses, initialize_governance, update_governance_config, extend_lock,
  lock_rise, unlock_rise, claim_revenue_share,
}

pub record Books : Type 0 where
  pub config : GovernanceConfig
  pub locks : List VeLock

abbrev pub verise_sum : List VeLock → ℕ
verise_sum = sum_by (λ l. l.verise_amount)

module _ {B : Type 0} (rt : Runtime B) (nfts : Nfts B) where
  -- Whatever else an instruction reads or writes is free.
  pub data Step (w w' : Books) : Type 0 where
    locks_rise :
        (a : LockAccounts) (amount slots nonce : ℕ) (b : B) (l : VeLock) (b' : B)
        → lock_rise rt nfts a amount slots nonce b ≡ ok (w'.config, l, b')
        → a.config ≡ w.config
        → w'.locks ≡ l ∷ w.locks
        → Step w w'
    extends :
        (a : LockAccounts) (slots now : ℕ) (l : VeLock)
        → extend_lock a slots now ≡ ok (w'.config, l)
        → a.config ≡ w.config
        → Replaced a.lock l w.locks w'.locks
        → Step w w'
    unlocks :
        (a : LockAccounts) (b b' : B)
        → unlock_rise rt nfts a b ≡ ok (w'.config, b')
        → a.config ≡ w.config
        → Removed a.lock w.locks w'.locks
        → Step w w'
    claims :
        (vaults : VaultAddresses) (a : LockAccounts) (b : B) (l : VeLock) (b' : B)
        → claim_revenue_share rt nfts vaults a b ≡ ok (l, b')
        → w'.config ≡ w.config
        → Replaced a.lock l w.locks w'.locks
        → Step w w'
    updates :
        (authority : Pubkey) (threshold quorum voting timelock : Option ℕ)
        → update_governance_config authority w.config threshold quorum voting timelock
          ≡ ok w'.config
        → w'.locks ≡ w.locks
        → Step w w'

  pub data History : Books → Type 0 where
    starts :
        (authority mint : Pubkey) (threshold quorum bump : ℕ) (c : GovernanceConfig)
        → initialize_governance authority mint threshold quorum bump ≡ ok c
        → History (record { config = c; locks = [] })
    step : {w w' : Books} → History w → Step w w' → History w'

  lock_rise-eq :
      (a : LockAccounts) (n slots nonce : ℕ) (b : B) (c : GovernanceConfig) (l : VeLock) (b' : B)
      → lock_rise rt nfts a n slots nonce b ≡ ok (c, l, b')
      → c.total_verise ≡ a.config.total_verise + l.verise_amount
  unfolding lock_rise
  lock_rise-eq a n slots nonce b c l b' h = ground arith

  extend_lock-eq :
      (a : LockAccounts) (n now : ℕ) (c : GovernanceConfig) (l : VeLock)
      → extend_lock a n now ≡ ok (c, l)
      → c.total_verise ≡ a.config.total_verise - a.lock.verise_amount + l.verise_amount
  unfolding extend_lock
  extend_lock-eq a n now c l h = ground arith

  unlock_rise-eq :
      (a : LockAccounts) (b : B) (c : GovernanceConfig) (b' : B)
      → unlock_rise rt nfts a b ≡ ok (c, b')
      → c.total_verise ≡ a.config.total_verise - a.lock.verise_amount
  unfolding unlock_rise
  unlock_rise-eq a b c b' h = ground arith

  claim_revenue_share-eq :
      (vaults : VaultAddresses) (a : LockAccounts) (b : B) (l : VeLock) (b' : B)
      → claim_revenue_share rt nfts vaults a b ≡ ok (l, b')
      → l.verise_amount ≡ a.lock.verise_amount
  unfolding claim_revenue_share
  claim_revenue_share-eq vaults a b l b' h = ground arith

  update_governance_config-eq :
      (authority : Pubkey) (c : GovernanceConfig) (threshold quorum voting timelock : Option ℕ)
      (c' : GovernanceConfig)
      → update_governance_config authority c threshold quorum voting timelock ≡ ok c'
      → c'.total_verise ≡ c.total_verise
  unfolding update_governance_config
  update_governance_config-eq authority c threshold quorum voting timelock c' h = ground arith

  pub initialize_governance-eq :
      (authority mint : Pubkey) (threshold quorum bump : ℕ) (c : GovernanceConfig)
      → initialize_governance authority mint threshold quorum bump ≡ ok c
      → c.total_verise ≡ 0
  unfolding initialize_governance
  initialize_governance-eq authority mint threshold quorum bump c h = ground arith

  pub step_total :
      (w w' : Books)
      → Step w w'
      → w.config.total_verise ≡ verise_sum w.locks
      → w'.config.total_verise ≡ verise_sum w'.locks
  step_total w w' (locks_rise a n slots nonce b l b' h config locks) i =
      let total = lock_rise-eq a n slots nonce b w'.config l b' h in
      let before = ap (λ c. c.total_verise) config in rw locks (omega arith)
  step_total w w' (extends a n now l h config r) i =
      let total = extend_lock-eq a n now w'.config l h in
      let before = ap (λ c. c.total_verise) config in
      let (same, within) = Replaced-sum (λ l. l.verise_amount) r in omega arith
  step_total w w' (unlocks a b b' h config r) i =
      let total = unlock_rise-eq a b w'.config b' h in
      let before = ap (λ c. c.total_verise) config in
      let same = Removed-sum (λ l. l.verise_amount) r in omega arith
  step_total w w' (claims vaults a b l b' h config r) i =
      let kept = claim_revenue_share-eq vaults a b l b' h in
      let before = ap (λ c. c.total_verise) config in
      let (same, within) = Replaced-sum (λ l. l.verise_amount) r in omega arith
  step_total w w' (updates authority threshold quorum voting timelock h locks) i =
      let total =
        update_governance_config-eq authority w.config threshold quorum voting timelock w'.config
          h in
      rw locks (total ∙ i)

  -- From the initialisation on, every history of locking, extending, unlocking, claiming and
  -- updating the config keeps the total of veRISE, over which a quorum is taken, equal to the sum
  -- of the locks' amounts.
  pub total_verise_is_sum : (w : Books) → History w → w.config.total_verise ≡ verise_sum w.locks
  total_verise_is_sum w (starts authority mint threshold quorum bump c h) =
      initialize_governance-eq authority mint threshold quorum bump c h
  total_verise_is_sum w' (step {w = w} before s) = step_total w w' s (total_verise_is_sum w before)
