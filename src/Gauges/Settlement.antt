-- ===== src/Gauges/Settlement.antt =====
-- programs/rise-rewards: what the instructions on a stake do to the stake and to the gauge.
use rise_protocol.Prelude.{
  ◌∙◌, sym, ap, ok-middle, ok-head, checked_add, cpi, or_fault, leb, require, ◌==◌, ltb, constrain,
  if◌then◌else◌, ℕ, ◌+◌, ◌-◌, ◌*◌, ◌/◌, ◌≤◌, ◌≡◌, ok, arith, bind-eq_ok, u64,
}
use rise_protocol.Solana.{Runtime}
use rise_protocol.Gauges.State.{or_overflow, gauge_not_active, zero_amount, Gauge, UserStake}
use rise_protocol.Gauges.Stake.{
  StakeAccounts, accumulated, settle_stake, with_amount, claimable, deposit_lp, withdraw_lp,
  claim_rewards, force_withdraw_lp,
}

-- What a number of tokens has accumulated since the gauge's creation.
abbrev pub worth : Gauge → ℕ → ℕ
worth g lp_amount = lp_amount * g.reward_per_token / 1_000_000_000_000

-- The debt of a stake is what its tokens have accumulated, and what became pending or was paid had
-- accumulated above the debt before.
pub record IsSettled (g : Gauge) (s s' : UserStake) (paid : ℕ) : Type 0 where
  pub debt_is : s'.reward_debt ≡ worth g s'.lp_amount
  pub credit_within :
      s'.pending_rewards + paid + s.reward_debt ≤ s.pending_rewards + worth g s.lp_amount

same_settlement :
    (g : Gauge) (s s' s'' : UserStake)
    → s' ≡ s''
    → s'.reward_debt ≡ worth g s'.lp_amount
    → s'.pending_rewards + s.reward_debt ≤ s.pending_rewards + worth g s.lp_amount
    → IsSettled g s s'' 0
same_settlement g s s' s'' e debt credit =
    rw (← e) (record { debt_is = debt; credit_within = omega arith })

pub accumulated-eq :
    (lp_amount reward_per_token n : ℕ)
    → accumulated lp_amount reward_per_token ≡ ok n
    → n ≡ lp_amount * reward_per_token / 1_000_000_000_000
unfolding accumulated
accumulated-eq lp_amount reward_per_token n h = ground arith

settle_stake-eq :
    (g : Gauge) (s s' : UserStake)
    → settle_stake g s ≡ ok s'
    → (s'.lp_amount ≡ s.lp_amount)
      × (s'.pending_rewards + s.reward_debt ≡ s.pending_rewards + worth g s.lp_amount)
unfolding settle_stake accumulated
settle_stake-eq g s s' h = ground arith

-- The settlement of a deposit, which leaves an empty stake as it is.
settle_if_any-eq :
    (g : Gauge) (s s' : UserStake)
    → (if ltb 0 s.lp_amount then settle_stake g s else ok s) ≡ ok s'
    → s.reward_debt ≤ worth g s.lp_amount
    → (s'.lp_amount ≡ s.lp_amount)
      × (s'.pending_rewards + s.reward_debt ≤ s.pending_rewards + worth g s.lp_amount)
unfolding settle_stake accumulated
settle_if_any-eq g s s' h within = ground arith

with_amount-eq :
    (g : Gauge) (s s' : UserStake) (n : ℕ)
    → with_amount g s n ≡ ok s'
    → (s'.lp_amount ≡ n) × (s'.pending_rewards ≡ s.pending_rewards) × (s'.reward_debt ≡ worth g n)
unfolding with_amount accumulated
with_amount-eq g s s' n h = ground arith

pub claimable-le :
    (g : Gauge) (s : UserStake) (n : ℕ)
    → claimable g s ≡ ok n
    → s.reward_debt ≤ worth g s.lp_amount
    → n + s.reward_debt ≤ s.pending_rewards + worth g s.lp_amount
unfolding claimable accumulated
claimable-le g s n h within = ground arith

-- A gauge after a change of its total.
pub record HasTotal (g g' : Gauge) (total : ℕ) : Type 0 where
  pub total_is : g'.total_lp_deposited ≡ total
  pub same_rate : g'.reward_per_token ≡ g.reward_per_token
  pub same_distributed : g'.total_distributed ≡ g.total_distributed

module _ {B : Type 0} (rt : Runtime B) where
  pub deposit_lp-eq :
      (a : StakeAccounts) (n : ℕ) (b : B) (g : Gauge) (s : UserStake) (b' : B)
      → deposit_lp rt a n b ≡ ok (g, s, b')
      → a.user_stake.reward_debt ≤ worth a.gauge a.user_stake.lp_amount
      → HasTotal a.gauge g (a.gauge.total_lp_deposited + n)
        × (s.lp_amount ≡ a.user_stake.lp_amount + n)
        × IsSettled a.gauge a.user_stake s 0
  unfolding deposit_lp
  deposit_lp-eq a n b g s b' h within =
      let (_, _, k1) =
        bind-eq_ok (constrain ((rt.token b a.user_lp_account).owner == a.signer)) _ h in
      let (_, _, k2) = bind-eq_ok (require (leb 1_000 n) zero_amount) _ k1 in
      let (_, _, k3) = bind-eq_ok (require a.gauge.active gauge_not_active) _ k2 in
      let (settled, settles, k4) =
        bind-eq_ok
          (if ltb 0 a.user_stake.lp_amount
            then settle_stake a.gauge a.user_stake
            else ok a.user_stake)
          _ k3 in
      let (_, _, k5) =
        bind-eq_ok
          (or_fault (rt.token_transfer a.user_lp_account a.gauge_lp_vault a.signer n b) cpi) _ k4 in
      let (amount, added, k6) =
        bind-eq_ok (or_overflow (checked_add u64 settled.lp_amount n)) _ k5 in
      let (stake, made, k7) =
        bind-eq_ok
          (with_amount a.gauge
            (record settled { owner = a.signer; gauge = a.gauge_key; bump = a.stake_bump }) amount)
          _ k6 in
      let (total, counted, k8) =
        bind-eq_ok (or_overflow (checked_add u64 a.gauge.total_lp_deposited n)) _ k7 in
      let (same, credited) = settle_if_any-eq a.gauge a.user_stake settled settles within in
      let (amount_is, pending_is, debt_is) =
        with_amount-eq a.gauge
          (record settled { owner = a.signer; gauge = a.gauge_key; bump = a.stake_bump }) stake
          amount made in
      let gauge_is : record a.gauge { total_lp_deposited = total } ≡ g = ok-head k8 in
      let stake_is : stake ≡ s = ok-middle k8 in
      let added_is : amount ≡ settled.lp_amount + n = ground (arith, added) in
      let counted_is : total ≡ a.gauge.total_lp_deposited + n = ground (arith, counted) in
      (
        record {
          total_is = ap (λ g. g.total_lp_deposited) (sym gauge_is) ∙ counted_is;
          same_rate = ap (λ g. g.reward_per_token) (sym gauge_is);
          same_distributed = ap (λ g. g.total_distributed) (sym gauge_is);
        },
        ap (λ s. s.lp_amount) (sym stake_is) ∙ amount_is ∙ added_is ∙ ap (λ x. x + n) same,
        same_settlement a.gauge a.user_stake stake s stake_is
            (debt_is ∙ ap (worth a.gauge) (sym amount_is)) (omega arith),
      )

  pub withdraw_lp-eq :
      (a : StakeAccounts) (n : ℕ) (b : B) (g : Gauge) (s : UserStake) (b' : B)
      → withdraw_lp rt a n b ≡ ok (g, s, b')
      → HasTotal a.gauge g (a.gauge.total_lp_deposited - n)
        × (n ≤ a.gauge.total_lp_deposited)
        × (s.lp_amount + n ≡ a.user_stake.lp_amount)
        × IsSettled a.gauge a.user_stake s 0
  unfolding withdraw_lp settle_stake with_amount accumulated
  withdraw_lp-eq a n b g s b' h = (
    record { total_is = ground arith; same_rate = ground arith; same_distributed = ground arith },
    ground arith,
    ground arith,
    record { debt_is = ground arith; credit_within = ground arith },
  )

  pub claim_rewards-eq :
      (a : StakeAccounts) (b : B) (s : UserStake) (b' : B) (n : ℕ)
      → claim_rewards rt a b ≡ ok (s, b')
      → claimable a.gauge a.user_stake ≡ ok n
      → a.user_stake.reward_debt ≤ worth a.gauge a.user_stake.lp_amount
      → (s.lp_amount ≡ a.user_stake.lp_amount) × IsSettled a.gauge a.user_stake s n
  unfolding claim_rewards with_amount accumulated
  claim_rewards-eq a b s b' n h claims within =
      let le = claimable-le a.gauge a.user_stake n claims within in
      (ground arith, record { debt_is = ground arith; credit_within = ground arith })

  pub force_withdraw_lp-eq :
      (a : StakeAccounts) (depositor : ℕ) (b : B) (g : Gauge) (b' : B)
      → force_withdraw_lp rt a depositor b ≡ ok (g, b')
      → HasTotal a.gauge g (a.gauge.total_lp_deposited - a.user_stake.lp_amount)
        × (a.user_stake.lp_amount ≤ a.gauge.total_lp_deposited)
  unfolding force_withdraw_lp
  force_withdraw_lp-eq a depositor b g b' h = (
    record { total_is = ground arith; same_rate = ground arith; same_distributed = ground arith },
    ground arith,
  )
