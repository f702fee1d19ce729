-- ===== src/Staking/RateLaws.antt =====
-- What the exchange rate's update recognises, and what becomes of the fee that it leaves in the
-- vault.
use rise_protocol.Prelude.{
  ℕ, ◌+◌, ◌-◌, ◌*◌, ◌/◌, ◌≤◌, ◌<◌, ◌≡◌, refl, inl, inr, ltb, ok, arith, Bool-cases, u128,
}
use rise_protocol.Solana.{Pubkey, Runtime}
use rise_protocol.Staking.State.{GlobalPool, rate_scale}
use rise_protocol.Staking.Rate.{
  update_exchange_rate, recognise, credit_rewards, credit_staking_revenue, refresh_rate,
}
use rise_protocol.Staking.Fees.{CollectFees, sweepable}
use rise_protocol.Staking.Sound.{credit_rewards-Rerated, recognise-cases}
use rise_protocol.Staking.Effects.{sweepable-eq}
use rise_protocol.Staking.Authority.{update_exchange_rate-SameSettings}

-- What the vault holds above the liquid buffer and the queued withdrawals.
abbrev pub excess : {B : Type 0} → Runtime B → Pubkey → GlobalPool → B → ℕ
excess rt vault p b =
    rt.lamports b vault - p.pending_withdrawals_lamports - p.liquid_buffer_lamports

module _ {B : Type 0} (rt : Runtime B) (vault : Pubkey) (p p' : GlobalPool) (b : B) where
  pub update_exchange_rate_runs :
      p.last_rate_update_epoch < rt.epoch b
      → update_exchange_rate rt p vault b ≡ ok p'
      → (p.pending_withdrawals_lamports ≤ rt.lamports b vault)
        × (recognise p
              (rt.lamports b vault - p.pending_withdrawals_lamports)
              (rt.epoch b)
              (rt.slot b)
            ≡ ok p')
  unfolding update_exchange_rate
  update_exchange_rate_runs due h = ground arith

  credit_rewards-epoch :
      (rewards epoch slot : ℕ)
      → credit_rewards p rewards epoch slot ≡ ok p'
      → p'.last_rate_update_epoch ≡ epoch
  unfolding credit_rewards
  credit_rewards-epoch rewards epoch slot h = ground arith

  -- In a new epoch an update that succeeds earns the excess less the protocol's fee on it, for the
  -- staked SOL and the buffer alike, leaves the supply and the queued withdrawals alone, and records
  -- the epoch.
  pub update_exchange_rate_earns :
      p.last_rate_update_epoch < rt.epoch b
      → update_exchange_rate rt p vault b ≡ ok p'
      → (p'.total_sol_staked
          ≡ p.total_sol_staked
            + (excess rt vault p b - excess rt vault p b * p.protocol_fee_bps / 10_000))
        × (p'.liquid_buffer_lamports
            ≡ p.liquid_buffer_lamports
              + (excess rt vault p b - excess rt vault p b * p.protocol_fee_bps / 10_000))
        × (p'.staking_rise_sol_supply ≡ p.staking_rise_sol_supply)
        × (p'.pending_withdrawals_lamports ≡ p.pending_withdrawals_lamports)
        × (p'.last_rate_update_epoch ≡ rt.epoch b)
  update_exchange_rate_earns due h =
      let (fits, run) = update_exchange_rate_runs due h in
      elim (recognise-cases p (rt.lamports b vault - p.pending_withdrawals_lamports) (rt.epoch b)
        (rt.slot b) p' run) [
          | inl (few, e) ↦
              let zero_excess : excess rt vault p b ≡ 0 = omega arith in
              rw (e, zero_excess) (omega arith)
          | inr (more, credit) ↦
              let rated =
                credit_rewards-Rerated p (excess rt vault p b) (rt.epoch b) (rt.slot b) p' credit in
              (
                rated.0,
                rated.2,
                rated.1,
                rated.3,
                credit_rewards-epoch (excess rt vault p b) (rt.epoch b) (rt.slot b) credit,
              )
        ]

-- A fee that an update left in the vault and that nobody collected counts as rewards at the next
-- update: of the protocol's fee `f` on the first excess, the stakers get all but the fee on `f`.
pub update_exchange_rate_again :
    {B : Type 0} (rt : Runtime B) (vault : Pubkey) (p p1 p2 : GlobalPool) (b b2 : B) (f : ℕ)
    → p.last_rate_update_epoch < rt.epoch b
    → update_exchange_rate rt p vault b ≡ ok p1
    → rt.epoch b < rt.epoch b2
    → rt.lamports b2 vault ≡ rt.lamports b vault
    → update_exchange_rate rt p1 vault b2 ≡ ok p2
    → f ≡ excess rt vault p b * p.protocol_fee_bps / 10_000
    → f ≤ excess rt vault p b
    → (excess rt vault p1 b2 ≡ f)
      × (p2.total_sol_staked ≡ p1.total_sol_staked + (f - f * p.protocol_fee_bps / 10_000))
update_exchange_rate_again rt vault p p1 p2 b b2 f due first later kept second fee part =
    let one = update_exchange_rate_earns rt vault p p1 b due first in
    let fits = (update_exchange_rate_runs rt vault p p1 b due first).0 in
    let two = update_exchange_rate_earns rt vault p1 p2 b2 (omega (arith, one)) second in
    let same_fee = (update_exchange_rate-SameSettings rt vault p p1 b first).fee in
    let left : excess rt vault p1 b2 ≡ f = rw kept (omega (arith, one, fits)) in
    (left, rw (left, same_fee) at two.0)

refresh_rate_runs :
    (p : GlobalPool)
    → p.total_sol_staked * rate_scale < u128
    → (q : GlobalPool) × (refresh_rate p ≡ ok q)
      × (q.liquid_buffer_lamports ≡ p.liquid_buffer_lamports)
      × (q.pending_withdrawals_lamports ≡ p.pending_withdrawals_lamports)
      × (q.total_sol_staked ≡ p.total_sol_staked)
unfolding refresh_rate
refresh_rate_runs p fits = elim (Bool-cases (ltb 0 p.staking_rise_sol_supply)) [
  | inl some_supply ↦ (
    record p { exchange_rate = p.total_sol_staked * rate_scale / p.staking_rise_sol_supply },
    ground arith,
    refl,
    refl,
    refl,
  )
  | inr no_supply ↦ (p, ground arith, refl, refl, refl)
]

sweepable-zero :
    {B : Type 0} (rt : Runtime B) (a : CollectFees) (b : B)
    → rt.lamports b a.pool_vault
      ≡ a.pool.liquid_buffer_lamports + a.pool.pending_withdrawals_lamports
    → sweepable rt a b ≡ ok 0
unfolding sweepable
sweepable-zero rt a b h = ground arith

-- Whatever fees there are to sweep, anyone can have them credited to the stakers instead, with no
-- deposit at all: crediting that amount as revenue succeeds, and then there is nothing to sweep.
-- (The numbers stay within u128.)
pub credit_staking_revenue_takes_fees :
    {B : Type 0} (rt : Runtime B) (a : CollectFees) (n : ℕ) (b : B)
    → sweepable rt a b ≡ ok n
    → 0 < n
    → rt.lamports b a.pool_vault < u128
    → (a.pool.total_sol_staked + n) * rate_scale < u128
    → (p' : GlobalPool) × (credit_staking_revenue rt a.pool a.pool_vault n b ≡ ok p')
      × (p'.total_sol_staked ≡ a.pool.total_sol_staked + n)
      × (sweepable rt (record a { pool = p' }) b ≡ ok 0)
unfolding credit_staking_revenue
credit_staking_revenue_takes_fees rt a n b fees positive fits scaled =
    let held = sweepable-eq rt a b n fees in
    let (q, runs, e_liquid, e_pending, e_total) =
      refresh_rate_runs
        (record a.pool {
          total_sol_staked = a.pool.total_sol_staked + n;
          liquid_buffer_lamports = a.pool.liquid_buffer_lamports + n;
        })
        scaled in
    (
      q,
      ground (arith, held, runs),
      e_total,
      sweepable-zero rt (record a { pool = q }) b (omega (arith, held, e_liquid, e_pending)),
    )
