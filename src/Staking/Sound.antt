-- ===== src/Staking/Sound.antt =====
-- When a pool is sound, and that each handler's arithmetic keeps it so.
use native.Mathlib.Nat.{div-mul-le_self, le-div_iff_mul-le}
use rise_protocol.Prelude.{ℕ, ◌+◌, ◌-◌, ◌*◌, ◌/◌, ◌≤◌, ◌<◌, ◌≡◌, ◌⊎◌, inl, inr, some, ok, arith}
use rise_protocol.Staking.State.{GlobalPool, sol_to_rise_sol, rise_sol_to_sol, rate_scale}
use rise_protocol.Staking.Deposit.{credit_stake}
use rise_protocol.Staking.Withdrawal.{queue_withdrawal}
use rise_protocol.Staking.Rate.{
  backing_rate, snapshot_rate, refresh_rate, credit_rewards, recognise,
}

-- With `vault` lamports in the pool's vault: the vault covers the buffer and the queued
-- withdrawals; the buffer covers all staked SOL; the staked SOL covers the whole staking supply at
-- the current rate; and the rate has not fallen below its value at genesis.
pub record IsSound (p : GlobalPool) (vault : ℕ) : Type 0 where
  pub vault_covers : p.liquid_buffer_lamports + p.pending_withdrawals_lamports ≤ vault
  pub buffer_covers : p.total_sol_staked ≤ p.liquid_buffer_lamports
  pub backed : p.staking_rise_sol_supply * p.exchange_rate ≤ p.total_sol_staked * rate_scale
  pub rate_floor : rate_scale ≤ p.exchange_rate

-- What a deposit mints is worth at most the deposit, and one more unit would be worth more.
pub sol_to_rise_sol-eq :
    (p : GlobalPool) (l m : ℕ)
    → sol_to_rise_sol p l ≡ some m
    → (m ≡ l * rate_scale / p.exchange_rate) × (0 < p.exchange_rate)
unfolding sol_to_rise_sol
sol_to_rise_sol-eq p l m h = ground arith

pub rise_sol_to_sol-eq :
    (p : GlobalPool) (m s : ℕ) → rise_sol_to_sol p m ≡ some s → s ≡ m * p.exchange_rate / rate_scale
unfolding rise_sol_to_sol
rise_sol_to_sol-eq p m s h = ground arith

pub sol_to_rise_sol-le :
    (p : GlobalPool) (l m : ℕ) → sol_to_rise_sol p l ≡ some m → m * p.exchange_rate ≤ l * rate_scale
sol_to_rise_sol-le p l m h =
    rw (sol_to_rise_sol-eq p l m h).0 (div-mul-le_self (l * rate_scale) p.exchange_rate)

pub rise_sol_to_sol-le :
    (p : GlobalPool) (m s : ℕ) → rise_sol_to_sol p m ≡ some s → s * rate_scale ≤ m * p.exchange_rate
rise_sol_to_sol-le p m s h =
    rw (rise_sol_to_sol-eq p m s h) (div-mul-le_self (m * p.exchange_rate) rate_scale)

-- The recomputed rate is backed, and is no less than any rate that was backed.
backing_rate-eq :
    (total supply rate : ℕ)
    → backing_rate total supply ≡ ok rate
    → (rate ≡ total * rate_scale / supply) × (0 < supply)
unfolding backing_rate
backing_rate-eq total supply rate h = ground arith

pub backing_rate-backed :
    (total supply rate : ℕ)
    → backing_rate total supply ≡ ok rate
    → supply * rate ≤ total * rate_scale
backing_rate-backed total supply rate h =
    rw (backing_rate-eq total supply rate h).0
      (grind (arith, div-mul-le_self (total * rate_scale) supply))

pub backing_rate-ge :
    (total supply rate old : ℕ)
    → backing_rate total supply ≡ ok rate
    → supply * old ≤ total * rate_scale
    → old ≤ rate
backing_rate-ge total supply rate old h k =
    let e = backing_rate-eq total supply rate h in rw e.0 ((le-div_iff_mul-le e.1).1 (grind arith))

pub credit_stake-eq :
    (p : GlobalPool) (l m : ℕ) (p' : GlobalPool)
    → credit_stake p l m ≡ ok p'
    → p' ≡ record p {
      total_sol_staked = p.total_sol_staked + l;
      staking_rise_sol_supply = p.staking_rise_sol_supply + m;
      liquid_buffer_lamports = p.liquid_buffer_lamports + l;
    }
unfolding credit_stake
credit_stake-eq p l m p' h = ground arith

pub queue_withdrawal-eq :
    (p : GlobalPool) (a s : ℕ) (p' : GlobalPool)
    → queue_withdrawal p a s ≡ ok p'
    → (p' ≡ record p {
      staking_rise_sol_supply = p.staking_rise_sol_supply - a;
      total_sol_staked = p.total_sol_staked - s;
      liquid_buffer_lamports = p.liquid_buffer_lamports - s;
      pending_withdrawals_lamports = p.pending_withdrawals_lamports + s;
      unstake_nonce = p.unstake_nonce + 1;
    })
      × (a ≤ p.staking_rise_sol_supply)
      × (s ≤ p.total_sol_staked)
      × (s ≤ p.liquid_buffer_lamports)
unfolding queue_withdrawal
queue_withdrawal-eq p a s p' h = ground arith

module _ (p : GlobalPool) (vault : ℕ) (sound : IsSound p vault) where
  pub credit_stake-IsSound :
      (l m : ℕ) (p' : GlobalPool)
      → m * p.exchange_rate ≤ l * rate_scale
      → credit_stake p l m ≡ ok p'
      → IsSound p' (vault + l)
  credit_stake-IsSound l m p' worth h = rw (credit_stake-eq p l m p' h) (omega arith)

  pub queue_withdrawal-IsSound :
      (a s : ℕ) (p' : GlobalPool)
      → s * rate_scale ≤ a * p.exchange_rate
      → queue_withdrawal p a s ≡ ok p'
      → IsSound p' vault
  queue_withdrawal-IsSound a s p' worth h =
      let (e, le_supply, le_total, le_liquid) = queue_withdrawal-eq p a s p' h in
      rw e (grind (arith))

-- The rate was recomputed from the pool's totals, unless there is no supply.
abbrev pub Rerated : GlobalPool → GlobalPool → Type 0
Rerated p p' =
    (p'.total_sol_staked ≡ p.total_sol_staked)
    × (p'.staking_rise_sol_supply ≡ p.staking_rise_sol_supply)
    × (p'.liquid_buffer_lamports ≡ p.liquid_buffer_lamports)
    × (p'.pending_withdrawals_lamports ≡ p.pending_withdrawals_lamports)
    × (((p.staking_rise_sol_supply ≡ 0) × (p'.exchange_rate ≡ p.exchange_rate))
        ⊎ (backing_rate p.total_sol_staked p.staking_rise_sol_supply ≡ ok p'.exchange_rate))

pub refresh_rate-Rerated : (p p' : GlobalPool) → refresh_rate p ≡ ok p' → Rerated p p'
unfolding refresh_rate
refresh_rate-Rerated p p' h = ground arith

pub snapshot_rate-Rerated :
    (p : GlobalPool) (slot : ℕ) (p' : GlobalPool) → snapshot_rate p slot ≡ ok p' → Rerated p p'
unfolding snapshot_rate
snapshot_rate-Rerated p slot p' h = ground arith

Rerated-backed :
    (p p' : GlobalPool)
    → p.staking_rise_sol_supply * p.exchange_rate ≤ p.total_sol_staked * rate_scale
    → Rerated p p'
    → (p'.staking_rise_sol_supply * p'.exchange_rate ≤ p'.total_sol_staked * rate_scale)
      × (p.exchange_rate ≤ p'.exchange_rate)
Rerated-backed p p' backed (e_total, e_supply, _, _, inl (e_zero, e_rate)) =
    (rw (e_total, e_supply, e_zero) (omega arith), omega arith)
Rerated-backed p p' backed (e_total, e_supply, _, _, inr h) = (
  rw (e_total, e_supply) (backing_rate-backed _ _ _ h),
  backing_rate-ge _ _ _ p.exchange_rate h backed,
)

-- More staked SOL, in the buffer as well.
abbrev pub earn : GlobalPool → ℕ → GlobalPool
earn p n = record p {
  total_sol_staked = p.total_sol_staked + n;
  liquid_buffer_lamports = p.liquid_buffer_lamports + n;
}

-- Earnings within the vault, with the rate recomputed.
pub Rerated-IsSound :
    (p p' : GlobalPool) (vault n more : ℕ)
    → IsSound p vault
    → p.liquid_buffer_lamports + p.pending_withdrawals_lamports + n ≤ more
    → Rerated (earn p n) p'
    → IsSound p' more × (p.exchange_rate ≤ p'.exchange_rate)
Rerated-IsSound p p' vault n more sound fits r = (
  record {
    vault_covers = omega arith;
    buffer_covers = omega arith;
    backed = step.0;
    rate_floor = omega (arith, step.1);
  },
  step.1,
)
  where
    step :
        (p'.staking_rise_sol_supply * p'.exchange_rate ≤ p'.total_sol_staked * rate_scale)
        × (p.exchange_rate ≤ p'.exchange_rate)
    step = Rerated-backed (earn p n) p' (omega arith) r

pub credit_rewards-Rerated :
    (p : GlobalPool) (rewards epoch slot : ℕ) (p' : GlobalPool)
    → credit_rewards p rewards epoch slot ≡ ok p'
    → Rerated (earn p (rewards - rewards * p.protocol_fee_bps / 10_000)) p'
unfolding credit_rewards
credit_rewards-Rerated p rewards epoch slot p' h = ground arith

module _ (p : GlobalPool) (available epoch slot : ℕ) (p' : GlobalPool) where
  -- Either nothing was there to recognise, or the rewards but for the fee are earned.
  pub recognise-cases :
      recognise p available epoch slot ≡ ok p'
      → ((available ≤ p.liquid_buffer_lamports)
          × (p' ≡ record p { last_rate_update_epoch = epoch }))
        ⊎ ((p.liquid_buffer_lamports < available)
            × (credit_rewards p (available - p.liquid_buffer_lamports) epoch slot ≡ ok p'))
  unfolding recognise
  recognise-cases h = ground arith
