-- ===== src/Staking/History.antt =====
-- Histories of programs/rise-staking, from the pool's initialisation on.
use rise_protocol.Prelude.{ℕ, ◌≤◌, ◌≡◌, refl, ok, [], arith}
use rise_protocol.Solana.{Pubkey, Runtime, TransferLaws, TokenLaws}
use rise_protocol.Staking.State.{GlobalPool, rate_scale}
use rise_protocol.Staking.World.{World, Addresses, Instruction}
use rise_protocol.Staking.Process.{process}
use rise_protocol.Staking.Cdp.{initialize_pool}
use rise_protocol.Staking.Invariant.{owed, IsSolvent, Keeps, bank-Keeps}
use rise_protocol.Staking.Reachable.{IsApart, IsSigned, process-Keeps}

initialize_pool-eq :
    (authority mint : Pubkey) (bump epoch fee buffer : ℕ) (p : GlobalPool)
    → initialize_pool authority mint bump epoch fee buffer ≡ ok p
    → (p.total_sol_staked ≡ 0)
      × (p.staking_rise_sol_supply ≡ 0)
      × (p.exchange_rate ≡ rate_scale)
      × (p.liquid_buffer_lamports ≡ 0)
      × (p.pending_withdrawals_lamports ≡ 0)
      × (fee ≤ 10_000)
unfolding initialize_pool
initialize_pool-eq authority mint bump epoch fee buffer p h = ground arith

module _ {B : Type 0} (rt : Runtime B) (addr : Addresses) where
  -- What can happen on the chain: an instruction of the program succeeds, or anything else happens
  -- that takes no lamports from the vault, over which the program alone has power.
  pub data Step (w : World B) : World B → Type 0 where
    executes :
        {w' : World B} (i : Instruction) → IsSigned addr i → process rt addr w i ≡ ok w' → Step w w'
    elsewhere :
        (b : B)
        → rt.lamports w.bank addr.pool_vault ≤ rt.lamports b addr.pool_vault
        → Step w (record w { bank = b })

  pub data Reach (w : World B) : World B → Type 0 where
    here : Reach w w
    next : {u v : World B} → Reach w u → Step u v → Reach w v

  module _ (transfers : TransferLaws rt) (tokens : TokenLaws rt) (apart : IsApart addr) where
    Step-Keeps : {w w' : World B} → Step w w' → IsSolvent rt addr w → Keeps rt addr w w'
    Step-Keeps {w} {w'} (executes i signed run) inv =
        process-Keeps rt addr transfers tokens apart w w' inv i signed run
    Step-Keeps {w} {w'} (elsewhere b le) inv = bank-Keeps rt addr w w' inv le refl refl

    -- From a solvent world every history leads to solvent worlds only, and the exchange rate never
    -- falls along it.
    pub Reach-Keeps : {w w' : World B} → IsSolvent rt addr w → Reach w w' → Keeps rt addr w w'
    Reach-Keeps inv here = (inv, omega arith)
    Reach-Keeps inv (next r st) =
        let (inv', grows) = Reach-Keeps inv r in
        let (inv'', grows') = Step-Keeps st inv' in (inv'', omega (arith, grows, grows'))

    initialize_pool-IsSolvent :
        (authority mint : Pubkey) (bump epoch fee buffer : ℕ) (w : World B)
        → initialize_pool authority mint bump epoch fee buffer ≡ ok w.pool
        → w.tickets ≡ []
        → IsSolvent rt addr w
    unfolding owed
    initialize_pool-IsSolvent authority mint bump epoch fee buffer w h e =
        let facts = initialize_pool-eq authority mint bump epoch fee buffer w.pool h in
        record { sound = grind (arith, facts); tickets_owed = rw e (omega (arith, facts)) }

    -- From a pool that was just initialised, with no ticket yet, every history of instructions and of
    -- other events that leave the vault's lamports in place leads to a world in which the vault
    -- covers the liquid buffer and the queued withdrawals, the buffer covers the staked SOL, the
    -- staked SOL covers the staking supply at the exchange rate, the rate is at least 1.0, and the
    -- open tickets add up to the queued withdrawals; and the rate has not fallen on the way.
    pub history-IsSolvent :
        (authority mint : Pubkey) (bump epoch fee buffer : ℕ) {w w' : World B}
        → initialize_pool authority mint bump epoch fee buffer ≡ ok w.pool
        → w.tickets ≡ []
        → Reach w w'
        → IsSolvent rt addr w' × (w.pool.exchange_rate ≤ w'.pool.exchange_rate)
    history-IsSolvent authority mint bump epoch fee buffer {w} h e reach =
        Reach-Keeps (initialize_pool-IsSolvent authority mint bump epoch fee buffer w h e) reach
