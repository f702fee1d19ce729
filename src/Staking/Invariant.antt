-- ===== src/Staking/Invariant.antt =====
-- The invariant of the program's accounts, over every entry point and every history.
use rise_protocol.Prelude.{
  ℕ, ◌+◌, ◌≤◌, ◌≡◌, ◌≢◌, refl, some, ok, arith, List, [], ◌∷◌, Bool, bind-eq_ok, or_fault,
  uninitialized,
}
use rise_protocol.Solana.{Pubkey, Runtime, TransferLaws, TokenLaws}
use rise_protocol.Staking.State.{GlobalPool, WithdrawalTicket}
use rise_protocol.Staking.World.{
  World, Addresses, find_ticket, remove_ticket, load_optional, check_absent,
}
use rise_protocol.Staking.Process.{process_stake, process_unstake, process_claim}
use rise_protocol.Staking.Sound.{IsSound}
use rise_protocol.Staking.Preserve.{
  IsSound-mono, stake_sol-Grows, unstake_rise_sol-Grows, claim_unstake-Grows,
}

-- The lamports that the open tickets promise.
unfoldable pub owed : List WithdrawalTicket → ℕ
owed [] = 0
owed (t ∷ ts) = t.sol_amount + owed ts

pub owed-remove_ticket :
    (owner : Pubkey) (nonce : ℕ) (ts : List WithdrawalTicket) (t : WithdrawalTicket)
    → find_ticket owner nonce ts ≡ some t
    → owed ts ≡ t.sol_amount + owed (remove_ticket owner nonce ts)
unfolding owed find_ticket remove_ticket
owed-remove_ticket owner nonce [] t h = cc
owed-remove_ticket owner nonce (x ∷ ts) t h = ground (arith, owed-remove_ticket owner nonce ts t)

module _ {B : Type 0} (rt : Runtime B) (addr : Addresses) where
  -- The pool is sound with what its vault holds, and the open tickets promise exactly the
  -- lamports that it sets aside for them.
  pub record IsSolvent (w : World B) : Type 0 where
    pub sound : IsSound w.pool (rt.lamports w.bank addr.pool_vault)
    pub tickets_owed : owed w.tickets ≡ w.pool.pending_withdrawals_lamports

  -- What an instruction keeps, from `w` on: the invariant, and the rate does not fall.
  abbrev pub Keeps : World B → World B → Type 0
  Keeps w w' = IsSolvent w' × (w.pool.exchange_rate ≤ w'.pool.exchange_rate)

  module _ (w w' : World B) (inv : IsSolvent w) where
    -- A change of the pool alone that keeps the withdrawals, and of the bank that spares the vault.
    pub pool-Keeps :
        (p' : GlobalPool) (b' : B)
        → IsSound p' (rt.lamports b' addr.pool_vault)
        → w.pool.exchange_rate ≤ p'.exchange_rate
        → p'.pending_withdrawals_lamports ≡ w.pool.pending_withdrawals_lamports
        → w'.pool ≡ p'
        → w'.bank ≡ b'
        → w'.tickets ≡ w.tickets
        → Keeps w w'
    pool-Keeps p' b' sound grows pending e_pool e_bank e_tickets = (
      record {
        sound = rw (e_pool, e_bank) sound;
        tickets_owed = rw (e_pool, e_tickets, pending) inv.tickets_owed;
      },
      rw e_pool grows,
    )

    pub bank-Keeps :
        rt.lamports w.bank addr.pool_vault ≤ rt.lamports w'.bank addr.pool_vault
        → w'.pool ≡ w.pool
        → w'.tickets ≡ w.tickets
        → Keeps w w'
    bank-Keeps le e_pool e_tickets =
        pool-Keeps w.pool w'.bank (IsSound-mono w.pool _ _ le inv.sound) (omega arith) refl e_pool
          refl e_tickets

    module _ (transfers : TransferLaws rt) (tokens : TokenLaws rt) where
      pub process_stake-Keeps :
          (user mint account : Pubkey) (with_config with_tracker : Bool) (lamports : ℕ)
          → user ≢ addr.pool_vault
          → process_stake rt addr w user mint account with_config with_tracker lamports ≡ ok w'
          → Keeps w w'
      unfolding process_stake
      process_stake-Keeps user mint account with_config with_tracker lamports outside h =
          let (config, _, h1) = bind-eq_ok (load_optional with_config w.config) _ h in
          let (tracker, _, h2) = bind-eq_ok (load_optional with_tracker (w.trackers user)) _ h1 in
          let (r, run, last) = bind-eq_ok _ _ h2 in
          let (kept, pending) =
            stake_sol-Grows rt transfers tokens _ lamports w.bank r outside inv.sound run in
          pool-Keeps r.0.pool r.1 kept.0 kept.1 pending (cc) (cc) (cc)

      pub process_unstake-Keeps :
          (user mint account : Pubkey) (with_config with_tracker : Bool) (amount : ℕ)
          → process_unstake rt addr w user mint account with_config with_tracker amount ≡ ok w'
          → Keeps w w'
      unfolding process_unstake owed
      process_unstake-Keeps user mint account with_config with_tracker amount h =
          let (_, _, h0) =
            bind-eq_ok (check_absent (find_ticket user w.pool.unstake_nonce w.tickets)) _ h in
          let (config, _, h1) = bind-eq_ok (load_optional with_config w.config) _ h0 in
          let (tracker, _, h2) = bind-eq_ok (load_optional with_tracker (w.trackers user)) _ h1 in
          let (r, run, last) = bind-eq_ok _ _ h2 in
          let (kept, pending) =
            unstake_rise_sol-Grows rt tokens addr.pool_vault _ amount w.bank r.0 r.1 r.2 inv.sound
              run in
          let e_pool : w'.pool ≡ r.0.pool = cc in
          let e_bank : w'.bank ≡ r.2 = cc in
          let e_tickets : w'.tickets ≡ r.1 ∷ w.tickets = cc in
          (
            record {
              sound = rw (e_pool, e_bank) kept.0;
              tickets_owed = rw (e_pool, e_tickets, pending, inv.tickets_owed) (omega arith);
            },
            rw e_pool kept.1,
          )

      pub process_claim-Keeps :
          (owner : Pubkey) (nonce : ℕ) → process_claim rt addr w owner nonce ≡ ok w' → Keeps w w'
      unfolding process_claim
      process_claim-Keeps owner nonce h =
          let (ticket, loaded, h1) =
            bind-eq_ok (or_fault (find_ticket owner nonce w.tickets) uninitialized) _ h in
          let found : find_ticket owner nonce w.tickets ≡ some ticket = ground arith in
          let (r, run, last) = bind-eq_ok _ _ h1 in
          let (kept, pending) = claim_unstake-Grows rt transfers _ w.bank r inv.sound run in
          let e_pool : w'.pool ≡ r.0 = cc in
          let e_bank : w'.bank ≡ r.1 = cc in
          let e_tickets : w'.tickets ≡ remove_ticket owner nonce w.tickets = cc in
          (
            record {
              sound = rw (e_pool, e_bank) kept.0;
              tickets_owed =
                  rw (e_pool, e_tickets)
                    (omega (arith, owed-remove_ticket owner nonce w.tickets ticket found));
            },
            rw e_pool kept.1,
          )
