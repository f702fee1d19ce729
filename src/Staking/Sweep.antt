-- ===== src/Staking/Sweep.antt =====
-- What a collection of fees takes from the vault, and where it goes.
use native.Mathlib.Nat.{mul-le-mul_left}
use rise_protocol.Prelude.{
  ℕ, ◌+◌, ◌*◌, ◌/◌, ◌≤◌, ◌<◌, ◌≡◌, ◌≢◌, ◌==◌, if◌then◌else◌, inl, inr, refl, ok, arith,
}
use rise_protocol.Solana.{Pubkey, Runtime, TransferLaws, transfer-debit_ne}
use rise_protocol.Staking.State.{ProtocolTreasury, team_cut, verise_cut}
use rise_protocol.Staking.Treasury.{add_reserve, advance_index, initialize_treasury}
use rise_protocol.Staking.Fees.{
  CollectFees, Shares, split_fees, send_team, send_reserve, send_verise, distribute, sweepable,
  collect_fees,
}
use rise_protocol.Staking.Effects.{distribute-calls, sweepable-eq, collect_fees-cases}

-- The shares, exactly.
split_fees-eq :
    (t : ProtocolTreasury) (n : ℕ) (s : Shares)
    → split_fees t n ≡ ok s
    → (s.team ≡ n * t.team_fee_bps / 10_000)
      × (s.verise ≡ n * t.verise_share_bps / 10_000)
      × (s.team + s.reserve + s.verise ≡ n)
unfolding split_fees team_cut verise_cut
split_fees-eq t n s h = ground arith

-- The treasury's vaults, the team's wallet and the pool's vault are four accounts.
pub record IsElsewhere (a : CollectFees) : Type 0 where
  pub team : a.pool_vault ≢ a.team_wallet
  pub reserve : a.pool_vault ≢ a.reserve_vault
  pub verise : a.pool_vault ≢ a.verise_vault
  pub team_reserve : a.team_wallet ≢ a.reserve_vault
  pub team_verise : a.team_wallet ≢ a.verise_vault
  pub reserve_verise : a.reserve_vault ≢ a.verise_vault

-- `n` lamports less for the account `from`, and more for `to`.
abbrev IsMoved : {B : Type 0} → Runtime B → Pubkey → Pubkey → ℕ → B → B → Type 0
IsMoved rt from to n b b' =
    (k : Pubkey)
    → rt.lamports b' k + (if k == from then n else 0) ≡ rt.lamports b k + (if k == to then n else 0)

module _ {B : Type 0} (rt : Runtime B) (laws : TransferLaws rt) (a : CollectFees)
    (elsewhere : IsElsewhere a) where
  send_team-moves :
      (n : ℕ) (b b' : B) → send_team rt a n b ≡ ok b' → IsMoved rt a.pool_vault a.team_wallet n b b'
  unfolding send_team
  send_team-moves n b b' h k = ground (arith, laws.moves a.pool_vault a.team_wallet n b b' k)

  send_reserve-moves :
      (n : ℕ) (x r : ProtocolTreasury × B)
      → send_reserve rt a n x ≡ ok r
      → IsMoved rt a.pool_vault a.reserve_vault n x.1 r.1
  unfolding send_reserve
  send_reserve-moves n x r h k = ground (arith, laws.moves a.pool_vault a.reserve_vault n x.1 r.1 k)

  send_verise-moves :
      (n : ℕ) (x r : ProtocolTreasury × B)
      → send_verise rt a n x ≡ ok r
      → IsMoved rt a.pool_vault a.verise_vault n x.1 r.1
  unfolding send_verise
  send_verise-moves n x r h k = ground (arith, laws.moves a.pool_vault a.verise_vault n x.1 r.1 k)

  -- Each of the three accounts gets its share.
  distribute-pays :
      (s : Shares) (b : B) (r : ProtocolTreasury × B)
      → distribute rt a s b ≡ ok r
      → (rt.lamports r.1 a.team_wallet ≡ rt.lamports b a.team_wallet + s.team)
        × (rt.lamports r.1 a.reserve_vault ≡ rt.lamports b a.reserve_vault + s.reserve)
        × (rt.lamports r.1 a.verise_vault ≡ rt.lamports b a.verise_vault + s.verise)
  distribute-pays s b r h =
      let (b1, r2, r3, team, reserve, verise, e) = distribute-calls rt a s b r h in
      let first = send_team-moves s.team b b1 team in
      let second = send_reserve-moves s.reserve (a.treasury, b1) r2 reserve in
      let third = send_verise-moves s.verise r2 r3 verise in
      let w = a.team_wallet in
      let v = a.reserve_vault in
      let u = a.verise_vault in
      rw e (
        ground (arith, elsewhere, first w, second w, third w),
        ground (arith, elsewhere, first v, second v, third v),
        ground (arith, elsewhere, first u, second u, third u),
      )

  send_team-eq :
      (n : ℕ) (b b' : B)
      → send_team rt a n b ≡ ok b'
      → rt.lamports b' a.pool_vault + n ≡ rt.lamports b a.pool_vault
  unfolding send_team
  send_team-eq n b b' h =
      ground (arith, transfer-debit_ne rt laws a.pool_vault a.team_wallet n b b' elsewhere.team)

  send_reserve-eq :
      (n : ℕ) (x r : ProtocolTreasury × B)
      → send_reserve rt a n x ≡ ok r
      → (rt.lamports r.1 a.pool_vault + n ≡ rt.lamports x.1 a.pool_vault)
        × (r.0.reserve_lamports ≡ x.0.reserve_lamports + n)
        × (r.0.total_distributed ≡ x.0.total_distributed)
  unfolding send_reserve add_reserve
  send_reserve-eq n x r h =
      ground
        (arith, transfer-debit_ne rt laws a.pool_vault a.reserve_vault n x.1 r.1 elsewhere.reserve)

  send_verise-eq :
      (n : ℕ) (x r : ProtocolTreasury × B)
      → send_verise rt a n x ≡ ok r
      → (rt.lamports r.1 a.pool_vault + n ≡ rt.lamports x.1 a.pool_vault)
        × (r.0.reserve_lamports ≡ x.0.reserve_lamports)
        × (r.0.total_distributed ≡ x.0.total_distributed + n)
  unfolding send_verise advance_index
  send_verise-eq n x r h =
      ground
        (arith, transfer-debit_ne rt laws a.pool_vault a.verise_vault n x.1 r.1 elsewhere.verise)

  distribute-eq :
      (s : Shares) (b : B) (r : ProtocolTreasury × B)
      → distribute rt a s b ≡ ok r
      → (rt.lamports r.1 a.pool_vault + (s.team + s.reserve + s.verise)
          ≡ rt.lamports b a.pool_vault)
        × (r.0.reserve_lamports ≡ a.treasury.reserve_lamports + s.reserve)
        × (r.0.total_distributed ≡ a.treasury.total_distributed + s.verise)
        × (r.0.last_collection_epoch ≡ rt.epoch b)
  distribute-eq s b r h =
      let (b1, r2, r3, team, reserve, verise, e) = distribute-calls rt a s b r h in
      let sent = send_team-eq s.team b b1 team in
      let kept = send_reserve-eq s.reserve (a.treasury, b1) r2 reserve in
      let shared = send_verise-eq s.verise r2 r3 verise in rw e (omega (arith, sent, kept, shared))

  -- A collection that succeeds, where the four accounts differ, leaves in the vault exactly the
  -- liquid buffer and the queued withdrawals. Of the `n` lamports that it takes, the team's wallet
  -- gets the team's rate of all of them, the veRISE vault gets the holders' rate of all of them, and
  -- the reserve's vault the rest; the treasury books the reserve's and the holders' shares.
  pub collect_fees_sweeps :
      (governance : Pubkey) (b : B) (r : ProtocolTreasury × B)
      → collect_fees rt governance a b ≡ ok r
      → (n : ℕ) × (s : Shares) × (rt.lamports b a.pool_vault ≡ rt.lamports r.1 a.pool_vault + n)
        × (rt.lamports r.1 a.pool_vault
            ≡ a.pool.liquid_buffer_lamports + a.pool.pending_withdrawals_lamports)
        × (s.team ≡ n * a.treasury.team_fee_bps / 10_000)
        × (s.verise ≡ n * a.treasury.verise_share_bps / 10_000)
        × (s.team + s.reserve + s.verise ≡ n)
        × (r.0.reserve_lamports ≡ a.treasury.reserve_lamports + s.reserve)
        × (rt.lamports r.1 a.team_wallet ≡ rt.lamports b a.team_wallet + s.team)
        × (rt.lamports r.1 a.reserve_vault ≡ rt.lamports b a.reserve_vault + s.reserve)
        × (rt.lamports r.1 a.verise_vault ≡ rt.lamports b a.verise_vault + s.verise)
        × (r.0.total_distributed ≡ a.treasury.total_distributed + s.verise)
  collect_fees_sweeps governance b r h = elim (collect_fees-cases rt governance a b r h) [
    | inl (nothing, e) ↦
        let left = sweepable-eq rt a b 0 nothing in
        (
          0,
          record { team = 0; reserve = 0; verise = 0 },
          rw e (omega arith),
          rw e (omega (arith, left)),
          omega arith,
          omega arith,
          refl,
          rw e (omega arith),
          rw e (omega arith),
          rw e (omega arith),
          rw e (omega arith),
          rw e (omega arith),
        )
    | inr (n, s, fees, split, sent) ↦
        let left = sweepable-eq rt a b n fees in
        let shares = split_fees-eq a.treasury n s split in
        let moved = distribute-eq s b r sent in
        let paid = distribute-pays s b r sent in
        (
          n,
          s,
          omega (arith, shares, moved),
          omega (arith, left, shares, moved),
          shares.0,
          shares.1,
          shares.2,
          moved.1,
          paid.0,
          paid.1,
          paid.2,
          moved.2,
        )
  ]

-- Two rates whose sum is more than the whole take more than there is, from 20000 lamports on.
over_whole :
    (fee share n : ℕ)
    → 10_000 < fee + share
    → 20_000 ≤ n
    → n < n * fee / 10_000 + n * share / 10_000
over_whole fee share n over much =
    let whole : n * 10_001 ≤ n * (fee + share) = mul-le-mul_left n (omega arith) in omega arith

initialize_treasury-eq :
    (authority : Pubkey) (bump epoch : ℕ) (wallet : Pubkey) (fee share : ℕ) (t : ProtocolTreasury)
    → initialize_treasury authority bump epoch wallet fee share ≡ ok t
    → (t.team_fee_bps ≡ fee) × (t.verise_share_bps ≡ share)
unfolding initialize_treasury
initialize_treasury-eq authority bump epoch wallet fee share t h = ground arith

-- The initialisation checks each of the two rates alone. If it accepts rates that together are more
-- than the whole, no collection that finds 20000 lamports or more to sweep succeeds.
pub initialize_treasury_may_block_fees :
    (authority : Pubkey) (bump epoch : ℕ) (wallet : Pubkey) (fee share : ℕ) {B : Type 0}
    (rt : Runtime B) (governance : Pubkey) (a : CollectFees) (b : B) (n : ℕ)
    → initialize_treasury authority bump epoch wallet fee share ≡ ok a.treasury
    → 10_000 < fee + share
    → sweepable rt a b ≡ ok n
    → 20_000 ≤ n
    → (r : ProtocolTreasury × B) → collect_fees rt governance a b ≢ ok r
initialize_treasury_may_block_fees authority bump epoch wallet fee share rt governance a b n init
      over fees much r h =
    let (e_fee, e_share) =
      initialize_treasury-eq authority bump epoch wallet fee share a.treasury init in
    elim (collect_fees-cases rt governance a b r h) [
      | inl (nothing, _) ↦ omega (arith, sweepable-eq rt a b n fees, sweepable-eq rt a b 0 nothing)
      | inr (m, s, fees', split, _) ↦
          let same : m ≡ n =
            omega (arith, sweepable-eq rt a b n fees, sweepable-eq rt a b m fees') in
          let shares = split_fees-eq a.treasury m s split in
          let more = over_whole fee share n over much in
          let shares' = rw (same, e_fee, e_share) at shares in omega (arith, shares', more)
    ]
