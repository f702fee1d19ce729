-- ===== src/Cdp/Tracking.antt =====
-- programs/rise-cdp: the totals of minted principal are the sum of the positions' principals.
use rise_protocol.Cdp.Totals.{
  Step, Change, opens, changes, claims, accrues, sets_ceiling, checkpoints, borrows, adds,
  withdraws, repays, repays_rise_sol, closes, liquidates,
}
use rise_protocol.Prelude.{
  Replaced, Removed, replaced_here, replaced_later, removed_here, removed_later, sum_by,
  Replaced-sum, Removed-sum, Bool, ◌⊎◌, inl, inr, sym, ◌∙◌, ap, ℕ, ◌≡◌, true, false, ok, arith,
  refl, List, [], ◌∷◌,
}
use rise_protocol.Solana.{Pubkey, Runtime}
use rise_protocol.Cdp.State.{CdpPosition, CdpConfig, BorrowRewardsConfig}
use rise_protocol.Cdp.Oracle.{Markets}
use rise_protocol.Cdp.Loan.{Loan, Addresses, Route}
use rise_protocol.Cdp.Totals.{Holds, Books}
use rise_protocol.Cdp.Interest.{AccrueInterest, add_interest, accrue, accrue_interest}
use rise_protocol.Cdp.Config.{update_debt_ceiling}
use rise_protocol.Cdp.Rewards.{emit_borrow_rewards, checkpoint_borrow_rewards}
use rise_protocol.Cdp.Effects.{
  open_position-eq, withdraw_excess-eq, add_collateral-eq, borrow_more-eq, Tracks,
}
use rise_protocol.Cdp.Close.{check_claim, claim_collateral}
use rise_protocol.Cdp.Repayments.{
  liquidate-Tracks, close_position-Tracks, repay_debt_rise_sol-Tracks, repay_debt-Tracks,
}

abbrev pub principals : List CdpPosition → ℕ
principals = sum_by (λ p. p.rise_sol_debt_principal)

-- A closed position owes no principal.
abbrev pub IsClear : CdpPosition → Type 0
IsClear p = (p.is_open ≡ true) ⊎ (p.rise_sol_debt_principal ≡ 0)

true_or_zero : (b : Bool) {n : ℕ} → ((b ≡ false) → n ≡ 0) → (b ≡ true) ⊎ (n ≡ 0)
true_or_zero true h = inl refl
true_or_zero false h = inr (h refl)

open_or_owes_none :
    (p : CdpPosition) → ((p.is_open ≡ false) → p.rise_sol_debt_principal ≡ 0) → IsClear p
open_or_owes_none p h = true_or_zero p.is_open h

clear_if_closed : (p : CdpPosition) → p.is_open ≡ false → IsClear p → p.rise_sol_debt_principal ≡ 0
clear_if_closed p closed (inl e) = let contradiction : ⊥ = cc in elim contradiction [ ]
clear_if_closed p closed (inr e) = e

abbrev pub AllClear : List CdpPosition → Type 0
AllClear [] = Unit {0}
AllClear (p ∷ ps) = IsClear p × AllClear ps

pub record IsTracked (w : Books) : Type 0 where
  pub minted_total : w.config.cdp_rise_sol_minted ≡ principals w.positions
  pub debt_total : w.rewards.total_cdp_debt ≡ principals w.positions
  pub all_clear : AllClear w.positions

Replaced-AllClear :
    {p q : CdpPosition} {ps qs : List CdpPosition}
    → Replaced p q ps qs
    → IsClear q
    → AllClear ps
    → AllClear qs
Replaced-AllClear replaced_here clear all = (clear, all.1)
Replaced-AllClear (replaced_later r) clear all = (all.0, Replaced-AllClear r clear all.1)

Replaced-IsClear :
    {p q : CdpPosition} {ps qs : List CdpPosition} → Replaced p q ps qs → AllClear ps → IsClear p
Replaced-IsClear replaced_here all = all.0
Replaced-IsClear (replaced_later r) all = Replaced-IsClear r all.1

Removed-AllClear :
    {p : CdpPosition} {ps qs : List CdpPosition}
    → Removed p ps qs
    → AllClear ps
    → IsClear p × AllClear qs
Removed-AllClear removed_here all = all
Removed-AllClear (removed_later r) all =
    let (one, rest) = Removed-AllClear r all.1 in (one, (all.0, rest))

accrue_interest-keeps :
    (a : AccrueInterest) (t : ℕ) (p : CdpPosition)
    → accrue_interest a t ≡ ok p
    → (p.rise_sol_debt_principal ≡ a.position.rise_sol_debt_principal) × (p.is_open ≡ true)
unfolding accrue_interest accrue add_interest
accrue_interest-keeps a t p h = ground arith

update_debt_ceiling-keeps :
    (signer : Pubkey) (c : CdpConfig) (n : ℕ) (c' : CdpConfig)
    → update_debt_ceiling signer c n ≡ ok c'
    → c'.cdp_rise_sol_minted ≡ c.cdp_rise_sol_minted
unfolding update_debt_ceiling
update_debt_ceiling-keeps signer c n c' h = ground arith

checkpoint-keeps :
    (c : BorrowRewardsConfig) (slot : ℕ) (c' : BorrowRewardsConfig)
    → checkpoint_borrow_rewards c slot ≡ ok c'
    → c'.total_cdp_debt ≡ c.total_cdp_debt
unfolding checkpoint_borrow_rewards emit_borrow_rewards
checkpoint-keeps c slot c' h = ground arith

-- A step that is tracked in both totals, with one position replaced.
Tracks-IsTracked :
    (w w' : Books) (l l' : Loan)
    → Tracks l l'
    → Holds w l
    → Holds w' l'
    → Replaced l.position l'.position w.positions w'.positions
    → IsTracked w
    → IsTracked w'
Tracks-IsTracked w w' l l' t h h' r i =
    let (same, le) = Replaced-sum (λ p. p.rise_sol_debt_principal) r in
    let config : w.config.cdp_rise_sol_minted ≡ l.cdp_config.cdp_rise_sol_minted =
      ap (λ c. c.cdp_rise_sol_minted) h.same_config in
    let config' : w'.config.cdp_rise_sol_minted ≡ l'.cdp_config.cdp_rise_sol_minted =
      ap (λ c. c.cdp_rise_sol_minted) h'.same_config in
    let debt : w.rewards.total_cdp_debt ≡ l.borrow_rewards_config.total_cdp_debt =
      ap (λ c. c.total_cdp_debt) h.same_rewards in
    let debt' : w'.rewards.total_cdp_debt ≡ l'.borrow_rewards_config.total_cdp_debt =
      ap (λ c. c.total_cdp_debt) h'.same_rewards in
    let minted_total = i.minted_total in
    let debt_total = i.debt_total in
    let minted = t.minted_tracks (omega arith) in
    let total = t.debt_tracks (omega arith) in
    record {
      minted_total = omega arith;
      debt_total = omega arith;
      all_clear = Replaced-AllClear r (open_or_owes_none l'.position t.closed_clear) i.all_clear;
    }

module _ {B : Type 0} (rt : Runtime B) (mk : Markets B) where
  claim_collateral-keeps :
      (k : Addresses) (l : Loan) (r : Route) (b : B) (l' : Loan) (b' : B)
      → claim_collateral rt mk k l r b ≡ ok (l', b')
      → (l.position.is_open ≡ false)
        × (l'.cdp_config ≡ l.cdp_config)
        × (l'.borrow_rewards_config ≡ l.borrow_rewards_config)
  unfolding claim_collateral check_claim
  claim_collateral-keeps k l r b l' b' h = ground arith

  Change-Tracks : {l l' : Loan} → Change rt mk l l' → IsClear l.position → Tracks l l'
  Change-Tracks {l = l} {l' = l'} (borrows k n b b' h) clear =
      let (opened, principal, minted, total) = borrow_more-eq rt mk k l n b l' b' h in
      record {
        minted_tracks = λ le. omega arith;
        debt_tracks = λ le. omega arith;
        closed_clear = λ closed. let contradiction : ⊥ = cc in elim contradiction [ ];
      }
  Change-Tracks {l = l} {l' = l'} (adds k n b b' h) clear =
      let (opened, principal, minted, total) = add_collateral-eq rt mk k l n b l' b' h in
      record {
        minted_tracks = λ le. cc;
        debt_tracks = λ le. cc;
        closed_clear = λ closed. principal ∙ clear_if_closed l.position (sym opened ∙ closed) clear;
      }
  Change-Tracks {l = l} {l' = l'} (withdraws k n b b' h) clear =
      let (opened, principal, minted, total) = withdraw_excess-eq rt mk k l n b l' b' h in
      record {
        minted_tracks = λ le. cc;
        debt_tracks = λ le. cc;
        closed_clear = λ closed. principal ∙ clear_if_closed l.position (sym opened ∙ closed) clear;
      }
  Change-Tracks {l = l} {l' = l'} (repays k n b b' h) clear =
      repay_debt-Tracks rt mk k l n b l' b' h
  Change-Tracks {l = l} {l' = l'} (repays_rise_sol k n b b' h) clear =
      repay_debt_rise_sol-Tracks rt mk k l n b l' b' h
  Change-Tracks {l = l} {l' = l'} (closes k b b' h) clear =
      close_position-Tracks rt mk k l b l' b' h
  Change-Tracks {l = l} {l' = l'} (liquidates k r b b' h) clear =
      liquidate-Tracks rt mk k l r b l' b' h

  pub Step-IsTracked : (w w' : Books) → Step rt mk w w' → IsTracked w → IsTracked w'
  Step-IsTracked w w' (opens k l o b l' b' h hold hold' e) i =
      let (principal, opened, minted, total) = open_position-eq rt mk k l o b l' b' h in
      let minted_total = i.minted_total in
      let debt_total = i.debt_total in
      let config = ap (λ c. c.cdp_rise_sol_minted) hold.same_config in
      let config' = ap (λ c. c.cdp_rise_sol_minted) hold'.same_config in
      let debt = ap (λ c. c.total_cdp_debt) hold.same_rewards in
      let debt' = ap (λ c. c.total_cdp_debt) hold'.same_rewards in
      record {
        minted_total = rw e (omega arith);
        debt_total = rw e (omega arith);
        all_clear = rw e (inl opened, i.all_clear);
      }
  Step-IsTracked w w' (changes l l' c hold hold' r) i =
      Tracks-IsTracked w w' l l' (Change-Tracks c (Replaced-IsClear r i.all_clear)) hold hold' r i
  Step-IsTracked w w' (claims k l r b l' b' h hold hold' removed) i =
      let (closed, config, rewards) = claim_collateral-keeps k l r b l' b' h in
      let same = Removed-sum (λ p. p.rise_sol_debt_principal) removed in
      let (one, rest) = Removed-AllClear removed i.all_clear in
      let nothing = clear_if_closed l.position closed one in
      let minted_total = i.minted_total in
      let debt_total = i.debt_total in
      let config' =
        ap (λ c. c.cdp_rise_sol_minted) (hold'.same_config ∙ config ∙ sym hold.same_config) in
      let debt' =
        ap (λ c. c.total_cdp_debt) (hold'.same_rewards ∙ rewards ∙ sym hold.same_rewards) in
      record { minted_total = omega arith; debt_total = omega arith; all_clear = rest }
  Step-IsTracked w w' (accrues a slot p h config rewards r) i =
      let (principal, opened) = accrue_interest-keeps a slot p h in
      let (same, le) = Replaced-sum (λ p. p.rise_sol_debt_principal) r in
      let minted_total = i.minted_total in
      let debt_total = i.debt_total in
      let config' = ap (λ c. c.cdp_rise_sol_minted) config in
      let debt' = ap (λ c. c.total_cdp_debt) rewards in
      record {
        minted_total = omega arith;
        debt_total = omega arith;
        all_clear = Replaced-AllClear r (inl opened) i.all_clear;
      }
  Step-IsTracked w w' (sets_ceiling signer n c h e) i =
      let kept = update_debt_ceiling-keeps signer w.config n c h in
      rw e (record {
        minted_total = kept ∙ i.minted_total;
        debt_total = i.debt_total;
        all_clear = i.all_clear;
      })
  Step-IsTracked w w' (checkpoints slot c h e) i =
      let kept = checkpoint-keeps w.rewards slot c h in
      rw e (record {
        minted_total = i.minted_total;
        debt_total = kept ∙ i.debt_total;
        all_clear = i.all_clear;
      })
