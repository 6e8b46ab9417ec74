-- ===== src/Ledger/Step/Keeps.antt =====
-- Induction over the branches of the loop: what the five writes to lots, reasons and entries keep,
-- each branch keeps that is made of them.
use cpredict.Prelude.{
  ℕ, Bool, true, false, Option, none, some, List, [], ◌∷◌, String, if◌then◌else◌,
}
use cpredict.Prelude.Dict.{Dict, put, nat_eq}
use cpredict.Ledger.Json.{get_field}
use cpredict.Ledger.Fact.{LedgerFact}
use cpredict.Ledger.Lot.{Lot, Disposal, sufficient}
use cpredict.Ledger.State.{
  Query, State, missing, record_entry, lot_at, set_lot, touch_lot, dispose, acquire, loss_of,
}
use cpredict.Ledger.Trades.{
  mine, other, units, with_lot, loses, on_coverage_gap, on_primary_buy, on_listing_created,
  on_listing_returned, on_listing_filled, on_share_transfer, on_market_resolved, record_losses,
}
use cpredict.Ledger.Step.{
  Burn, nothing_burned, burn_parts, finish_claim, claim_at, is_losing, checked, consumed, on_claim,
  on_bonus,
}

pub record Keeps (q : Query) (f : LedgerFact) (P : State → Type 0) : Type 0 where
  pub set_kept : (m o : ℕ) (lot : Lot) (s : State) → P s → P (set_lot m o lot s)
  pub missing_kept : (reason : String) (s : State) → P s → P (missing q f reason s)
  pub record_kept :
      (proceeds : ℕ) (d : Disposal) (outcome : Option ℕ) (s : State)
      → P s
      → P (record_entry q f proceeds d outcome s)
  pub resolve_kept :
      (m winner : ℕ) (s : State) → P s → P (record s { resolved = put m winner s.resolved })
  pub lots_kept : (ls : Dict (ℕ × ℕ) Lot) (s : State) → P s → P (record s { lots = ls })

pub if-kept {ℓ} :
    {S : Type ℓ} (P : S → Type 0) (b : Bool) {s t : S} → P s → P t → P (if b then s else t)
if-kept P true h g = h
if-kept P false h g = g

module _ {q : Query} {f : LedgerFact} {P : State → Type 0} (k : Keeps q f P) where
  pub touch_lot-kept : (m o : ℕ) (s : State) → P s → P (touch_lot m o s)
  unfolding touch_lot
  touch_lot-kept m o s h = k.set_kept m o (lot_at m o s) s h

  dispose-kept :
      (m o units : ℕ) (escrow : Bool) (s : State) → P s → P (dispose q f m o units escrow s).0
  unfolding dispose
  dispose-kept m o units escrow s h =
      if-kept P (sufficient (lot_at m o s) units escrow) (k.set_kept m o _ s h)
        (k.missing_kept "share_balance_gap" _ (k.set_kept m o _ s h))

  acquire-kept :
      (m o units : ℕ) (cost : Option ℕ) (s : State) → P s → P (acquire q f m o units cost s)
  unfolding acquire
  acquire-kept m o units cost s h =
      if-kept P _ (k.set_kept m o _ _ (k.record_kept 0 _ (some o) s h)) (k.set_kept m o _ s h)

  pub with_lot-kept :
      (h : ℕ → ℕ → State → State)
      → ((m o : ℕ) (s : State) → P s → P (h m o s))
      → (s : State) → P s
      → P (with_lot f h s)
  with_lot-kept h hk s p = go f.market f.outcome_id
    where
      go :
          (m o : Option ℕ)
          → P (elim m [ none ↦ s | some m' ↦ elim o [ none ↦ s | some o' ↦ h m' o' s ] ])
      go none o = p
      go (some m) none = p
      go (some m) (some o) = hk m o s p

  pub on_coverage_gap-kept : (s : State) → P s → P (on_coverage_gap q f s)
  unfolding on_coverage_gap
  on_coverage_gap-kept s h = if-kept P _ (k.missing_kept _ s h) h

  pub on_primary_buy-kept : (s : State) → P s → P (on_primary_buy q f s)
  unfolding on_primary_buy
  on_primary_buy-kept = with_lot-kept _ (λ m o s h. if-kept P _ (acquire-kept m o _ _ s h) h)

  escrow-kept :
      (b : Bool) (m o : ℕ) (lot lot' : Lot) (s : State)
      → P s
      → P (if b then missing q f "escrow_balance_gap" (set_lot m o lot s) else set_lot m o lot' s)
  escrow-kept b m o lot lot' s h =
      if-kept P b (k.missing_kept _ _ (k.set_kept m o lot s h)) (k.set_kept m o lot' s h)

  pub on_listing_created-kept : (s : State) → P s → P (on_listing_created q f s)
  unfolding on_listing_created
  on_listing_created-kept = with_lot-kept _ (λ m o s h. if-kept P _ (escrow-kept _ m o _ _ s h) h)

  pub on_listing_returned-kept : (s : State) → P s → P (on_listing_returned q f s)
  unfolding on_listing_returned
  on_listing_returned-kept = with_lot-kept _ (λ m o s h. if-kept P _ (escrow-kept _ m o _ _ s h) h)

  pub on_listing_filled-kept : (s : State) → P s → P (on_listing_filled q f s)
  unfolding on_listing_filled
  on_listing_filled-kept = with_lot-kept _ (λ m o s h.
      if-kept P _
        (k.record_kept _ _ _ _ (k.set_kept m o _ _ (if-kept P _ (k.missing_kept _ s h) h)))
        (let sold =
            if-kept P (other q f) (k.record_kept _ _ f.outcome_id _ (dispose-kept m o _ _ s h)) h in
          if-kept P (mine q f) (acquire-kept m o _ _ _ sold) sold))

  pub on_share_transfer-kept : (s : State) → P s → P (on_share_transfer q f s)
  unfolding on_share_transfer
  on_share_transfer-kept = with_lot-kept _ (λ m o s h. if-kept P _ h (
      let sent = if-kept P (mine q f) (dispose-kept m o _ _ s h) h in
      if-kept P (other q f) (acquire-kept m o _ _ _ sent) sent))

  record_losses-kept :
      (m winner : ℕ) (ls : Dict (ℕ × ℕ) Lot) (s : State) → P s → P (record_losses q f m winner ls s)
  unfolding record_losses
  record_losses-kept m winner [] s h = h
  record_losses-kept m winner ((_, lot) ∷ ls) s h =
      record_losses-kept m winner ls _
        (if-kept P (loses m winner lot) (k.record_kept 0 (loss_of lot) _ s h) h)

  pub on_market_resolved-kept : (s : State) → P s → P (on_market_resolved q f s)
  unfolding on_market_resolved
  on_market_resolved-kept =
      with_lot-kept _
        (λ m w s h. k.lots_kept _ _ (record_losses-kept m w s.lots _ (k.resolve_kept m w s h)))

  burn_parts-kept :
      (m : ℕ) (parts : List (Option (ℕ × ℕ))) (b : Burn) (s : State)
      → P s
      → P (burn_parts q f m parts b s).1
  unfolding burn_parts
  burn_parts-kept m [] b s h = h
  burn_parts-kept m (none ∷ rest) b s h = burn_parts-kept m rest _ s h
  burn_parts-kept m (some (o, quantity) ∷ rest) b s h =
      burn_parts-kept m rest _ _ (dispose-kept m o quantity false s h)

  pub on_bonus-kept : (s : State) → P s → P (on_bonus q f s)
  unfolding on_bonus
  on_bonus-kept s h = if-kept P (mine q f) (k.record_kept _ _ _ s h) h

  finish_claim-kept : (b : Burn) (s : State) → P s → P (finish_claim q f b s)
  finish_claim-kept b s h =
      if-kept P (is_losing f.kind) (if-kept P _ (k.missing_kept _ s h) h)
        (k.record_kept _ _ f.outcome_id s h)

  claim_at-kept : (m : Option ℕ) (s : State) → P s → P (claim_at q f m s)
  claim_at-kept none s h = h
  claim_at-kept (some m) s h =
      let parts = consumed f (get_field "consumed" f.extra) in
      let r = burn_parts q f m parts nothing_burned s in
      finish_claim-kept (checked r.0 (units f)) r.1 (burn_parts-kept m parts nothing_burned s h)

  pub on_claim-kept : (s : State) → P s → P (on_claim q f s)
  unfolding on_claim
  on_claim-kept s h = if-kept P (mine q f) (claim_at-kept f.market s h) h
