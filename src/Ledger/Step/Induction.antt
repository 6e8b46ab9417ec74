-- ===== src/Ledger/Step/Induction.antt =====
-- Induction over the whole loop: what each write to the state keeps, every run keeps.
use cpredict.Prelude.{ℕ, Option, none, some, List, [], ◌∷◌, String}
use cpredict.Prelude.Sort.{sort_by}
use cpredict.Ledger.Fact.{
  FactKind, LedgerFact, financial_order, primary_buy, listing_created, listing_filled,
  listing_cancelled, listing_returned, market_resolved, winner_claimed, early_bird_claimed,
  refunded, timeout_claimed, losing_burned, share_transfer, payment_transfer, bond_locked,
  bond_credited, bond_timeout_funded, bond_claimed, fee_accrued, fee_claimed, user_operation,
  coverage_gap,
}
use cpredict.Ledger.Bonds.{lock_bond, credit_bond, fund_timeout, claim_bond}
use cpredict.Ledger.State.{Query, State, touch_lot}
use cpredict.Ledger.Trades.{mine, value}
use cpredict.Ledger.Step.{
  process, on_fee_accrued, on_payment_transfer, handle, step, run, run_sorted, start,
}
use cpredict.Ledger.Step.Keeps.{
  Keeps, if-kept, with_lot-kept, touch_lot-kept, on_coverage_gap-kept, on_primary_buy-kept,
  on_listing_created-kept, on_listing_returned-kept, on_listing_filled-kept, on_share_transfer-kept,
  on_market_resolved-kept, on_claim-kept, on_bonus-kept,
}

-- The writes to the bonds, the totals and the facts seen.
pub record KeepsTotals (P : State → Type 0) : Type 0 where
  pub lock_kept : (m v : ℕ) (s : State) → P s → P (record s { bonds = lock_bond m v s.bonds })
  pub credit_kept : (m v : ℕ) (s : State) → P s → P (record s { bonds = credit_bond m v s.bonds })
  pub timeout_kept : (m v : ℕ) (s : State) → P s → P (record s { bonds = fund_timeout m v s.bonds })
  pub claim_kept : (v : ℕ) (s : State) → P s → P (record s { bonds = claim_bond v s.bonds })
  pub income_kept : (n : ℕ) (s : State) → P s → P (record s { creator_income = n })
  pub claimed_kept : (n : ℕ) (s : State) → P s → P (record s { creator_claimed = n })
  pub payment_kept : (n m : ℕ) (s : State) → P s → P (record s { payment_out = n; payment_in = m })
  pub gas_kept : (n : ℕ) (s : State) → P s → P (record s { gas_cost = n })
  pub seen_kept : (id : String) (s : State) → P s → P (record s { seen = id ∷ s.seen })

at_market-kept :
    (P : State → Type 0) (m : Option ℕ) {s : State} {h : ℕ → State}
    → ((m : ℕ) → P (h m))
    → P s
    → P (elim m [ none ↦ s | some m' ↦ h m' ])
at_market-kept P none g p = p
at_market-kept P (some m) g p = g m

module _ (keccak : String → String) (q : Query) {P : State → Type 0}
    (k : (f : LedgerFact) → Keeps q f P) (t : KeepsTotals P) where
  handle-kept : (kind : FactKind) (f : LedgerFact) (s : State) → P s → P (handle keccak q kind f s)
  unfolding handle on_fee_accrued on_payment_transfer
  handle-kept coverage_gap f s h = on_coverage_gap-kept (k f) s h
  handle-kept primary_buy f s h = on_primary_buy-kept (k f) s h
  handle-kept listing_created f s h = on_listing_created-kept (k f) s h
  handle-kept listing_cancelled f s h = on_listing_returned-kept (k f) s h
  handle-kept listing_returned f s h = on_listing_returned-kept (k f) s h
  handle-kept listing_filled f s h = on_listing_filled-kept (k f) s h
  handle-kept share_transfer f s h = on_share_transfer-kept (k f) s h
  handle-kept market_resolved f s h = on_market_resolved-kept (k f) s h
  handle-kept winner_claimed f s h = on_claim-kept (k f) s h
  handle-kept refunded f s h = on_claim-kept (k f) s h
  handle-kept losing_burned f s h = on_claim-kept (k f) s h
  handle-kept early_bird_claimed f s h = on_bonus-kept (k f) s h
  handle-kept timeout_claimed f s h = on_bonus-kept (k f) s h
  handle-kept bond_locked f s h =
      if-kept P (mine q f) (at_market-kept P f.market (λ m. t.lock_kept m (value f) s h) h) h
  handle-kept bond_credited f s h =
      if-kept P (mine q f) (at_market-kept P f.market (λ m. t.credit_kept m (value f) s h) h) h
  handle-kept bond_timeout_funded f s h =
      at_market-kept P f.market (λ m. t.timeout_kept m (value f) s h) h
  handle-kept bond_claimed f s h = if-kept P (mine q f) (t.claim_kept (value f) s h) h
  handle-kept fee_accrued f s h = if-kept P _ (t.income_kept _ s h) h
  handle-kept fee_claimed f s h = if-kept P _ (t.claimed_kept _ s h) h
  handle-kept payment_transfer f s h = if-kept P _ (t.payment_kept _ _ s h) h
  handle-kept user_operation f s h = if-kept P _ (t.gas_kept _ s h) h
  handle-kept _ f s h = h

  pub process-kept : (f : LedgerFact) (s : State) → P s → P (process keccak q f s)
  process-kept f s h =
      handle-kept f.kind f _ (with_lot-kept (k f) touch_lot (touch_lot-kept (k f)) s h)

  step-kept : (f : LedgerFact) (s : State) → P s → P (step keccak q f s)
  unfolding step
  step-kept f s h =
      if-kept P _ h (let h' = t.seen_kept f.id s h in if-kept P _ (process-kept f _ h') h')

  pub run-kept : (fs : List LedgerFact) (s : State) → P s → P (run keccak q fs s)
  unfolding run
  run-kept [] s h = h
  run-kept (f ∷ fs) s h = run-kept fs (step keccak q f s) (step-kept f s h)

  pub run_sorted-kept : (facts : List LedgerFact) → P (start q) → P (run_sorted keccak q facts)
  unfolding run_sorted
  run_sorted-kept facts h = run-kept (sort_by financial_order facts) (start q) h
