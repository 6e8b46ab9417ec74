-- ===== src/Ledger/Trades.antt =====
-- The branches of the loop in `computePnl` (offchain/app-core/src/pnl.ts) for purchases, listings,
-- transfers and resolutions, one function for each.
use cpredict.Prelude.{
  ℕ, ◌+◌, ◌-◌, Bool, false, not, ◌&&◌, ◌||◌, Option, none, some, [], ◌∷◌, String, leb, ltb, ◌==◌,
  if◌then◌else◌, is_some,
}
use cpredict.Prelude.Dict.{Dict, put, nat_eq}
use cpredict.Ledger.Json.{Json, text, integer, get_field, is_false}
use cpredict.Ledger.Fact.{LedgerFact, owns, or_zero}
use cpredict.Ledger.Lot.{Lot}
use cpredict.Ledger.State.{
  Query, State, missing, record_entry, lot_at, set_lot, dispose, acquire, loss_of, settled_lot,
}

-- The locals of the loop's body.
abbrev pub mine : Query → LedgerFact → Bool
mine q f = owns f.owner q.owner

abbrev pub other : Query → LedgerFact → Bool
other q f = owns f.counterparty q.owner

abbrev pub value : LedgerFact → ℕ
value f = or_zero f.amount

abbrev pub units : LedgerFact → ℕ
units f = or_zero f.units

abbrev text_or : Option Json → String → String
text_or (some (text s)) d = s
text_or _ d = d

-- A handler that needs a lot, which the source has only where the fact names one.
abbrev pub with_lot : LedgerFact → (ℕ → ℕ → State → State) → State → State
with_lot f h s = elim f.market [
  | none ↦ s
  | some m ↦ elim f.outcome_id [ none ↦ s | some o ↦ h m o s ]
]

unfoldable pub on_coverage_gap : Query → LedgerFact → State → State
on_coverage_gap q f s =
    if mine q f || other q f
    then missing q f (text_or (get_field "reason" f.extra) "event_gap") s
    else s

unfoldable pub on_primary_buy : Query → LedgerFact → State → State
on_primary_buy q f =
    with_lot f (λ m o s. if mine q f then acquire q f m o (units f) (some (value f)) s else s)

abbrev escrow_gap : Query → LedgerFact → ℕ → ℕ → Lot → State → State
escrow_gap q f m o lot s =
    missing q f "escrow_balance_gap" (set_lot m o (record lot { complete = false }) s)

abbrev lock_units : Query → LedgerFact → ℕ → ℕ → Lot → State → State
lock_units q f m o lot s =
    if ltb lot.units lot.escrow then escrow_gap q f m o lot s else set_lot m o lot s

abbrev lock_more : Lot → ℕ → Lot
lock_more lot u = record lot { escrow = lot.escrow + u }

unfoldable pub on_listing_created : Query → LedgerFact → State → State
on_listing_created q f =
    with_lot f
      (λ m o s. if mine q f then lock_units q f m o (lock_more (lot_at m o s) (units f)) s else s)

-- `lot.escrow = lot.escrow >= units ? lot.escrow - units : 0n`
abbrev unlocked : Lot → ℕ → Lot
unlocked lot u = record lot { escrow = if leb u lot.escrow then lot.escrow - u else 0 }

abbrev unlock_units : Query → LedgerFact → ℕ → ℕ → Lot → State → State
unlock_units q f m o lot s =
    if ltb lot.escrow (units f)
    then escrow_gap q f m o (unlocked lot (units f)) s
    else set_lot m o (unlocked lot (units f)) s

unfoldable pub on_listing_returned : Query → LedgerFact → State → State
on_listing_returned q f =
    with_lot f (λ m o s. if mine q f then unlock_units q f m o (lot_at m o s) s else s)

abbrev proceeds_of : LedgerFact → Option ℕ
proceeds_of f = integer (get_field "sellerProceeds" f.extra)

abbrev net_missing : Option ℕ → Option String → Option String
net_missing none reason = some "seller_net_missing"
net_missing (some _) reason = reason

-- A fill of the account's own listing: no share changes hands.
abbrev self_fill : Query → LedgerFact → ℕ → ℕ → State → State
self_fill q f m o s =
    let lot = lot_at m o s in
    let s' = if ltb lot.escrow (units f) then missing q f "escrow_balance_gap" s else s in
    record_entry q f (or_zero (proceeds_of f))
      (record {
        cost = value f;
        complete = is_some (proceeds_of f);
        reason = net_missing (proceeds_of f) none;
      })
      f.outcome_id (set_lot m o (unlocked lot (units f)) s')

abbrev sell : Query → LedgerFact → ℕ → ℕ → State → State
sell q f m o s =
    let (s', d) = dispose q f m o (units f) (not (is_false (get_field "escrowed" f.extra))) s in
    record_entry q f (or_zero (proceeds_of f))
      (record d {
        complete = d.complete && is_some (proceeds_of f);
        reason = net_missing (proceeds_of f) d.reason;
      })
      f.outcome_id s'

unfoldable pub on_listing_filled : Query → LedgerFact → State → State
on_listing_filled q f = with_lot f (λ m o s.
    if mine q f && other q f
    then self_fill q f m o s
    else let s' = if other q f then sell q f m o s else s in
      if mine q f then acquire q f m o (units f) (some (value f)) s' else s')

-- A transfer moves shares without a sale: the cost that leaves is no loss, and what comes in has no
-- known cost.
unfoldable pub on_share_transfer : Query → LedgerFact → State → State
on_share_transfer q f = with_lot f (λ m o s.
    if mine q f && other q f
    then s
    else let s' = if mine q f then (dispose q f m o (units f) false s).0 else s in
      if other q f then acquire q f m o (units f) none s' else s')

-- A lot of the resolved market that holds shares of another outcome and is not settled yet.
abbrev pub loses : ℕ → ℕ → Lot → Bool
loses m winner lot =
    lot.market == m && not (lot.outcome_id == winner) && ltb 0 lot.units && not lot.loss_settled

unfoldable pub settle_lots : ℕ → ℕ → Dict (ℕ × ℕ) Lot → Dict (ℕ × ℕ) Lot
settle_lots m winner [] = []
settle_lots m winner ((k, lot) ∷ rest) =
    (k, if loses m winner lot then settled_lot lot else lot) ∷ settle_lots m winner rest

unfoldable pub record_losses : Query → LedgerFact → ℕ → ℕ → Dict (ℕ × ℕ) Lot → State → State
record_losses q f m winner [] s = s
record_losses q f m winner ((k, lot) ∷ rest) s =
    record_losses q f m winner rest
      (if loses m winner lot then record_entry q f 0 (loss_of lot) (some lot.outcome_id) s else s)

-- The loop over the lots in `market-resolved`: it records the losses and then settles the lots.
unfoldable pub on_market_resolved : Query → LedgerFact → State → State
on_market_resolved q f = with_lot f (λ m winner s.
    let s' = record_losses q f m winner s.lots (record s { resolved = put m winner s.resolved }) in
    record s' { lots = settle_lots m winner s.lots })
