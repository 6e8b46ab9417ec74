-- ===== src/Ledger/State.antt =====
-- The state of `computePnl` (offchain/app-core/src/pnl.ts) while it reads the facts, and its local
-- functions `included`, `relevantMarket`, `missing`, `record`, `dispose` and `acquire`.
use cpredict.Prelude.{
  ℕ, Bool, true, false, not, ◌&&◌, Option, none, some, List, [], ◌∷◌, ◌++◌, String, leb, ltb, ◌==◌,
  if◌then◌else◌, any, str_eq,
}
use cpredict.Prelude.Int.{ℤ, pos, ◌-ℤ◌}
use cpredict.Prelude.Dict.{Dict, get, put, nat_eq, pair_eq}
use cpredict.Ledger.Fact.{FactKind, LedgerFact}
use cpredict.Ledger.Lot.{Lot, Disposal, new_lot, sufficient, lot_after, disposal_of, lot_with}
use cpredict.Ledger.Bonds.{Bonds}

-- The text `reason:market`, with `none` for `account`, and the one reason without a colon.
pub data Reason : Type 0 where
  history_coverage_incomplete : Reason
  at_market : String → Option ℕ → Reason

abbrev same_market : Option ℕ → Option ℕ → Bool
same_market none none = true
same_market (some a) (some b) = a == b
same_market _ _ = false

abbrev same_reason : Reason → Reason → Bool
same_reason history_coverage_incomplete history_coverage_incomplete = true
same_reason (at_market r m) (at_market r' m') = str_eq r r' && same_market m m'
same_reason _ _ = false

-- `PnlOptions`, and the account that the report is about.
pub record Query : Type 0 where
  pub owner : ℕ
  pub coverage_complete : Bool
  pub from : Option ℕ
  pub to : Option ℕ
  pub markets : Option (List ℕ)

pub record Entry : Type 0 where
  pub fact_id : String
  pub market : ℕ
  pub outcome_id : Option ℕ
  pub kind : FactKind
  pub timestamp : ℕ
  pub amount : Option ℤ
  pub proceeds : ℕ
  pub allocated_cost : ℕ
  pub complete : Bool
  pub reason : Option String

pub record State : Type 0 where
  pub lots : Dict (ℕ × ℕ) Lot
  pub seen : List String
  pub reasons : List Reason
  pub resolved : Dict ℕ ℕ
  pub entries : List Entry
  pub bonds : Bonds
  pub creator_income : ℕ
  pub creator_claimed : ℕ
  pub payment_in : ℕ
  pub payment_out : ℕ
  pub gas_cost : ℕ

-- `reasons.add(reason)` on a set in insertion order.
unfoldable pub add_reason : Reason → List Reason → List Reason
add_reason r rs = if any (same_reason r) rs then rs else rs ++ r ∷ []

abbrev pub at_least : Option ℕ → ℕ → Bool
at_least none t = true
at_least (some b) t = leb b t

abbrev pub before : Option ℕ → ℕ → Bool
before none t = true
before (some b) t = ltb t b

-- `markets === undefined || (f.market !== null && markets.has(f.market.toLowerCase()))`
abbrev pub relevant : Option (List ℕ) → Option ℕ → Bool
relevant none m = true
relevant (some ms) none = false
relevant (some ms) (some m) = any (λ x. x == m) ms

abbrev pub included : Query → LedgerFact → Bool
included q f = at_least q.from f.timestamp && before q.to f.timestamp && relevant q.markets f.market

unfoldable pub missing : Query → LedgerFact → String → State → State
unfolding add_reason
missing q f reason s =
    if relevant q.markets f.market
    then record s { reasons = add_reason (at_market reason f.market) s.reasons }
    else s

abbrev pub reason_or : Option String → String → String
reason_or none d = d
reason_or (some r) d = r

abbrev pub entry_of : LedgerFact → ℕ → ℕ → Disposal → Option ℕ → Entry
entry_of f market proceeds d outcome = record {
  fact_id = f.id;
  market = market;
  outcome_id = outcome;
  kind = f.kind;
  timestamp = f.timestamp;
  amount = if d.complete then some (pos proceeds -ℤ pos d.cost) else none;
  proceeds = proceeds;
  allocated_cost = d.cost;
  complete = d.complete;
  reason = d.reason;
}

-- The part of `record` behind its first line.
abbrev pub push_entry : Query → LedgerFact → ℕ → ℕ → Disposal → Option ℕ → State → State
push_entry q f market proceeds d outcome s =
    let s' = if d.complete then s else missing q f (reason_or d.reason "unknown_cost") s in
    record s' { entries = s'.entries ++ entry_of f market proceeds d outcome ∷ [] }

abbrev pub record_at : Query → LedgerFact → Option ℕ → ℕ → Disposal → Option ℕ → State → State
record_at q f none proceeds d outcome s = s
record_at q f (some market) proceeds d outcome s =
    if included q f then push_entry q f market proceeds d outcome s else s

-- `record(f, proceeds, disposal, outcomeId)`
unfoldable pub record_entry : Query → LedgerFact → ℕ → Disposal → Option ℕ → State → State
record_entry q f proceeds d outcome s = record_at q f f.market proceeds d outcome s

abbrev or_new : ℕ → ℕ → Option Lot → Lot
or_new market outcome none = new_lot market outcome
or_new market outcome (some lot) = lot

-- The lot that `getLot` finds or makes, and the map with that lot in it.
unfoldable pub lot_at : ℕ → ℕ → State → Lot
unfolding get
lot_at market outcome s = or_new market outcome (get (market, outcome) s.lots)

unfoldable pub set_lot : ℕ → ℕ → Lot → State → State
unfolding put
set_lot market outcome lot s = record s { lots = put (market, outcome) lot s.lots }

unfoldable pub touch_lot : ℕ → ℕ → State → State
touch_lot market outcome s = set_lot market outcome (lot_at market outcome s) s

-- `dispose(f, getLot(market, outcome), units, escrow)`
unfoldable pub dispose : Query → LedgerFact → ℕ → ℕ → ℕ → Bool → State → State × Disposal
dispose q f market outcome units escrow s =
    let lot = lot_at market outcome s in
    let s' = set_lot market outcome (lot_after lot units escrow) s in
    (
      if sufficient lot units escrow then s' else missing q f "share_balance_gap" s',
      disposal_of lot units escrow,
    )

-- What a lot that has lost still has cost.
abbrev pub loss_of : Lot → Disposal
loss_of lot = record {
  cost = lot.cost;
  complete = lot.complete;
  reason = if lot.complete then none else some "unknown_acquisition_cost";
}

abbrev pub settled_lot : Lot → Lot
settled_lot lot = record lot { cost = 0; loss_settled = true }

-- `winner !== undefined && winner !== lot.outcomeId`
abbrev pub has_lost : Option ℕ → ℕ → Bool
has_lost none outcome = false
has_lost (some winner) outcome = not (winner == outcome)

-- `acquire(f, getLot(market, outcome), units, cost)`
unfoldable pub acquire : Query → LedgerFact → ℕ → ℕ → ℕ → Option ℕ → State → State
acquire q f market outcome units cost s =
    let lot = lot_with (lot_at market outcome s) units cost in
    if has_lost (get market s.resolved) outcome
    then set_lot market outcome (settled_lot lot)
        (record_entry q f 0 (loss_of lot) (some outcome) s)
    else set_lot market outcome lot s
