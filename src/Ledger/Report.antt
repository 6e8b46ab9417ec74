-- ===== src/Ledger/Report.antt =====
-- The result of `computePnl` (offchain/app-core/src/pnl.ts). The texts of the reasons hold checksummed
-- addresses, which are viem's, so their order is an argument, `reason_order`. The value is what the
-- source hands to the parser of its schema.
pub mod Complete
use Prim.Native.Nat.{Ordering}
use cpredict.Prelude.{
  ℕ, ◌+◌, Bool, true, false, not, ◌&&◌, Option, none, some, List, [], ◌∷◌, String, ltb, ◌==◌,
  if◌then◌else◌, any,
}
use cpredict.Prelude.Int.{ℤ, pos, ◌+ℤ◌}
use cpredict.Prelude.Dict.{Dict}
use cpredict.Prelude.Sort.{sort_by}
use cpredict.Ledger.Fact.{LedgerFact}
use cpredict.Ledger.Lot.{Lot}
use cpredict.Ledger.State.{Query, Entry, State, Reason, at_market, add_reason, relevant}
use cpredict.Ledger.Step.{run_sorted}

pub record LotView : Type 0 where
  pub market : ℕ
  pub outcome_id : ℕ
  pub units : ℕ
  pub escrow_units : ℕ
  pub known_cost : ℕ
  pub cost_complete : Bool

pub record Pnl : Type 0 where
  pub owner : ℕ
  pub realized_net : Option ℤ
  pub known_realized_net : ℤ
  pub complete : Bool
  pub missing_reasons : List Reason
  pub lots : List LotView
  pub entries : List Entry
  pub creator_income : ℕ
  pub creator_claimed : ℕ
  pub bond_locked : ℤ
  pub bond_credited : ℕ
  pub bond_claimed : ℕ
  pub bond_slashed : ℕ
  pub payment_in : ℕ
  pub payment_out : ℕ
  pub gas_cost : ℕ

-- `selectedLots`
unfoldable pub selected_lots : Query → Dict (ℕ × ℕ) Lot → List Lot
selected_lots q [] = []
selected_lots q ((_, lot) ∷ rest) =
    let others = selected_lots q rest in
    if relevant q.markets (some lot.market) then lot ∷ others else others

unfoldable pub lot_reasons : List Lot → List Reason → List Reason
lot_reasons [] rs = rs
lot_reasons (lot ∷ rest) rs = lot_reasons rest (
    if ltb 0 lot.units && not lot.complete
    then add_reason (at_market "unknown_acquisition_cost" (some lot.market)) rs
    else rs)

unfoldable pub lot_views : List Lot → List LotView
lot_views [] = []
lot_views (lot ∷ rest) =
    let others = lot_views rest in
    if ltb 0 lot.units
    then record {
      market = lot.market;
      outcome_id = lot.outcome_id;
      units = lot.units;
      escrow_units = lot.escrow;
      known_cost = lot.cost;
      cost_complete = lot.complete;
    }
      ∷ others
    else others

abbrev pub or_zero_ℤ : Option ℤ → ℤ
or_zero_ℤ none = pos 0
or_zero_ℤ (some n) = n

-- `entries.reduce((total, e) => total + BigInt(e.amount ?? "0"), 0n)`
unfoldable pub net_from : ℤ → List Entry → ℤ
net_from total [] = total
net_from total (e ∷ es) = net_from (total +ℤ or_zero_ℤ e.amount) es

abbrev is_empty : List Reason → Bool
is_empty [] = true
is_empty (_ ∷ _) = false

module _ (reason_order : Reason → Reason → Ordering) where
  unfoldable pub report : Query → State → Pnl
  unfolding selected_lots lot_reasons lot_views net_from sort_by add_reason
  report q s =
      let selected = selected_lots q s.lots in
      let reasons = lot_reasons selected s.reasons in
      let known = net_from (pos 0) s.entries in
      record {
        owner = q.owner;
        realized_net = if is_empty reasons then some known else none;
        known_realized_net = known;
        complete = is_empty reasons;
        missing_reasons = sort_by reason_order reasons;
        lots = lot_views selected;
        entries = s.entries;
        creator_income = s.creator_income;
        creator_claimed = s.creator_claimed;
        bond_locked = s.bonds.locked;
        bond_credited = s.bonds.credited;
        bond_claimed = s.bonds.claimed;
        bond_slashed = s.bonds.slashed;
        payment_in = s.payment_in;
        payment_out = s.payment_out;
        gas_cost = s.gas_cost;
      }

  unfoldable pub compute_pnl : (String → String) → Query → List LedgerFact → Pnl
  unfolding run_sorted report
  compute_pnl keccak q facts = report q (run_sorted keccak q facts)
