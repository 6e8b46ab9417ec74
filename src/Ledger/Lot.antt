-- ===== src/Ledger/Lot.antt =====
-- Lots: the shares of one outcome that an account holds, with what it paid for them. `dispose` and
-- the share arithmetic of `acquire` in offchain/app-core/src/pnl.ts.
pub mod Laws
use cpredict.Prelude.{
  ℕ, ◌+◌, ◌-◌, ◌*◌, ◌/◌, Bool, true, false, ◌&&◌, Option, none, some, String, ltb, leb, ◌==◌,
  if◌then◌else◌, is_some,
}

pub record Lot : Type 0 where
  pub market : ℕ
  pub outcome_id : ℕ
  pub units : ℕ
  pub escrow : ℕ
  pub cost : ℕ
  pub complete : Bool
  pub loss_settled : Bool

abbrev pub new_lot : ℕ → ℕ → Lot
new_lot market outcome_id = record {
  market = market;
  outcome_id = outcome_id;
  units = 0;
  escrow = 0;
  cost = 0;
  complete = true;
  loss_settled = false;
}

pub record Disposal : Type 0 where
  pub cost : ℕ
  pub complete : Bool
  pub reason : Option String

-- The source tests `units <= lot.units - lot.escrow` on integers that may be negative.
unfoldable pub sufficient : Lot → ℕ → Bool → Bool
sufficient lot units escrow =
    leb units lot.units
    && (if escrow then leb units lot.escrow else leb (units + lot.escrow) lot.units)

abbrev pub available : Lot → ℕ → ℕ
available lot units = if ltb units lot.units then units else lot.units

-- The share of the cost that leaves with the units; the last units take all that is left.
unfoldable pub disposed_cost : Lot → ℕ → ℕ
disposed_cost lot units =
    if lot.units == 0
    then 0
    else if available lot units == lot.units
    then lot.cost
    else lot.cost * available lot units / lot.units

abbrev escrow_left : Lot → ℕ → Bool → ℕ
escrow_left lot units escrow =
    if escrow
    then (if ltb (available lot units) lot.escrow then lot.escrow - available lot units else 0)
    else lot.escrow

-- What the lot is after a disposal: `lot.escrow` is cut to the units that are left, and an empty lot
-- starts anew.
unfoldable pub lot_after : Lot → ℕ → Bool → Lot
unfolding disposed_cost
lot_after lot units escrow =
    let left = lot.units - available lot units in
    let e = escrow_left lot units escrow in
    record lot {
      units = left;
      cost = lot.cost - disposed_cost lot units;
      escrow = if ltb left e then left else e;
      complete = if left == 0 then true else lot.complete;
      loss_settled = if left == 0 then false else lot.loss_settled;
    }

unfoldable pub disposal_of : Lot → ℕ → Bool → Disposal
unfolding disposed_cost sufficient
disposal_of lot units escrow =
    let enough = sufficient lot units escrow in
    let complete = enough && lot.complete in
    record {
      cost = disposed_cost lot units;
      complete = complete;
      reason =
          if complete
          then none
          else if enough
          then some "unknown_acquisition_cost"
          else some "share_balance_gap";
    }

-- The first four statements of `acquire`; `none` is a cost that is not known.
unfoldable pub lot_with : Lot → ℕ → Option ℕ → Lot
lot_with lot units cost = record lot {
  units = lot.units + units;
  cost = lot.cost + (elim cost [ none ↦ 0 | some c ↦ c ]);
  complete = lot.complete && is_some cost;
  loss_settled = false;
}
