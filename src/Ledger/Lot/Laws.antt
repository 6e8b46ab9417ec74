-- ===== src/Ledger/Lot/Laws.antt =====
-- What a disposal takes from a lot and what it leaves.
use native.Mathlib.Nat.{div-le_of_le-mul, div-mul-le_self, lt-div-mul-add}
use cpredict.Prelude.{ℕ, ◌+◌, ◌*◌, ◌/◌, ◌≤◌, ◌<◌, ◌≡◌, ◌↔◌, Bool, true, false, arith}
use cpredict.Ledger.Lot.{Lot, Disposal, available, disposed_cost, lot_after, disposal_of}

-- A share of an amount, rounded down, is at most the amount.
pub part-le : (amount part whole : ℕ) → part ≤ whole → amount * part / whole ≤ amount
part-le amount part whole h = div-le_of_le-mul whole (grind arith)

pub disposed_cost-le : (lot : Lot) (units : ℕ) → disposed_cost lot units ≤ lot.cost
unfolding disposed_cost
disposed_cost-le lot units = ground (arith, part-le lot.cost (available lot units) lot.units)

-- What a disposal keeps.
pub record Splits (lot : Lot) (units : ℕ) (rest : Lot) (d : Disposal) : Type 0 where
  pub cost_kept : d.cost + rest.cost ≡ lot.cost
  pub units_kept : available lot units + rest.units ≡ lot.units
  pub escrow_held : rest.escrow ≤ rest.units

-- In every disposal the cost that leaves and the cost that stays add up to the cost before, the units
-- that leave (those asked for, or all that there are) and those that stay add up to the units before,
-- and the escrow that is left does not pass the units that are left.
pub dispose-Splits :
    (lot : Lot) (units : ℕ) (escrow : Bool)
    → Splits lot units (lot_after lot units escrow) (disposal_of lot units escrow)
unfolding lot_after disposal_of
dispose-Splits lot units escrow = ground (arith, disposed_cost-le lot units)

floor : (n m : ℕ) → 0 < m → (n / m * m ≤ n) × (n < (n / m + 1) * m)
floor n m h = (div-mul-le_self n m, omega (arith, lt-div-mul-add {a = n} h))

-- The cost that leaves with units of a lot that holds some is their exact share, rounded down.
pub disposed_cost_floor :
    (lot : Lot) (units : ℕ)
    → 0 < lot.units
    → (disposed_cost lot units * lot.units ≤ lot.cost * available lot units)
      × (lot.cost * available lot units < (disposed_cost lot units + 1) * lot.units)
unfolding disposed_cost
disposed_cost_floor lot units h = grind (arith, floor (lot.cost * available lot units) lot.units h)

-- A disposal is complete exactly where the units are there, in escrow or outside as asked for, and
-- their cost is known.
pub disposal_complete_iff :
    (lot : Lot) (units : ℕ) (escrow : Bool)
    → ((disposal_of lot units escrow).complete ≡ true) ↔ (
        (units ≤ lot.units)
        × ((escrow ≡ true) → units ≤ lot.escrow)
        × ((escrow ≡ false) → units + lot.escrow ≤ lot.units)
        × (lot.complete ≡ true))
unfolding disposal_of
disposal_complete_iff lot units true = (λ h. ground arith, λ h. ground arith)
disposal_complete_iff lot units false = (λ h. ground arith, λ h. ground arith)
