-- ===== src/Ledger/Bonds/Locked.antt =====
-- The amount of locked bonds never falls below what the unsettled bonds add up to, so it is never
-- negative, and the schema of the report accepts it.
use cpredict.Prelude.{
  ℕ, ◌+◌, ◌≤◌, ◌≡◌, true, false, some, [], ◌∷◌, arith, if◌then◌else◌, Option-cases, inl, inr,
}
use cpredict.Prelude.Int.{pos, ◌≤ℤ◌, int_laws}
use cpredict.Prelude.Dict.{Dict, get, put, nat_eq}
use cpredict.Ledger.Bonds.{
  Bond, Bonds, no_bonds, lock_bond, settle_bond, credit_bond, fund_timeout, claim_bond,
}

abbrev open_amount : Bond → ℕ
open_amount b = if b.settled then 0 else b.amount

abbrev pub unsettled : Dict ℕ Bond → ℕ
unsettled [] = 0
unsettled ((_, b) ∷ d) = open_amount b + unsettled d

abbrev pub Covered : Bonds → Type 0
Covered b = pos (unsettled b.by_market) ≤ℤ b.locked

unsettled-put-le :
    (m : ℕ) (b : Bond) (d : Dict ℕ Bond) → unsettled (put m b d) ≤ open_amount b + unsettled d
unfolding put
unsettled-put-le m b [] = omega arith
unsettled-put-le m b ((k, c) ∷ d) = ground (arith, unsettled-put-le m b d)

unsettled-put_found :
    (m : ℕ) (b : Bond) {old : Bond} (d : Dict ℕ Bond)
    → get m d ≡ some old
    → unsettled (put m b d) + open_amount old ≡ open_amount b + unsettled d
unfolding put get
unsettled-put_found m b [] h = cc
unsettled-put_found m b {old = o} ((k, c) ∷ d) h =
    ground (arith, unsettled-put_found m b {old = o} d)

pub lock_bond-Covered : (m v : ℕ) (b : Bonds) → Covered b → Covered (lock_bond m v b)
unfolding lock_bond
lock_bond-Covered m v b h =
    omega (int_laws, unsettled-put-le m (record { amount = v; settled = false }) b.by_market)

settle_bond-Covered :
    (m : ℕ) (bond : Bond) (b : Bonds)
    → get m b.by_market ≡ some bond
    → bond.settled ≡ false
    → Covered b
    → Covered (settle_bond m bond b)
unfolding settle_bond
settle_bond-Covered m bond b e f h =
    grind (int_laws, unsettled-put_found m (record bond { settled = true }) b.by_market e)

pub credit_bond-Covered : (m v : ℕ) (b : Bonds) → Covered b → Covered (credit_bond m v b)
unfolding credit_bond
credit_bond-Covered m v b h = elim (Option-cases (get m b.by_market)) [
  | inl e ↦ rw (e, credit_bond) h
  | inr (bond, e) ↦
      ground (arith, settle_bond-Covered m bond (record b { credited = b.credited + v }) e)
]

pub fund_timeout-Covered : (m v : ℕ) (b : Bonds) → Covered b → Covered (fund_timeout m v b)
unfolding fund_timeout
fund_timeout-Covered m v b h = elim (Option-cases (get m b.by_market)) [
  | inl e ↦ rw (e, fund_timeout) h
  | inr (bond, e) ↦
      ground (arith, settle_bond-Covered m bond (record b { slashed = b.slashed + v }) e)
]

pub claim_bond-Covered : (v : ℕ) (b : Bonds) → Covered b → Covered (claim_bond v b)
unfolding claim_bond
claim_bond-Covered v b h = h

pub no_bonds-Covered : Covered no_bonds
no_bonds-Covered = omega arith

pub covered_nonneg : (b : Bonds) → Covered b → pos 0 ≤ℤ b.locked
covered_nonneg b h = omega arith
