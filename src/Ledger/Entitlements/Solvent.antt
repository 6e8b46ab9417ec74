-- ===== src/Ledger/Entitlements/Solvent.antt =====
-- The shares of a pool, and what is claimable of it.
use native.Mathlib.Nat.{div-mul-le_self, mul-le-mul_left, le_of_mul-le-mul_left}
use cpredict.Prelude.{
  ℕ, ◌+◌, ◌*◌, ◌/◌, ◌≤◌, ◌≡◌, refl, sym, subst, arith, Bool, true, false, ◌||◌, none, some, List,
  [], ◌∷◌, ltb, ◌==◌, if◌then◌else◌, sum, Bool-cases, inl, inr,
}
use cpredict.Ledger.Entitlements.{share_of_pool, or_zero}

share_of_pool-mul :
    (units total pool : ℕ) → or_zero (share_of_pool units total pool) * total ≤ pool * units
unfolding share_of_pool
share_of_pool-mul units total pool = go (total == 0 || ltb total units) (units == total) refl
  where
    go :
        (b c : Bool)
        → (units == total) ≡ c
        → or_zero (if b then none else if c then some pool else some (pool * units / total)) * total
          ≤ pool * units
    go true c e = grind arith
    go false true e =
        let same : units ≡ total = ground (arith, e) in
        subst (λ u. pool * total ≤ pool * u) (sym same) (omega arith)
    go false false e = div-mul-le_self (pool * units) total

-- The shares that the holders are shown.
abbrev pub shares : List ℕ → ℕ → ℕ → ℕ
shares [] total pool = 0
shares (units ∷ holders) total pool =
    or_zero (share_of_pool units total pool) + shares holders total pool

shares-mul :
    (holders : List ℕ) (total pool : ℕ) → shares holders total pool * total ≤ pool * sum holders
shares-mul [] total pool = grind arith
shares-mul (units ∷ holders) total pool =
    grind (arith, share_of_pool-mul units total pool, shares-mul holders total pool)

nothing_to_share : (holders : List ℕ) (pool : ℕ) → shares holders 0 pool ≡ 0
unfolding share_of_pool
nothing_to_share [] pool = refl
nothing_to_share (units ∷ holders) pool = omega (arith, nothing_to_share holders pool)

-- The shares of a pool that the holders are shown add up to no more than the pool, if their units add up to no
-- more than the total: the rounding never pays out more than there is.
pub shares_solvent :
    (holders : List ℕ) (total pool : ℕ) → sum holders ≤ total → shares holders total pool ≤ pool
shares_solvent holders total pool h = elim (Bool-cases (total == 0)) [
  | inl empty ↦
      let same : total ≡ 0 = ground (arith, empty) in
      subst (λ t. shares holders t pool ≤ pool) (sym same)
        (omega (arith, nothing_to_share holders pool))
  | inr some_units ↦
      let below : shares holders total pool * total ≤ pool * sum holders =
        shares-mul holders total pool in
      let above : pool * sum holders ≤ pool * total = mul-le-mul_left pool h in
      le_of_mul-le-mul_left {k = total} (grind arith) (ground (arith, some_units))
]
