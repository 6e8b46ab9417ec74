-- ===== src/Prelude/Sort.antt =====
-- `[...items].sort(compare)`: a stable sort by a comparison. Where the comparison is a total order
-- without ties between different items, the result does not depend on the input's order.
pub mod Laws
pub mod Ascends
use Prim.Native.Nat.{Ordering}
use mathlib.Core.List.{List, [], ◌∷◌, Mem}
use mathlib.Core.Logic.{◌≢◌}
use mathlib.Core.Path.{◌≡◌}

module _ {ℓ} {A : Type ℓ} (order : A → A → Ordering) where
  -- The item goes before the first one that it does not follow, so equal items keep their order.
  unfoldable pub insert_by : A → List A → List A
  insert_by x [] = x ∷ []
  insert_by x (y ∷ ys) =
      let rest = insert_by x ys in elim (order x y) [ Ordering.gt ↦ y ∷ rest | _ ↦ x ∷ y ∷ ys ]

  unfoldable pub sort_by : List A → List A
  unfolding insert_by
  sort_by [] = []
  sort_by (x ∷ xs) = insert_by x (sort_by xs)

-- What is asked of a comparison: it is antisymmetric as a three-way test, and `≤` follows `<`.
pub record IsOrder {ℓ} {A : Type ℓ} (order : A → A → Ordering) : Type ℓ where
  pub gt_flip : (a b : A) → order a b ≡ Ordering.gt → order b a ≡ Ordering.lt
  pub lt_flip : (a b : A) → order a b ≡ Ordering.lt → order b a ≡ Ordering.gt
  pub lt_trans :
      (a b c : A) → order a b ≡ Ordering.lt → order b c ≢ Ordering.gt → order a c ≢ Ordering.gt

-- Items of the list that the comparison does not tell apart are the same.
abbrev pub NoTies {ℓ} : {A : Type ℓ} → (A → A → Ordering) → List A → Type ℓ
NoTies {A = A} order l = (a b : A) → Mem a l → Mem b l → order a b ≡ Ordering.eq → a ≡ b
