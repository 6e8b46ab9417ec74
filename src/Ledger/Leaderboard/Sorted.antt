-- ===== src/Ledger/Leaderboard/Sorted.antt =====
-- The scores of a leaderboard, from the highest to the lowest.
use Prim.Native.Nat.{Ordering}
use cpredict.Prelude.{ℕ, ◌≡◌, refl, List, [], ◌∷◌, arith, All, All-imp}
use cpredict.Prelude.Int.{◌≤ℤ◌}
use cpredict.Prelude.Sort.Ascends.{All-insert_by}
use cpredict.Prelude.Sort.{sort_by, insert_by}
use cpredict.Ledger.Leaderboard.{Score, score_order}

-- From the highest score to the lowest.
abbrev pub Descends : List Score → Type 0
Descends [] = Unit
Descends (v ∷ rest) = All (λ w. w.realized_net ≤ℤ v.realized_net) rest × Descends rest

module _ (account_order : ℕ → ℕ → Ordering) where
  order_after :
      (v w : Score) → score_order account_order v w ≡ Ordering.gt → v.realized_net ≤ℤ w.realized_net
  order_after v w e = ground arith

  order_lt :
      (v w : Score) → score_order account_order v w ≡ Ordering.lt → w.realized_net ≤ℤ v.realized_net
  order_lt v w e = ground arith

  order_eq :
      (v w : Score) → score_order account_order v w ≡ Ordering.eq → w.realized_net ≤ℤ v.realized_net
  order_eq v w e = ground arith

  insert_by-Descends :
      (v : Score) (vs : List Score)
      → Descends vs
      → Descends (insert_by (score_order account_order) v vs)
  unfolding insert_by
  insert_by-Descends v [] h = (tt, tt)
  insert_by-Descends v (w ∷ vs) (hw, hs) =
      go (score_order account_order v w) refl (insert_by-Descends v vs hs)
    where
      below :
          w.realized_net ≤ℤ v.realized_net → All (λ u. u.realized_net ≤ℤ v.realized_net) (w ∷ vs)
      below k = (k, All-imp (λ u. u.realized_net ≤ℤ w.realized_net) _ vs (λ u l. omega arith) hw)

      go :
          (o : Ordering)
          → score_order account_order v w ≡ o
          → Descends (insert_by (score_order account_order) v vs)
          → Descends (elim o [
            | Ordering.gt ↦ w ∷ insert_by (score_order account_order) v vs
            | _ ↦ v ∷ w ∷ vs
          ])
      go Ordering.gt e r =
          (All-insert_by (score_order account_order) _ v vs (order_after v w e) hw, r)
      go Ordering.lt e r = (below (order_lt v w e), (hw, hs))
      go Ordering.eq e r = (below (order_eq v w e), (hw, hs))

  pub sort_by-Descends : (vs : List Score) → Descends (sort_by (score_order account_order) vs)
  unfolding sort_by
  sort_by-Descends [] = tt
  sort_by-Descends (v ∷ vs) =
      insert_by-Descends v (sort_by (score_order account_order) vs) (sort_by-Descends vs)
