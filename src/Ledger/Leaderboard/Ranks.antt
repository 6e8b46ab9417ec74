-- ===== src/Ledger/Leaderboard/Ranks.antt =====
-- The ranks of a leaderboard.
use mathlib.Core.List.{append_assoc}
use Prim.Native.Nat.{Ordering}
use cpredict.Prelude.{
  ℕ, suc, ◌+◌, ◌≡◌, refl, sym, subst, ap, ◌∙◌, Bool, true, false, Option, none, some, List, [], ◌∷◌,
  ◌++◌, arith, All, All-imp, All-append, length, map, String, if◌then◌else◌,
}
use cpredict.Prelude.Int.{ℤ, pos, negsuc, ◌≤ℤ◌, ltb_ℤ, eq_of_parts}
use cpredict.Prelude.Dict.{Dict}
use cpredict.Ledger.Fact.{LedgerFact}
use cpredict.Ledger.State.{Reason}
use cpredict.Prelude.Sort.{sort_by}
use cpredict.Ledger.Leaderboard.Sorted.{Descends, sort_by-Descends}
use cpredict.Ledger.Leaderboard.{
  Account, Period, score_leaderboard, score_accounts, controls_of, Score, RankedScore, same_net,
  ranks, score_order,
}

-- How many scores are above a net.
abbrev pub above : ℤ → List Score → ℕ
above net [] = 0
above net (v ∷ rest) = (if ltb_ℤ net v.realized_net then 1 else 0) + above net rest

above-append : (net : ℤ) (xs ys : List Score) → above net (xs ++ ys) ≡ above net xs + above net ys
above-append net [] ys = omega arith
above-append net (x ∷ xs) ys = omega (arith, above-append net xs ys)

-- Scores that are all below or at a net, and scores that are all above it.
above_none : (net : ℤ) (xs : List Score) → All (λ v. v.realized_net ≤ℤ net) xs → above net xs ≡ 0
above_none net [] h = refl
above_none net (x ∷ xs) (hx, hs) = ground (arith, above_none net xs hs)

above_each :
    (net : ℤ) (xs : List Score)
    → All (λ v. ltb_ℤ net v.realized_net ≡ true) xs
    → above net xs ≡ length xs
above_each net [] h = refl
above_each net (x ∷ xs) (hx, hs) = ground (arith, above_each net xs hs)

-- A rank is one more than the number of higher scores.
abbrev pub IsRank : List Score → RankedScore → Type 0
IsRank all e = e.rank ≡ suc (above e.score.realized_net all)

-- The scores that were ranked, of which `net` is the last: they stand above or at it, and so does the
-- rank of its entry.
record Ranked (done : List Score) (rank : ℕ) (net : ℤ) : Type 0 where
  first : All (λ v. net ≤ℤ v.realized_net) done
  counted : rank ≡ suc (above net done)

length_snoc : (done : List Score) (v : Score) → length (done ++ v ∷ []) ≡ length done + 1
length_snoc [] v = refl
length_snoc (w ∷ done) v = omega (arith, length_snoc done v)

lower_of : (a b : ℤ) → same_net a b ≡ false → a ≤ℤ b → ltb_ℤ a b ≡ true
lower_of (pos m) (pos n) h k = ground arith
lower_of (pos m) (negsuc n) h k = ground arith
lower_of (negsuc m) (pos n) h k = ground arith
lower_of (negsuc m) (negsuc n) h k = ground arith

lower_trans : (a b c : ℤ) → ltb_ℤ a b ≡ true → b ≤ℤ c → ltb_ℤ a c ≡ true
lower_trans a b c h k = ground arith

-- The rank that the loop gives to the next score.
next_rank :
    (done : List Score) (rank : ℕ) (net : ℤ) (v : Score)
    → Ranked done rank net
    → v.realized_net ≤ℤ net
    → (if same_net v.realized_net net then rank else length done + 1)
      ≡ suc (above v.realized_net done)
next_rank done rank net v h low = go (same_net v.realized_net net) refl
  where
    go :
        (b : Bool)
        → same_net v.realized_net net ≡ b
        → (if b then rank else length done + 1) ≡ suc (above v.realized_net done)
    go true e =
        subst (λ x. rank ≡ suc (above x done)) (eq_of_parts net v.realized_net (ground arith))
          h.counted
    go false e =
        let lower = lower_of v.realized_net net e low in
        omega (
          arith,
          above_each v.realized_net done (
              All-imp (λ w. net ≤ℤ w.realized_net) _ done
                (λ w k. lower_trans v.realized_net net w.realized_net lower k) h.first),
        )

snoc-Ranked :
    (done : List Score) (rank now : ℕ) (net : ℤ) (v : Score)
    → Ranked done rank net
    → v.realized_net ≤ℤ net
    → now ≡ suc (above v.realized_net done)
    → Ranked (done ++ v ∷ []) now v.realized_net
snoc-Ranked done rank now net v h low e = record {
  first =
      All-append (λ w. v.realized_net ≤ℤ w.realized_net) done (v ∷ [])
        (All-imp (λ w. net ≤ℤ w.realized_net) _ done (λ w k. omega arith) h.first)
        (omega arith, tt);
  counted = omega (
    arith,
    above-append v.realized_net done (v ∷ []),
    above_none v.realized_net (v ∷ []) (omega arith, tt),
  );
}

ranks-after :
    (done : List Score) (n rank : ℕ) (net : ℤ) (vs all : List Score)
    → n ≡ length done
    → done ++ vs ≡ all
    → Ranked done rank net
    → All (λ v. v.realized_net ≤ℤ net) vs
    → Descends vs
    → All (IsRank all) (ranks n rank (some net) vs)
unfolding ranks
ranks-after done n rank net [] all len e h low d = tt
ranks-after done n rank net (v ∷ vs) all len e h (lv, lvs) (dv, dvs) =
    let now = if same_net v.realized_net net then rank else n + 1 in
    let right : now ≡ suc (above v.realized_net done) =
      ap (λ k. if same_net v.realized_net net then rank else k + 1) len
      ∙ next_rank done rank net v h lv in
    let counted : above v.realized_net all ≡ above v.realized_net done =
      sym (ap (above v.realized_net) e)
      ∙ omega (
        arith,
        above-append v.realized_net done (v ∷ vs),
        above_none v.realized_net (v ∷ vs) (omega arith, dv),
      ) in
    (
      right ∙ ap suc (sym counted),
      ranks-after (done ++ v ∷ []) (n + 1) now v.realized_net vs all
          (omega (arith, length_snoc done v)) (append_assoc done (v ∷ []) vs ∙ e)
          (snoc-Ranked done rank now net v h lv right) dv dvs,
    )

ranks-IsRank : (vs : List Score) → Descends vs → All (IsRank vs) (ranks 0 1 none vs)
unfolding ranks
ranks-IsRank [] d = tt
ranks-IsRank (v ∷ vs) (dv, dvs) =
    let alone : above v.realized_net (v ∷ []) ≡ 0 =
      above_none v.realized_net (v ∷ []) (omega arith, tt) in
    (
      ap suc (sym (above_none v.realized_net (v ∷ vs) (omega arith, dv))),
      ranks-after (v ∷ []) 1 1 v.realized_net vs (v ∷ vs) refl refl
          (record { first = (omega arith, tt); counted = ap suc (sym alone) }) dv dvs,
    )

score-ranks :
    (n rank : ℕ) (o : Option ℤ) (vs : List Score) → map (λ e. e.score) (ranks n rank o vs) ≡ vs
unfolding ranks
score-ranks n rank o [] = refl
score-ranks n rank none (v ∷ vs) = ap (λ r. v ∷ r) (score-ranks (n + 1) rank _ vs)
score-ranks n rank (some net) (v ∷ vs) = ap (λ r. v ∷ r) (score-ranks (n + 1) _ _ vs)

-- The entries of a leaderboard carry the rank of their score among the scores of all entries: one more
-- than the number of entries with a higher net.
pub score_leaderboard-IsRank :
    (account_order : ℕ → ℕ → Ordering) (reason_order : Reason → Reason → Ordering)
    (keccak : String → String) (period : Period) (accounts : List Account) (facts : List LedgerFact)
    (creators : Dict ℕ ℕ) (complete : List ℕ)
    → let entries =
        (score_leaderboard account_order reason_order keccak period accounts facts creators
          complete).entries in
      All (IsRank (map (λ e. e.score) entries)) entries
unfolding score_leaderboard
score_leaderboard-IsRank account_order reason_order keccak period accounts facts creators complete =
    let scores =
      (score_accounts account_order reason_order keccak period creators (controls_of accounts [])
        complete facts accounts).0 in
    let vs = sort_by (score_order account_order) scores in
    subst (λ all. All (IsRank all) (ranks 0 1 none vs)) (sym (score-ranks 0 1 none vs))
      (ranks-IsRank vs (sort_by-Descends account_order scores))
