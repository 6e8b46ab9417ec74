-- ===== src/Ledger/Tests.antt =====
-- Runs of the ledger, and its theorems at concrete inputs.
use Prim.Native.Nat.{Ordering, compare}
use cpredict.Ledger.Leaderboard.{Account, Period, Standings, score_leaderboard}
use cpredict.Ledger.Leaderboard.Ranks.{IsRank, score_leaderboard-IsRank}
use mathlib.Core.List.{map}
use mathlib.Core.List.{Mem, mem-cons, not-mem-nil}
use mathlib.Core.List.Perm
use mathlib.Core.Logic.{◌∨₁◌, ∥∥₁_prop}
use mathlib.Core.Logic.Or
use package.text.Mathlib.TextEquality.{IsScalar-prop}
use cpredict.Prelude.Sort.{NoTies}
use cpredict.Ledger.Replay.{compute_pnl-perm, compute_pnl_again}
use cpredict.Prelude.{
  ℕ, ◌+◌, ◌*◌, ◌≤◌, ◌<◌, ◌≡◌, ◌∙◌, sym, ◌↔◌, refl, Bool, true, false, Option, none, some, List, [],
  ◌∷◌, String, arith, All,
}
use cpredict.Prelude.Int.{ℤ, pos, negsuc, ◌+ℤ◌, ◌-ℤ◌, ◌≤ℤ◌}
use cpredict.Ledger.Json.{Fields, end, field, text}
use cpredict.Ledger.Fact.{
  FactKind, LedgerFact, financial_order, primary_buy, listing_created, listing_filled,
  market_resolved,
}
use cpredict.Ledger.State.{Query, Reason}
use cpredict.Ledger.Lot.{Lot, new_lot, disposed_cost, lot_after, disposal_of}
use cpredict.Ledger.Lot.Laws.{Splits, dispose-Splits, disposed_cost_floor, disposal_complete_iff}
use cpredict.Ledger.Step.Window.{Reportable}
use cpredict.Ledger.Report.Complete.{
  IsKnown, HasKnownCost, net, compute_pnl_complete, compute_pnl_sound,
}
use cpredict.Ledger.Report.{compute_pnl}

abbrev everything : Query
everything = record { owner = 7; coverage_complete = true; from = none; to = none; markets = none }

abbrev fact : String → FactKind → ℕ → Option ℕ → Option ℕ → ℕ → ℕ → ℕ → Fields → LedgerFact
fact id kind block owner counterparty outcome units amount extra = record {
  id = id;
  kind = kind;
  block_number = block;
  block_hash = 0;
  transaction_hash = 0;
  transaction_index = 0;
  log_index = 0;
  fact_index = 0;
  timestamp = block * 10;
  market = some 100;
  owner = owner;
  counterparty = counterparty;
  outcome_id = some outcome;
  listing_id = none;
  units = some units;
  amount = some amount;
  extra = extra;
}

abbrev buy : LedgerFact
buy = fact "a" primary_buy 1 (some 7) none 0 3 10 end

abbrev list : LedgerFact
list = fact "b" listing_created 2 (some 7) none 0 2 0 end

abbrev fill : LedgerFact
fill = fact "c" listing_filled 3 (some 8) (some 7) 0 2 9 (field "sellerProceeds" (text "8") end)

abbrev lose : LedgerFact
lose = fact "d" market_resolved 4 none none 1 0 0 end

abbrev history : List LedgerFact
history = fill ∷ buy ∷ lose ∷ list ∷ buy ∷ []

abbrev no_hash : String → String
no_hash s = s

abbrev as_they_are : Reason → Reason → Ordering
as_they_are a b = Ordering.lt

-- Two of three shares that cost 10 are sold for 8, at a cost of 6; the last one is lost, at 4.
history_net : (compute_pnl as_they_are no_hash everything history).realized_net ≡ some (negsuc 1)
unfolding compute_pnl ◌+ℤ◌ ◌-ℤ◌
history_net = refl

history_complete : (compute_pnl as_they_are no_hash everything history).complete ≡ true
unfolding compute_pnl
history_complete = refl

compute_pnl_complete_example :
    let pnl = compute_pnl as_they_are no_hash everything history in
    (everything.coverage_complete ≡ true)
    × All IsKnown pnl.entries
    × All HasKnownCost pnl.lots
    × (pnl.realized_net ≡ some (net pnl.entries))
compute_pnl_complete_example =
    compute_pnl_complete as_they_are no_hash everything history history_complete

compute_pnl_sound_example :
    let pnl = compute_pnl as_they_are no_hash everything history in
    All (Reportable everything) pnl.entries × (pos 0 ≤ℤ pnl.bond_locked)
compute_pnl_sound_example = compute_pnl_sound as_they_are no_hash everything history

abbrev three_shares : Lot
three_shares = record (new_lot 100 0) { units = 3; cost = 10 }

dispose-Splits_example :
    Splits three_shares 2 (lot_after three_shares 2 false) (disposal_of three_shares 2 false)
dispose-Splits_example = dispose-Splits three_shares 2 false

disposed_cost_floor_example :
    (disposed_cost three_shares 2 * 3 ≤ 10 * 2) × (10 * 2 < (disposed_cost three_shares 2 + 1) * 3)
disposed_cost_floor_example = disposed_cost_floor three_shares 2 (omega arith)

disposal_complete_iff_example : ((disposal_of three_shares 2 true).complete ≡ true) ↔ (
    (2 ≤ 3)
    × ((◌≡◌ {A = Bool} true true) → 2 ≤ 0)
    × ((◌≡◌ {A = Bool} true false) → 2 + 0 ≤ 3)
    × (◌≡◌ {A = Bool} true true))
disposal_complete_iff_example = disposal_complete_iff three_shares 2 true

LedgerFact-set : IsSet LedgerFact
LedgerFact-set = hlevel IsScalar-prop

in_pair : {a x y : LedgerFact} → Mem a (x ∷ y ∷ []) → (a ≡ x) ∨₁ (a ≡ y)
in_pair {a} {x} {y} m =
    Or.elim ∥∥₁_prop (mem-cons.0 m) Or.inl
      (λ m'. Or.elim ∥∥₁_prop (mem-cons.0 m') Or.inr (λ n. absurd (not-mem-nil n)))

pair-NoTies : NoTies financial_order (buy ∷ list ∷ [])
unfolding financial_order
pair-NoTies a b ma mb e =
    let goal = LedgerFact-set a b in
    Or.elim goal (in_pair ma)
      (λ ea. Or.elim goal (in_pair mb) (λ eb. ea ∙ sym eb) (λ eb. cc (e, ea, eb)))
      (λ ea. Or.elim goal (in_pair mb) (λ eb. cc (e, ea, eb)) (λ eb. ea ∙ sym eb))

compute_pnl-perm_example :
    compute_pnl as_they_are no_hash everything (buy ∷ list ∷ [])
    ≡ compute_pnl as_they_are no_hash everything (list ∷ buy ∷ [])
compute_pnl-perm_example =
    compute_pnl-perm as_they_are no_hash everything (buy ∷ list ∷ []) (list ∷ buy ∷ [])
      (Perm.swap list buy []) pair-NoTies

compute_pnl_again_example :
    compute_pnl as_they_are no_hash everything (list ∷ buy ∷ list ∷ [])
    ≡ compute_pnl as_they_are no_hash everything (buy ∷ list ∷ [])
compute_pnl_again_example =
    compute_pnl_again as_they_are no_hash everything list (buy ∷ list ∷ []) (buy ∷ [])
      (Perm.swap list buy []) pair-NoTies

abbrev by_number : ℕ → ℕ → Ordering
by_number a b = compare a b

abbrev period : Period
period = record { ends_at = 1000; markets = record { market = 100; starts_at = 5 } ∷ [] }

abbrev players : List Account
players =
    record { address = 7; controller = 70 }
    ∷ record { address = 8; controller = 80 }
    ∷ record { address = 9; controller = 90 }
    ∷ []

-- Both sides lose: the seller two of ten, the buyer the nine that were paid; the creator is left out.
game : Standings
game =
    score_leaderboard by_number as_they_are no_hash period players history ((100, 9) ∷ [])
      (7 ∷ 8 ∷ [])

game_ranks :
    map {B = ℕ × (ℤ × ℕ)} (λ e. (e.score.account, (e.score.realized_net, e.rank))) game.entries
    ≡ (7, (negsuc 1, 1)) ∷ (8, (negsuc 8, 2)) ∷ []
unfolding game score_leaderboard ◌+ℤ◌ ◌-ℤ◌
game_ranks = refl

score_leaderboard-IsRank_example :
    let entries =
      (score_leaderboard by_number as_they_are no_hash period players history
        ((100, 9) ∷ [])
        (7 ∷ 8 ∷ [])).entries in
    All (IsRank (map (λ e. e.score) entries)) entries
score_leaderboard-IsRank_example =
    score_leaderboard-IsRank by_number as_they_are no_hash period players history ((100, 9) ∷ [])
      (7 ∷ 8 ∷ [])
