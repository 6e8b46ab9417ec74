-- ===== src/Ledger/Leaderboard.antt =====
-- `scoreLeaderboard` of offchain/app-core/src/leaderboard.ts. Of an account it reads the address and the
-- controller. The order of addresses as strings is `localeCompare`'s, and an argument.
mod Sorted
pub mod Ranks
use Prim.Native.Nat.{Ordering}
use cpredict.Prelude.{
  ℕ, suc, ◌+◌, Bool, true, false, not, ◌&&◌, ◌||◌, Option, none, some, List, [], ◌∷◌, ◌++◌, String,
  ltb, ◌==◌, if◌then◌else◌, any, keep_if, length,
}
use cpredict.Prelude.Int.{ℤ, pos, ◌+ℤ◌, ltb_ℤ, pos_part, neg_part}
use cpredict.Prelude.Dict.{Dict, get, put, nat_eq}
use cpredict.Prelude.Sort.{sort_by}
use cpredict.Ledger.Fact.{
  FactKind, LedgerFact, primary_buy, listing_filled, share_transfer, winner_claimed,
  early_bird_claimed, refunded, timeout_claimed,
}
use cpredict.Ledger.State.{Query, Reason, add_reason}
use cpredict.Ledger.Report.{Pnl, compute_pnl}

pub record Account : Type 0 where
  pub address : ℕ
  pub controller : ℕ

pub record PeriodMarket : Type 0 where
  pub market : ℕ
  pub starts_at : ℕ

pub record Period : Type 0 where
  pub ends_at : ℕ
  pub markets : List PeriodMarket

pub record Score : Type 0 where
  pub account : ℕ
  pub realized_net : ℤ
  pub market_count : ℕ

pub record RankedScore : Type 0 where
  pub score : Score
  pub rank : ℕ

pub record Excluded : Type 0 where
  pub account : ℕ
  pub reasons : List Reason

pub record Standings : Type 0 where
  pub entries : List RankedScore
  pub excluded : List Excluded

unfoldable pub controls_of : List Account → Dict ℕ ℕ → Dict ℕ ℕ
unfolding put
controls_of [] d = d
controls_of (a ∷ rest) d = controls_of rest (put a.address a.controller d)

abbrev control_of : Option ℕ → ℕ → ℕ
control_of none creator = creator
control_of (some c) creator = c

-- A market does not count for its creator, nor for one whom the creator controls or shares a
-- controller with.
abbrev independent : Dict ℕ ℕ → Account → Option ℕ → Bool
independent controls a none = false
independent controls a (some creator) =
    let control = control_of (get creator controls) creator in
    not (creator == a.address) && (not (control == a.controller) && not (control == a.address))

unfoldable pub eligible : Dict ℕ ℕ → Dict ℕ ℕ → Account → List PeriodMarket → List PeriodMarket
unfolding get
eligible creators controls a markets =
    keep_if (λ m. independent controls a (get m.market creators)) markets

abbrev takes_part : FactKind → Bool
takes_part primary_buy = true
takes_part listing_filled = true
takes_part share_transfer = true
takes_part winner_claimed = true
takes_part early_bird_claimed = true
takes_part refunded = true
takes_part timeout_claimed = true
takes_part _ = false

abbrev is_address : Option ℕ → ℕ → Bool
is_address none a = false
is_address (some b) a = b == a

unfoldable pub participated :
    Period → Account → List LedgerFact → List PeriodMarket → List PeriodMarket
participated period a facts markets =
    keep_if
      (λ m.
        any
          (λ f.
            takes_part f.kind
            && (ltb f.timestamp period.ends_at
                && (is_address f.market m.market
                    && (is_address f.owner a.address || is_address f.counterparty a.address))))
          facts)
      markets

unfoldable pub add_reasons : List Reason → List Reason → List Reason
unfolding add_reason
add_reasons [] set = set
add_reasons (r ∷ rest) set = add_reasons rest (add_reason r set)

abbrev pub same_net : ℤ → ℤ → Bool
same_net a b = pos_part a == pos_part b && neg_part a == neg_part b

-- The rank is that of the entry before where the nets are the same, and the place otherwise.
unfoldable pub ranks : ℕ → ℕ → Option ℤ → List Score → List RankedScore
ranks place rank before [] = []
ranks place rank none (v ∷ rest) =
    record { score = v; rank = rank } ∷ ranks (place + 1) rank (some v.realized_net) rest
ranks place rank (some net) (v ∷ rest) =
    let now = if same_net v.realized_net net then rank else place + 1 in
    record { score = v; rank = now } ∷ ranks (place + 1) now (some v.realized_net) rest

-- The higher score first, and the accounts' order among the same scores.
abbrev pub score_order : (ℕ → ℕ → Ordering) → Score → Score → Ordering
score_order account_order a b =
    if ltb_ℤ b.realized_net a.realized_net
    then Ordering.lt
    else if ltb_ℤ a.realized_net b.realized_net
    then Ordering.gt
    else account_order a.account b.account

abbrev pub excluded_order : (ℕ → ℕ → Ordering) → Excluded → Excluded → Ordering
excluded_order account_order a b = account_order a.account b.account

module _ (account_order : ℕ → ℕ → Ordering) (reason_order : Reason → Reason → Ordering)
    (keccak : String → String) where
  abbrev pub market_query : Period → Account → List ℕ → PeriodMarket → Query
  market_query period a complete m = record {
    owner = a.address;
    coverage_complete = any (λ c. c == a.address) complete;
    from = some m.starts_at;
    to = some period.ends_at;
    markets = some (m.market ∷ []);
  }

  -- The total and the reasons over the markets of one account.
  unfoldable pub total_over :
      Period
      → Account
      → List ℕ
      → List LedgerFact
      → List PeriodMarket
      → ℤ
      → List Reason
      → ℤ × List Reason
  unfolding compute_pnl add_reasons ◌+ℤ◌
  total_over period a complete facts [] total reasons = (total, reasons)
  total_over period a complete facts (m ∷ rest) total reasons =
      let pnl = compute_pnl reason_order keccak (market_query period a complete m) facts in
      total_over period a complete facts rest (total +ℤ pnl.known_realized_net)
        (if pnl.complete then reasons else add_reasons pnl.missing_reasons reasons)

  abbrev pub placed : Account → List PeriodMarket → ℤ × List Reason → List Score × List Excluded
  placed a markets (total, []) =
      (record { account = a.address; realized_net = total; market_count = length markets } ∷ [], [])
  placed a markets (total, r ∷ rs) =
      ([], record { account = a.address; reasons = sort_by reason_order (r ∷ rs) } ∷ [])

  abbrev pub score_account :
      Period → Dict ℕ ℕ → Dict ℕ ℕ → List ℕ → List LedgerFact → Account → List Score × List Excluded
  score_account period creators controls complete facts a =
      elim (participated period a facts (eligible creators controls a period.markets)) [
        | [] ↦ ([], [])
        | m ∷ ms ↦ placed a (m ∷ ms) (total_over period a complete facts (m ∷ ms) (pos 0) [])
      ]

  unfoldable pub score_accounts :
      Period
      → Dict ℕ ℕ
      → Dict ℕ ℕ
      → List ℕ
      → List LedgerFact
      → List Account
      → List Score × List Excluded
  unfolding eligible participated total_over sort_by
  score_accounts period creators controls complete facts [] = ([], [])
  score_accounts period creators controls complete facts (a ∷ rest) =
      let mine = score_account period creators controls complete facts a in
      let others = score_accounts period creators controls complete facts rest in
      (mine.0 ++ others.0, mine.1 ++ others.1)

  abbrev pub standings : List Score × List Excluded → Standings
  standings (values, excluded) = record {
    entries = ranks 0 1 none (sort_by (score_order account_order) values);
    excluded = sort_by (excluded_order account_order) excluded;
  }

  unfoldable pub score_leaderboard :
      Period → List Account → List LedgerFact → Dict ℕ ℕ → List ℕ → Standings
  unfolding controls_of score_accounts ranks sort_by
  score_leaderboard period accounts facts creators complete =
      standings (score_accounts period creators (controls_of accounts []) complete facts accounts)
