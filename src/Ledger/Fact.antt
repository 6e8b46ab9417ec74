-- ===== src/Ledger/Fact.antt =====
-- A fact of the ledger: offchain/app-core/src/ledger-contracts.ts, and its order in
-- offchain/app-core/src/pnl.ts. The schema has canonical decimal texts for numbers and checksummed
-- texts for addresses, so each is its number here, and `sameAddress` is equality. A hash is its
-- number too.
use Prim.Native.Nat.{compare, Ordering}
use cpredict.Prelude.{ℕ, Bool, false, Option, none, some, String, ◌==◌}
use cpredict.Ledger.Json.{Fields}

pub data FactKind : Type 0 where
  market_created market_initialized market_metadata economic_snapshot primary_buy order_created
        order_released order_shares_deferred order_funds_returned listing_created listing_filled
        listing_cancelled listing_returned market_resolved market_voided winner_claimed
        early_bird_claimed refunded timeout_funded timeout_claimed losing_burned remainder_assigned
        share_transfer payment_transfer bond_locked bond_credited bond_timeout_funded bond_claimed
        fee_accrued fee_claimed user_operation coverage_gap :
      FactKind

pub record LedgerFact : Type 0 where
  pub id : String
  pub kind : FactKind
  pub block_number : ℕ
  pub block_hash : ℕ
  pub transaction_hash : ℕ
  pub transaction_index : ℕ
  pub log_index : ℕ
  pub fact_index : ℕ
  pub timestamp : ℕ
  pub market : Option ℕ
  pub owner : Option ℕ
  pub counterparty : Option ℕ
  pub outcome_id : Option ℕ
  pub listing_id : Option ℕ
  pub units : Option ℕ
  pub amount : Option ℕ
  pub extra : Fields

-- `a || b` on the results of comparisons.
abbrev pub or_else : Ordering → Ordering → Ordering
or_else Ordering.eq rest = rest
or_else o rest = o

unfoldable pub financial_order : LedgerFact → LedgerFact → Ordering
financial_order a b = or_else (compare a.block_number b.block_number) (
    or_else (compare a.transaction_index b.transaction_index)
      (or_else (compare a.log_index b.log_index) (compare a.fact_index b.fact_index)))

-- `owns(a, owner)`
abbrev pub owns : Option ℕ → ℕ → Bool
owns none b = false
owns (some a) b = a == b

-- `BigInt(value ?? "0")`
abbrev pub or_zero : Option ℕ → ℕ
or_zero none = 0
or_zero (some n) = n
