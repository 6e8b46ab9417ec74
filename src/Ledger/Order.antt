-- ===== src/Ledger/Order.antt =====
-- The order of the facts is a total order by their place in the chain.
use Prim.Native.Nat.{Ordering}
use cpredict.Prelude.{◌≡◌, ◌≢◌, arith}
use cpredict.Ledger.Fact.{LedgerFact, financial_order}

pub financial_order_flip :
    (a b : LedgerFact) → financial_order a b ≡ Ordering.gt → financial_order b a ≡ Ordering.lt
unfolding financial_order
financial_order_flip a b h = ground arith

pub financial_order_flip' :
    (a b : LedgerFact) → financial_order a b ≡ Ordering.lt → financial_order b a ≡ Ordering.gt
unfolding financial_order
financial_order_flip' a b h = ground arith

pub financial_order_trans :
    (a b c : LedgerFact)
    → financial_order a b ≡ Ordering.lt
    → financial_order b c ≢ Ordering.gt
    → financial_order a c ≢ Ordering.gt
unfolding financial_order
financial_order_trans a b c h k e = ground arith
