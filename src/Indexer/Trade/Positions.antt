-- ===== src/Indexer/Trade/Positions.antt =====
-- The balances of positions.
use cpredict.Prelude.{All}
use cpredict.Prelude.Int.{pos, ◌≤ℤ◌}
use cpredict.Prelude.Dict.{Dict, All-put, nat_eq, pair_eq}
use cpredict.Indexer.Types.{IndexedEvent}
use cpredict.Indexer.Views.{PositionView}
use cpredict.Indexer.Memory.{PositionKey, Views, Outside}
use cpredict.Indexer.Project.{
  record_activity, on_market_created, on_market_initialized, metadata_written, purchase_written,
  terminal_written,
}
use cpredict.Indexer.Trade.{
  on_listing_created, on_claimed, fill_written, closing_written, position_key, position_view,
  project,
}
use cpredict.Indexer.Trade.Keeps.{KeptByWrites, project-keeps}

-- No balance is negative.
abbrev pub IsFunded : Dict PositionKey PositionView → Type 0
IsFunded = All (λ kp. pos 0 ≤ℤ kp.1.balance)

KeptByWrites-IsFunded : (e : IndexedEvent) → KeptByWrites (λ v. IsFunded v.positions) e
unfolding record_activity on_market_created on_market_initialized metadata_written purchase_written
    terminal_written on_listing_created on_claimed fill_written closing_written
KeptByWrites-IsFunded e = record {
  by_created = λ market creator mode bond v h. h;
  by_initialized = λ m v h. h;
  by_metadata = λ m c v h. h;
  by_purchase = λ p c v h. h;
  by_terminal = λ uri t c v h. h;
  by_listing = λ l v h. h;
  by_fill = λ f l v h. h;
  by_closing = λ c l v h. h;
  by_position = λ vault owner outcome balance v n h.
      All-put (λ kp. pos 0 ≤ℤ kp.1.balance) (position_key e vault owner outcome)
        (position_view e vault owner outcome balance) v.positions n h;
  by_claim = λ c v h. h;
}

-- Projecting an event never leaves a negative balance, whatever the decoder returns: if no position's
-- balance is negative before, none is after, also where the projection throws.
pub project-IsFunded :
    (o : Outside) (e : IndexedEvent) (v : Views)
    → IsFunded v.positions
    → IsFunded (project o e v).1.positions
project-IsFunded o e = project-keeps (KeptByWrites-IsFunded e) o
