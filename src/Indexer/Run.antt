-- ===== src/Indexer/Run.antt =====
-- `runBatch` of offchain/indexer/src/indexer.ts: reconciliation, the scan of the next range, and the write of
-- its batch.
pub mod Advance
pub mod Keeps
use Prim.Native.Nat.{Ordering}
use cpredict.Prelude.{
  ℕ, ◌+◌, ◌-◌, Bool, true, false, Option, none, some, List, length, ◌==◌, Result, ok, err,
}
use cpredict.Indexer.Types.{CanonicalBatch, ChainCheckpoint, StoreError, rpc_failed}
use cpredict.Indexer.Memory.{Store, Outside, Action, pure, lift, ◌>>=◌, ◌>>◌}
use cpredict.Indexer.Apply.{apply_batch}
use cpredict.Indexer.Reorg.{reconcile_checkpoint}
use cpredict.Indexer.Query.{registered_markets}
use cpredict.Indexer.Logs.{present}
use cpredict.Indexer.Scan.{
  Node, IndexerOptions, BatchResult, confirmation_for, next_range, build_batch,
}

abbrev pub result_of : IndexerOptions → ℕ → ℕ → ℕ → CanonicalBatch → ℕ → BatchResult
result_of options head from to batch discovered = record {
  from_block = from;
  to_block = to;
  block_count = to + 1 - from;
  anchor_count = length batch.anchors;
  event_count = length batch.events;
  discovered_markets = discovered;
  confirmation_status = confirmation_for options.confirmations;
  caught_up = to == head - options.confirmations;
}

-- `text_order` is the order of the checksummed addresses as texts.
module _ (text_order : ℕ → ℕ → Ordering) (o : Outside) (node : Node)
    (options : IndexerOptions) where
  abbrev pub write_built : ℕ → ℕ → ℕ → CanonicalBatch × ℕ → Action Store (Option BatchResult)
  write_built head from to built =
      apply_batch o built.0 >> pure (some (result_of options head from to built.0 built.1))

  abbrev pub write_range : Option ChainCheckpoint → ℕ → ℕ → ℕ → Action Store (Option BatchResult)
  write_range checkpoint head from to s =
      (lift (
            build_batch o node options (registered_markets text_order options.chain_id s) checkpoint
              from to)
          >>= write_built head from to)
        s

  abbrev pub scan_range :
      Option ChainCheckpoint → ℕ → Option (ℕ × ℕ) → Action Store (Option BatchResult)
  scan_range checkpoint head none = pure none
  scan_range checkpoint head (some (from, to)) = write_range checkpoint head from to

  abbrev pub scan_after : Option ChainCheckpoint → Action Store (Option BatchResult)
  scan_after checkpoint = lift (present rpc_failed node.head) >>= λ head.
      scan_range checkpoint head (next_range options checkpoint head)

  unfoldable pub run_batch : Action Store (Option BatchResult)
  unfolding reconcile_checkpoint next_range build_batch registered_markets apply_batch
  run_batch =
      reconcile_checkpoint node.recovery o options.deployment_block options.chain_id >>= scan_after
