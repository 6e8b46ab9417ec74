-- ===== src/Indexer/Run/Keeps.antt =====
-- What a run of the indexer keeps, whether it returns or throws.
use Prim.Native.Nat.{Ordering}
use cpredict.Prelude.{ℕ, Bool, true, false, Option, none, some, Result, ok, err, if◌then◌else◌}
use cpredict.Prelude.Dict.{get, nat_eq}
use cpredict.Indexer.Types.{ChainCheckpoint, CanonicalBatch, StoreError, rpc_failed}
use cpredict.Indexer.Memory.{Store, Outside, pure, lift, gets}
use cpredict.Indexer.Memory.Laws.{Keeps, >>=-keeps, >>-keeps, outcome}
use cpredict.Indexer.Apply.{apply_batch}
use cpredict.Indexer.Apply.Canonical.{IsCanonical, apply_batch-IsCanonical}
use cpredict.Indexer.Rollback.{rollback_after}
use cpredict.Indexer.Rollback.Laws.{rollback_after-IsCanonical}
use cpredict.Indexer.Reorg.{
  settle_on, roll_back_to, reconcile_from, reconcile_checkpoint, common_ancestor, is_number,
}
use cpredict.Indexer.Scan.{Node, IndexerOptions, next_range, build_batch}
use cpredict.Indexer.Run.{
  registered_markets, present, write_built, write_range, scan_range, scan_after, run_batch,
  result_of,
}

module _ (P : Store → Type 0) (o : Outside)
    (rolled : (chain : ℕ) (limit : Option ℕ) → Keeps P (rollback_after o chain limit)) where
  settle_on-keeps :
      (chain : ℕ) (c : ChainCheckpoint) (search : Result StoreError (Option ℕ))
      → Keeps P (settle_on o chain c search)
  settle_on-keeps chain c (err x) s h = h
  settle_on-keeps chain c (ok ancestor) s h = go (is_number ancestor c.block_number)
    where
      go :
          (b : Bool)
          → P (outcome (if b then (ok (some c), s) else roll_back_to o chain ancestor s)).1
      go true = h
      go false =
          >>-keeps P (rollback_after o chain ancestor) (gets (λ s. get chain s.checkpoints))
            (rolled chain ancestor) (λ t k. k) s h

  pub reconcile_checkpoint-keeps :
      (node : ℕ → Option ℕ) (deployment chain : ℕ)
      → Keeps P (reconcile_checkpoint node o deployment chain)
  unfolding reconcile_checkpoint
  reconcile_checkpoint-keeps node deployment chain s h = go (get chain s.checkpoints)
    where
      go : (c : Option ChainCheckpoint) → P (reconcile_from node o deployment chain c s).1
      go none = h
      go (some c) = settle_on-keeps chain c (common_ancestor node deployment chain c s) s h

  module _ (applied : (batch : CanonicalBatch) → Keeps P (apply_batch o batch))
      (text_order : ℕ → ℕ → Ordering) (node : Node) (options : IndexerOptions) where
    write_range-keeps :
        (c : Option ChainCheckpoint) (head from to : ℕ)
        → Keeps P (write_range text_order o node options c head from to)
    write_range-keeps c head from to s h =
        >>=-keeps P
          (lift (
            build_batch o node options (registered_markets text_order options.chain_id s) c from
              to))
          (write_built text_order o node options head from to) (λ t k. k)
          (λ built.
            >>-keeps P (apply_batch o built.0)
              (pure (some (result_of options head from to built.0 built.1))) (applied built.0)
              (λ t k. k))
          s h

    scan_range-keeps :
        (c : Option ChainCheckpoint) (head : ℕ) (next : Option (ℕ × ℕ))
        → Keeps P (scan_range text_order o node options c head next)
    scan_range-keeps c head none s h = h
    scan_range-keeps c head (some (from, to)) s h = write_range-keeps c head from to s h

    pub run_batch-keeps : Keeps P (run_batch text_order o node options)
    unfolding run_batch
    run_batch-keeps =
        >>=-keeps P (reconcile_checkpoint node.recovery o options.deployment_block options.chain_id)
          (scan_after text_order o node options)
          (reconcile_checkpoint-keeps node.recovery options.deployment_block options.chain_id)
          (λ c.
            >>=-keeps P (lift (present rpc_failed node.head))
              (λ head. scan_range text_order o node options c head (next_range options c head))
              (λ t k. k) (λ head. scan_range-keeps c head (next_range options c head)))

-- A run of the indexer keeps a canonical store canonical, whatever the node answers, and whether the run
-- returns or throws: every event that is stored has the hash of the stored block of its number.
pub run_batch-IsCanonical :
    (text_order : ℕ → ℕ → Ordering) (o : Outside) (node : Node) (options : IndexerOptions)
    (s : Store)
    → IsCanonical s
    → IsCanonical (run_batch text_order o node options s).1
run_batch-IsCanonical text_order o node options =
    run_batch-keeps IsCanonical o (rollback_after-IsCanonical o) (apply_batch-IsCanonical o)
      text_order node options
