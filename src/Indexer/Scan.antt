-- ===== src/Indexer/Scan.antt =====
-- `ChainIndexer` of offchain/indexer/src/indexer.ts: one batch of the scan, over the answers of the node. The
-- accounts of the financial options, the telemetry and the number of concurrent reads are left out, and an
-- error keeps its own name, where the source names the stage.
pub mod Checks
pub mod Built
pub mod Valid
use cpredict.Indexer.Anchors.{
  find_block, hashes_of, validate_anchors, load_canonical_anchors, Header,
}
use Prim.Native.Nat.{compare, Ordering}
use cpredict.Prelude.{
  ℕ, suc, ◌+◌, ◌-◌, Bool, true, false, not, ◌&&◌, ◌||◌, Option, none, some, List, [], ◌∷◌, ◌++◌,
  ◌==◌, ltb, leb, if◌then◌else◌, any, keep_if, length, map, Result, ok, err, throw_if, ◌>>=◌, ◌>>◌,
}
use cpredict.Prelude.Dict.{Dict, get, put, values, nat_eq, pair_eq}
use cpredict.Prelude.Sort.{sort_by}
use cpredict.Indexer.Types.{
  ConfirmationStatus, confirmed, provisional, IndexedEvent, CanonicalBlock, CanonicalMode, dense,
  sparse, ChainCheckpoint, CanonicalBatch, CanonicalScanRange, StoreError, rpc_failed,
  lineage_changed, fence_changed, incomplete_block, invalid_options, event_mismatch,
  endpoint_missing,
}
use cpredict.Indexer.Batch.{has_hash}
use cpredict.Indexer.Memory.{Store, Outside, Action}
use cpredict.Indexer.Rollback.{compare_events}
use cpredict.Indexer.Query.{registered_markets}
use cpredict.Indexer.Logs.{
  Log, present, normalize_logs, deduplicate_logs, unique_addresses, discover_market_addresses,
}
use cpredict.Indexer.Creation.{Receipt, complete_market_creation_logs}

pub record IndexerOptions : Type 0 where
  pub chain_id : ℕ
  pub deployment_block : ℕ
  pub confirmations : ℕ
  pub batch_size : ℕ
  pub canonical_mode : CanonicalMode
  pub addresses : List ℕ
  pub factory_address : Option ℕ

-- The answers of the node during a batch; `none` is a read that throws. The last block is read once with
-- the others, and once more, as the `fence`, before the batch is written.
pub record Node : Type 0 where
  pub recovery : ℕ → Option ℕ
  pub head : Option ℕ
  pub get_logs : List ℕ → ℕ → ℕ → Option (List Log)
  pub receipt_of : Option ℕ → Option Receipt
  pub header : ℕ → Option Header
  pub fence : ℕ → Option (Option ℕ)

pub record BatchResult : Type 0 where
  pub from_block : ℕ
  pub to_block : ℕ
  pub block_count : ℕ
  pub anchor_count : ℕ
  pub event_count : ℕ
  pub discovered_markets : ℕ
  pub confirmation_status : ConfirmationStatus
  pub caught_up : Bool

-- The checks of the constructor.
unfoldable pub check_options : IndexerOptions → Result StoreError (Unit {0})
check_options options = do
  throw_if (ltb options.batch_size 1 || ltb 10000 options.batch_size) invalid_options
  throw_if (length options.addresses == 0 && is_none options.factory_address) invalid_options
  where
    is_none : Option ℕ → Bool
    is_none none = true
    is_none (some f) = false

abbrev pub confirmation_for : ℕ → ConfirmationStatus
confirmation_for confirmations = if confirmations == 0 then provisional else confirmed

abbrev pub first_block : IndexerOptions → Option ChainCheckpoint → ℕ
first_block options none = options.deployment_block
first_block options (some c) = c.block_number + 1

abbrev pub min : ℕ → ℕ → ℕ
min a b = if ltb a b then a else b

abbrev factory_list : Option ℕ → List ℕ
factory_list none = []
factory_list (some f) = f ∷ []

abbrev discovery_logs : Node → Option ℕ → ℕ → ℕ → Result StoreError (List Log)
discovery_logs node none from to = ok []
discovery_logs node (some f) from to = present rpc_failed (node.get_logs (f ∷ []) from to)

-- Vaults that the second query shows first.
abbrev late_markets : Outside → Option ℕ → List ℕ → List Log → Result StoreError (List ℕ)
late_markets o none addresses logs = ok []
late_markets o (some f) addresses logs =
    discover_market_addresses o (keep_if (λ l. l.address == f) logs) >>= λ found.
    ok (keep_if (λ m. not (any (λ a. a == m) addresses)) found)

abbrev late_logs : Node → List ℕ → ℕ → ℕ → Result StoreError (List Log)
late_logs node [] from to = ok []
late_logs node (m ∷ rest) from to = present rpc_failed (node.get_logs (m ∷ rest) from to)

abbrev completed : Outside → Node → ℕ → Option ℕ → List Log → Result StoreError (List Log)
completed o node chain none logs = ok logs
completed o node chain (some f) logs =
    deduplicate_logs logs >>= complete_market_creation_logs o node.receipt_of chain f

-- The logs of the range, and the number of markets that they create.
unfoldable pub gather_logs :
    Outside → Node → IndexerOptions → List ℕ → ℕ → ℕ → Result StoreError (List Log × ℕ)
unfolding discover_market_addresses deduplicate_logs complete_market_creation_logs unique_addresses
gather_logs o node options registered from to = do
  first ← discovery_logs node options.factory_address from to
  discovered ← discover_market_addresses o first
  let addresses =
      unique_addresses
        (options.addresses ++ (factory_list options.factory_address ++ (registered ++ discovered)))
  found ← present rpc_failed (node.get_logs addresses from to)
  late ← late_markets o options.factory_address addresses found
  more ← late_logs node late from to
  created ← completed o node options.chain_id options.factory_address (first ++ (found ++ more))
  ok (created, length (unique_addresses (discovered ++ late)))

-- Their events, in the order of the chain.
unfoldable pub gather_events :
    Outside → Node → IndexerOptions → List ℕ → ℕ → ℕ → Result StoreError (List IndexedEvent × ℕ)
unfolding gather_logs deduplicate_logs normalize_logs sort_by
gather_events o node options registered from to = do
  gathered ← gather_logs o node options registered from to
  unique ← deduplicate_logs gathered.0
  events ← normalize_logs options.chain_id (confirmation_for options.confirmations) unique
  ok (sort_by compare_events events, gathered.1)

-- The range that is scanned next, if there is one.
unfoldable pub next_range : IndexerOptions → Option ChainCheckpoint → ℕ → Option (ℕ × ℕ)
next_range options checkpoint head =
    let from = first_block options checkpoint in
    let safe = head - options.confirmations in
    if ltb head options.confirmations || ltb safe from
    then none
    else some (from, min (from + options.batch_size - 1) safe)

abbrev pub batch_of :
    IndexerOptions
    → Option ChainCheckpoint
    → ℕ
    → ℕ
    → List CanonicalBlock
    → List IndexedEvent
    → ℕ
    → CanonicalBatch
batch_of options checkpoint from to anchors events end_hash =
    let status = confirmation_for options.confirmations in
    record {
      range = record {
        chain_id = options.chain_id;
        from_block = from;
        to_block = to;
        predecessor = checkpoint;
        end_block_hash = end_hash;
        confirmation_status = status;
        mode = options.canonical_mode;
      };
      anchors = anchors;
      events = events;
      checkpoint = record { chain_id = options.chain_id; block_number = to; block_hash = end_hash };
    }

-- The batch of a range, with the number of markets that it discovers.
unfoldable pub build_batch :
    Outside
    → Node
    → IndexerOptions
    → List ℕ
    → Option ChainCheckpoint
    → ℕ
    → ℕ
    → Result StoreError (CanonicalBatch × ℕ)
unfolding gather_events load_canonical_anchors validate_anchors hashes_of get
build_batch o node options registered checkpoint from to = do
  gathered ← gather_events o node options registered from to
  let events = gathered.0
  anchors ←
      load_canonical_anchors node.header options.chain_id (confirmation_for options.confirmations)
        options.canonical_mode from to events
  validate_anchors options.canonical_mode anchors checkpoint
  throw_if
      (any (λ e. not (has_hash (get e.block_number (hashes_of anchors [])) e.block_hash)) events)
      event_mismatch
  end ← present endpoint_missing (find_block to anchors)
  fence ← present rpc_failed (node.fence to)
  throw_if (not (has_hash fence end.block_hash)) fence_changed
  ok (batch_of options checkpoint from to anchors events end.block_hash, gathered.1)
