-- ===== src/Indexer/Types.antt =====
-- The records of canonical ingestion: offchain/indexer/src/store.ts. Hashes and addresses are their
-- numbers. The topics and the data of an event are what the decoder reads, and nothing else does.
use cpredict.Prelude.{ℕ, Option, List}

pub data ConfirmationStatus : Type 0 where
  provisional confirmed : ConfirmationStatus

pub data CanonicalMode : Type 0 where
  dense sparse : CanonicalMode

pub record IndexedEvent : Type 0 where
  pub chain_id : ℕ
  pub block_number : ℕ
  pub block_hash : ℕ
  pub transaction_hash : ℕ
  pub transaction_index : ℕ
  pub log_index : ℕ
  pub address : ℕ
  pub topics : List ℕ
  pub payload : List ℕ
  pub confirmation_status : ConfirmationStatus

pub record CanonicalBlock : Type 0 where
  pub chain_id : ℕ
  pub block_number : ℕ
  pub block_hash : ℕ
  pub parent_hash : ℕ
  pub timestamp : ℕ
  pub confirmation_status : ConfirmationStatus

pub record ChainCheckpoint : Type 0 where
  pub chain_id : ℕ
  pub block_number : ℕ
  pub block_hash : ℕ

pub record CanonicalScanRange : Type 0 where
  pub chain_id : ℕ
  pub from_block : ℕ
  pub to_block : ℕ
  pub predecessor : Option ChainCheckpoint
  pub end_block_hash : ℕ
  pub confirmation_status : ConfirmationStatus
  pub mode : CanonicalMode

pub record CanonicalBatch : Type 0 where
  pub range : CanonicalScanRange
  pub anchors : List CanonicalBlock
  pub events : List IndexedEvent
  pub checkpoint : ChainCheckpoint

-- What the stores throw.
pub data StoreError : Type 0 where
  empty_range checkpoint_mismatch predecessor_gap anchor_outside anchor_conflict endpoint_missing
        event_unanchored unexpected_predecessor discontinuous overlap hash_conflict event_mismatch
        checkpoint_unpersisted ancestor_missing unknown_market unknown_listing negative_position
        length_mismatch invalid_void_reason undecodable range_endpoint_missing block_missing
        rpc_failed lineage_changed fence_changed invalid_limit invalid_cursor incomplete_log
        receipt_mismatch creation_incomplete incomplete_block invalid_options :
      StoreError
