-- ===== src/Indexer/Batch.antt =====
-- The checks of a batch before it is written: offchain/indexer/src/canonical-batch.ts.
pub mod Laws
use cpredict.Prelude.{
  ℕ, ◌+◌, Bool, true, false, not, ◌&&◌, ◌||◌, Option, none, some, List, [], ◌∷◌, ltb, ◌==◌,
  if◌then◌else◌, Result, ok, err, ◌>>=◌, ◌>>◌, throw_if,
}
use cpredict.Prelude.Dict.{Dict, get, put, nat_eq}
use cpredict.Indexer.Types.{
  ConfirmationStatus, provisional, confirmed, IndexedEvent, CanonicalBlock, ChainCheckpoint,
  CanonicalScanRange, CanonicalBatch, StoreError, empty_range, checkpoint_mismatch, predecessor_gap,
  anchor_outside, anchor_conflict, endpoint_missing, event_unanchored,
}

abbrev pub same_status : ConfirmationStatus → ConfirmationStatus → Bool
same_status provisional provisional = true
same_status confirmed confirmed = true
same_status _ _ = false

-- `map.get(key) === hash`
abbrev pub has_hash : Option ℕ → ℕ → Bool
has_hash none h = false
has_hash (some g) h = g == h

abbrev pub differs : Option ℕ → ℕ → Bool
differs none h = false
differs (some g) h = not (g == h)

abbrev pub predecessor_apart : CanonicalScanRange → Option ChainCheckpoint → Bool
predecessor_apart range none = false
predecessor_apart range (some p) =
    not (p.chain_id == range.chain_id) || not (p.block_number + 1 == range.from_block)

abbrev pub outside : CanonicalScanRange → ℕ → ℕ → ConfirmationStatus → Bool
outside range chain_id block_number status =
    not (chain_id == range.chain_id)
    || ltb block_number range.from_block
    || ltb range.to_block block_number
    || not (same_status status range.confirmation_status)

-- The loop over the anchors, which fills the map from block numbers to hashes.
unfoldable pub read_anchors :
    CanonicalScanRange → List CanonicalBlock → Dict ℕ ℕ → Result StoreError (Dict ℕ ℕ)
unfolding get put
read_anchors range [] anchors = ok anchors
read_anchors range (a ∷ rest) anchors =
    let others = read_anchors range rest (put a.block_number a.block_hash anchors) in
    do
      throw_if (outside range a.chain_id a.block_number a.confirmation_status) anchor_outside
      throw_if (differs (get a.block_number anchors) a.block_hash) anchor_conflict
      others

unfoldable pub check_events :
    CanonicalScanRange → Dict ℕ ℕ → List IndexedEvent → Result StoreError (Unit {0})
unfolding get
check_events range anchors [] = ok tt
check_events range anchors (e ∷ rest) =
    let others = check_events range anchors rest in
    do
      throw_if
          (outside range e.chain_id e.block_number e.confirmation_status
            || not (has_hash (get e.block_number anchors) e.block_hash))
          event_unanchored
      others

unfoldable pub validate_canonical_batch : CanonicalBatch → Result StoreError (Unit {0})
unfolding get read_anchors check_events
validate_canonical_batch batch = do
  let range = batch.range
  let checkpoint = batch.checkpoint
  throw_if (ltb range.to_block range.from_block) empty_range
  throw_if
      (not (checkpoint.chain_id == range.chain_id)
        || not (checkpoint.block_number == range.to_block)
        || not (checkpoint.block_hash == range.end_block_hash))
      checkpoint_mismatch
  throw_if (predecessor_apart range range.predecessor) predecessor_gap
  anchors ← read_anchors range batch.anchors []
  throw_if (not (has_hash (get range.to_block anchors) range.end_block_hash)) endpoint_missing
  check_events range anchors batch.events
