-- ===== src/Indexer/Anchors.antt =====
-- The blocks that a batch is anchored to: `loadCanonicalAnchors`, `validateLineage` and
-- `validateAdjacentAnchors` of offchain/indexer/src/indexer.ts.
pub mod Laws
use Prim.Native.Nat.{compare, Ordering}
use cpredict.Prelude.{
  ℕ, zero, suc, ◌+◌, ◌-◌, Bool, true, false, not, ◌&&◌, Option, none, some, List, [], ◌∷◌, ◌++◌,
  ◌==◌, if◌then◌else◌, map, Result, ok, err, throw_if, ◌>>=◌, ◌>>◌,
}
use cpredict.Prelude.Dict.{Dict, put, nat_eq}
use cpredict.Prelude.Sort.{sort_by}
use cpredict.Indexer.Types.{
  ConfirmationStatus, IndexedEvent, CanonicalBlock, CanonicalMode, dense, sparse, ChainCheckpoint,
  StoreError, rpc_failed, lineage_changed, incomplete_block,
}
use cpredict.Indexer.Logs.{present, unique_addresses}

pub record Header : Type 0 where
  pub hash : Option ℕ
  pub parent_hash : ℕ
  pub timestamp : ℕ

-- `count` numbers from the first on.
unfoldable pub numbers_from : ℕ → ℕ → List ℕ
numbers_from first zero = []
numbers_from first (suc count) = first ∷ numbers_from (first + 1) count

-- Every block of the range, or those of the events and the last one.
abbrev pub block_numbers : CanonicalMode → ℕ → ℕ → List IndexedEvent → List ℕ
block_numbers dense from to events = numbers_from from (to + 1 - from)
block_numbers sparse from to events =
    sort_by compare (unique_addresses (map (λ e. e.block_number) events) ++ to ∷ [])

abbrev pub with_hash :
    ℕ → ConfirmationStatus → ℕ → Header → Option ℕ → Result StoreError CanonicalBlock
with_hash chain status number h none = err incomplete_block
with_hash chain status number h (some hash) = ok (record {
  chain_id = chain;
  block_number = number;
  block_hash = hash;
  parent_hash = h.parent_hash;
  timestamp = h.timestamp;
  confirmation_status = status;
})

abbrev pub read_block :
    (ℕ → Option Header) → ℕ → ConfirmationStatus → ℕ → Result StoreError CanonicalBlock
read_block header chain status number =
    present rpc_failed (header number) >>= λ h. with_hash chain status number h h.hash

unfoldable pub read_blocks :
    (ℕ → Option Header) → ℕ → ConfirmationStatus → List ℕ → Result StoreError (List CanonicalBlock)
read_blocks header chain status [] = ok []
read_blocks header chain status (n ∷ rest) = read_block header chain status n >>= λ b.
    read_blocks header chain status rest >>= λ bs. ok (b ∷ bs)

unfoldable pub load_canonical_anchors :
    (ℕ → Option Header)
    → ℕ
    → ConfirmationStatus
    → CanonicalMode
    → ℕ
    → ℕ
    → List IndexedEvent
    → Result StoreError (List CanonicalBlock)
unfolding numbers_from unique_addresses sort_by read_blocks
load_canonical_anchors header chain status mode from to events =
    read_blocks header chain status (unique_addresses (block_numbers mode from to events))

abbrev pub is_child : Option ℕ → CanonicalBlock → Bool
is_child none b = true
is_child (some parent) b = b.parent_hash == parent

-- The loop of `validateLineage`, from the hash that the first block is to follow.
unfoldable pub validate_lineage : Option ℕ → List CanonicalBlock → Result StoreError (Unit {0})
validate_lineage parent [] = ok tt
validate_lineage parent (b ∷ rest) =
    throw_if (not (is_child parent b)) lineage_changed >> validate_lineage (some b.block_hash) rest

abbrev pub parent_of : Option ChainCheckpoint → Option ℕ
parent_of none = none
parent_of (some c) = some c.block_hash

-- A block whose predecessor is at hand has its hash.
abbrev pub is_linked : Option (ℕ × ℕ) → CanonicalBlock → Bool
is_linked none b = true
is_linked (some (number, hash)) b =
    not (number + 1 == b.block_number && not (b.parent_hash == hash))

unfoldable pub validate_linked : Option (ℕ × ℕ) → List CanonicalBlock → Result StoreError (Unit {0})
validate_linked previous [] = ok tt
validate_linked previous (b ∷ rest) =
    throw_if (not (is_linked previous b)) lineage_changed
    >> validate_linked (some (b.block_number, b.block_hash)) rest

abbrev place_of : Option ChainCheckpoint → Option (ℕ × ℕ)
place_of none = none
place_of (some c) = some (c.block_number, c.block_hash)

unfoldable pub validate_adjacent_anchors :
    List CanonicalBlock → Option ChainCheckpoint → Result StoreError (Unit {0})
unfolding sort_by validate_linked
validate_adjacent_anchors blocks checkpoint =
    validate_linked (place_of checkpoint)
      (sort_by (λ a b. compare a.block_number b.block_number) blocks)

unfoldable pub validate_anchors :
    CanonicalMode → List CanonicalBlock → Option ChainCheckpoint → Result StoreError (Unit {0})
unfolding validate_lineage validate_adjacent_anchors
validate_anchors dense anchors checkpoint = validate_lineage (parent_of checkpoint) anchors
validate_anchors sparse anchors checkpoint = validate_adjacent_anchors anchors checkpoint

-- `new Map(anchors.map(...))`
unfoldable pub hashes_of : List CanonicalBlock → Dict ℕ ℕ → Dict ℕ ℕ
unfolding put
hashes_of [] hashes = hashes
hashes_of (b ∷ rest) hashes = hashes_of rest (put b.block_number b.block_hash hashes)

abbrev pub find_block : ℕ → List CanonicalBlock → Option CanonicalBlock
find_block number [] = none
find_block number (b ∷ rest) =
    let later = find_block number rest in if b.block_number == number then some b else later
