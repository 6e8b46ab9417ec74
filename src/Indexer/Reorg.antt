-- ===== src/Indexer/Reorg.antt =====
-- `reconcileCheckpoint` of offchain/indexer/src/indexer.ts: before a batch, the newest stored block that
-- the node still has is found, and the store is rolled back to it. The node's answers are an argument,
-- `node`, from block numbers to hashes; `none` is a read that throws.
pub mod Search
pub mod Laws
use Prim.Native.Nat.{compare, Ordering}
use cpredict.Prelude.{
  ℕ, zero, suc, ◌+◌, ◌-◌, Bool, true, false, not, Option, none, some, List, [], ◌∷◌, ltb, ◌==◌,
  if◌then◌else◌, Result, ok, err,
}
use cpredict.Prelude.Dict.{Dict, get, nat_eq, pair_eq}
use cpredict.Prelude.Sort.{sort_by}
use cpredict.Indexer.Types.{
  dense, sparse, CanonicalMode, ChainCheckpoint, CanonicalScanRange, StoreError,
  range_endpoint_missing, block_missing, rpc_failed,
}
use cpredict.Indexer.Batch.{has_hash}
use cpredict.Indexer.Memory.{Key, Store, Outside, Action, gets, ◌>>◌}
use cpredict.Indexer.Apply.{stored_hash}
use cpredict.Indexer.Rollback.{rollback_after}

-- `scanRanges` of the store: the newest first.
abbrev pub newest_first : CanonicalScanRange → CanonicalScanRange → Ordering
newest_first a b = compare b.to_block a.to_block

unfoldable pub ranges_of : ℕ → Dict Key CanonicalScanRange → List CanonicalScanRange
ranges_of chain [] = []
ranges_of chain ((_, r) ∷ rest) =
    let others = ranges_of chain rest in if r.chain_id == chain then r ∷ others else others

unfoldable pub scan_ranges : ℕ → Store → List CanonicalScanRange
unfolding ranges_of sort_by
scan_ranges chain s = sort_by newest_first (ranges_of chain s.ranges)

-- A block of the store against the node's: whether they agree, or the error.
abbrev pub agrees_with : StoreError → Option ℕ → Option ℕ → Result StoreError Bool
agrees_with missing none answer = err missing
agrees_with missing (some stored) none = err rpc_failed
agrees_with missing (some stored) (some answer) = ok (answer == stored)

-- The block of the number is the ancestor if it agrees, and the lower ones are searched otherwise.
abbrev pub try_block :
    Result StoreError Bool → ℕ → Result StoreError (Option ℕ) → Result StoreError (Option ℕ)
try_block (err e) number lower = err e
try_block (ok true) number lower = ok (some number)
try_block (ok false) number lower = lower

-- A later search is for what an earlier one did not find.
abbrev pub or_search :
    Result StoreError (Option ℕ) → Result StoreError (Option ℕ) → Result StoreError (Option ℕ)
or_search (err e) next = err e
or_search (ok (some number)) next = ok (some number)
or_search (ok none) next = next

-- The loops that go down block by block: `count` blocks from `first` on, the last one first.
unfoldable pub descend : (ℕ → Option ℕ) → (ℕ → Option ℕ) → ℕ → ℕ → Result StoreError (Option ℕ)
descend node stored first zero = ok none
descend node stored first (suc count) =
    let number = first + count in
    try_block (agrees_with block_missing (stored number) (node number)) number
      (descend node stored first count)

-- The stored endpoint of a range, if it has the range's hash.
abbrev pub endpoint_of : Option ℕ → ℕ → Option ℕ
endpoint_of stored hash = if has_hash stored hash then stored else none

-- The blocks of a dense range before its endpoint.
abbrev pub inside_range :
    (ℕ → Option ℕ)
    → (ℕ → Option ℕ)
    → CanonicalScanRange
    → CanonicalMode
    → Result StoreError (Option ℕ)
inside_range node stored r dense = descend node stored r.from_block (r.to_block - r.from_block)
inside_range node stored r sparse = ok none

-- The loop over the ranges.
unfoldable pub search_ranges :
    (ℕ → Option ℕ) → (ℕ → Option ℕ) → ℕ → List CanonicalScanRange → Result StoreError (Option ℕ)
unfolding descend
search_ranges node stored top [] = ok none
search_ranges node stored top (r ∷ rest) =
    let older = search_ranges node stored top rest in
    let endpoint = endpoint_of (stored r.to_block) r.end_block_hash in
    if ltb top r.to_block
    then older
    else try_block (agrees_with range_endpoint_missing endpoint (node r.to_block)) r.to_block
        (or_search (inside_range node stored r r.mode) older)

abbrev before_range : Option ChainCheckpoint → Option ℕ
before_range none = none
before_range (some p) = some p.block_number

-- `oldest?.predecessor?.blockNumber ?? (ranges.length === 0 ? checkpoint.blockNumber : undefined)`
abbrev pub retained_top : ℕ → List CanonicalScanRange → Option ℕ
retained_top top [] = some top
retained_top top (r ∷ []) = before_range r.predecessor
retained_top top (r ∷ q ∷ rest) = retained_top top (q ∷ rest)

-- The dense history that is older than every range.
unfoldable pub search_retained :
    (ℕ → Option ℕ) → (ℕ → Option ℕ) → ℕ → Option ℕ → Result StoreError (Option ℕ)
unfolding descend
search_retained node stored deployment none = ok none
search_retained node stored deployment (some cursor) =
    descend node stored deployment (cursor + 1 - deployment)

unfoldable pub common_ancestor :
    (ℕ → Option ℕ) → ℕ → ℕ → ChainCheckpoint → Store → Result StoreError (Option ℕ)
unfolding search_ranges search_retained scan_ranges get
common_ancestor node deployment chain checkpoint s =
    let stored : ℕ → Option ℕ = λ n. stored_hash chain n s in
    let ranges = scan_ranges chain s in
    or_search (search_ranges node stored checkpoint.block_number ranges)
      (search_retained node stored deployment (retained_top checkpoint.block_number ranges))

abbrev pub is_number : Option ℕ → ℕ → Bool
is_number none n = false
is_number (some m) n = m == n

-- A rollback, and the checkpoint after it.
abbrev pub roll_back_to : Outside → ℕ → Option ℕ → Action Store (Option ChainCheckpoint)
roll_back_to o chain ancestor =
    rollback_after o chain ancestor >> gets (λ s. get chain s.checkpoints)

-- What follows the search.
abbrev pub settle_on :
    Outside
    → ℕ
    → ChainCheckpoint
    → Result StoreError (Option ℕ)
    → Action Store (Option ChainCheckpoint)
settle_on o chain checkpoint (err e) s = (err e, s)
settle_on o chain checkpoint (ok ancestor) s =
    if is_number ancestor checkpoint.block_number
    then (ok (some checkpoint), s)
    else roll_back_to o chain ancestor s

abbrev pub reconcile_from :
    (ℕ → Option ℕ)
    → Outside
    → ℕ
    → ℕ
    → Option ChainCheckpoint
    → Action Store (Option ChainCheckpoint)
reconcile_from node o deployment chain none s = (ok none, s)
reconcile_from node o deployment chain (some checkpoint) s =
    settle_on o chain checkpoint (common_ancestor node deployment chain checkpoint s) s

unfoldable pub reconcile_checkpoint :
    (ℕ → Option ℕ) → Outside → ℕ → ℕ → Action Store (Option ChainCheckpoint)
unfolding get common_ancestor rollback_after
reconcile_checkpoint node o deployment chain s =
    reconcile_from node o deployment chain (get chain s.checkpoints) s
