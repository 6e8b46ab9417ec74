-- ===== src/Indexer/Apply.antt =====
-- `applyBatch` of offchain/indexer/src/memory-store.ts for a canonical batch. Its deprecated overload,
-- which only tests call, is left out.
pub mod Keeps
pub mod Canonical
pub mod Anchored
pub mod Again
pub mod Separate
use cpredict.Prelude.{
  ℕ, ◌+◌, Bool, true, false, not, ◌&&◌, ◌||◌, Option, none, some, List, [], ◌∷◌, ltb, leb, ◌==◌,
  if◌then◌else◌, is_some, Result, ok, err, throw_if,
}
use cpredict.Prelude.Dict.{Dict, get, put, nat_eq, pair_eq}
use cpredict.Indexer.Types.{
  CanonicalMode, dense, sparse, IndexedEvent, CanonicalBlock, ChainCheckpoint, CanonicalScanRange,
  CanonicalBatch, StoreError, unexpected_predecessor, discontinuous, overlap, hash_conflict,
  event_mismatch, checkpoint_unpersisted,
}
use cpredict.Indexer.Batch.{same_status, has_hash, differs, validate_canonical_batch}
use cpredict.Indexer.Memory.{
  Key, Views, Store, Outside, event_key, Action, pure, raise_if, modify, lift, gets, ◌>>=◌, ◌>>◌,
}
use cpredict.Indexer.Trade.{project}

abbrev pub hash_of : Option CanonicalBlock → Option ℕ
hash_of none = none
hash_of (some b) = some b.block_hash

abbrev pub stored_hash : ℕ → ℕ → Store → Option ℕ
stored_hash chain number s = hash_of (get (chain, number) s.blocks)

abbrev pub on_views : {A : Type 0} → Action Views A → Action Store A
on_views m s = let (r, v) = m s.views in (r, record s { views = v })

abbrev pub same_mode : CanonicalMode → CanonicalMode → Bool
same_mode dense dense = true
same_mode sparse sparse = true
same_mode _ _ = false

-- The number and the hash of two predecessors agree, and so do two absent ones.
abbrev pub same_predecessor : Option ChainCheckpoint → Option ChainCheckpoint → Bool
same_predecessor none none = true
same_predecessor (some p) (some q) =
    p.block_number == q.block_number && p.block_hash == q.block_hash
same_predecessor _ _ = false

abbrev pub same_range : CanonicalScanRange → CanonicalScanRange → Bool
same_range a b =
    a.chain_id == b.chain_id
    && (a.from_block == b.from_block
        && (a.to_block == b.to_block
            && (same_predecessor a.predecessor b.predecessor
                && (a.end_block_hash == b.end_block_hash
                    && (same_status a.confirmation_status b.confirmation_status
                        && same_mode a.mode b.mode)))))

abbrev pub is_checkpoint : Option ChainCheckpoint → ChainCheckpoint → Bool
is_checkpoint none c = false
is_checkpoint (some now) c = now.block_number == c.block_number && now.block_hash == c.block_hash

abbrev pub is_range : Option CanonicalScanRange → CanonicalScanRange → Bool
is_range none r = false
is_range (some old) r = same_range old r

-- The batch is the last one that was written.
abbrev pub already_applied : CanonicalBatch → Store → Bool
already_applied batch s =
    let range = batch.range in
    is_range (get (range.chain_id, range.to_block) s.ranges) range
    && is_checkpoint (get range.chain_id s.checkpoints) batch.checkpoint

-- The error of a range that does not continue the checkpoint.
abbrev pub continues : CanonicalScanRange → Option ChainCheckpoint → Result StoreError (Unit {0})
continues range none = if is_some range.predecessor then err unexpected_predecessor else ok tt
continues range (some now) =
    if same_predecessor range.predecessor (some now) && range.from_block == now.block_number + 1
    then ok tt
    else err discontinuous

abbrev pub overlaps : CanonicalScanRange → CanonicalScanRange → Bool
overlaps range item =
    item.chain_id == range.chain_id
    && (leb item.from_block range.to_block && leb range.from_block item.to_block)

unfoldable pub overlaps_any : CanonicalScanRange → Dict Key CanonicalScanRange → Bool
overlaps_any range [] = false
overlaps_any range ((_, item) ∷ rest) = overlaps range item || overlaps_any range rest

unfoldable pub write_anchors : List CanonicalBlock → Action Store (Unit {0})
unfolding get put
write_anchors [] s = (ok tt, s)
write_anchors (b ∷ rest) s =
    let others =
      write_anchors rest (record s { blocks = put (b.chain_id, b.block_number) b s.blocks }) in
    if differs (stored_hash b.chain_id b.block_number s) b.block_hash
    then (err hash_conflict, s)
    else others

-- One event: it is written once, and then projected.
unfoldable pub write_event : Outside → IndexedEvent → Action Store (Unit {0})
unfolding get put project
write_event o e s =
    if has_hash (stored_hash e.chain_id e.block_number s) e.block_hash
    then if is_some (get (event_key e) s.events)
      then (ok tt, s)
      else on_views (project o e) (record s { events = put (event_key e) e s.events })
    else (err event_mismatch, s)

unfoldable pub write_events : Outside → List IndexedEvent → Action Store (Unit {0})
unfolding write_event
write_events o [] s = (ok tt, s)
write_events o (e ∷ es) s =
    let (r, s') = write_event o e s in elim r [ ok _ ↦ write_events o es s' | err x ↦ (err x, s') ]

abbrev pub write_checkpoint : CanonicalBatch → Store → Store
write_checkpoint batch s = record s {
  ranges = put (batch.range.chain_id, batch.range.to_block) batch.range s.ranges;
  checkpoints = put batch.checkpoint.chain_id batch.checkpoint s.checkpoints;
}

-- The range continues the checkpoint, and overlaps no range of the history.
abbrev pub admissible : CanonicalBatch → Store → Result StoreError (Unit {0})
admissible batch s = elim (continues batch.range (get batch.range.chain_id s.checkpoints)) [
  | ok _ ↦ throw_if (overlaps_any batch.range s.ranges) overlap
  | err x ↦ err x
]

abbrev pub commit : CanonicalBatch → Action Store (Unit {0})
commit batch s =
    if has_hash (stored_hash batch.checkpoint.chain_id batch.checkpoint.block_number s)
      batch.checkpoint.block_hash
    then (ok tt, write_checkpoint batch s)
    else (err checkpoint_unpersisted, s)

abbrev pub write_blocks : Outside → CanonicalBatch → Action Store (Unit {0})
write_blocks o batch = write_anchors batch.anchors >> write_events o batch.events

-- What follows the checks of the batch itself and of a repeated batch.
unfoldable pub write_batch : Outside → CanonicalBatch → Action Store (Unit {0})
unfolding get put overlaps_any write_anchors write_events
write_batch o batch s = elim (admissible batch s) [
  | ok _ ↦ (write_blocks o batch >> commit batch) s
  | err x ↦ (err x, s)
]

unfoldable pub apply_batch : Outside → CanonicalBatch → Action Store (Unit {0})
unfolding get validate_canonical_batch write_batch
apply_batch o batch s =
    let written = write_batch o batch s in
    elim (validate_canonical_batch batch) [
      | ok _ ↦ if already_applied batch s then (ok tt, s) else written
      | err x ↦ (err x, s)
    ]
