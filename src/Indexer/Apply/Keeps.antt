-- ===== src/Indexer/Apply/Keeps.antt =====
-- What `applyBatch` keeps: one rule over its writes, whether the batch is written or refused.
use cpredict.Prelude.{
  ◌≡◌, refl, Bool, true, false, List, [], ◌∷◌, arith, Result, ok, err, if◌then◌else◌, is_some,
}
use cpredict.Prelude.Dict.{get, put, nat_eq, pair_eq}
use cpredict.Indexer.Types.{
  StoreError, IndexedEvent, CanonicalBlock, CanonicalBatch, hash_conflict, event_mismatch,
  checkpoint_unpersisted,
}
use cpredict.Indexer.Batch.{has_hash, differs, validate_canonical_batch}
use cpredict.Indexer.Memory.{Store, Outside, event_key, ◌>>◌}
use cpredict.Indexer.Memory.Laws.{Keeps, >>-keeps}
use cpredict.Indexer.Trade.{project}
use cpredict.Indexer.Apply.{
  on_views, stored_hash, overlaps_any, admissible, write_anchors, write_event, write_events,
  write_blocks, write_checkpoint, commit, write_batch, already_applied, apply_batch,
}

-- The two writes of one anchor and of one event.
abbrev pub with_block : CanonicalBlock → Store → Store
with_block b s = record s { blocks = put (b.chain_id, b.block_number) b s.blocks }

abbrev pub with_event : Outside → IndexedEvent → Store → Store
with_event o e s = record s {
  events = put (event_key e) e s.events;
  views = (project o e s.views).1;
}

module _ (P : Store → Type 0) where
  abbrev pub KeptByBlock : Type 0
  KeptByBlock =
      (b : CanonicalBlock) (s : Store)
      → differs (stored_hash b.chain_id b.block_number s) b.block_hash ≡ false
      → P s
      → P (with_block b s)

  abbrev pub KeptByEvent : Outside → Type 0
  KeptByEvent o =
      (e : IndexedEvent) (s : Store)
      → has_hash (stored_hash e.chain_id e.block_number s) e.block_hash ≡ true
      → P s
      → P (with_event o e s)

  abbrev pub KeptByCommit : CanonicalBatch → Type 0
  KeptByCommit batch =
      (s : Store)
      → overlaps_any batch.range s.ranges ≡ false
      → has_hash (stored_hash batch.checkpoint.chain_id batch.checkpoint.block_number s)
          batch.checkpoint.block_hash
        ≡ true
      → P s
      → P (write_checkpoint batch s)

  pub write_anchors-keeps : KeptByBlock → (bs : List CanonicalBlock) → Keeps P (write_anchors bs)
  unfolding write_anchors
  write_anchors-keeps k [] s h = h
  write_anchors-keeps k (b ∷ rest) s h =
      go (differs (stored_hash b.chain_id b.block_number s) b.block_hash)
        (λ agree. write_anchors-keeps k rest (with_block b s) (k b s agree h))
    where
      go :
          (c : Bool)
          → (c ≡ false → P (write_anchors rest (with_block b s)).1)
          → let r : Result StoreError (Unit {0}) × Store =
              if c then (err hash_conflict, s) else write_anchors rest (with_block b s) in
            P r.1
      go true next = h
      go false next = next refl

  write_event-keeps : (o : Outside) → KeptByEvent o → (e : IndexedEvent) → Keeps P (write_event o e)
  unfolding write_event
  write_event-keeps o k e s h =
      go (has_hash (stored_hash e.chain_id e.block_number s) e.block_hash)
        (is_some (get (event_key e) s.events)) (λ same. k e s same h)
    where
      go :
          (b c : Bool)
          → (b ≡ true → P (with_event o e s))
          → let r : Result StoreError (Unit {0}) × Store =
              if b
              then if c
                then (ok tt, s)
                else on_views (project o e) (record s { events = put (event_key e) e s.events })
              else (err event_mismatch, s) in
            P r.1
      go true true next = h
      go true false next = next refl
      go false c next = h

  write_events-keeps :
      (o : Outside) → KeptByEvent o → (es : List IndexedEvent) → Keeps P (write_events o es)
  unfolding write_events
  write_events-keeps o k [] s h = h
  write_events-keeps o k (e ∷ es) s h =
      >>-keeps P (write_event o e) (write_events o es) (write_event-keeps o k e)
        (write_events-keeps o k es) s h

  write_blocks-keeps :
      (o : Outside) (batch : CanonicalBatch)
      → KeptByBlock
      → KeptByEvent o
      → Keeps P (write_blocks o batch)
  write_blocks-keeps o batch kb ke s h =
      >>-keeps P (write_anchors batch.anchors) (write_events o batch.events)
        (write_anchors-keeps kb batch.anchors) (write_events-keeps o ke batch.events) s h

admissible_ok :
    (batch : CanonicalBatch) (s : Store)
    → admissible batch s ≡ ok tt
    → overlaps_any batch.range s.ranges ≡ false
admissible_ok batch s h = ground arith

module _ (P : Store → Type 0) (o : Outside) (batch : CanonicalBatch)
    (kc : KeptByCommit P batch) where
  -- Between the checks and the commit the new range overlaps no stored one.
  abbrev Free : Store → Type 0
  Free s = P s × (overlaps_any batch.range s.ranges ≡ false)

  commit-keeps : (s : Store) → Free s → P (commit batch s).1
  commit-keeps s (h, free) =
      go
        (has_hash (stored_hash batch.checkpoint.chain_id batch.checkpoint.block_number s)
          batch.checkpoint.block_hash)
        (λ same. kc s free same h)
    where
      go :
          (b : Bool)
          → (b ≡ true → P (write_checkpoint batch s))
          → let r : Result StoreError (Unit {0}) × Store =
              if b then (ok tt, write_checkpoint batch s) else (err checkpoint_unpersisted, s) in
            P r.1
      go true next = next refl
      go false next = h

  module _ (kb : KeptByBlock P) (ke : KeptByEvent P o) where
    write_batch-keeps : (s : Store) → P s → P (write_batch o batch s).1
    unfolding write_batch
    write_batch-keeps s h = go (admissible batch s) (λ fine.
        write_blocks-keeps Free o batch (λ b t a p. (kb b t a p.0, p.1))
          (λ e t a p. (ke e t a p.0, p.1)) s (h, admissible_ok batch s fine))
      where
        after :
            (r : Result StoreError (Unit {0})) (t : Store)
            → Free t
            → P (((λ _. (r, t)) >> commit batch) s).1
        after (ok x) t p = commit-keeps t p
        after (err x) t p = p.0

        go :
            (r : Result StoreError (Unit {0}))
            → (r ≡ ok tt → Free (write_blocks o batch s).1)
            → P (((λ s. (r, s)) >> (write_blocks o batch >> commit batch)) s).1
        go (ok x) next = after (write_blocks o batch s).0 (write_blocks o batch s).1 (next refl)
        go (err x) next = h

    -- What the writes keep, `applyBatch` keeps.
    pub apply_batch-keeps : Keeps P (apply_batch o batch)
    unfolding apply_batch
    apply_batch-keeps s h = go (validate_canonical_batch batch) (already_applied batch s)
      where
        go :
            (r : Result StoreError (Unit {0})) (b : Bool)
            → P (((λ s. (r, s)) >> (λ s. if b then (ok tt, s) else write_batch o batch s)) s).1
        go (err x) b = h
        go (ok x) true = h
        go (ok x) false = write_batch-keeps s h
