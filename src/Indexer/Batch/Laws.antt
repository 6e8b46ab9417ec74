-- ===== src/Indexer/Batch/Laws.antt =====
-- What a batch that passes the checks is.
use cpredict.Prelude.{
  ℕ, ◌+◌, ◌≤◌, ◌≡◌, refl, Bool, true, false, not, ◌||◌, Option, none, some, List, [], ◌∷◌, arith,
  All, Result, ok, err, ◌>>=◌, throw_if,
}
use cpredict.Prelude.Dict.{Dict, get, put, nat_eq, get-put, get-put_self}
use cpredict.Indexer.Types.{
  ConfirmationStatus, IndexedEvent, CanonicalBlock, ChainCheckpoint, CanonicalScanRange,
  CanonicalBatch, StoreError, anchor_outside, anchor_conflict, event_unanchored, endpoint_missing,
  predecessor_gap, checkpoint_mismatch, empty_range,
}
use cpredict.Indexer.Batch.{
  same_status, has_hash, differs, outside, read_anchors, check_events, validate_canonical_batch,
  predecessor_apart,
}

-- A place that belongs to a range.
pub record Inside (range : CanonicalScanRange) (chain_id block_number : ℕ) (s : ConfirmationStatus)
    : Type 0 where
  pub chain : chain_id ≡ range.chain_id
  pub from : range.from_block ≤ block_number
  pub to : block_number ≤ range.to_block
  pub status : same_status s range.confirmation_status ≡ true

inside :
    (range : CanonicalScanRange) (c n : ℕ) (s : ConfirmationStatus)
    → outside range c n s ≡ false
    → Inside range c n s
inside range c n s h = record {
  chain = ground arith;
  from = ground arith;
  to = ground arith;
  status = ground arith;
}

abbrev pub Extends : CanonicalScanRange → Option ChainCheckpoint → Type 0
Extends range none = Unit
Extends range (some p) = (p.chain_id ≡ range.chain_id) × (p.block_number + 1 ≡ range.from_block)

-- A batch whose parts agree, by a map from block numbers to hashes.
pub record Agrees (batch : CanonicalBatch) (hashes : Dict ℕ ℕ) : Type 0 where
  pub range : batch.range.from_block ≤ batch.range.to_block
  pub chain : batch.checkpoint.chain_id ≡ batch.range.chain_id
  pub end : batch.checkpoint.block_number ≡ batch.range.to_block
  pub end_hash : batch.checkpoint.block_hash ≡ batch.range.end_block_hash
  pub extends : Extends batch.range batch.range.predecessor
  pub anchors :
      All
        (λ a.
          Inside batch.range a.chain_id a.block_number a.confirmation_status
          × (get a.block_number hashes ≡ some a.block_hash))
        batch.anchors
  pub endpoint : get batch.range.to_block hashes ≡ some batch.range.end_block_hash
  pub events :
      All
        (λ e.
          Inside batch.range e.chain_id e.block_number e.confirmation_status
          × (get e.block_number hashes ≡ some e.block_hash))
        batch.events

pub has_hash-eq : (o : Option ℕ) (h : ℕ) → has_hash o h ≡ true → o ≡ some h
has_hash-eq none h e = cc
has_hash-eq (some g) h e = ground arith

read_anchors-step :
    (range : CanonicalScanRange) (a : CanonicalBlock) (rest : List CanonicalBlock) (d d' : Dict ℕ ℕ)
    → read_anchors range (a ∷ rest) d ≡ ok d'
    → (outside range a.chain_id a.block_number a.confirmation_status ≡ false)
      × (differs (get a.block_number d) a.block_hash ≡ false)
      × (read_anchors range rest (put a.block_number a.block_hash d) ≡ ok d')
unfolding read_anchors
read_anchors-step range a rest d d' e =
    go (outside range a.chain_id a.block_number a.confirmation_status)
      (differs (get a.block_number d) a.block_hash) e
  where
    go :
        (b c : Bool)
        → (throw_if b anchor_outside >>= λ _. throw_if c anchor_conflict >>= λ _.
            read_anchors range rest (put a.block_number a.block_hash d))
          ≡ ok d'
        → (b ≡ false)
          × (c ≡ false)
          × (read_anchors range rest (put a.block_number a.block_hash d) ≡ ok d')
    go true c h = cc
    go false true h = cc
    go false false h = (refl, refl, h)

-- A write that does not contradict what is there keeps what is there.
get-put_agreeing :
    (k v n h : ℕ) (d : Dict ℕ ℕ)
    → differs (get k d) v ≡ false
    → get n d ≡ some h
    → get n (put k v d) ≡ some h
get-put_agreeing k v n h d e g = ground (arith, get-put k n v d)

-- The map only grows.
get-read_anchors :
    (range : CanonicalScanRange) (anchors : List CanonicalBlock) (d d' : Dict ℕ ℕ) (n h : ℕ)
    → read_anchors range anchors d ≡ ok d'
    → get n d ≡ some h
    → get n d' ≡ some h
get-read_anchors range [] d d' n h e g = unfold read_anchors in cc
get-read_anchors range (a ∷ rest) d d' n h e g =
    let (i, k, e') = read_anchors-step range a rest d d' e in
    get-read_anchors range rest (put a.block_number a.block_hash d) d' n h e'
      (get-put_agreeing a.block_number a.block_hash n h d k g)

read_anchors-agree :
    (range : CanonicalScanRange) (anchors : List CanonicalBlock) (d d' : Dict ℕ ℕ)
    → read_anchors range anchors d ≡ ok d'
    → All
        (λ a.
          Inside range a.chain_id a.block_number a.confirmation_status
          × (get a.block_number d' ≡ some a.block_hash))
        anchors
read_anchors-agree range [] d d' e = tt
read_anchors-agree range (a ∷ rest) d d' e =
    let (i, k, e') = read_anchors-step range a rest d d' e in
    let d1 = put a.block_number a.block_hash d in
    (
      (
        inside range a.chain_id a.block_number a.confirmation_status i,
        get-read_anchors range rest d1 d' a.block_number a.block_hash e'
            (get-put_self a.block_number a.block_hash d),
      ),
      read_anchors-agree range rest d1 d' e',
    )

check_events-step :
    (range : CanonicalScanRange) (d : Dict ℕ ℕ) (e : IndexedEvent) (es : List IndexedEvent)
    → check_events range d (e ∷ es) ≡ ok tt
    → (outside range e.chain_id e.block_number e.confirmation_status ≡ false)
      × (has_hash (get e.block_number d) e.block_hash ≡ true)
      × (check_events range d es ≡ ok tt)
unfolding check_events
check_events-step range d e es h =
    go (outside range e.chain_id e.block_number e.confirmation_status)
      (has_hash (get e.block_number d) e.block_hash) h
  where
    go :
        (b c : Bool)
        → (throw_if (b || not c) event_unanchored >>= λ _. check_events range d es) ≡ ok tt
        → (b ≡ false) × (c ≡ true) × (check_events range d es ≡ ok tt)
    go true c h = cc
    go false false h = cc
    go false true h = (refl, refl, h)

check_events-agree :
    (range : CanonicalScanRange) (d : Dict ℕ ℕ) (es : List IndexedEvent)
    → check_events range d es ≡ ok tt
    → All
        (λ e.
          Inside range e.chain_id e.block_number e.confirmation_status
          × (get e.block_number d ≡ some e.block_hash))
        es
check_events-agree range d [] h = tt
check_events-agree range d (e ∷ es) h =
    let (i, k, h') = check_events-step range d e es h in
    (
      (
        inside range e.chain_id e.block_number e.confirmation_status i,
        has_hash-eq (get e.block_number d) e.block_hash k,
      ),
      check_events-agree range d es h',
    )

extends :
    (range : CanonicalScanRange) (p : Option ChainCheckpoint)
    → predecessor_apart range p ≡ false
    → Extends range p
extends range none h = tt
extends range (some p) h = ground arith

-- The checks in their order, each as a value.
validated :
    (range : CanonicalScanRange) (es : List IndexedEvent) (b1 b2 b3 : Bool)
    (r : Result StoreError (Dict ℕ ℕ))
    → (throw_if b1 empty_range >>= λ _. throw_if b2 checkpoint_mismatch >>= λ _.
        throw_if b3 predecessor_gap >>= λ _. r >>= λ d.
        throw_if (not (has_hash (get range.to_block d) range.end_block_hash)) endpoint_missing
        >>= λ _. check_events range d es)
      ≡ ok tt
    → (b1 ≡ false)
      × (b2 ≡ false)
      × (b3 ≡ false)
      × (d : Dict ℕ ℕ) × (r ≡ ok d)
      × (has_hash (get range.to_block d) range.end_block_hash ≡ true)
      × (check_events range d es ≡ ok tt)
validated range es true b2 b3 r h = cc
validated range es false true b3 r h = cc
validated range es false false true r h = cc
validated range es false false false (err e) h = cc
validated range es false false false (ok d) h =
    let (ended, checked) = go (has_hash (get range.to_block d) range.end_block_hash) h in
    (refl, refl, refl, d, refl, ended, checked)
  where
    go :
        (c : Bool)
        → (throw_if (not c) endpoint_missing >>= λ _. check_events range d es) ≡ ok tt
        → (c ≡ true) × (check_events range d es ≡ ok tt)
    go true h = (refl, h)
    go false h = cc

-- A batch that passes the checks is consistent: there is one map from block numbers to hashes that
-- gives the hash of every anchor, of the endpoint and of every event; all of them lie in the scanned
-- range, on its chain and with its status; the checkpoint is the range's end, and the range follows
-- its predecessor.
pub validate_canonical_batch-Agrees :
    (batch : CanonicalBatch)
    → validate_canonical_batch batch ≡ ok tt
    → (hashes : Dict ℕ ℕ) × Agrees batch hashes
unfolding validate_canonical_batch
validate_canonical_batch-Agrees batch h =
    let range = batch.range in
    let (full, matches, follows, d, filled, ended, checked) =
      validated range batch.events _ _ _ (read_anchors range batch.anchors []) h in
    (
      d,
      record {
        range = ground arith;
        chain = ground arith;
        end = ground arith;
        end_hash = ground arith;
        extends = extends range range.predecessor follows;
        anchors = read_anchors-agree range batch.anchors [] d filled;
        endpoint = has_hash-eq (get range.to_block d) range.end_block_hash ended;
        events = check_events-agree range d batch.events checked;
      },
    )
