-- ===== src/Indexer/Scan/Valid.antt =====
-- The batches of the scan pass the checks that the stores make of a batch.
use cpredict.Indexer.Scan.Checks.{
  get-hashes_of, check_events_ok, hashes_of-find_block, read_anchors-hashes_of, AreBlocks-Fits,
  Fits, AreBlocks-numbers_of, numbers_of, not-outside,
}
use cpredict.Prelude.{
  inl, inr, Bool-cases, ℕ, ◌+◌, ◌≤◌, ◌≡◌, refl, sym, ap, ◌∙◌, subst, arith, Bool, true, false, not,
  ◌&&◌, Option, none, some, List, [], ◌∷◌, ◌==◌, Result, ok, throw_if, ◌>>=◌, All, All-imp,
}
use cpredict.Prelude.Dict.{Dict, get, nat_eq}
use cpredict.Indexer.Types.{
  IndexedEvent, CanonicalBlock, CanonicalScanRange, CanonicalBatch, ChainCheckpoint, StoreError,
  sparse, empty_range, checkpoint_mismatch, predecessor_gap, endpoint_missing,
}
use cpredict.Indexer.Batch.{
  has_hash, outside, predecessor_apart, read_anchors, check_events, validate_canonical_batch,
}
use cpredict.Indexer.Memory.{Outside}
use cpredict.Indexer.Anchors.{load_canonical_anchors, hashes_of, block_numbers}
use cpredict.Indexer.Anchors.Laws.{
  Within, Unique, AreBlocks, read_blocks-AreBlocks, unique_addresses-Unique, All-unique_addresses,
  block_numbers-Within,
}
use cpredict.Prelude.{leb, any}
use cpredict.Indexer.Logs.{unique_addresses}
use cpredict.Indexer.Scan.{Node, IndexerOptions, build_batch, batch_of}
use cpredict.Indexer.Scan.Built.{IsOf, build_batch-IsBuilt}

-- A range that follows the checkpoint of the chain.
abbrev pub Follows : IndexerOptions → Option ChainCheckpoint → ℕ → Type 0
Follows options none from = Unit
Follows options (some c) from = (c.chain_id ≡ options.chain_id) × (c.block_number + 1 ≡ from)

Follows-predecessor_apart :
    (options : IndexerOptions) (checkpoint : Option ChainCheckpoint) (from : ℕ)
    (range : CanonicalScanRange)
    → range.chain_id ≡ options.chain_id
    → range.from_block ≡ from
    → Follows options checkpoint from
    → predecessor_apart range checkpoint ≡ false
Follows-predecessor_apart options none from range c f h = refl
Follows-predecessor_apart options (some p) from range c f (same, next) = ground arith

-- The checks in their order, each as a value.
passed :
    (range : CanonicalScanRange) (es : List IndexedEvent) (b1 b2 b3 : Bool)
    (r : Result StoreError (Dict ℕ ℕ)) (d : Dict ℕ ℕ)
    → b1 ≡ false
    → b2 ≡ false
    → b3 ≡ false
    → r ≡ ok d
    → has_hash (get range.to_block d) range.end_block_hash ≡ true
    → check_events range d es ≡ ok tt
    → (throw_if b1 empty_range >>= λ _. throw_if b2 checkpoint_mismatch >>= λ _.
        throw_if b3 predecessor_gap >>= λ _. r >>= λ d.
        throw_if (not (has_hash (get range.to_block d) range.end_block_hash)) endpoint_missing
        >>= λ _. check_events range d es)
      ≡ ok tt
passed range es true b2 b3 r d h1 h2 h3 h4 h5 h6 = cc
passed range es false true b3 r d h1 h2 h3 h4 h5 h6 = cc
passed range es false false true r d h1 h2 h3 h4 h5 h6 = cc
passed range es false false false r d h1 h2 h3 h4 h5 h6 =
    ap
      (λ (x : Result StoreError (Dict ℕ ℕ)). x >>= λ d.
        throw_if (not (has_hash (get range.to_block d) range.end_block_hash)) endpoint_missing
        >>= λ _. check_events range d es)
      h4
    ∙ (ap (λ b. throw_if (not b) endpoint_missing >>= λ _. check_events range d es) h5 ∙ h6)

events_inside :
    (range : CanonicalScanRange) (bs : List CanonicalBlock) (es : List IndexedEvent)
    → All (IsOf range.chain_id range.confirmation_status) es
    → All (λ e. Within range.from_block range.to_block e.block_number) es
    → All (λ e. outside range e.chain_id e.block_number e.confirmation_status ≡ false) es
events_inside range bs [] h k = tt
events_inside range bs (e ∷ es) (h, hs) (k, ks) = (
  not-outside range e.chain_id e.block_number e.confirmation_status h.0 k h.1,
  events_inside range bs es hs ks,
)

-- Only a block of the range has its hash among the anchors.
has_hash-Within :
    (from to n h : ℕ) (bs : List CanonicalBlock)
    → All (Within from to) (numbers_of bs)
    → has_hash (get n (hashes_of bs [])) h ≡ true
    → Within from to n
unfolding get
has_hash-Within from to n h bs within e = elim (Bool-cases (leb from n && leb n to)) [
  | inl inside ↦ ground arith
  | inr out ↦
      let apart : All (λ m. (m == n) ≡ false) (numbers_of bs) =
        All-imp (Within from to) (λ m. (m == n) ≡ false) (numbers_of bs) (λ m w. ground arith)
          within in
      let absent : get n (hashes_of bs []) ≡ none = get-hashes_of n bs [] apart in
      let never : false ≡ true = ap (λ o. has_hash o h) (sym absent) ∙ e in cc never
]

events-Within :
    (from to : ℕ) (bs : List CanonicalBlock) (es : List IndexedEvent)
    → All (Within from to) (numbers_of bs)
    → any (λ e. not (has_hash (get e.block_number (hashes_of bs [])) e.block_hash)) es ≡ false
    → All (λ e. Within from to e.block_number) es
events-Within from to bs [] within h = tt
events-Within from to bs (e ∷ es) within h =
    let here : has_hash (get e.block_number (hashes_of bs [])) e.block_hash ≡ true =
      ground (arith, h) in
    (
      has_hash-Within from to e.block_number e.block_hash bs within here,
      events-Within from to bs es within (ground (arith, h)),
    )

nothing_there : (ns : List ℕ) → All (λ n. get {V = ℕ} n [] ≡ none) ns
unfolding get
nothing_there [] = tt
nothing_there (n ∷ ns) = (refl, nothing_there ns)

-- A batch that the scan builds for a range that follows the checkpoint passes the checks of
-- `validateCanonicalBatch`, whatever the node answers, if in sparse mode the events that the node answers
-- lie in the range. In dense mode the anchors show that they do.
pub build_batch-validate_canonical_batch :
    (o : Outside) (node : Node) (options : IndexerOptions) (registered : List ℕ)
    (checkpoint : Option ChainCheckpoint) (from to : ℕ) (built : CanonicalBatch × ℕ)
    → from ≤ to
    → Follows options checkpoint from
    → (options.canonical_mode ≡ sparse → All (λ e. Within from to e.block_number) built.0.events)
    → build_batch o node options registered checkpoint from to ≡ ok built
    → validate_canonical_batch built.0 ≡ ok tt
unfolding validate_canonical_batch load_canonical_anchors
build_batch-validate_canonical_batch o node options registered checkpoint from to built order
      follows given h =
    let is = build_batch-IsBuilt o node options registered checkpoint from to built h in
    let batch : CanonicalBatch =
      batch_of options checkpoint from to is.anchors is.events is.end.block_hash in
    let range : CanonicalScanRange = batch.range in
    let numbers : List ℕ =
      unique_addresses (block_numbers options.canonical_mode from to is.events) in
    let blocks : AreBlocks range.chain_id range.confirmation_status numbers is.anchors =
      read_blocks-AreBlocks node.header range.chain_id range.confirmation_status numbers is.anchors
        is.loaded in
    let within : All (Within from to) numbers =
      All-unique_addresses (Within from to) (block_numbers options.canonical_mode from to is.events)
        (block_numbers-Within options.canonical_mode from to is.events order (λ m.
          subst (λ (b : CanonicalBatch). All (λ e. Within from to e.block_number) b.events)
            (sym is.is_batch) (given m))) in
    let same : numbers ≡ numbers_of is.anchors =
      sym
        (AreBlocks-numbers_of range.chain_id range.confirmation_status numbers is.anchors blocks) in
    let unique : Unique (numbers_of is.anchors) =
      subst Unique same
        (unique_addresses-Unique (block_numbers options.canonical_mode from to is.events)) in
    let fits : Fits range is.anchors = AreBlocks-Fits range numbers is.anchors blocks within in
    subst (λ b. validate_canonical_batch b ≡ ok tt) is.is_batch
      (passed range is.events _ _ _ (read_anchors range is.anchors []) (hashes_of is.anchors [])
        (ground arith) (ground arith)
        (Follows-predecessor_apart options checkpoint from range refl refl follows)
        (read_anchors-hashes_of range is.anchors [] fits unique
          (nothing_there (numbers_of is.anchors)))
        (hashes_of-find_block to is.anchors [] is.end unique is.found)
        (check_events_ok range (hashes_of is.anchors []) is.events
          (events_inside range is.anchors is.events is.of_chain (
            events-Within from to is.anchors is.events (subst (All (Within from to)) same within)
              is.hashed))
          is.hashed))
