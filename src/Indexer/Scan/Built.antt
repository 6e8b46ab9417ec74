-- ===== src/Indexer/Scan/Built.antt =====
-- What a batch of the scan is made of.
use cpredict.Prelude.Sort.Ascends.{All-sort_by}
use cpredict.Prelude.{
  ℕ, ◌≡◌, refl, ap, subst, Bool, true, false, not, Option, none, some, List, [], ◌∷◌, any, ok,
  throw_if, >>=-eq-ok, All,
}
use cpredict.Prelude.Dict.{get, nat_eq}
use cpredict.Indexer.Types.{
  incomplete_log, ConfirmationStatus, IndexedEvent, CanonicalBlock, CanonicalBatch, ChainCheckpoint,
  StoreError, endpoint_missing, event_mismatch,
}
use cpredict.Indexer.Batch.{has_hash}
use cpredict.Indexer.Memory.{Outside}
use cpredict.Indexer.Logs.{deduplicate_logs, Log, present, normalize_log, normalize_logs}
use cpredict.Indexer.Anchors.Laws.{ok_eq}
use cpredict.Indexer.Scan.{
  fence_changed, rpc_failed, find_block, hashes_of, validate_anchors, Header, gather_logs,
  load_canonical_anchors, compare_events, Node, IndexerOptions, gather_events, build_batch,
  batch_of, confirmation_for,
}

-- An event of the chain, with the status.
abbrev pub IsOf : ℕ → ConfirmationStatus → IndexedEvent → Type 0
IsOf chain status e = (e.chain_id ≡ chain) × (e.confirmation_status ≡ status)

normalize_log-IsOf :
    (chain : ℕ) (status : ConfirmationStatus) (l : Log) (e : IndexedEvent)
    → normalize_log chain status l ≡ ok e
    → IsOf chain status e
unfolding normalize_log
normalize_log-IsOf chain status l e h =
    let (a, _, h1) = >>=-eq-ok (present incomplete_log l.block_number) _ h in
    let (b, _, h2) = >>=-eq-ok (present incomplete_log l.block_hash) _ h1 in
    let (c, _, h3) = >>=-eq-ok (present incomplete_log l.transaction_hash) _ h2 in
    let (d, _, h4) = >>=-eq-ok (present incomplete_log l.transaction_index) _ h3 in
    let (f, _, h5) = >>=-eq-ok (present incomplete_log l.log_index) _ h4 in
    subst (IsOf chain status) (ok_eq h5) (refl, refl)

normalize_logs-IsOf :
    (chain : ℕ) (status : ConfirmationStatus) (ls : List Log) (es : List IndexedEvent)
    → normalize_logs chain status ls ≡ ok es
    → All (IsOf chain status) es
unfolding normalize_logs
normalize_logs-IsOf chain status [] es h = subst (All (IsOf chain status)) (ok_eq h) tt
normalize_logs-IsOf chain status (l ∷ ls) es h =
    let (e, first, h1) = >>=-eq-ok (normalize_log chain status l) _ h in
    let (rest, others, h2) = >>=-eq-ok (normalize_logs chain status ls) _ h1 in
    subst (All (IsOf chain status)) (ok_eq h2)
      (normalize_log-IsOf chain status l e first, normalize_logs-IsOf chain status ls rest others)

gather_events-IsOf :
    (o : Outside) (node : Node) (options : IndexerOptions) (registered : List ℕ) (from to : ℕ)
    (g : List IndexedEvent × ℕ)
    → gather_events o node options registered from to ≡ ok g
    → All (IsOf options.chain_id (confirmation_for options.confirmations)) g.0
unfolding gather_events
gather_events-IsOf o node options registered from to g h =
    let (logs, _, h1) = >>=-eq-ok (gather_logs o node options registered from to) _ h in
    let (unique, _, h2) = >>=-eq-ok (deduplicate_logs logs.0) _ h1 in
    let (events, normal, h3) =
      >>=-eq-ok (normalize_logs options.chain_id (confirmation_for options.confirmations) unique) _
        h2 in
    subst
      (λ (r : List IndexedEvent × ℕ).
        All (IsOf options.chain_id (confirmation_for options.confirmations)) r.0)
      (ok_eq h3)
      (All-sort_by compare_events (IsOf options.chain_id (confirmation_for options.confirmations))
        events
        (normalize_logs-IsOf options.chain_id (confirmation_for options.confirmations) unique events
          normal))

-- What is read for a batch.
pub record IsBuilt (options : IndexerOptions) (header : ℕ → Option Header)
    (checkpoint : Option ChainCheckpoint) (from to : ℕ) (batch : CanonicalBatch) : Type 0 where
  pub events : List IndexedEvent
  pub anchors : List CanonicalBlock
  pub end : CanonicalBlock
  pub of_chain : All (IsOf options.chain_id (confirmation_for options.confirmations)) events
  pub loaded :
      load_canonical_anchors header options.chain_id
        (confirmation_for options.confirmations)
        options.canonical_mode
        from
        to
        events
      ≡ ok anchors
  pub hashed :
      any (λ e. not (has_hash (get e.block_number (hashes_of anchors [])) e.block_hash)) events
      ≡ false
  pub found : find_block to anchors ≡ some end
  pub is_batch : batch_of options checkpoint from to anchors events end.block_hash ≡ batch

throw_if_ok : (b : Bool) (x : StoreError) (u : Unit {0}) → throw_if b x ≡ ok u → b ≡ false
throw_if_ok true x u h = cc
throw_if_ok false x u h = refl

present_ok : {A : Type 0} (x : StoreError) (r : Option A) (a : A) → present x r ≡ ok a → r ≡ some a
present_ok x none a h = cc
present_ok x (some b) a h = ap (λ c. some c) (ok_eq h)

pub build_batch-IsBuilt :
    (o : Outside) (node : Node) (options : IndexerOptions) (registered : List ℕ)
    (checkpoint : Option ChainCheckpoint) (from to : ℕ) (built : CanonicalBatch × ℕ)
    → build_batch o node options registered checkpoint from to ≡ ok built
    → IsBuilt options node.header checkpoint from to built.0
unfolding build_batch
build_batch-IsBuilt o node options registered checkpoint from to built h =
    let (g, gathered, h1) = >>=-eq-ok (gather_events o node options registered from to) _ h in
    let (anchors, loaded, h2) =
      >>=-eq-ok
        (load_canonical_anchors node.header options.chain_id
          (confirmation_for options.confirmations) options.canonical_mode from to g.0)
        _ h1 in
    let (_, _, h3) = >>=-eq-ok (validate_anchors options.canonical_mode anchors checkpoint) _ h2 in
    let mismatch : Bool =
      any (λ e. not (has_hash (get e.block_number (hashes_of anchors [])) e.block_hash)) g.0 in
    let (u, hashed, h4) = >>=-eq-ok (throw_if mismatch event_mismatch) _ h3 in
    let (end, found, h5) = >>=-eq-ok (present endpoint_missing (find_block to anchors)) _ h4 in
    let (fence, _, h6) = >>=-eq-ok (present rpc_failed (node.fence to)) _ h5 in
    let (_, _, h7) =
      >>=-eq-ok (throw_if (not (has_hash fence end.block_hash)) fence_changed) _ h6 in
    record {
      events = g.0;
      anchors = anchors;
      end = end;
      of_chain = gather_events-IsOf o node options registered from to g gathered;
      loaded = loaded;
      hashed = throw_if_ok mismatch event_mismatch u hashed;
      found = present_ok endpoint_missing (find_block to anchors) end found;
      is_batch = ap (λ (r : CanonicalBatch × ℕ). r.0) (ok_eq h7);
    }
