-- ===== src/Indexer/Reorg/Laws.antt =====
-- After a reconciliation the checkpoint is a block of the node's chain.
use cpredict.Prelude.{
  ℕ, ◌≡◌, refl, sym, ap, ◌∙◌, subst, Bool, true, false, Option, none, some, arith, Result, ok, err,
  if◌then◌else◌, ◌==◌,
}
use cpredict.Prelude.Dict.{get, nat_eq, pair_eq, get-delete_all}
use cpredict.Indexer.Types.{StoreError, ChainCheckpoint}
use cpredict.Indexer.Memory.{Store, Outside, gets}
use cpredict.Indexer.Apply.{hash_of, stored_hash}
use cpredict.Indexer.Apply.Canonical.{IsCanonical}
use cpredict.Indexer.Apply.Anchored.{HasCheckpoint}
use cpredict.Indexer.Memory.Laws.{>>-keeps, outcome, bind_ok}
use cpredict.Indexer.Rollback.{rebuild_views, set_ancestor, drop_history, rollback_after}
use cpredict.Indexer.Rollback.Laws.{get-kept_block, rolled_back, dropped, rollback_after_ancestor}
use cpredict.Indexer.Reorg.{
  common_ancestor, scan_ranges, retained_top, roll_back_to, settle_on, reconcile_from,
  reconcile_checkpoint, search_ranges, search_retained,
}
use cpredict.Indexer.Reorg.Search.{
  IsShared, or_search-IsShared, search_ranges-IsShared, search_retained-IsShared,
}

common_ancestor-IsShared :
    (node : ℕ → Option ℕ) (deployment chain : ℕ) (c : ChainCheckpoint) (s : Store) (n : ℕ)
    → common_ancestor node deployment chain c s ≡ ok (some n)
    → IsShared node (λ k. stored_hash chain k s) n
unfolding common_ancestor
common_ancestor-IsShared node deployment chain c s n e =
    let stored : ℕ → Option ℕ = λ k. stored_hash chain k s in
    let ranges = scan_ranges chain s in
    let top = retained_top c.block_number ranges in
    or_search-IsShared node stored (search_ranges node stored c.block_number ranges)
      (search_retained node stored deployment top) n
      (search_ranges-IsShared node stored c.block_number ranges)
      (search_retained-IsShared node stored deployment top) e

-- A rollback drops blocks, and writes none.
blocks-rollback_after :
    (o : Outside) (chain : ℕ) (limit : Option ℕ) (s : Store)
    → (rollback_after o chain limit s).1.blocks ≡ (drop_history chain limit s).blocks
blocks-rollback_after o chain limit s =
    rolled_back (λ t. t ≡ s) (λ t. t.blocks ≡ (drop_history chain limit s).blocks) o chain limit
      (λ t e. ap (λ x. (drop_history chain limit x).blocks) e) (λ t v h. h) (λ t d h. h) s refl

stored_hash-rollback_after :
    (o : Outside) (chain n : ℕ) (s : Store)
    → IsCanonical s
    → stored_hash chain n (rollback_after o chain (some n) s).1 ≡ stored_hash chain n s
stored_hash-rollback_after o chain n s h =
    ap (λ d. hash_of (get (chain, n) d)) (blocks-rollback_after o chain (some n) s)
    ∙ ap hash_of (get-kept_block chain (some n) chain n s.blocks kept h.keyed)
  where
    kept : dropped chain (some n) chain n ≡ false
    kept = ground arith

-- With no block to go back to, the chain has no checkpoint.
checkpoints-rollback_all :
    (o : Outside) (chain : ℕ) (s : Store)
    → get chain (rollback_after o chain none s).1.checkpoints ≡ none
unfolding rollback_after
checkpoints-rollback_all o chain s =
    >>-keeps (λ t. get chain t.checkpoints ≡ none) (rebuild_views o chain) (set_ancestor chain none)
      (λ t h. h) (λ t h. h) (drop_history chain none s)
      (get-delete_all (λ k _. k == chain) chain s.checkpoints (λ j v same. ground (arith, same)))

-- The checkpoint of the chain, which the store and the node share.
pub record IsReconciled (node : ℕ → Option ℕ) (chain : ℕ) (c : ChainCheckpoint) (s : Store)
    : Type 0 where
  pub current : get chain s.checkpoints ≡ some c
  pub in_store : stored_hash chain c.block_number s ≡ some c.block_hash
  pub in_node : node c.block_number ≡ some c.block_hash

same_hash : (a b : Option ℕ) (g h : ℕ) → a ≡ some g → b ≡ some h → a ≡ b → g ≡ h
same_hash a b g h e f k = cc

-- No rollback: the checkpoint itself is shared.
kept-IsReconciled :
    (node : ℕ → Option ℕ) (chain : ℕ) (c : ChainCheckpoint) (s : Store) (n : ℕ)
    → get chain s.checkpoints ≡ some c
    → HasCheckpoint chain s
    → n ≡ c.block_number
    → IsShared node (λ k. stored_hash chain k s) n
    → IsReconciled node chain c s
kept-IsReconciled node chain c s n e anchored same shared =
    let stored = (anchored c e).1 in
    let here : stored_hash chain n s ≡ stored_hash chain c.block_number s =
      ap (λ k. stored_hash chain k s) same in
    let hashes : shared.hash ≡ c.block_hash = same_hash _ _ _ _ shared.in_store stored here in
    record {
      current = e;
      in_store = stored;
      in_node = ap node (sym same) ∙ (shared.in_node ∙ ap (λ h. some h) hashes);
    }

-- A rollback to a shared block.
rolled-IsReconciled :
    (node : ℕ → Option ℕ) (o : Outside) (chain n : ℕ) (c : ChainCheckpoint) (s s' : Store)
    → IsCanonical s
    → IsShared node (λ k. stored_hash chain k s) n
    → rollback_after o chain (some n) s ≡ (ok tt, s')
    → get chain s'.checkpoints ≡ some c
    → IsReconciled node chain c s'
rolled-IsReconciled node o chain n c s s' h shared e found =
    let at = rollback_after_ancestor o chain n s s' e in
    let same : stored_hash chain n s' ≡ stored_hash chain n s =
      ap (λ (r : Result StoreError (Unit {0}) × Store). stored_hash chain n r.1) (sym e)
      ∙ stored_hash-rollback_after o chain n s h in
    let hashes : at.hash ≡ shared.hash = same_hash _ _ _ _ at.stored shared.in_store same in
    let is_it : ◌≡◌ {A = ChainCheckpoint}
        (record { chain_id = chain; block_number = n; block_hash = at.hash }) c =
      cc (at.checkpoint, found) in
    subst (λ d. IsReconciled node chain d s') is_it
      (record {
        current = at.checkpoint;
        in_store = at.stored;
        in_node = shared.in_node ∙ ap (λ k. some k) (sym hashes);
      })

none_read :
    (o : Option ChainCheckpoint) (t : Store) (c : ChainCheckpoint) (s' : Store)
    → o ≡ none
    → outcome (ok o, t) ≡ (ok (some c), s')
    → ⊥
none_read o t c s' e h = cc

some_read :
    (o : Option ChainCheckpoint) (t : Store) (c : ChainCheckpoint) (s' : Store)
    → outcome (ok o, t) ≡ (ok (some c), s')
    → o ≡ some c
some_read o t c s' h = cc

returned_eq :
    (top c : ChainCheckpoint) (s s' : Store)
    → outcome (ok (some top), s) ≡ (ok (some c), s')
    → (top ≡ c) × (s ≡ s')
returned_eq top c s s' h = (cc, cc)

roll_back_to-IsReconciled :
    (node : ℕ → Option ℕ) (o : Outside) (chain : ℕ) (ancestor : Option ℕ) (c : ChainCheckpoint)
    (s s' : Store)
    → IsCanonical s
    → ((n : ℕ) → ancestor ≡ some n → IsShared node (λ k. stored_hash chain k s) n)
    → roll_back_to o chain ancestor s ≡ (ok (some c), s')
    → IsReconciled node chain c s'
roll_back_to-IsReconciled node o chain none c s s' h shared e =
    let (_, read) =
      bind_ok (rollback_after o chain none s).0 (rollback_after o chain none s).1 s'
        (gets (λ s. get chain s.checkpoints)) e in
    absurd (none_read _ _ c s' (checkpoints-rollback_all o chain s) read)
roll_back_to-IsReconciled node o chain (some n) c s s' h shared e =
    let (returned, read) =
      bind_ok (rollback_after o chain (some n) s).0 (rollback_after o chain (some n) s).1 s'
        (gets (λ s. get chain s.checkpoints)) e in
    let there = ap (λ (r : Result StoreError (Option ChainCheckpoint) × Store). r.1) read in
    rolled-IsReconciled node o chain n c s s' h (shared n refl) (λ i. (returned.1 i, there i))
      (ap (λ (t : Store). get chain t.checkpoints) (sym there) ∙ some_read _ _ c s' read)

settle_on-IsReconciled :
    (node : ℕ → Option ℕ) (o : Outside) (chain : ℕ) (top c : ChainCheckpoint)
    (search : Result StoreError (Option ℕ)) (s s' : Store)
    → IsCanonical s
    → HasCheckpoint chain s
    → get chain s.checkpoints ≡ some top
    → ((n : ℕ) → search ≡ ok (some n) → IsShared node (λ k. stored_hash chain k s) n)
    → settle_on o chain top search s ≡ (ok (some c), s')
    → IsReconciled node chain c s'
settle_on-IsReconciled node o chain top c (err x) s s' h anchored now shared e = cc
settle_on-IsReconciled node o chain top c (ok none) s s' h anchored now shared e =
    roll_back_to-IsReconciled node o chain none c s s' h (λ n k. cc) e
settle_on-IsReconciled node o chain top c (ok (some n)) s s' h anchored now shared e =
    go (n == top.block_number) refl e
  where
    go :
        (b : Bool)
        → (n == top.block_number) ≡ b
        → outcome (if b then (ok (some top), s) else roll_back_to o chain (some n) s)
          ≡ (ok (some c), s')
        → IsReconciled node chain c s'
    go true k f =
        let (is_top, there) = returned_eq top c s s' f in
        subst (IsReconciled node chain c) there (
          subst (λ d. IsReconciled node chain d s) is_top
            (kept-IsReconciled node chain top s n now anchored (ground arith) (shared n refl)))
    go false k f =
        roll_back_to-IsReconciled node o chain (some n) c s s' h
          (λ m same. subst (IsShared node (λ k. stored_hash chain k s)) (cc same) (shared n refl)) f

-- A reconciliation that returns a checkpoint leaves a store and a node that agree on it: it is the
-- store's checkpoint of the chain, and both have its hash under its number. This holds for a canonical
-- store whose checkpoint is a stored block.
pub reconcile_checkpoint-IsReconciled :
    (node : ℕ → Option ℕ) (o : Outside) (deployment chain : ℕ) (s s' : Store) (c : ChainCheckpoint)
    → IsCanonical s
    → HasCheckpoint chain s
    → reconcile_checkpoint node o deployment chain s ≡ (ok (some c), s')
    → IsReconciled node chain c s'
unfolding reconcile_checkpoint
reconcile_checkpoint-IsReconciled node o deployment chain s s' c h anchored e =
    go (get chain s.checkpoints) refl e
  where
    go :
        (top : Option ChainCheckpoint)
        → get chain s.checkpoints ≡ top
        → reconcile_from node o deployment chain top s ≡ (ok (some c), s')
        → IsReconciled node chain c s'
    go none k f = cc
    go (some top) k f =
        settle_on-IsReconciled node o chain top c (common_ancestor node deployment chain top s) s s'
          h anchored k (common_ancestor-IsShared node deployment chain top s) f
