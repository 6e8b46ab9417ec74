-- ===== src/Indexer/Rollback/Laws.antt =====
-- What a rollback leaves.
use cpredict.Prelude.{
  ℕ, ◌≡◌, ◌≤◌, refl, ap, ◌∙◌, subst, Bool, true, false, ◌&&◌, Option, none, some, arith, All,
  All-imp, ok, ◌==◌,
}
use cpredict.Prelude.Dict.{
  Dict, get, delete_if, nat_eq, pair_eq, get-delete_if, All-delete_if, get-put_self,
}
use cpredict.Indexer.Types.{CanonicalBlock, ChainCheckpoint}
use cpredict.Indexer.Memory.{Key, Views, Store, Outside}
use cpredict.Indexer.Memory.Laws.{Keeps, >>-keeps, bind_ok}
use cpredict.Indexer.Apply.{hash_of, stored_hash}
use cpredict.Indexer.Apply.Canonical.{OwnKey, Anchored, IsCanonical}
use cpredict.Indexer.Rollback.{
  after, drop_history, rebuild, ancestor, rebuild_views, set_ancestor, rollback_after,
}

abbrev pub dropped : ℕ → Option ℕ → ℕ → ℕ → Bool
dropped chain limit c n = c == chain && after limit n

-- The block of an event that is kept is kept.
pub get-kept_block :
    (chain : ℕ) (limit : Option ℕ) (c n : ℕ) (blocks : Dict Key CanonicalBlock)
    → dropped chain limit c n ≡ false
    → All OwnKey blocks
    → get (c, n) (delete_if (λ _ b. b.chain_id == chain && after limit b.block_number) blocks)
      ≡ get (c, n) blocks
get-kept_block chain limit c n blocks kept keyed =
    get-delete_if _ (c, n) blocks (All-imp OwnKey _ blocks same keyed)
  where
    same :
        (kb : Key × CanonicalBlock)
        → OwnKey kb
        → ((c == kb.0.0) && (n == kb.0.1)) ≡ true
        → (kb.1.chain_id == chain && after limit kb.1.block_number) ≡ false
    same ((c', n'), b) own eq =
        let here : b.chain_id ≡ c = ap (λ k. k.0) own ∙ ground arith in
        let at : b.block_number ≡ n = ap (λ k. k.1) own ∙ ground arith in
        ap (λ x. dropped chain limit x b.block_number) here ∙ ap (dropped chain limit c) at ∙ kept

drop_history-IsCanonical :
    (chain : ℕ) (limit : Option ℕ) (s : Store)
    → IsCanonical s
    → IsCanonical (drop_history chain limit s)
drop_history-IsCanonical chain limit s h = record {
  keyed = All-imp _ OwnKey _ (λ kb r. r.0) (All-delete_if OwnKey _ s.blocks h.keyed);
  anchored =
      All-imp _ (Anchored (drop_history chain limit s).blocks) _
        (λ ke r. (
          r.0.0,
          ap hash_of
                (get-kept_block chain limit ke.1.chain_id ke.1.block_number s.blocks r.1 h.keyed)
              ∙ r.0.1,
        ))
        (All-delete_if (Anchored s.blocks) _ s.events h.anchored);
}

-- The last two parts of a rollback write neither blocks nor events nor ranges.
ancestor-same :
    (P : Store → Type 0)
    → ((s : Store) (d : Dict ℕ ChainCheckpoint) → P s → P (record s { checkpoints = d }))
    → (chain n : ℕ) (o : Option CanonicalBlock) → Keeps P (ancestor chain n o)
ancestor-same P stable chain n none s h = h
ancestor-same P stable chain n (some b) s h = stable s _ h

set_ancestor-same :
    (P : Store → Type 0)
    → ((s : Store) (d : Dict ℕ ChainCheckpoint) → P s → P (record s { checkpoints = d }))
    → (chain : ℕ) (limit : Option ℕ) → Keeps P (set_ancestor chain limit)
set_ancestor-same P stable chain none s h = h
set_ancestor-same P stable chain (some n) s h =
    ancestor-same P stable chain n (get (chain, n) s.blocks) s h

-- A property that the dropping of the history keeps, and that does not look at the views and the
-- checkpoints.
pub rolled_back :
    (P Q : Store → Type 0) (o : Outside) (chain : ℕ) (limit : Option ℕ)
    → ((s : Store) → P s → Q (drop_history chain limit s))
    → ((s : Store) (v : Views) → Q s → Q (record s { views = v }))
    → ((s : Store) (d : Dict ℕ ChainCheckpoint) → Q s → Q (record s { checkpoints = d }))
    → (s : Store) → P s
    → Q (rollback_after o chain limit s).1
unfolding rollback_after
rolled_back P Q o chain limit dropping viewed checked s h =
    >>-keeps Q (rebuild_views o chain) (set_ancestor chain limit)
      (λ t k. viewed t (rebuild o chain t t.views).1 k) (set_ancestor-same Q checked chain limit)
      (drop_history chain limit s) (dropping s h)

-- A rollback keeps a canonical store canonical, whether it returns or throws: the events that it
-- leaves still have the hashes of the stored blocks.
pub rollback_after-IsCanonical :
    (o : Outside) (chain : ℕ) (limit : Option ℕ) (s : Store)
    → IsCanonical s
    → IsCanonical (rollback_after o chain limit s).1
rollback_after-IsCanonical o chain limit =
    rolled_back IsCanonical IsCanonical o chain limit (drop_history-IsCanonical chain limit)
      (λ s v h. record { keyed = h.keyed; anchored = h.anchored })
      (λ s d h. record { keyed = h.keyed; anchored = h.anchored })

-- A block number that a rollback to the limit leaves on its chain.
abbrev pub Kept : Option ℕ → ℕ → Type 0
Kept none n = ⊥
Kept (some limit) n = n ≤ limit

kept :
    (chain c n : ℕ) (limit : Option ℕ) → dropped chain limit c n ≡ false → c ≡ chain → Kept limit n
kept chain c n none h e = ground arith
kept chain c n (some limit) h e = ground arith

-- Nothing of the chain is left after the limit, and nothing at all where there is none.
pub record IsTruncated (chain : ℕ) (limit : Option ℕ) (s : Store) : Type 0 where
  pub ranges : All (λ kr. kr.1.chain_id ≡ chain → Kept limit kr.1.to_block) s.ranges
  pub blocks : All (λ kb. kb.1.chain_id ≡ chain → Kept limit kb.1.block_number) s.blocks
  pub events : All (λ ke. ke.1.chain_id ≡ chain → Kept limit ke.1.block_number) s.events

-- The stored block is the checkpoint.
pub record AtAncestor (chain n : ℕ) (s : Store) : Type 0 where
  pub hash : ℕ
  pub checkpoint :
      get chain s.checkpoints
      ≡ some (record { chain_id = chain; block_number = n; block_hash = hash })
  pub stored : stored_hash chain n s ≡ some hash

ancestor-AtAncestor :
    (chain n : ℕ) (s s' : Store) (found : Option CanonicalBlock)
    → get (chain, n) s.blocks ≡ found
    → ancestor chain n found s ≡ (ok tt, s')
    → AtAncestor chain n s'
ancestor-AtAncestor chain n s s' none e h = cc
ancestor-AtAncestor chain n s s' (some b) e h =
    subst (AtAncestor chain n) (ap (λ r. r.1) h) (record {
      hash = b.block_hash;
      checkpoint = get-put_self chain _ s.checkpoints;
      stored = ap hash_of e;
    })

-- A rollback to a block that returns makes that block the checkpoint of the chain: the checkpoint has
-- the number, and the hash of the block that is stored under it.
pub rollback_after_ancestor :
    (o : Outside) (chain n : ℕ) (s s' : Store)
    → rollback_after o chain (some n) s ≡ (ok tt, s')
    → AtAncestor chain n s'
unfolding rollback_after
rollback_after_ancestor o chain n s s' h =
    let t = drop_history chain (some n) s in
    let built = rebuild_views o chain t in
    let (_, h') = bind_ok built.0 built.1 s' (set_ancestor chain (some n)) h in
    ancestor-AtAncestor chain n built.1 s' (get (chain, n) built.1.blocks) refl h'
