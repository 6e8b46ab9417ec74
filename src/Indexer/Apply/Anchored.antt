-- ===== src/Indexer/Apply/Anchored.antt =====
-- The checkpoint of a chain is a stored block.
use cpredict.Prelude.{
  ℕ, ◌≡◌, refl, sym, ◌∙◌, ap, subst, Bool, false, true, some, ◌==◌, if◌then◌else◌, arith,
}
use cpredict.Prelude.Dict.{get, nat_eq, pair_eq, get-put}
use cpredict.Indexer.Types.{ChainCheckpoint, CanonicalBatch}
use cpredict.Indexer.Batch.Laws.{has_hash-eq}
use cpredict.Indexer.Memory.{Store, Outside}
use cpredict.Indexer.Apply.{stored_hash, apply_batch}
use cpredict.Indexer.Apply.Canonical.{hash_of-put}
use cpredict.Indexer.Apply.Keeps.{KeptByBlock, KeptByCommit, apply_batch-keeps}

-- The checkpoint that stands under a chain is the chain's, and its block is stored with its hash.
abbrev pub HasCheckpoint : ℕ → Store → Type 0
HasCheckpoint chain s =
    (c : ChainCheckpoint)
    → get chain s.checkpoints ≡ some c
    → (c.chain_id ≡ chain) × (stored_hash chain c.block_number s ≡ some c.block_hash)

KeptByBlock-HasCheckpoint : (chain : ℕ) → KeptByBlock (HasCheckpoint chain)
KeptByBlock-HasCheckpoint chain b s agree h c e = (
  (h c e).0,
  hash_of-put (b.chain_id, b.block_number) (chain, c.block_number) b c.block_hash s.blocks agree
      (h c e).1,
)

KeptByCommit-HasCheckpoint :
    (chain : ℕ) (batch : CanonicalBatch) → KeptByCommit (HasCheckpoint chain) batch
KeptByCommit-HasCheckpoint chain batch s free same h c e =
    go (chain == new.chain_id) refl (sym (get-put new.chain_id chain new s.checkpoints) ∙ e)
  where
    new : ChainCheckpoint
    new = batch.checkpoint

    stored : stored_hash new.chain_id new.block_number s ≡ some new.block_hash
    stored = has_hash-eq (stored_hash new.chain_id new.block_number s) new.block_hash same

    Holds : ChainCheckpoint → Type 0
    Holds d = (d.chain_id ≡ chain) × (stored_hash chain d.block_number s ≡ some d.block_hash)

    go :
        (b : Bool)
        → (chain == new.chain_id) ≡ b
        → (if b then some new else get chain s.checkpoints) ≡ some c
        → Holds c
    go true k found =
        let here : chain ≡ new.chain_id = ground (arith, k) in
        let is_new : new ≡ c = cc found in
        subst Holds is_new (sym here, ap (λ n. stored_hash n new.block_number s) here ∙ stored)
    go false k found = h c found

-- Whether a batch is written or refused, the checkpoint of every chain stays a stored block: it has the
-- hash of the block that is stored under the checkpoint's chain and number.
pub apply_batch-HasCheckpoint :
    (o : Outside) (batch : CanonicalBatch) (chain : ℕ) (s : Store)
    → HasCheckpoint chain s
    → HasCheckpoint chain (apply_batch o batch s).1
apply_batch-HasCheckpoint o batch chain =
    apply_batch-keeps (HasCheckpoint chain) o batch (KeptByCommit-HasCheckpoint chain batch)
      (KeptByBlock-HasCheckpoint chain) (λ e s same h. h)
