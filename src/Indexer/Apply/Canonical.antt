-- ===== src/Indexer/Apply/Canonical.antt =====
-- The store's events are those of its canonical blocks, whatever happens to a batch.
use cpredict.Prelude.{ℕ, ◌≡◌, refl, false, some, arith, All, All-imp}
use cpredict.Prelude.Dict.{Eq, Dict, get, put, nat_eq, pair_eq, get-put, All-put}
use cpredict.Indexer.Types.{IndexedEvent, CanonicalBlock, CanonicalBatch}
use cpredict.Indexer.Batch.{differs}
use cpredict.Indexer.Batch.Laws.{has_hash-eq}
use cpredict.Indexer.Memory.{Key, EventKey, Store, Outside, event_key}
use cpredict.Indexer.Apply.{hash_of, stored_hash, apply_batch}
use cpredict.Indexer.Apply.Keeps.{KeptByBlock, KeptByEvent, apply_batch-keeps}

-- Blocks stand under their chain and number, events under their own keys, and the block of an event is
-- stored with the event's hash.
abbrev pub OwnKey : Key × CanonicalBlock → Type 0
OwnKey (k, b) = (b.chain_id, b.block_number) ≡ k

abbrev pub Anchored : Dict Key CanonicalBlock → EventKey × IndexedEvent → Type 0
Anchored blocks (k, e) =
    (event_key e ≡ k) × (hash_of (get (e.chain_id, e.block_number) blocks) ≡ some e.block_hash)

pub record IsCanonical (s : Store) : Type 0 where
  pub keyed : All OwnKey s.blocks
  pub anchored : All (Anchored s.blocks) s.events

-- A block that does not contradict the stored one leaves the hashes that are known.
pub hash_of-put :
    {K : Type 0} ⦃e : Eq K⦄ (k j : K) (b : CanonicalBlock) (h : ℕ) (d : Dict K CanonicalBlock)
    → differs (hash_of (get k d)) b.block_hash ≡ false
    → hash_of (get j d) ≡ some h
    → hash_of (get j (put k b d)) ≡ some h
hash_of-put ⦃e⦄ k j b h d agree known = ground (arith, get-put k j b d, e.same_iff j k)

KeptByBlock-IsCanonical : KeptByBlock IsCanonical
KeptByBlock-IsCanonical b s agree h = record {
  keyed = All-put OwnKey (b.chain_id, b.block_number) b s.blocks refl h.keyed;
  anchored =
      All-imp (Anchored s.blocks) _ s.events
        (λ ke a. (
          a.0,
          hash_of-put (b.chain_id, b.block_number) (ke.1.chain_id, ke.1.block_number) b
              ke.1.block_hash s.blocks agree a.1,
        ))
        h.anchored;
}

KeptByEvent-IsCanonical : (o : Outside) → KeptByEvent IsCanonical o
KeptByEvent-IsCanonical o e s same h = record {
  keyed = h.keyed;
  anchored =
      All-put (Anchored s.blocks) (event_key e) e s.events
        (refl, has_hash-eq (stored_hash e.chain_id e.block_number s) e.block_hash same) h.anchored;
}

-- Whether a batch is written or refused, a canonical store stays canonical: every stored event has
-- the hash of the block that is stored under the event's chain and number, also after a throw in the
-- middle of the batch.
pub apply_batch-IsCanonical :
    (o : Outside) (batch : CanonicalBatch) (s : Store)
    → IsCanonical s
    → IsCanonical (apply_batch o batch s).1
apply_batch-IsCanonical o batch =
    apply_batch-keeps IsCanonical o batch
      (λ s free same h. record { keyed = h.keyed; anchored = h.anchored }) KeptByBlock-IsCanonical
      (KeptByEvent-IsCanonical o)
