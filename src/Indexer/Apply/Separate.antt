-- ===== src/Indexer/Apply/Separate.antt =====
-- The scanned ranges of a chain do not overlap.
use cpredict.Prelude.{◌≡◌, Bool, true, false, [], ◌∷◌, arith, All, if◌then◌else◌}
use cpredict.Prelude.Dict.{Eq, Dict, put, nat_eq, pair_eq, All-put}
use cpredict.Indexer.Types.{CanonicalScanRange, CanonicalBatch}
use cpredict.Indexer.Memory.{Key, Store, Outside}
use cpredict.Indexer.Apply.Keeps.{apply_batch-keeps}
use cpredict.Indexer.Apply.{overlaps, overlaps_any, apply_batch}

-- No two of the ranges overlap.
abbrev pub Separate {ℓ} : {K : Type ℓ} → Dict K CanonicalScanRange → Type ℓ
Separate [] = Unit
Separate ((_, r) ∷ rest) = All (λ kr. overlaps r kr.1 ≡ false) rest × Separate rest

overlaps_sym : (a b : CanonicalScanRange) → overlaps a b ≡ false → overlaps b a ≡ false
overlaps_sym a b h = ground arith

none_overlaps :
    (r : CanonicalScanRange) (d : Dict Key CanonicalScanRange)
    → overlaps_any r d ≡ false
    → All (λ kr. overlaps r kr.1 ≡ false) d
unfolding overlaps_any
none_overlaps r [] h = tt
none_overlaps r ((k, x) ∷ d) h = (ground arith, none_overlaps r d (ground arith))

-- The range that is written overlaps none of the others, also where it takes the place of one.
put-Separate :
    {K : Type 0} ⦃e : Eq K⦄ (k : K) (r : CanonicalScanRange) (d : Dict K CanonicalScanRange)
    → All (λ kr. overlaps r kr.1 ≡ false) d
    → Separate d
    → Separate (put k r d)
unfolding put
put-Separate k r [] h s = (tt, tt)
put-Separate ⦃e⦄ k r ((j, x) ∷ d) (hx, hs) (hd, sd) =
    go (e.same k j) (All-put (λ kr. overlaps x kr.1 ≡ false) k r d (overlaps_sym r x hx) hd)
      (put-Separate k r d hs sd)
  where
    go :
        (b : Bool)
        → All (λ kr. overlaps x kr.1 ≡ false) (put k r d)
        → Separate (put k r d)
        → Separate (if b then (k, r) ∷ d else (j, x) ∷ put k r d)
    go true a t = (hs, sd)
    go false a t = (a, t)

-- The committed ranges of a store never overlap: if no two of them have a block of one chain in
-- common before a batch, no two have after it, whether the batch is written or refused.
pub apply_batch-Separate :
    (o : Outside) (batch : CanonicalBatch) (s : Store)
    → Separate s.ranges
    → Separate (apply_batch o batch s).1.ranges
apply_batch-Separate o batch =
    apply_batch-keeps (λ s. Separate s.ranges) o batch
      (λ s free same h.
        put-Separate (batch.range.chain_id, batch.range.to_block) batch.range s.ranges
          (none_overlaps batch.range s.ranges free) h)
      (λ b s agree h. h) (λ e s same h. h)
