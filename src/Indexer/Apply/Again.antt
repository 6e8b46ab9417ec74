-- ===== src/Indexer/Apply/Again.antt =====
-- A batch that is delivered again.
use cpredict.Prelude.{
  ◌≡◌, refl, sym, ap, subst, Bool, true, false, Option, none, some, arith, Result, ok, err,
  if◌then◌else◌, ◌⊎◌, inl, inr,
}
use cpredict.Prelude.Dict.{get, put, nat_eq, pair_eq, get-put_self}
use cpredict.Indexer.Types.{
  StoreError, ConfirmationStatus, provisional, confirmed, CanonicalMode, dense, sparse,
  ChainCheckpoint, CanonicalScanRange, CanonicalBatch, checkpoint_unpersisted,
}
use cpredict.Indexer.Batch.{same_status, has_hash, validate_canonical_batch}
use cpredict.Indexer.Batch.Laws.{validate_canonical_batch-Agrees}
use cpredict.Indexer.Memory.{Store, Outside, ◌>>◌}
use cpredict.Indexer.Memory.Laws.{outcome, bind_ok}
use cpredict.Indexer.Apply.{
  same_mode, same_predecessor, same_range, stored_hash, is_range, is_checkpoint, already_applied,
  admissible, commit, write_blocks, write_batch, write_checkpoint, apply_batch,
}

same_status_refl : (s : ConfirmationStatus) → same_status s s ≡ true
same_status_refl provisional = refl
same_status_refl confirmed = refl

same_mode_refl : (m : CanonicalMode) → same_mode m m ≡ true
same_mode_refl dense = refl
same_mode_refl sparse = refl

same_predecessor_refl : (p : Option ChainCheckpoint) → same_predecessor p p ≡ true
same_predecessor_refl none = refl
same_predecessor_refl (some p) = ground arith

same_range_refl : (r : CanonicalScanRange) → same_range r r ≡ true
same_range_refl r = ground (
  arith,
  same_status_refl r.confirmation_status,
  same_mode_refl r.mode,
  same_predecessor_refl r.predecessor,
)

is_range_self :
    (r : CanonicalScanRange) (o : Option CanonicalScanRange) → o ≡ some r → is_range o r ≡ true
is_range_self r o h = subst (λ x. is_range x r ≡ true) (sym h) (same_range_refl r)

is_checkpoint_self :
    (c : ChainCheckpoint) (o : Option ChainCheckpoint) → o ≡ some c → is_checkpoint o c ≡ true
is_checkpoint_self c o h = subst (λ x. is_checkpoint x c ≡ true) (sym h) (ground arith)

written-already_applied :
    (batch : CanonicalBatch) (s : Store)
    → batch.checkpoint.chain_id ≡ batch.range.chain_id
    → already_applied batch (write_checkpoint batch s) ≡ true
written-already_applied batch s same =
    let range = batch.range in
    let there =
      is_range_self range _ (get-put_self (range.chain_id, range.to_block) range s.ranges) in
    let current : is_checkpoint
          (get range.chain_id (put batch.checkpoint.chain_id batch.checkpoint s.checkpoints))
          batch.checkpoint
        ≡ true =
      subst
        (λ c.
          is_checkpoint (get c (put batch.checkpoint.chain_id batch.checkpoint s.checkpoints))
            batch.checkpoint
          ≡ true)
        same
        (is_checkpoint_self batch.checkpoint _
          (get-put_self batch.checkpoint.chain_id batch.checkpoint s.checkpoints)) in
    ground arith

-- A commit that succeeds writes the range and the checkpoint.
commit_ok :
    (batch : CanonicalBatch) (s s' : Store)
    → commit batch s ≡ (ok tt, s')
    → write_checkpoint batch s ≡ s'
commit_ok batch s s' h =
    go
      (has_hash (stored_hash batch.checkpoint.chain_id batch.checkpoint.block_number s)
        batch.checkpoint.block_hash)
      h
  where
    go :
        (b : Bool)
        → outcome (if b then (ok tt, write_checkpoint batch s) else (err checkpoint_unpersisted, s))
          ≡ (ok tt, s')
        → write_checkpoint batch s ≡ s'
    go true h = ap (λ r. r.1) h
    go false h = cc

-- A batch that is accepted was the last one already, or ends in a commit.
pub apply_batch_ok :
    (o : Outside) (batch : CanonicalBatch) (s s' : Store)
    → apply_batch o batch s ≡ (ok tt, s')
    → (validate_canonical_batch batch ≡ ok tt)
      × (((already_applied batch s ≡ true) × (s ≡ s'))
          ⊎ ((t : Store) × (write_blocks o batch s ≡ (ok tt, t)) × (write_checkpoint batch t ≡ s')))
unfolding apply_batch write_batch
apply_batch_ok o batch s s' h =
    let (valid, rest) =
      bind_ok (validate_canonical_batch batch) s s'
        (λ s. if already_applied batch s then (ok tt, s) else write_batch o batch s) h in
    (valid.1, go (already_applied batch s) refl rest)
  where
    go :
        (b : Bool)
        → already_applied batch s ≡ b
        → outcome (if b then (ok tt, s) else write_batch o batch s) ≡ (ok tt, s')
        → ((already_applied batch s ≡ true) × (s ≡ s'))
          ⊎ ((t : Store) × (write_blocks o batch s ≡ (ok tt, t)) × (write_checkpoint batch t ≡ s'))
    go true k e = inl (k, ap (λ r. r.1) e)
    go false k e =
        let (_, e') = bind_ok (admissible batch s) s s' (write_blocks o batch >> commit batch) e in
        let t = (write_blocks o batch s).1 in
        let (returned, e'') = bind_ok (write_blocks o batch s).0 t s' (commit batch) e' in
        inr (t, (λ i. (returned.1 i, t)), commit_ok batch t s' e'')

already-again :
    (o : Outside) (batch : CanonicalBatch) (s : Store)
    → validate_canonical_batch batch ≡ ok tt
    → already_applied batch s ≡ true
    → apply_batch o batch s ≡ (ok tt, s)
unfolding apply_batch
already-again o batch s valid done =
    go (validate_canonical_batch batch) (already_applied batch s) valid done
  where
    go :
        (r : Result StoreError (Unit {0})) (b : Bool)
        → r ≡ ok tt
        → b ≡ true
        → ((λ s. (r, s)) >> (λ s. if b then (ok tt, s) else write_batch o batch s)) s ≡ (ok tt, s)
    go (ok x) true e f = refl
    go (ok x) false e f = cc
    go (err x) b e f = cc

-- A batch that is accepted is the last one that was written.
pub already_applied-apply_batch :
    (o : Outside) (batch : CanonicalBatch) (s s' : Store)
    → apply_batch o batch s ≡ (ok tt, s')
    → already_applied batch s' ≡ true
already_applied-apply_batch o batch s s' h =
    let (valid, how) = apply_batch_ok o batch s s' h in
    elim how [
      | inl (done, same) ↦ subst (λ t. already_applied batch t ≡ true) same done
      | inr (t, _, e) ↦
          subst (λ t. already_applied batch t ≡ true) e
            (written-already_applied batch t (validate_canonical_batch-Agrees batch valid).1.chain)
    ]

-- Delivering a batch again changes nothing: if a batch is accepted and leaves the store `s'`, the
-- same batch is accepted in `s'` and leaves `s'`.
pub apply_batch_again :
    (o : Outside) (batch : CanonicalBatch) (s s' : Store)
    → apply_batch o batch s ≡ (ok tt, s')
    → apply_batch o batch s' ≡ (ok tt, s')
apply_batch_again o batch s s' h =
    already-again o batch s' (apply_batch_ok o batch s s' h).0
      (already_applied-apply_batch o batch s s' h)
