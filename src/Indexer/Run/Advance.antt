-- ===== src/Indexer/Run/Advance.antt =====
-- What a batch that is written advances.
use cpredict.Indexer.Scan.Built.{build_batch-IsBuilt}
use cpredict.Indexer.Anchors.Laws.{ok_eq}
use cpredict.Prelude.{
  ℕ, ◌+◌, ◌-◌, ◌≤◌, ◌<◌, ◌≡◌, refl, sym, ap, ◌∙◌, arith, Bool, true, false, ◌||◌, Option, none,
  some, ltb, if◌then◌else◌, Result, ok,
}
use Prim.Native.Nat.{Ordering}
use cpredict.Prelude.Dict.{get, nat_eq, pair_eq}
use cpredict.Indexer.Types.{CanonicalBatch, ChainCheckpoint, StoreError}
use cpredict.Indexer.Memory.{Store, Outside, pure}
use cpredict.Indexer.Memory.Laws.{bind_value, outcome, bind_ok}
use cpredict.Indexer.Apply.{apply_batch, is_checkpoint}
use cpredict.Indexer.Apply.Again.{already_applied-apply_batch}
use cpredict.Indexer.Scan.{
  Node, IndexerOptions, BatchResult, next_range, first_block, min, build_batch,
}
use cpredict.Indexer.Run.{
  write_built, rpc_failed, registered_markets, present, reconcile_checkpoint, write_range,
  scan_range, scan_after, run_batch, result_of,
}

-- The range is not empty, is no longer than a batch, and ends at the confirmed head at most.
pub record InBounds (options : IndexerOptions) (head from to : ℕ) : Type 0 where
  pub from_to : from ≤ to
  pub size : to < from + options.batch_size
  pub confirmed : to + options.confirmations ≤ head

some_inj : {A : Type 0} {a b : A} → some a ≡ some b → a ≡ b
some_inj e = cc

next_range-InBounds :
    (options : IndexerOptions) (checkpoint : Option ChainCheckpoint) (head from to : ℕ)
    → 1 ≤ options.batch_size
    → next_range options checkpoint head ≡ some (from, to)
    → (from ≡ first_block options checkpoint) × InBounds options head from to
unfolding next_range
next_range-InBounds options checkpoint head from to size h =
    go (ltb head options.confirmations || ltb safe first) refl h
  where
    first : ℕ
    first = first_block options checkpoint

    safe : ℕ
    safe = head - options.confirmations

    last_block : ℕ
    last_block = min (first + options.batch_size - 1) safe

    next_if : Bool → Option (ℕ × ℕ)
    next_if b = if b then none else some (first, last_block)

    go :
        (b : Bool)
        → (ltb head options.confirmations || ltb safe first) ≡ b
        → next_if b ≡ some (from, to)
        → (from ≡ first) × InBounds options head from to
    go true k e = cc
    go false k e =
        let pair = some_inj e in
        let at : first ≡ from = ap (λ (p : ℕ × ℕ). p.0) pair in
        let until : last_block ≡ to = ap (λ (p : ℕ × ℕ). p.1) pair in
        (sym at, record { from_to = ground arith; size = ground arith; confirmed = ground arith })

checkpoint_at :
    (o : Option ChainCheckpoint) (c : ChainCheckpoint)
    → is_checkpoint o c ≡ true
    → (now : ChainCheckpoint) × (o ≡ some now)
      × (now.block_number ≡ c.block_number)
      × (now.block_hash ≡ c.block_hash)
checkpoint_at none c h = cc
checkpoint_at (some now) c h = (now, refl, ground arith, ground arith)

-- What a batch that is accepted leaves as the checkpoint of its chain.
get-apply_batch :
    (o : Outside) (batch : CanonicalBatch) (s s' : Store)
    → apply_batch o batch s ≡ (ok tt, s')
    → (now : ChainCheckpoint) × (get batch.range.chain_id s'.checkpoints ≡ some now)
      × (now.block_number ≡ batch.checkpoint.block_number)
      × (now.block_hash ≡ batch.checkpoint.block_hash)
get-apply_batch o batch s s' h =
    checkpoint_at (get batch.range.chain_id s'.checkpoints) batch.checkpoint
      (ground (arith, already_applied-apply_batch o batch s s' h))

-- What a batch that is written advances: the node's head, and the checkpoint before and after.
pub record IsAdvanced (o : Outside) (node : Node) (options : IndexerOptions) (s : Store)
    (r : BatchResult) (s' : Store) : Type 0 where
  pub head : ℕ
  pub at_head : node.head ≡ some head
  pub before : Option ChainCheckpoint
  pub reconciled :
      (reconcile_checkpoint node.recovery o options.deployment_block options.chain_id s).0
      ≡ ok before
  pub from : r.from_block ≡ first_block options before
  pub bounds : InBounds options head r.from_block r.to_block
  pub blocks : (1 ≤ r.block_count) × (r.block_count ≤ options.batch_size)
  pub now : ChainCheckpoint
  pub current : get options.chain_id s'.checkpoints ≡ some now
  pub reached : now.block_number ≡ r.to_block

present_ok : {A : Type 0} (x : StoreError) (r : Option A) (a : A) → present x r ≡ ok a → r ≡ some a
present_ok x none a h = cc
present_ok x (some b) a h = ap some (ok_eq h)

returned_eq :
    {a b : BatchResult} {t u : Store} → outcome (ok (some a), t) ≡ (ok (some b), u) → a ≡ b
returned_eq h = cc

module _ (text_order : ℕ → ℕ → Ordering) (o : Outside) (node : Node) (options : IndexerOptions)
    (s s' : Store) (r : BatchResult) where
  write_range-checkpoint :
      (before : Option ChainCheckpoint) (head from to : ℕ) (t : Store)
      → write_range text_order o node options before head from to t ≡ (ok (some r), s')
      → (r.from_block ≡ from)
        × (r.to_block ≡ to)
        × (r.block_count ≡ to + 1 - from)
        × (now : ChainCheckpoint) × (get options.chain_id s'.checkpoints ≡ some now)
        × (now.block_number ≡ to)
  write_range-checkpoint before head from to t h =
      let registered = registered_markets text_order options.chain_id t in
      let (built, made, h1) =
        bind_value (build_batch o node options registered before from to) t s'
          (write_built text_order o node options head from to) h in
      let applied = apply_batch o built.0 t in
      let (returned, h2) =
        bind_ok applied.0 applied.1 s'
          (pure (some (result_of options head from to built.0 built.1))) h1 in
      let same : result_of options head from to built.0 built.1 ≡ r = returned_eq h2 in
      let there : applied.1 ≡ s' =
        ap (λ (x : Result StoreError (Option BatchResult) × Store). x.1) h2 in
      let is = build_batch-IsBuilt o node options registered before from to built made in
      let (now, current, number, _) =
        get-apply_batch o built.0 t s' (λ i. (returned.1 i, there i)) in
      (
        ap (λ (x : BatchResult). x.from_block) (sym same),
        ap (λ (x : BatchResult). x.to_block) (sym same),
        ap (λ (x : BatchResult). x.block_count) (sym same),
        now,
        ap (λ (b : CanonicalBatch). get b.range.chain_id s'.checkpoints) is.is_batch ∙ current,
        number ∙ ap (λ (b : CanonicalBatch). b.checkpoint.block_number) (sym is.is_batch),
      )

  scan_range-IsAdvanced :
      (before : Option ChainCheckpoint) (head : ℕ) (t : Store)
      → 1 ≤ options.batch_size
      → node.head ≡ some head
      → (reconcile_checkpoint node.recovery o options.deployment_block options.chain_id s).0
        ≡ ok before
      → scan_range text_order o node options before head (next_range options before head) t
        ≡ (ok (some r), s')
      → IsAdvanced o node options s r s'
  scan_range-IsAdvanced before head t size at_head reconciled h =
      go (next_range options before head) refl h
    where
      go :
          (next : Option (ℕ × ℕ))
          → next_range options before head ≡ next
          → scan_range text_order o node options before head next t ≡ (ok (some r), s')
          → IsAdvanced o node options s r s'
      go none e f = cc
      go (some (from, to)) e f =
          let (start, bounds) = next_range-InBounds options before head from to size e in
          let (r_from, r_to, count, now, current, number) =
            write_range-checkpoint before head from to t f in
          record {
            head = head;
            at_head = at_head;
            before = before;
            reconciled = reconciled;
            from = r_from ∙ start;
            bounds = record {
              from_to = omega (arith, bounds.from_to);
              size = omega (arith, bounds.size);
              confirmed = omega (arith, bounds.confirmed);
            };
            blocks = (omega (arith, bounds.from_to), omega (arith, bounds.size));
            now = now;
            current = current;
            reached = number ∙ sym r_to;
          }

  -- A run of the indexer that returns a result has moved the checkpoint of the chain to the end of the range that
  -- it reports. The range begins right after the checkpoint that reconciliation left, or at the
  -- deployment where there was none; it has at least one block and no more than a batch may have; and it
  -- ends the confirmations before the node's head, or earlier.
  pub run_batch-IsAdvanced :
      1 ≤ options.batch_size
      → run_batch text_order o node options s ≡ (ok (some r), s')
      → IsAdvanced o node options s r s'
  unfolding run_batch
  run_batch-IsAdvanced size h =
      let reconciled =
        reconcile_checkpoint node.recovery o options.deployment_block options.chain_id s in
      let (before, found, h1) =
        bind_value reconciled.0 reconciled.1 s' (scan_after text_order o node options) h in
      let (head, answered, h2) =
        bind_value (present rpc_failed node.head) reconciled.1 s'
          (λ head.
            scan_range text_order o node options before head (next_range options before head))
          h1 in
      scan_range-IsAdvanced before head reconciled.1 size
        (present_ok rpc_failed node.head head answered) found h2
