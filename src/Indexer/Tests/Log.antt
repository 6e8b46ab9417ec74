-- ===== src/Indexer/Tests/Log.antt =====
-- Theorems on the log of the store and on reconciliation, at concrete inputs.
use cpredict.Indexer.Log.Cut.{rollback_after-cut}
use cpredict.Indexer.Reorg.Laws.{reconcile_checkpoint-IsReconciled, IsReconciled}
use cpredict.Indexer.Log.Order.{OneChain, InOrder}
use cpredict.Indexer.Reorg.Search.{descend-IsHighest, IsHighest}
use cpredict.Indexer.Log.{cut, log_of, IsReplayed}
use cpredict.Indexer.Reorg.{reconcile_checkpoint}
use cpredict.Indexer.Log.Append.{apply_batch-Appended, Appended}
use cpredict.Indexer.Apply.Anchored.{apply_batch-HasCheckpoint, HasCheckpoint}
use cpredict.Indexer.Rollback.{project_all, rollback_after}
use cpredict.Prelude.Int.{◌-ℤ◌}
use cpredict.Prelude.{◌∷◌}
use cpredict.Prelude.{
  refl, sym, ap, subst, true, some, ok, [], Option, ℕ, ◌≡◌, ltb, if◌then◌else◌, is_some,
}
use cpredict.Prelude.Dict.{nat_eq, pair_eq, get}
use cpredict.Indexer.Reorg.{descend}
use cpredict.Indexer.Tests.{
  apply_batch-IsCanonical, ChainCheckpoint, IsCanonical, event, empty-IsCanonical, decoder,
  first_batch, second_batch, after_first, after_second, first_accepted, second_accepted,
}
use cpredict.Indexer.Apply.{apply_batch}
use cpredict.Indexer.Memory.{Store, empty_store}

empty-HasCheckpoint : HasCheckpoint 1 empty_store
unfolding get
empty-HasCheckpoint c e = cc

apply_batch-HasCheckpoint_example : HasCheckpoint 1 (apply_batch decoder first_batch empty_store).1
apply_batch-HasCheckpoint_example =
    apply_batch-HasCheckpoint decoder first_batch 1 empty_store empty-HasCheckpoint

empty-IsReplayed : IsReplayed decoder empty_store
unfolding project_all
empty-IsReplayed = refl

apply_batch-Appended_example : Appended decoder first_batch empty_store after_first
apply_batch-Appended_example =
    apply_batch-Appended decoder first_batch empty_store after_first tt empty-IsReplayed
      first_accepted

-- The node has another block 6.
abbrev forked : ℕ → Option ℕ
forked n = if ltb n 6 then some n else some 66

descend-IsHighest_example : IsHighest forked (λ n. some n) 5 2 (some 5)
unfolding descend
descend-IsHighest_example = descend-IsHighest forked (λ n. some n) 5 2 (some 5) refl

second-IsCanonical : IsCanonical after_second
second-IsCanonical = subst IsCanonical (ap (λ r. r.1) second_accepted) (
    apply_batch-IsCanonical decoder second_batch after_first (
      subst IsCanonical (ap (λ r. r.1) first_accepted)
        (apply_batch-IsCanonical decoder first_batch empty_store empty-IsCanonical)))

second-HasCheckpoint : HasCheckpoint 1 after_second
second-HasCheckpoint = subst (HasCheckpoint 1) (ap (λ r. r.1) second_accepted) (
    apply_batch-HasCheckpoint decoder second_batch 1 after_first (
      subst (HasCheckpoint 1) (ap (λ r. r.1) first_accepted)
        (apply_batch-HasCheckpoint decoder first_batch 1 empty_store empty-HasCheckpoint)))

log_second : log_of after_second ≡ event 5 0 ∷ event 5 1 ∷ event 6 2 ∷ []
unfolding apply_batch after_first after_second ◌-ℤ◌
log_second = refl

ordered_second : InOrder (event 5 0 ∷ event 5 1 ∷ event 6 2 ∷ [])
ordered_second = (((λ e. cc), ((λ e. cc), tt)), (((λ e. cc), tt), (tt, tt)))

second-IsReplayed : IsReplayed decoder after_second
unfolding apply_batch after_first after_second project_all ◌-ℤ◌
second-IsReplayed = refl

stored_five : is_some (get (1, 5) after_second.blocks) ≡ true
unfolding apply_batch after_first after_second get ◌-ℤ◌
stored_five = refl

rollback_after-cut_example :
    (s' : Store) × (rollback_after decoder 1 (some 5) after_second ≡ (ok tt, s'))
    × IsReplayed decoder s'
    × (log_of s' ≡ cut (some 5) (log_of after_second))
rollback_after-cut_example =
    rollback_after-cut decoder 1 5 after_second second-IsCanonical
      (subst (OneChain 1) (sym log_second) (refl, (refl, (refl, tt))))
      (subst InOrder (sym log_second) ordered_second) second-IsReplayed stored_five

-- The node lost block 6, so the store goes back to block 5.
abbrev reconciled : Store
reconciled = (reconcile_checkpoint forked decoder 1 1 after_second).1

abbrev fifth : ChainCheckpoint
fifth = record { chain_id = 1; block_number = 5; block_hash = 5 }

reconcile_run : reconcile_checkpoint forked decoder 1 1 after_second ≡ (ok (some fifth), reconciled)
unfolding reconcile_checkpoint apply_batch after_first after_second ◌-ℤ◌
reconcile_run = refl

reconcile_checkpoint-IsReconciled_example : IsReconciled forked 1 fifth reconciled
reconcile_checkpoint-IsReconciled_example =
    reconcile_checkpoint-IsReconciled forked decoder 1 1 after_second reconciled fifth
      second-IsCanonical second-HasCheckpoint reconcile_run
