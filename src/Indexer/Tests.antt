-- ===== src/Indexer/Tests.antt =====
-- Runs of the indexer, and its theorems at concrete inputs.
mod Log
mod Pages
mod Run
use cpredict.Prelude.{
  length, ℕ, ◌≡◌, refl, Option, none, some, List, [], ◌∷◌, ◌==◌, if◌then◌else◌, Result, ok, err,
}
use cpredict.Prelude.Int.{ℤ, pos, negsuc, ◌+ℤ◌, ◌-ℤ◌}
use cpredict.Prelude.Dict.{Dict, get, nat_eq, pair_eq}
use cpredict.Indexer.Types.{
  StoreError, IndexedEvent, CanonicalBlock, ChainCheckpoint, CanonicalBatch, confirmed, dense,
  negative_position, discontinuous,
}
use cpredict.Indexer.Derived.{Decoded, DerivedMutation, position_delta}
use cpredict.Indexer.Derive.{position_mutations}
use cpredict.Indexer.Derive.Laws.{net_delta, moved, unless_null, net_delta-position_mutations}
use cpredict.Indexer.Batch.{validate_canonical_batch}
use cpredict.Indexer.Batch.Laws.{Agrees, validate_canonical_batch-Agrees}
use cpredict.Indexer.Memory.{Store, Outside, empty_store, no_views}
use cpredict.Indexer.Trade.{project}
use cpredict.Indexer.Trade.Positions.{IsFunded, project-IsFunded}
use cpredict.Indexer.Apply.{apply_batch}
use cpredict.Indexer.Apply.Canonical.{IsCanonical, apply_batch-IsCanonical}
use cpredict.Indexer.Apply.Separate.{Separate, apply_batch-Separate}
use cpredict.Indexer.Apply.Again.{apply_batch_again}
use cpredict.Indexer.Rollback.{rollback_after}
use cpredict.Indexer.Rollback.Retained.{Retains, rollback_after-Retains}
use cpredict.Indexer.Rollback.Laws.{AtAncestor, rollback_after-IsCanonical, rollback_after_ancestor}

abbrev block : ℕ → CanonicalBlock
block n = record {
  chain_id = 1;
  block_number = n;
  block_hash = n;
  parent_hash = 0;
  timestamp = n;
  confirmation_status = confirmed;
}

abbrev event : ℕ → ℕ → IndexedEvent
event n log_index = record {
  chain_id = 1;
  block_number = n;
  block_hash = n;
  transaction_hash = 90;
  transaction_index = 0;
  log_index = log_index;
  address = 100;
  topics = [];
  payload = [];
  confirmation_status = confirmed;
}

abbrev batch : ℕ → Option ChainCheckpoint → List IndexedEvent → CanonicalBatch
batch n before events = record {
  range = record {
    chain_id = 1;
    from_block = n;
    to_block = n;
    predecessor = before;
    end_block_hash = n;
    confirmation_status = confirmed;
    mode = dense;
  };
  anchors = block n ∷ [];
  events = events;
  checkpoint = record { chain_id = 1; block_number = n; block_hash = n };
}

abbrev first_batch : CanonicalBatch
first_batch = batch 5 none (event 5 0 ∷ event 5 1 ∷ [])

abbrev second_batch : CanonicalBatch
second_batch =
    batch 6 (some (record { chain_id = 1; block_number = 5; block_hash = 5 })) (event 6 2 ∷ [])

-- A market is created, five shares are minted, and two of them are moved.
abbrev decode_by_index : IndexedEvent → Result StoreError Decoded
decode_by_index e = ok (
    if e.log_index == 0
    then Decoded.market_created 100 7 1 50
    else if e.log_index == 1
    then Decoded.transfer_single 0 7 1 5
    else Decoded.transfer_single 7 8 1 2)

abbrev decoder : Outside
decoder = record { decode = decode_by_index; uri = λ h. "uri" }

after_first : Store
after_first = (apply_batch decoder first_batch empty_store).1

after_second : Store
after_second = (apply_batch decoder second_batch after_first).1

first_accepted : apply_batch decoder first_batch empty_store ≡ (ok tt, after_first)
unfolding apply_batch after_first
first_accepted = refl

second_accepted : apply_batch decoder second_batch after_first ≡ (ok tt, after_second)
unfolding apply_batch after_first after_second ◌-ℤ◌
second_accepted = refl

-- The same range does not continue the checkpoint.
gap_refused : (apply_batch decoder (batch 8 none []) after_first).0 ≡ err discontinuous
unfolding apply_batch after_first
gap_refused = refl

empty-IsCanonical : IsCanonical empty_store
empty-IsCanonical = record { keyed = tt; anchored = tt }

validate_canonical_batch-Agrees_example : (hashes : Dict ℕ ℕ) × Agrees first_batch hashes
unfolding validate_canonical_batch
validate_canonical_batch-Agrees_example = validate_canonical_batch-Agrees first_batch refl

apply_batch-IsCanonical_example : IsCanonical (apply_batch decoder first_batch empty_store).1
apply_batch-IsCanonical_example =
    apply_batch-IsCanonical decoder first_batch empty_store empty-IsCanonical

apply_batch-Separate_example : Separate (apply_batch decoder second_batch after_first).1.ranges
unfolding after_first apply_batch
apply_batch-Separate_example =
    apply_batch-Separate decoder second_batch after_first
      (apply_batch-Separate decoder first_batch empty_store tt)

apply_batch_again_example : apply_batch decoder second_batch after_second ≡ (ok tt, after_second)
apply_batch_again_example =
    apply_batch_again decoder second_batch after_first after_second second_accepted

rolled_back : Store
rolled_back = (rollback_after decoder 1 (some 5) after_second).1

rollback_accepted : rollback_after decoder 1 (some 5) after_second ≡ (ok tt, rolled_back)
unfolding rollback_after after_first after_second rolled_back apply_batch ◌-ℤ◌
rollback_accepted = refl

rollback_after-IsCanonical_example :
    IsCanonical
      (rollback_after decoder 1 (some 5) (apply_batch decoder first_batch empty_store).1).1
rollback_after-IsCanonical_example =
    rollback_after-IsCanonical decoder 1 (some 5) (apply_batch decoder first_batch empty_store).1
      apply_batch-IsCanonical_example

rollback_after-Retains_example :
    Retains 1 (some 5) after_second (rollback_after decoder 1 (some 5) after_second).1
rollback_after-Retains_example = rollback_after-Retains decoder 1 (some 5) after_second

rollback_after_ancestor_example : AtAncestor 1 5 rolled_back
rollback_after_ancestor_example =
    rollback_after_ancestor decoder 1 5 after_second rolled_back rollback_accepted

abbrev balance_in : Store → ℕ → Option ℤ
balance_in s owner = elim (get (1, (100, (owner, 1))) s.views.positions) [
  | none ↦ none
  | some p ↦ some p.balance
]

-- The first holder's shares after the two batches, and after the rollback of the second.
balance_moved : balance_in after_second 7 ≡ some (pos 3)
unfolding apply_batch get after_first after_second ◌-ℤ◌
balance_moved = refl

balance_restored : balance_in rolled_back 7 ≡ some (pos 5)
unfolding rollback_after apply_batch get after_first after_second rolled_back ◌-ℤ◌
balance_restored = refl

project-IsFunded_example : IsFunded (project decoder (event 6 1) no_views).1.positions
project-IsFunded_example = project-IsFunded decoder (event 6 1) no_views tt

two_outcomes : List DerivedMutation
two_outcomes =
    position_delta 100 7 1 (negsuc 4)
    ∷ position_delta 100 8 1 (pos 5)
    ∷ position_delta 100 7 2 (negsuc 2)
    ∷ position_delta 100 8 2 (pos 3)
    ∷ []

net_delta-position_mutations_example :
    net_delta 1 two_outcomes
    ≡ pos (unless_null 8 (moved 1 (1 ∷ 2 ∷ []) (5 ∷ 3 ∷ [])))
      -ℤ pos (unless_null 7 (moved 1 (1 ∷ 2 ∷ []) (5 ∷ 3 ∷ [])))
unfolding position_mutations two_outcomes ◌-ℤ◌
net_delta-position_mutations_example =
    net_delta-position_mutations 1 100 7 8 (1 ∷ 2 ∷ []) (5 ∷ 3 ∷ []) refl

-- The second event moves shares that nobody has. The batch is refused, and yet both events, the block
-- and the market of the first one are in the store: nothing is undone.
overdrawn : CanonicalBatch
overdrawn = batch 5 none (event 5 0 ∷ event 5 2 ∷ [])

overdrawn_refused : (apply_batch decoder overdrawn empty_store).0 ≡ err negative_position
unfolding apply_batch overdrawn ◌-ℤ◌ ◌+ℤ◌
overdrawn_refused = refl

overdrawn_kept :
    let s = (apply_batch decoder overdrawn empty_store).1 in
    (length s.events ≡ 2) × (length s.blocks ≡ 1) × (length s.views.markets ≡ 1)
unfolding apply_batch overdrawn ◌-ℤ◌ ◌+ℤ◌
overdrawn_kept = (refl, refl, refl)
