-- ===== src/Indexer/Tests/Run.antt =====
-- Runs of the indexer, and their theorems at concrete inputs.
use cpredict.Indexer.Scan.Valid.{build_batch-validate_canonical_batch}
use cpredict.Indexer.Run.Keeps.{run_batch-IsCanonical}
use cpredict.Indexer.Run.Advance.{run_batch-IsAdvanced, IsAdvanced}
use cpredict.Indexer.Logs.{Log}
use Prim.Native.Nat.{compare}
use cpredict.Prelude.{refl, true, false, none, some, ok, [], ◌∷◌, ◌-◌, ℕ, ◌≡◌, arith}
use cpredict.Prelude.Dict.{nat_eq, pair_eq}
use cpredict.Indexer.Types.{dense}
use cpredict.Indexer.Memory.{Store, empty_store}
use cpredict.Indexer.Tests.{
  confirmed, IsCanonical, validate_canonical_batch, event, block, CanonicalBatch, decoder,
  empty-IsCanonical,
}
use cpredict.Indexer.Scan.{BatchResult, batch_of, Node, IndexerOptions, build_batch}
use cpredict.Indexer.Run.{run_batch}

abbrev minted : ℕ → ℕ → Log
minted number log_index = record {
  block_number = some number;
  block_hash = some number;
  transaction_hash = some 90;
  transaction_index = some 0;
  log_index = some log_index;
  address = 100;
  topics = [];
  payload = [];
  removed = false;
}

-- A node with eight blocks, and two logs in the fifth.
abbrev node : Node
node = record {
  recovery = λ n. some n;
  head = some 8;
  get_logs = λ addresses from to. some (minted 5 1 ∷ minted 5 0 ∷ []);
  receipt_of = λ h. none;
  header = λ n. some (record { hash = some n; parent_hash = n - 1; timestamp = n });
  fence = λ n. some (some n);
}

abbrev options : IndexerOptions
options = record {
  chain_id = 1;
  deployment_block = 5;
  confirmations = 2;
  batch_size = 10;
  canonical_mode = dense;
  addresses = 100 ∷ [];
  factory_address = none;
}

abbrev built : CanonicalBatch × ℕ
built = (
  batch_of options none 5 6
      (record (block 5) { parent_hash = 4 } ∷ record (block 6) { parent_hash = 5 } ∷ [])
      (event 5 0 ∷ event 5 1 ∷ []) 6,
  0,
)

built_so : build_batch decoder node options [] none 5 6 ≡ ok built
unfolding build_batch
built_so = refl

build_batch-validate_canonical_batch_example : validate_canonical_batch built.0 ≡ ok tt
build_batch-validate_canonical_batch_example =
    build_batch-validate_canonical_batch decoder node options [] none 5 6 built (omega arith) tt
      (λ e. cc e) built_so

abbrev run_report : BatchResult
run_report = record {
  from_block = 5;
  to_block = 6;
  block_count = 2;
  anchor_count = 2;
  event_count = 2;
  discovered_markets = 0;
  confirmation_status = confirmed;
  caught_up = true;
}

after_run : Store
after_run = (run_batch compare decoder node options empty_store).1

ran : run_batch compare decoder node options empty_store ≡ (ok (some run_report), after_run)
unfolding run_batch after_run
ran = refl

run_batch-IsAdvanced_example : IsAdvanced decoder node options empty_store run_report after_run
run_batch-IsAdvanced_example =
    run_batch-IsAdvanced compare decoder node options empty_store after_run run_report (omega arith)
      ran

run_batch-IsCanonical_example : IsCanonical (run_batch compare decoder node options empty_store).1
run_batch-IsCanonical_example =
    run_batch-IsCanonical compare decoder node options empty_store empty-IsCanonical

-- The next run finds no new block that is confirmed.
caught_up : (run_batch compare decoder node options after_run).0 ≡ ok none
unfolding run_batch after_run
caught_up = refl
