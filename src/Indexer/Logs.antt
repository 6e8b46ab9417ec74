-- ===== src/Indexer/Logs.antt =====
-- Logs as the node answers them, and what is made of them: `deduplicateLogs` and `uniqueAddresses` of
-- offchain/indexer/src/indexer.ts, `normalizeLog` of store.ts, `discoverMarketAddresses` of derived.ts and
-- `completeMarketCreationLogs` of creation-logs.ts.
use cpredict.Prelude.{
  ℕ, Bool, not, Option, none, some, List, [], ◌∷◌, ◌++◌, ◌==◌, keep_if, Result, ok, err, ◌>>=◌,
}
use cpredict.Prelude.Dict.{Dict, put, values, nat_eq, pair_eq}
use cpredict.Indexer.Types.{
  ConfirmationStatus, provisional, IndexedEvent, StoreError, incomplete_log,
}
use cpredict.Indexer.Derived.{DerivedMutation}
use cpredict.Indexer.Derive.{derive_mutations}
use cpredict.Indexer.Memory.{Outside}

-- A field is `none` where the log is pending.
pub record Log : Type 0 where
  pub block_number : Option ℕ
  pub block_hash : Option ℕ
  pub transaction_hash : Option ℕ
  pub transaction_index : Option ℕ
  pub log_index : Option ℕ
  pub address : ℕ
  pub topics : List ℕ
  pub payload : List ℕ
  pub removed : Bool

abbrev pub present {ℓ} : {A : Type ℓ} → StoreError → Option A → Result StoreError A
present e none = err e
present e (some a) = ok a

abbrev pub log_key : Log → Result StoreError (ℕ × ℕ)
log_key l = do
  transaction_hash ← present incomplete_log l.transaction_hash
  log_index ← present incomplete_log l.log_index
  ok (transaction_hash, log_index)

-- The loop of `deduplicateLogs`: a later log replaces an earlier one of the same key.
unfoldable pub keep_last : List Log → Dict (ℕ × ℕ) Log → Result StoreError (Dict (ℕ × ℕ) Log)
unfolding put
keep_last [] kept = ok kept
keep_last (l ∷ rest) kept = log_key l >>= λ k. keep_last rest (put k l kept)

unfoldable pub deduplicate_logs : List Log → Result StoreError (List Log)
unfolding keep_last
deduplicate_logs logs = do kept ← keep_last logs []; ok (values kept)

unfoldable pub normalize_log : ℕ → ConfirmationStatus → Log → Result StoreError IndexedEvent
normalize_log chain status l = do
  block_number ← present incomplete_log l.block_number
  block_hash ← present incomplete_log l.block_hash
  transaction_hash ← present incomplete_log l.transaction_hash
  transaction_index ← present incomplete_log l.transaction_index
  log_index ← present incomplete_log l.log_index
  ok (record {
    chain_id = chain;
    block_number = block_number;
    block_hash = block_hash;
    transaction_hash = transaction_hash;
    transaction_index = transaction_index;
    log_index = log_index;
    address = l.address;
    topics = l.topics;
    payload = l.payload;
    confirmation_status = status;
  })

unfoldable pub normalize_logs :
    ℕ → ConfirmationStatus → List Log → Result StoreError (List IndexedEvent)
unfolding normalize_log
normalize_logs chain status [] = ok []
normalize_logs chain status (l ∷ rest) =
    normalize_log chain status l >>= λ e. normalize_logs chain status rest >>= λ es. ok (e ∷ es)

-- A `Map` from addresses to themselves, or a `Set` of them: each once, in the order of the first one.
unfoldable pub unique_addresses : List ℕ → List ℕ
unique_addresses [] = []
unique_addresses (a ∷ rest) =
    let others = unique_addresses rest in a ∷ keep_if (λ b. not (b == a)) others

unfoldable pub mutations_of : Outside → IndexedEvent → Result StoreError (List DerivedMutation)
unfolding derive_mutations
mutations_of o e = o.decode e >>= derive_mutations e

abbrev pub created_market : List DerivedMutation → Option ℕ
created_market [] = none
created_market (DerivedMutation.market_created market creator mode bond ∷ rest) = some market
created_market (m ∷ rest) = created_market rest

abbrev created_markets : List DerivedMutation → List ℕ
created_markets [] = []
created_markets (DerivedMutation.market_created market creator mode bond ∷ rest) =
    market ∷ created_markets rest
created_markets (m ∷ rest) = created_markets rest

-- A log that is incomplete is passed over.
abbrev markets_of : Outside → Result StoreError IndexedEvent → Result StoreError (List ℕ)
markets_of o (err x) = ok []
markets_of o (ok e) = mutations_of o e >>= λ mutations. ok (created_markets mutations)

unfoldable pub markets_in : Outside → List Log → Result StoreError (List ℕ)
unfolding mutations_of normalize_log
markets_in o [] = ok []
markets_in o (l ∷ rest) = markets_of o (normalize_log 0 provisional l) >>= λ found.
    markets_in o rest >>= λ others. ok (found ++ others)

unfoldable pub discover_market_addresses : Outside → List Log → Result StoreError (List ℕ)
unfolding markets_in unique_addresses
discover_market_addresses o logs = markets_in o logs >>= λ found. ok (unique_addresses found)
