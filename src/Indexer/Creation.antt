-- ===== src/Indexer/Creation.antt =====
-- `completeMarketCreationLogs` of offchain/indexer/src/creation-logs.ts: the logs of a market's creation
-- are taken from the receipt where the node's answer has only a part of them.
use cpredict.Prelude.{
  ℕ, Bool, true, false, not, ◌&&◌, Option, none, some, List, [], ◌∷◌, ◌++◌, ◌==◌, if◌then◌else◌,
  any, every, keep_if, Result, ok, throw_if, ◌>>=◌, ◌>>◌,
}
use cpredict.Indexer.Types.{
  confirmed, StoreError, receipt_mismatch, creation_incomplete, rpc_failed,
}
use cpredict.Indexer.Derived.{DerivedMutation}
use cpredict.Indexer.Memory.{Outside}
use cpredict.Indexer.Logs.{Log, present, normalize_log, mutations_of, created_market}

-- The receipt of a transaction.
pub record Receipt : Type 0 where
  pub success : Bool
  pub transaction_hash : ℕ
  pub block_hash : ℕ
  pub block_number : ℕ
  pub logs : List Log

abbrev pub is_some_of : Option ℕ → ℕ → Bool
is_some_of none n = false
is_some_of (some m) n = m == n

abbrev pub same_option : Option ℕ → Option ℕ → Bool
same_option none none = true
same_option (some a) (some b) = a == b
same_option _ _ = false

abbrev pub same_list : List ℕ → List ℕ → Bool
same_list [] [] = true
same_list (a ∷ l) (b ∷ m) = a == b && same_list l m
same_list _ _ = false

-- What of a market's initialization and metadata a list of mutations has.
abbrev pub initializes : ℕ → DerivedMutation → Bool
initializes market (DerivedMutation.market_initialized m) = m.market == market
initializes market _ = false

abbrev pub describes : ℕ → DerivedMutation → Bool
describes market (DerivedMutation.market_metadata m) = m.market == market
describes market _ = false

-- The logs of the market in the transaction that created it.
abbrev pub logs_of_creation : ℕ → Log → List Log → List Log
logs_of_creation market creation = keep_if (λ l.
    l.address == market
    && (same_option l.transaction_hash creation.transaction_hash
        && (same_option l.block_hash creation.block_hash
            && same_option l.block_number creation.block_number)))

unfoldable pub all_mutations : Outside → ℕ → List Log → Result StoreError (List DerivedMutation)
unfolding mutations_of normalize_log
all_mutations o chain [] = ok []
all_mutations o chain (l ∷ rest) = normalize_log chain confirmed l >>= λ e.
    mutations_of o e >>= λ found. all_mutations o chain rest >>= λ others. ok (found ++ others)

unfoldable pub is_complete : Outside → ℕ → ℕ → Log → List Log → Result StoreError Bool
unfolding all_mutations
is_complete o chain market creation logs =
    all_mutations o chain (logs_of_creation market creation logs) >>= λ mutations.
    ok (any (initializes market) mutations && any (describes market) mutations)

-- The receipt is the one of the creation, and has its log.
abbrev pub receipt_matches : ℕ → Log → Receipt → Bool
receipt_matches factory creation r =
    r.success
    && (is_some_of creation.transaction_hash r.transaction_hash
        && (is_some_of creation.block_hash r.block_hash
            && (is_some_of creation.block_number r.block_number
                && any
                    (λ l.
                      l.address == factory
                      && (same_option l.log_index creation.log_index
                          && (same_list l.payload creation.payload
                              && same_list l.topics creation.topics)))
                    r.logs)))

abbrev pub consistent : Receipt → Log → Bool
consistent r l =
    not l.removed
    && (is_some_of l.block_hash r.block_hash
        && (is_some_of l.block_number r.block_number
            && is_some_of l.transaction_hash r.transaction_hash))

-- One creation: its logs are taken from the receipt where the list has not both of them.
unfoldable pub complete_creation :
    Outside
    → (Option ℕ → Option Receipt)
    → ℕ
    → ℕ
    → ℕ
    → Log
    → List Log
    → Result StoreError (List Log)
unfolding is_complete
complete_creation o receipt_of chain factory market creation logs =
    is_complete o chain market creation logs >>= λ done. if done then ok logs else (do
      r ← present rpc_failed (receipt_of creation.transaction_hash)
      throw_if (not (receipt_matches factory creation r)) receipt_mismatch
      let own = keep_if (λ l. l.address == market) r.logs
      throw_if (not (every (consistent r) own)) receipt_mismatch
      whole ← is_complete o chain market creation (logs ++ own)
      throw_if (not whole) creation_incomplete
      ok (logs ++ own))

-- The Factory's logs that create a market, each with the market.
abbrev creation_of : Outside → ℕ → ℕ → Log → Result StoreError (Option ℕ)
creation_of o chain factory l =
    if l.address == factory
    then (normalize_log chain confirmed l >>= λ e.
        mutations_of o e >>= λ found. ok (created_market found))
    else ok none

abbrev with_creation : Log → Option ℕ → List (Log × ℕ) → List (Log × ℕ)
with_creation l none others = others
with_creation l (some market) others = (l, market) ∷ others

unfoldable pub creations : Outside → ℕ → ℕ → List Log → Result StoreError (List (Log × ℕ))
unfolding mutations_of normalize_log
creations o chain factory [] = ok []
creations o chain factory (l ∷ rest) = creation_of o chain factory l >>= λ market.
    creations o chain factory rest >>= λ others. ok (with_creation l market others)

unfoldable pub complete_all :
    Outside
    → (Option ℕ → Option Receipt)
    → ℕ
    → ℕ
    → List (Log × ℕ)
    → List Log
    → Result StoreError (List Log)
unfolding complete_creation
complete_all o receipt_of chain factory [] logs = ok logs
complete_all o receipt_of chain factory ((creation, market) ∷ rest) logs =
    complete_creation o receipt_of chain factory market creation logs >>= λ more.
    complete_all o receipt_of chain factory rest more

unfoldable pub complete_market_creation_logs :
    Outside → (Option ℕ → Option Receipt) → ℕ → ℕ → List Log → Result StoreError (List Log)
unfolding creations complete_all
complete_market_creation_logs o receipt_of chain factory logs =
    creations o chain factory logs >>= λ found. complete_all o receipt_of chain factory found logs
