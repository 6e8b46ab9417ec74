-- ===== src/Lib.antt =====
-- The off-chain services of Cpredict, a protocol of prediction markets: how an account's ledger is
-- computed from the facts of the chain, how the indexer ingests the events of the chain and projects
-- its views from them, what the SDK checks before it sends a transaction, how a worker limits its
-- reads, and what the paymaster sponsors.
--
-- The indexer (offchain/indexer) writes canonical batches of events, rolls them back when the chain
-- is reorganised, and projects markets, listings, fills, positions, claims and activity. From the
-- financial facts of the same events, the application core (offchain/app-core) computes the profit and
-- loss of an account. The SDK (offchain/sdk) is what a client sends transactions with.
--
-- Ledger: `computePnl` of offchain/app-core/src/pnl.ts, whole, `feeCategory` of fees.ts, and what stands
-- on them.
--   Ledger/Json      the `extra` fields of a fact, as `integer` and the other readers take them
--   Ledger/Fact      `factKind`, `ledgerFactSchema` and `financialOrder`
--   Ledger/Fees      `feeCategory`
--   Ledger/Lot       a lot, `dispose` and its arithmetic; Ledger/Lot/Laws
--   Ledger/Bonds     the bonds of a creator; Ledger/Bonds/Locked
--   Ledger/State     the variables that `computePnl` closes over, `record`, `included`, `missing`
--   Ledger/Trades    purchases, listings, fills, settlements, claims and bonuses
--   Ledger/Step      one turn of the loop; Ledger/Step/Keeps, Induction and Window
--   Ledger/Report    what is returned; Ledger/Report/Complete
--   Ledger/Order     the order of the facts; Ledger/Replay: other deliveries of the same facts
--   Ledger/Leaderboard  `scoreLeaderboard` of leaderboard.ts, over `computePnl`; Sorted and Ranks
--   Ledger/Entitlements  `hydrateEntitlements` of entitlements.ts: what an account may claim; Solvent and
--                    Backed, with EntitlementTests
--   Ledger/Tests     runs, and the theorems at concrete inputs
--
-- Indexer: the canonical ingestion of offchain/indexer/src.
--   Indexer/Types    the records of store.ts, and the errors that are thrown
--   Indexer/Batch    `validateCanonicalBatch` of canonical-batch.ts; Indexer/Batch/Laws
--   Indexer/Derived  `DerivedMutation` of derived.ts; Indexer/Derive: `deriveMutations`, with Laws
--   Indexer/Views    the views of store.ts
--   Indexer/Memory   the state of `MemoryEventStore` of memory-store.ts, and actions on it, with Laws
--   Indexer/Project  `recordActivity`, and `applyMutation` on markets
--   Indexer/Trade    `applyMutation` on listings, positions and claims, and `project`; Keeps,
--                    Positions and Chains
--   Indexer/Apply    `applyBatch`; Indexer/Apply/Keeps, Canonical, Anchored, Separate and Again
--   Indexer/Rollback `rollbackAfter`; Indexer/Rollback/Laws and Retained
--   Indexer/Reorg    `reconcileCheckpoint` of indexer.ts; Indexer/Reorg/Search and Laws
--   Indexer/Log      the store as a log that a batch appends to and a rollback cuts; Append, Order,
--                    Cut and Replay
--   Indexer/Logs     the logs of the node: `deduplicateLogs`, `uniqueAddresses`, `normalizeLog` and
--                    `discoverMarketAddresses`; Indexer/Creation: `completeMarketCreationLogs`
--   Indexer/Anchors  `loadCanonicalAnchors` and the checks of the lineage; Laws
--   Indexer/Scan     the batch of a range, in `runBatch` of indexer.ts; Checks, Built and Valid
--   Indexer/Run      `runBatch` but for its financial options; Indexer/Run/Advance and Keeps
--   Indexer/Paging   `queryPage`, and pages that go on after a place; Read, Offsets, Places
--                    and Texts
--   Indexer/Cursors  the texts of cursors: `decodeOpaqueCursor`, `marketCursor` and `activityCursor`
--   Indexer/Query    the lists of memory-store.ts; Indexer/Catalog: the catalog and the activity;
--                    Listed, Orders and Pages
--   Indexer/Tests    runs, and the theorems at concrete inputs
--
-- Sdk: what is checked before a transaction is sent.
--   Sdk/TransactionPolicy  limits of gas and fees, of offchain/sdk/src/transaction-policy.ts; Bounds
--   Sdk/Market             times, states and rules of a market, of market-times.ts, market-state.ts
--                          and market-rules.ts; Laws and States
--
-- Workers: the background workers of offchain/workers.
--   Workers/ReadLimit  `AutomaticReadLimit` and `claimPollDelay` of automatic-read-limit.ts, with steps
--                      for the callers that come and the reads that end; Bounds and Progress
--
-- Paymaster: what the paymaster of offchain/paymaster-service sponsors.
--   Paymaster/Policy  `SponsorPolicy.validate` of policy.ts; Safety
--
-- Prelude passes on the names of the libraries. Prelude/Dict is a JavaScript `Map` with its order of
-- insertion, Prelude/Sort a stable sort by a comparison, Prelude/Int the integers.
--
-- How the model stands to the code. A `bigint` is a natural number where the code keeps it from
-- being negative, and an integer elsewhere. Addresses, hashes and topics are numbers. State is
-- passed explicitly; an exception is a value of an error type, and in the event store the state
-- comes back beside it, since what was written before a throw stays written. Every loop is
-- structural recursion on a list or a count, so there is no fuel but in `read_pages`, a client that
-- reads at most so many pages: one more than there are items is enough. A key that the source joins
-- by colons is a tuple.
--
-- Parameters: the order of strings by which the reasons of a report are sorted, the `localeCompare`
-- of addresses, the hash of a fee kind, the decoder of events (viem), the decoder of an account's
-- calls, `evidenceUriFromHash`, the answers of the node and of the contracts, the decimal text of an
-- offset, and JSON, base64url and the pattern of the cursors. Nothing is assumed about them but where
-- a theorem says so: that an offset and the cursor of a stored item are read back as they are
-- written, and that `localeCompare` orders lowercase hexadecimal texts of one length as their numbers.
--
-- Not modelled: `discoverEntitlements`, the parse of the result of `computePnl` by its schema, the
-- calls of a wallet, the canonical JSON of market rules, the protocol version `legacy-v1`, the
-- deprecated overload of `applyBatch`, the financial options of the indexer, the stores in
-- PostgreSQL, and the servers.
pub mod Prelude
pub mod Indexer
pub mod Ledger
pub mod Paymaster
pub mod Sdk
pub mod Workers
