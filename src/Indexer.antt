-- ===== src/Indexer.antt =====
-- Canonical ingestion of chain events, and the views that are projected from them
-- (offchain/indexer/src).
pub mod Types
pub mod Batch
pub mod Derived
pub mod Derive
pub mod Views
pub mod Memory
pub mod Project
pub mod Trade
pub mod Apply
pub mod Rollback
pub mod Log
pub mod Reorg
pub mod Logs
pub mod Creation
pub mod Anchors
pub mod Scan
pub mod Run
pub mod Paging
pub mod Query
pub mod Cursors
pub mod Catalog
mod Tests
