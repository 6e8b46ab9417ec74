-- ===== src/Workers.antt =====
-- The background workers: offchain/workers/src.
pub mod ReadLimit
mod Tests
