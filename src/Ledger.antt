-- ===== src/Ledger.antt =====
-- The account ledger: facts of the chain, and the profit-and-loss reducer over them
-- (offchain/app-core/src/pnl.ts).
pub mod Json
pub mod Fact
pub mod Lot
pub mod Bonds
pub mod Fees
pub mod Trades
pub mod Step
pub mod Report
mod Order
pub mod Replay
mod Tests
mod EntitlementTests
pub mod State
pub mod Leaderboard
pub mod Entitlements
