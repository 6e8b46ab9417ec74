-- ===== src/Paymaster.antt =====
-- The paymaster: offchain/paymaster-service/src.
pub mod Policy
mod Tests
