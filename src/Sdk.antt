-- ===== src/Sdk.antt =====
-- The parts of the SDK that decide without a network: offchain/sdk/src.
pub mod Market
pub mod TransactionPolicy
