-- ===== src/Sdk/TransactionPolicy.antt =====
-- Gas and fee ceilings of a browser transaction: offchain/sdk/src/transaction-policy.ts.
-- What the RPC client answers is an argument: `none` is a call that throws.
mod Bounds
mod Tests
use cpredict.Prelude.{
  ℕ, ◌+◌, ◌-◌, ◌*◌, ◌/◌, ◌&&◌, Option, none, some, ltb, leb, if◌then◌else◌, Result, ok, err, ◌>>=◌,
}

pub data GasPolicyOperation : Type 0 where
  token_approval operator_approval market_create_full market_create_clone market_update primary_buy
        primary_buy_permit2 market_resolve market_void listing_create listing_fill
        listing_fill_permit2 listing_maintenance claim bond_settlement exposure_sync sandbox_mint :
      GasPolicyOperation

unfoldable pub gas_limit_by_operation : GasPolicyOperation → ℕ
gas_limit_by_operation token_approval = 150_000
gas_limit_by_operation operator_approval = 150_000
gas_limit_by_operation market_create_full = 8_000_000
gas_limit_by_operation market_create_clone = 600_000
gas_limit_by_operation market_update = 350_000
gas_limit_by_operation primary_buy = 300_000
gas_limit_by_operation primary_buy_permit2 = 370_000
gas_limit_by_operation market_resolve = 450_000
gas_limit_by_operation market_void = 300_000
gas_limit_by_operation listing_create = 300_000
gas_limit_by_operation listing_fill = 350_000
gas_limit_by_operation listing_fill_permit2 = 430_000
gas_limit_by_operation listing_maintenance = 250_000
gas_limit_by_operation claim = 250_000
gas_limit_by_operation bond_settlement = 300_000
gas_limit_by_operation exposure_sync = 250_000
gas_limit_by_operation sandbox_mint = 150_000

abbrev pub default_priority_fee_per_gas : ℕ
default_priority_fee_per_gas = 10_000_000

abbrev pub max_priority_fee_per_gas : ℕ
max_priority_fee_per_gas = 100_000_000

abbrev pub max_transaction_fee : ℕ
max_transaction_fee = 10_000_000_000_000_000

pub data GasPolicyErrorCode : Type 0 where
  base_fee_unavailable gas_above_limit fee_above_limit : GasPolicyErrorCode

-- `(estimate * 120n + 100n - 1n) / 100n`
abbrev buffered : ℕ → ℕ
buffered estimate = (estimate * 120 + 100 - 1) / 100

unfoldable pub bounded_gas_limit : Option ℕ → ℕ → Result GasPolicyErrorCode ℕ
bounded_gas_limit none ceiling = ok ceiling
bounded_gas_limit (some estimate) ceiling =
    if ltb 0 estimate && leb estimate ceiling
    then ok (if ltb ceiling (buffered estimate) then ceiling else buffered estimate)
    else if ltb ceiling estimate && leb estimate (ceiling * 100)
    then err gas_above_limit
    else ok ceiling

unfoldable pub clamp : ℕ → ℕ → ℕ → ℕ
clamp value minimum maximum =
    if ltb value minimum then minimum else if ltb maximum value then maximum else value

pub record Fees : Type 0 where
  pub max_fee_per_gas : ℕ
  pub max_priority_fee_per_gas : ℕ

-- The fees that the node suggests; a call that throws leaves the defaults.
abbrev suggested : Option Fees → Fees
suggested none = record {
  max_fee_per_gas = 0;
  max_priority_fee_per_gas = default_priority_fee_per_gas;
}
suggested (some estimate) = estimate

abbrev fees_for : ℕ → Fees → Fees
fees_for base_fee estimate =
    let priority =
      clamp estimate.max_priority_fee_per_gas default_priority_fee_per_gas
        max_priority_fee_per_gas in
    let minimum = base_fee * 2 + priority in
    record {
      max_fee_per_gas =
          if ltb minimum estimate.max_fee_per_gas then estimate.max_fee_per_gas else minimum;
      max_priority_fee_per_gas = priority;
    }

-- `none` for the base fee is a block without one.
unfoldable pub bounded_fees : Option ℕ → Option Fees → ℕ → Result GasPolicyErrorCode Fees
unfolding clamp
bounded_fees none estimate gas = err base_fee_unavailable
bounded_fees (some base_fee) estimate gas =
    if leb base_fee 0
    then err base_fee_unavailable
    else let fees = fees_for base_fee (suggested estimate) in
      if ltb max_transaction_fee (gas * fees.max_fee_per_gas) then err fee_above_limit else ok fees

pub record GasQuote : Type 0 where
  pub gas : ℕ
  pub fees : Fees

-- What `sendTransactionWithGasPolicy` hands to the wallet, or the error that it throws before.
unfoldable pub send_transaction_with_gas_policy :
    GasPolicyOperation → Option ℕ → Option ℕ → Option Fees → Result GasPolicyErrorCode GasQuote
unfolding gas_limit_by_operation bounded_gas_limit bounded_fees
send_transaction_with_gas_policy operation gas_estimate base_fee fee_estimate = do
  gas ← bounded_gas_limit gas_estimate (gas_limit_by_operation operation)
  fees ← bounded_fees base_fee fee_estimate gas
  ok (record { gas = gas; fees = fees })
