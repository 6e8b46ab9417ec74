-- ===== src/Sdk/TransactionPolicy/Tests.antt =====
-- Runs of the gas policy, and its theorems at concrete inputs.
use cpredict.Prelude.{ℕ, none, ◌<◌, ◌≡◌, refl, some, ok, err}
use cpredict.Sdk.TransactionPolicy.{
  claim, Fees, GasQuote, base_fee_unavailable, bounded_gas_limit, send_transaction_with_gas_policy,
  gas_limit_by_operation,
}
use cpredict.Sdk.TransactionPolicy.Bounds.{
  Covers, IsBounded, bounded_gas_limit-IsOutcome, IsOutcome,
  send_transaction_with_gas_policy-IsBounded,
}

abbrev node_fees : Fees
node_fees = record { max_fee_per_gas = 1; max_priority_fee_per_gas = 5 }

abbrev claim_quote : GasQuote
claim_quote = record {
  gas = 240_000;
  fees = record { max_fee_per_gas = 210_000_000; max_priority_fee_per_gas = 10_000_000 };
}

claim_quoted :
    send_transaction_with_gas_policy claim (some 200_000) (some 100_000_000) (some node_fees)
    ≡ ok claim_quote
unfolding send_transaction_with_gas_policy
claim_quoted = refl

send_transaction_with_gas_policy-IsBounded_example :
    Covers (some 200_000) (gas_limit_by_operation claim) 240_000
    × (base : ℕ) × (some 100_000_000 ≡ some base)
    × (0 < base)
    × IsBounded base 240_000 claim_quote.fees
send_transaction_with_gas_policy-IsBounded_example =
    send_transaction_with_gas_policy-IsBounded claim (some 200_000) (some 100_000_000)
      (some node_fees) claim_quoted

-- Without a base fee nothing reaches the wallet.
no_base_fee :
    send_transaction_with_gas_policy claim none none (some node_fees) ≡ err base_fee_unavailable
unfolding send_transaction_with_gas_policy
no_base_fee = refl

bounded_gas_limit-IsOutcome_example :
    IsOutcome (some 300_000) 250_000 (bounded_gas_limit (some 300_000) 250_000)
bounded_gas_limit-IsOutcome_example = bounded_gas_limit-IsOutcome (some 300_000) 250_000
