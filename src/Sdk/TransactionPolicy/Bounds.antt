-- ===== src/Sdk/TransactionPolicy/Bounds.antt =====
-- What the wallet is asked to sign is bounded: gas, fee per gas, and the total cost.
use cpredict.Prelude.{
  refl, ◌⊎◌, ◌/◌, ◌-◌, ℕ, ◌+◌, ◌*◌, ◌≤◌, ◌<◌, ◌≡◌, Option, none, some, arith, Result, ok, err,
  ◌>>=◌, >>=-eq-ok, subst,
}
use cpredict.Sdk.TransactionPolicy.{
  GasPolicyOperation, GasPolicyErrorCode, gas_above_limit, gas_limit_by_operation,
  bounded_gas_limit, bounded_fees, Fees, GasQuote, default_priority_fee_per_gas,
  max_priority_fee_per_gas, max_transaction_fee, send_transaction_with_gas_policy,
}

-- What a gas limit promises for an estimate that the node gave.
abbrev pub Covers : Option ℕ → ℕ → ℕ → Type 0
Covers none ceiling gas = gas ≡ ceiling
Covers (some estimate) ceiling gas = (estimate ≤ ceiling → estimate ≤ gas) × (gas ≤ ceiling)

pub bounded_gas_limit-Covers :
    (estimate : Option ℕ) (ceiling : ℕ) {gas : ℕ}
    → bounded_gas_limit estimate ceiling ≡ ok gas
    → Covers estimate ceiling gas
unfolding bounded_gas_limit
bounded_gas_limit-Covers none ceiling h = ground arith
bounded_gas_limit-Covers (some estimate) ceiling h = ground arith

-- An estimate above the ceiling, and at most a hundred times as large.
abbrev pub IsAbove : Option ℕ → ℕ → Type 0
IsAbove none ceiling = ⊥
IsAbove (some estimate) ceiling = (ceiling < estimate) × (estimate ≤ ceiling * 100)

-- The limit for an estimate: the ceiling where the estimate is missing, zero or corrupt, and otherwise
-- the estimate and a fifth of it, rounded up, or the ceiling where that is more.
abbrev pub IsLimit : Option ℕ → ℕ → ℕ → Type 0
IsLimit none ceiling gas = gas ≡ ceiling
IsLimit (some estimate) ceiling gas =
    (((estimate ≡ 0) ⊎ (ceiling * 100 < estimate)) × (gas ≡ ceiling))
    ⊎ ((0 < estimate)
        × (estimate ≤ ceiling)
        × (gas ≤ ceiling)
        × (gas * 100 < estimate * 120 + 100)
        × ((estimate * 120 ≤ gas * 100) ⊎ (gas ≡ ceiling)))

abbrev pub IsOutcome : Option ℕ → ℕ → Result GasPolicyErrorCode ℕ → Type 0
IsOutcome estimate ceiling (err e) = IsAbove estimate ceiling × (e ≡ gas_above_limit)
IsOutcome estimate ceiling (ok gas) = (IsAbove estimate ceiling → ⊥) × IsLimit estimate ceiling gas

ceil_div : (n : ℕ) → (n ≤ (n + 100 - 1) / 100 * 100) × ((n + 100 - 1) / 100 * 100 < n + 100)
ceil_div n = omega arith

-- The gas limit is refused, as above the limit, exactly for an estimate above the ceiling and at most a
-- hundred times as large. Any other estimate gives a limit: a missing one, zero, or one above a hundred
-- ceilings gives the ceiling, and one within the ceiling gives the estimate with a fifth added, rounded up,
-- and capped at the ceiling.
pub bounded_gas_limit-IsOutcome :
    (estimate : Option ℕ) (ceiling : ℕ)
    → IsOutcome estimate ceiling (bounded_gas_limit estimate ceiling)
unfolding bounded_gas_limit
bounded_gas_limit-IsOutcome none ceiling = ((λ h. h), refl)
bounded_gas_limit-IsOutcome (some estimate) ceiling = ground (arith, ceil_div (estimate * 120))

-- The fees that are offered leave room for the base fee to double, keep the tip within its bounds,
-- and cost at most the ceiling on the whole fee.
pub record IsBounded (base_fee gas : ℕ) (fees : Fees) : Type 0 where
  pub tip_min : default_priority_fee_per_gas ≤ fees.max_priority_fee_per_gas
  pub tip_max : fees.max_priority_fee_per_gas ≤ max_priority_fee_per_gas
  pub covers : base_fee * 2 + fees.max_priority_fee_per_gas ≤ fees.max_fee_per_gas
  pub cost : gas * fees.max_fee_per_gas ≤ max_transaction_fee

pub bounded_fees-IsBounded :
    (base_fee : ℕ) (estimate : Option Fees) (gas : ℕ) {fees : Fees}
    → bounded_fees (some base_fee) estimate gas ≡ ok fees
    → (0 < base_fee) × IsBounded base_fee gas fees
unfolding bounded_fees
bounded_fees-IsBounded base_fee none gas h = ground arith
bounded_fees-IsBounded base_fee (some estimate) gas h = ground arith

bounded_fees-priced :
    (base_fee : Option ℕ) (estimate : Option Fees) (gas : ℕ) {fees : Fees}
    → bounded_fees base_fee estimate gas ≡ ok fees
    → (base : ℕ) × (base_fee ≡ some base) × (0 < base) × IsBounded base gas fees
bounded_fees-priced none estimate gas h = unfold bounded_fees in cc
bounded_fees-priced (some base) estimate gas h =
    let (positive, bounds) = bounded_fees-IsBounded base estimate gas h in
    (base, refl, positive, bounds)

-- Every transaction that reaches the wallet has a gas limit within its operation's ceiling (which covers the
-- node's estimate where that is within the ceiling), and was priced by a block with a positive base
-- fee: its fees leave room for that base fee to double, its tip is in bounds, and it costs at most 0.01 ETH in
-- total. Without a base fee no transaction reaches the wallet.
pub send_transaction_with_gas_policy-IsBounded :
    (operation : GasPolicyOperation) (gas_estimate base_fee : Option ℕ) (fee_estimate : Option Fees)
    {quote : GasQuote}
    → send_transaction_with_gas_policy operation gas_estimate base_fee fee_estimate ≡ ok quote
    → Covers gas_estimate (gas_limit_by_operation operation) quote.gas
      × (base : ℕ) × (base_fee ≡ some base)
      × (0 < base)
      × IsBounded base quote.gas quote.fees
unfolding send_transaction_with_gas_policy
send_transaction_with_gas_policy-IsBounded operation gas_estimate base_fee fee_estimate {quote} h =
    let (gas, e, rest) = >>=-eq-ok (bounded_gas_limit gas_estimate ceiling) then_fees h in
    let (fees, e', done) = >>=-eq-ok (bounded_fees base_fee fee_estimate gas) (quote_of gas) rest in
    let same : quoted gas fees ≡ quote = cc done in
    let (base, found, positive, bounds) = bounded_fees-priced base_fee fee_estimate gas e' in
    subst
      (λ q.
        Covers gas_estimate ceiling q.gas
        × (base : ℕ) × (base_fee ≡ some base)
        × (0 < base)
        × IsBounded base q.gas q.fees)
      same (bounded_gas_limit-Covers gas_estimate ceiling e, base, found, positive, bounds)
  where
    ceiling : ℕ
    ceiling = gas_limit_by_operation operation

    quoted : ℕ → Fees → GasQuote
    quoted gas fees = record { gas = gas; fees = fees }

    quote_of : ℕ → Fees → Result GasPolicyErrorCode GasQuote
    quote_of gas fees = ok (quoted gas fees)

    then_fees : ℕ → Result GasPolicyErrorCode GasQuote
    then_fees gas = bounded_fees base_fee fee_estimate gas >>= quote_of gas
