-- ===== src/Paymaster/Tests.antt =====
-- Runs of the paymaster's policy, and its theorem at a concrete input.
use cpredict.Prelude.{ℕ, ◌≡◌, refl, List, [], ◌∷◌, ok, err}
use cpredict.Paymaster.Policy.{
  SponsorPolicyOptions, UserOperation, cancel_listing, OperationCounts, not_sponsored, validate,
}
use cpredict.Paymaster.Policy.Safety.{IsAllowed, validate-IsAllowed}

-- One target, with one selector.
abbrev policy : SponsorPolicyOptions
policy = record {
  decode = λ u. ok (record { target = 5; value = 0; data_bytes = u.call_data } ∷ []);
  allowed_targets = (5, (1, cancel_listing) ∷ []) ∷ [];
  max_cost_per_request = 100;
  max_init_code_bytes = 10;
  max_call_data_bytes = 40;
  min_sponsored_listing_units = 1;
}

abbrev operation : List ℕ → UserOperation
operation call_data = record {
  sender = 3;
  nonce = 0;
  init_code = [];
  call_data = call_data;
  account_gas_limits = 0;
  pre_verification_gas = 0;
  gas_fees = 0;
  signature = [];
}

abbrev cancel : UserOperation
cancel = operation (0 ∷ 0 ∷ 0 ∷ 1 ∷ 9 ∷ [])

other_refused : validate policy (operation (0 ∷ 0 ∷ 1 ∷ 1 ∷ [])) 20 ≡ err not_sponsored
unfolding validate
other_refused = refl

abbrev one_cancelled : OperationCounts
one_cancelled = record { create_count = 0; cancel_count = 1 }

validate-IsAllowed_example : IsAllowed policy cancel 20
unfolding validate
validate-IsAllowed_example = validate-IsAllowed policy cancel 20 {counts = one_cancelled} refl
