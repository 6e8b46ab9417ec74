-- ===== src/Paymaster/Policy.antt =====
-- `SponsorPolicy.validate` of offchain/paymaster-service/src/policy.ts: which user operations are
-- sponsored. Data are lists of bytes, a selector is the number of its four bytes, and the decoder of an
-- account's calls, which is an adapter, is an argument.
pub mod Safety
use cpredict.Prelude.{
  ℕ, zero, suc, ◌+◌, ◌*◌, Bool, true, false, not, ◌&&◌, ◌||◌, Option, none, some, List, [], ◌∷◌,
  ltb, ◌==◌, if◌then◌else◌, length, Result, ok, err, ◌>>=◌, ◌>>◌, throw_if,
}
use cpredict.Prelude.Dict.{Dict, get, nat_eq}

pub data SponsorOperationKind : Type 0 where
  create_listing cancel_listing other : SponsorOperationKind

pub record Call : Type 0 where
  pub target : ℕ
  pub value : ℕ
  pub data_bytes : List ℕ

pub record UserOperation : Type 0 where
  pub sender : ℕ
  pub nonce : ℕ
  pub init_code : List ℕ
  pub call_data : List ℕ
  pub account_gas_limits : ℕ
  pub pre_verification_gas : ℕ
  pub gas_fees : ℕ
  pub signature : List ℕ

pub data PolicyError : Type 0 where
  cost_exceeds_policy length_exceeds_policy call_count unsupported_call not_sponsored
        malformed_listing below_minimum undecodable :
      PolicyError

pub record SponsorPolicyOptions : Type 0 where
  pub decode : UserOperation → Result PolicyError (List Call)
  pub allowed_targets : Dict ℕ (Dict ℕ SponsorOperationKind)
  pub max_cost_per_request : ℕ
  pub max_init_code_bytes : ℕ
  pub max_call_data_bytes : ℕ
  pub min_sponsored_listing_units : ℕ

pub record OperationCounts : Type 0 where
  pub create_count : ℕ
  pub cancel_count : ℕ

-- `slice` and `hexToBigInt`
abbrev take : ℕ → List ℕ → List ℕ
take zero bytes = []
take (suc n) [] = []
take (suc n) (b ∷ bytes) = b ∷ take n bytes

abbrev drop : ℕ → List ℕ → List ℕ
drop zero bytes = bytes
drop (suc n) [] = []
drop (suc n) (b ∷ bytes) = drop n bytes

unfoldable number_from : ℕ → List ℕ → ℕ
number_from n [] = n
number_from n (b ∷ bytes) = number_from (n * 256 + b) bytes

unfoldable pub selector : Call → ℕ
unfolding number_from
selector c = number_from 0 (take 4 c.data_bytes)

unfoldable pub listing_units : Call → ℕ
unfolding number_from
listing_units c = number_from 0 (take 32 (drop 68 c.data_bytes))

-- `selectors?.get(selector)`
unfoldable pub operation_of : SponsorPolicyOptions → Call → Option SponsorOperationKind
unfolding get selector
operation_of o c = elim (get c.target o.allowed_targets) [
  | none ↦ none
  | some selectors ↦ get (selector c) selectors
]

abbrev pub kind_of : Option SponsorOperationKind → Result PolicyError SponsorOperationKind
kind_of none = err not_sponsored
kind_of (some kind) = ok kind

abbrev pub check_listing :
    SponsorPolicyOptions → Call → SponsorOperationKind → Result PolicyError (Unit {0})
check_listing o c create_listing = do
  throw_if (not (length c.data_bytes == 164)) malformed_listing
  throw_if (ltb (listing_units c) o.min_sponsored_listing_units) below_minimum
check_listing o c _ = ok tt

unfoldable pub check_call : SponsorPolicyOptions → Call → Result PolicyError SponsorOperationKind
unfolding operation_of listing_units
check_call o c = do
  throw_if (not (c.value == 0) || ltb (length c.data_bytes) 4) unsupported_call
  kind ← kind_of (operation_of o c)
  check_listing o c kind
  ok kind

abbrev pub count_kind : SponsorOperationKind → OperationCounts → OperationCounts
count_kind create_listing n = record n { create_count = n.create_count + 1 }
count_kind cancel_listing n = record n { cancel_count = n.cancel_count + 1 }
count_kind other n = n

-- The loop over the calls.
unfoldable pub check_calls :
    SponsorPolicyOptions → List Call → OperationCounts → Result PolicyError OperationCounts
unfolding check_call
check_calls o [] counts = ok counts
check_calls o (c ∷ rest) counts = do
  kind ← check_call o c
  check_calls o rest (count_kind kind counts)

unfoldable pub validate :
    SponsorPolicyOptions → UserOperation → ℕ → Result PolicyError OperationCounts
unfolding check_calls
validate o u cost = do
  throw_if (ltb cost 1 || ltb o.max_cost_per_request cost) cost_exceeds_policy
  throw_if
      (ltb o.max_init_code_bytes (length u.init_code)
        || ltb o.max_call_data_bytes (length u.call_data))
      length_exceeds_policy
  calls ← o.decode u
  throw_if (ltb (length calls) 1 || ltb 8 (length calls)) call_count
  check_calls o calls (record { create_count = 0; cancel_count = 0 })
