-- ===== src/Paymaster/Policy/Safety.antt =====
-- What a sponsored user operation is.
use cpredict.Prelude.{
  ℕ, ◌≤◌, ◌≡◌, refl, Bool, true, false, not, ◌||◌, Option, none, some, List, [], ◌∷◌, arith, All,
  ltb, ◌==◌, length, Result, ok, ◌>>=◌, throw_if, >>=-eq-ok,
}
use cpredict.Paymaster.Policy.{
  SponsorOperationKind, create_listing, cancel_listing, other, Call, UserOperation,
  SponsorPolicyOptions, OperationCounts, unsupported_call, cost_exceeds_policy,
  length_exceeds_policy, call_count, malformed_listing, below_minimum, listing_units, operation_of,
  kind_of, check_listing, check_call, check_calls, validate,
}

-- A new listing has the length of its encoding, and as many units as the policy asks for.
abbrev pub IsListing : SponsorPolicyOptions → Call → SponsorOperationKind → Type 0
IsListing o c create_listing =
    (length c.data_bytes ≡ 164) × (o.min_sponsored_listing_units ≤ listing_units c)
IsListing o c _ = Unit

-- A call that is sponsored as a kind: it sends no value, and its target and selector are allowed.
pub record IsSponsored (o : SponsorPolicyOptions) (c : Call) : Type 0 where
  pub kind : SponsorOperationKind
  pub no_value : c.value ≡ 0
  pub long_enough : 4 ≤ length c.data_bytes
  pub allowed : operation_of o c ≡ some kind
  pub listing : IsListing o c kind

pub record IsAllowed (o : SponsorPolicyOptions) (u : UserOperation) (cost : ℕ) : Type 0 where
  pub calls : List Call
  pub decoded : o.decode u ≡ ok calls
  pub positive : 1 ≤ cost
  pub affordable : cost ≤ o.max_cost_per_request
  pub short_code : length u.init_code ≤ o.max_init_code_bytes
  pub short_data : length u.call_data ≤ o.max_call_data_bytes
  pub some_calls : 1 ≤ length calls
  pub few_calls : length calls ≤ 8
  pub sponsored : All (IsSponsored o) calls

throw_if-ok :
    {E A : Type 0} {a : A} (b : Bool) (e : E) (r : Result E A)
    → (throw_if b e >>= λ _. r) ≡ ok a
    → (b ≡ false) × (r ≡ ok a)
throw_if-ok true e r h = cc
throw_if-ok false e r h = (refl, h)

check_listing-IsListing :
    (o : SponsorPolicyOptions) (c : Call) (kind : SponsorOperationKind)
    → check_listing o c kind ≡ ok tt
    → IsListing o c kind
check_listing-IsListing o c create_listing h =
    let (long, h') = throw_if-ok (not (length c.data_bytes == 164)) malformed_listing _ h in
    (ground (arith, long), go (ltb (listing_units c) o.min_sponsored_listing_units) refl h')
  where
    go :
        (b : Bool)
        → ltb (listing_units c) o.min_sponsored_listing_units ≡ b
        → throw_if b below_minimum ≡ ok tt
        → o.min_sponsored_listing_units ≤ listing_units c
    go true e k = cc
    go false e k = ground arith
check_listing-IsListing o c cancel_listing h = tt
check_listing-IsListing o c other h = tt

kind_of-ok :
    (k : Option SponsorOperationKind) (kind : SponsorOperationKind)
    → kind_of k ≡ ok kind
    → k ≡ some kind
kind_of-ok none kind h = cc
kind_of-ok (some k) kind h = cc

check_call-IsSponsored :
    (o : SponsorPolicyOptions) (c : Call) (kind : SponsorOperationKind)
    → check_call o c ≡ ok kind
    → IsSponsored o c
unfolding check_call
check_call-IsSponsored o c kind h =
    let (plain, h1) =
      throw_if-ok (not (c.value == 0) || ltb (length c.data_bytes) 4) unsupported_call _ h in
    let (k, found, h2) = >>=-eq-ok (kind_of (operation_of o c)) _ h1 in
    let (t, listed, _) = >>=-eq-ok (check_listing o c k) _ h2 in
    record {
      kind = k;
      no_value = ground (arith, plain);
      long_enough = ground (arith, plain);
      allowed = kind_of-ok (operation_of o c) k found;
      listing = check_listing-IsListing o c k listed;
    }

check_calls-IsSponsored :
    (o : SponsorPolicyOptions) (calls : List Call) (n m : OperationCounts)
    → check_calls o calls n ≡ ok m
    → All (IsSponsored o) calls
unfolding check_calls
check_calls-IsSponsored o [] n m h = tt
check_calls-IsSponsored o (c ∷ rest) n m h =
    let (kind, one, others) = >>=-eq-ok (check_call o c) _ h in
    (check_call-IsSponsored o c kind one, check_calls-IsSponsored o rest _ m others)

-- An operation that the policy accepts asks for a positive cost within the policy's, is no longer than
-- the policy allows, and decodes to between one and eight calls, each of which sends no value, has an
-- allowed target and selector, and, where it creates a listing, the length of that call and at least
-- the least number of units.
pub validate-IsAllowed :
    (o : SponsorPolicyOptions) (u : UserOperation) (cost : ℕ) {counts : OperationCounts}
    → validate o u cost ≡ ok counts
    → IsAllowed o u cost
unfolding validate
validate-IsAllowed o u cost {counts} h =
    let (paid, h1) =
      throw_if-ok (ltb cost 1 || ltb o.max_cost_per_request cost) cost_exceeds_policy _ h in
    let (short, h2) =
      throw_if-ok
        (ltb o.max_init_code_bytes (length u.init_code)
          || ltb o.max_call_data_bytes (length u.call_data))
        length_exceeds_policy _ h1 in
    let (calls, decoded, h3) = >>=-eq-ok (o.decode u) _ h2 in
    let (few, h4) = throw_if-ok (ltb (length calls) 1 || ltb 8 (length calls)) call_count _ h3 in
    record {
      calls = calls;
      decoded = decoded;
      positive = ground (arith, paid);
      affordable = ground (arith, paid);
      short_code = ground (arith, short);
      short_data = ground (arith, short);
      some_calls = ground (arith, few);
      few_calls = ground (arith, few);
      sponsored = check_calls-IsSponsored o calls _ counts h4;
    }
