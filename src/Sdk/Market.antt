-- ===== src/Sdk/Market.antt =====
-- Market times, states and rules as the clients check them: offchain/sdk/src/market-times.ts,
-- market-state.ts and market-rules.ts.
mod Laws
mod States
mod Tests
use cpredict.Prelude.Int.{pos, ℤ, same_ℤ, leb_ℤ, ltb_ℤ}
use cpredict.Prelude.{
  ℕ, ◌≡◌, Bool, true, false, not, ◌&&◌, ◌||◌, Option, none, some, ltb, leb, ◌==◌, if◌then◌else◌,
  Result, ok, err, ◌>>◌, throw_if,
}

-- `bigint` is ℤ.
pub record MarketTimes : Type 0 where
  pub close_at : ℤ
  pub event_starts_at : Option ℤ
  pub outcome_deadline_at : ℤ
  pub resolution_deadline_at : Option ℤ

pub data TimesError : Type 0 where
  outcome_before_close event_out_of_order resolution_before_outcome : TimesError

-- The second and the third test of `assertMarketTimes`.
abbrev event_out_of_range : MarketTimes → Option ℤ → Bool
event_out_of_range times none = false
event_out_of_range times (some event) =
    leb_ℤ event times.close_at || ltb_ℤ times.outcome_deadline_at event

abbrev resolution_too_early : MarketTimes → Option ℤ → Bool
resolution_too_early times none = false
resolution_too_early times (some deadline) = leb_ℤ deadline times.outcome_deadline_at

unfoldable pub assert_market_times : MarketTimes → Result TimesError (Unit {0})
assert_market_times times = do
  throw_if (leb_ℤ times.close_at (pos 0) || ltb_ℤ times.outcome_deadline_at times.close_at)
      outcome_before_close
  throw_if (event_out_of_range times times.event_starts_at) event_out_of_order
  throw_if (resolution_too_early times times.resolution_deadline_at) resolution_before_outcome

-- `MARKET_STATE` and `VOID_REASON`.
abbrev pub state_open : ℕ
state_open = 0

abbrev pub state_resolved : ℕ
state_resolved = 1

abbrev pub state_voided : ℕ
state_voided = 2

abbrev pub reason_none : ℕ
reason_none = 0

abbrev pub reason_creator : ℕ
reason_creator = 1

abbrev pub reason_timeout : ℕ
reason_timeout = 3

-- A value of the type `number`, as far as the tests against integer constants read it: `between z` is
-- any number between z and z + 1, without the two.
pub data Number : Type 0 where
  integer between : ℤ → Number
  minus_infinity plus_infinity not_a_number : Number

-- `Number.isInteger(x)`
abbrev pub is_integer : Number → Bool
is_integer (integer z) = true
is_integer _ = false

-- `x < k`, `x > k` and `x === k` for an integer constant; a test of NaN is false.
abbrev pub below : Number → ℕ → Bool
below (integer z) k = ltb_ℤ z (pos k)
below (between z) k = ltb_ℤ z (pos k)
below minus_infinity k = true
below plus_infinity k = false
below not_a_number k = false

abbrev pub beyond : Number → ℕ → Bool
beyond (integer z) k = ltb_ℤ (pos k) z
beyond (between z) k = leb_ℤ (pos k) z
beyond minus_infinity k = false
beyond plus_infinity k = true
beyond not_a_number k = false

abbrev pub equals : Number → ℕ → Bool
equals (integer z) k = same_ℤ z (pos k)
equals _ k = false

-- Whether `assertMarketState` returns.
unfoldable pub assert_market_state : Number → Number → Bool
assert_market_state state void_reason = not (
    not (is_integer state)
    || not (is_integer void_reason)
    || below state state_open
    || beyond state state_voided
    || (if equals state state_voided
        then below void_reason reason_creator || beyond void_reason reason_timeout
        else not (equals void_reason reason_none)))

-- The times of published rules, each a number that `.int()` takes, and those that the chain reports, where any may be missing.
pub record RulesTimes : Type 0 where
  pub close_at : ℤ
  pub event_starts_at : Option ℤ
  pub outcome_deadline_at : ℤ
  pub resolution_deadline_at : ℤ

pub record ChainTimes : Type 0 where
  pub close_at : Option ℤ
  pub event_starts_at : Option ℤ
  pub outcome_deadline_at : Option ℤ
  pub resolution_deadline_at : Option ℤ

abbrev same : Option ℤ → Option ℤ → Bool
same none none = true
same (some a) (some b) = same_ℤ a b
same _ _ = false

unfoldable pub market_rules_match_times : RulesTimes → ChainTimes → Bool
market_rules_match_times rules chain =
    same (some rules.close_at) chain.close_at
    && same rules.event_starts_at chain.event_starts_at
    && same (some rules.outcome_deadline_at) chain.outcome_deadline_at
    && same (some rules.resolution_deadline_at) chain.resolution_deadline_at

-- `Number.MAX_SAFE_INTEGER`
abbrev pub max_safe_integer : ℤ
max_safe_integer = pos 9_007_199_254_740_991

-- `.safe().positive()` of an integer.
abbrev pub schema_time : ℤ → Bool
schema_time time = leb_ℤ time max_safe_integer && ltb_ℤ (pos 0) time

abbrev schema_event : Option ℤ → Bool
schema_event none = true
schema_event (some event) = schema_time event

-- `assertMarketTimes` does not throw.
abbrev accepts : Result TimesError (Unit {0}) → Bool
accepts (ok _) = true
accepts (err _) = false

-- The times that `marketRulesSchema` takes: its tests of each, and its refinement.
unfoldable pub rules_times_accepted : RulesTimes → Bool
unfolding assert_market_times
rules_times_accepted rules =
    schema_time rules.close_at
    && schema_event rules.event_starts_at
    && schema_time rules.outcome_deadline_at
    && schema_time rules.resolution_deadline_at
    && accepts (
        assert_market_times (record {
          close_at = rules.close_at;
          event_starts_at = rules.event_starts_at;
          outcome_deadline_at = rules.outcome_deadline_at;
          resolution_deadline_at = some rules.resolution_deadline_at;
        }))
