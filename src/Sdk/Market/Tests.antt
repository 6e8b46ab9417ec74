-- ===== src/Sdk/Market/Tests.antt =====
-- The checks of market times and states at concrete inputs.
use cpredict.Prelude.Int.{negsuc, ◌≤ℤ◌}
use cpredict.Prelude.{false, ◌≡◌, ◌↔◌, refl, true, some, none, ok}
use cpredict.Sdk.Market.{
  not_a_number, max_safe_integer, between, integer, pos, ℤ, MarketTimes, RulesTimes, ChainTimes,
  assert_market_times, assert_market_state, rules_times_accepted, market_rules_match_times,
}
use cpredict.Sdk.Market.States.{IsMarketState, assert_market_state_iff}
use cpredict.Sdk.Market.Laws.{InOrder, assert_market_times_iff, market_rules_match_times-InOrder}

abbrev times : MarketTimes
times = record {
  close_at = pos 10;
  event_starts_at = some (pos 12);
  outcome_deadline_at = pos 20;
  resolution_deadline_at = none;
}

assert_market_times_iff_example : (assert_market_times times ≡ ok tt) ↔ InOrder times
assert_market_times_iff_example = assert_market_times_iff times

assert_market_state_iff_example :
    (assert_market_state (integer (pos 2)) (integer (pos 3)) ≡ true)
    ↔ IsMarketState (integer (pos 2)) (integer (pos 3))
assert_market_state_iff_example = assert_market_state_iff (integer (pos 2)) (integer (pos 3))

-- A state between resolved and voided, a negative one, and a reason that is no number.
refused :
    (assert_market_state (between (pos 1)) (integer (pos 0)) ≡ false)
    × (assert_market_state (integer (negsuc 0)) (integer (pos 0)) ≡ false)
    × (assert_market_state (integer (pos 2)) not_a_number ≡ false)
unfolding assert_market_state
refused = (refl, refl, refl)

abbrev rules : RulesTimes
rules = record {
  close_at = pos 10;
  event_starts_at = none;
  outcome_deadline_at = pos 20;
  resolution_deadline_at = pos 30;
}

abbrev chain : ChainTimes
chain = record {
  close_at = some (pos 10);
  event_starts_at = none;
  outcome_deadline_at = some (pos 20);
  resolution_deadline_at = some (pos 30);
}

rules_accepted : rules_times_accepted rules ≡ true
unfolding rules_times_accepted
rules_accepted = refl

rules_match : market_rules_match_times rules chain ≡ true
unfolding market_rules_match_times
rules_match = refl

market_rules_match_times-InOrder_example :
    (close outcome resolution : ℤ) × (chain.close_at ≡ some close)
    × (chain.outcome_deadline_at ≡ some outcome)
    × (chain.resolution_deadline_at ≡ some resolution)
    × (resolution ≤ℤ max_safe_integer)
    × InOrder (record {
      close_at = close;
      event_starts_at = chain.event_starts_at;
      outcome_deadline_at = outcome;
      resolution_deadline_at = some resolution;
    })
market_rules_match_times-InOrder_example =
    market_rules_match_times-InOrder rules chain rules_accepted rules_match
