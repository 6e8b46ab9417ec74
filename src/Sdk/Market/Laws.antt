-- ===== src/Sdk/Market/Laws.antt =====
-- What the checks of times and rules accept.
use cpredict.Prelude.Int.{eq_of_parts, same_ℤ, ◌≤ℤ◌, ◌<ℤ◌}
use cpredict.Prelude.{
  ◌&&◌, Bool, sym, subst, Result, ap, ◌≡◌, ◌↔◌, true, Option, none, some, arith, ok,
}
use cpredict.Prelude.{err, refl, sym, ap, subst}
use cpredict.Sdk.Market.{
  schema_event, schema_time, accepts, TimesError, same, max_safe_integer, pos, ℤ, MarketTimes,
  assert_market_times, RulesTimes, ChainTimes, market_rules_match_times, rules_times_accepted,
}

all_four :
    (a b c d : Bool) → (a && b && c && d) ≡ true → (a ≡ true) × (b ≡ true) × (c ≡ true) × (d ≡ true)
all_four a b c d h = ground arith

last_two : (a b c d e : Bool) → (a && b && c && d && e) ≡ true → (d ≡ true) × (e ≡ true)
last_two a b c d e h = ground arith

-- The order of a market's times.
abbrev pub EventInOrder : MarketTimes → Option ℤ → Type 0
EventInOrder times none = Unit
EventInOrder times (some event) = (times.close_at <ℤ event) × (event ≤ℤ times.outcome_deadline_at)

abbrev pub ResolutionInOrder : MarketTimes → Option ℤ → Type 0
ResolutionInOrder times none = Unit
ResolutionInOrder times (some deadline) = times.outcome_deadline_at <ℤ deadline

pub record InOrder (times : MarketTimes) : Type 0 where
  pub closes : pos 0 <ℤ times.close_at
  pub outcome : times.close_at ≤ℤ times.outcome_deadline_at
  pub event : EventInOrder times times.event_starts_at
  pub resolution : ResolutionInOrder times times.resolution_deadline_at

assert_market_times-InOrder :
    (times : MarketTimes) → assert_market_times times ≡ ok tt → InOrder times
unfolding assert_market_times
assert_market_times-InOrder times h = ground arith

InOrder-assert_market_times :
    (times : MarketTimes) → InOrder times → assert_market_times times ≡ ok tt
unfolding assert_market_times
InOrder-assert_market_times times h = ground arith

-- The check accepts exactly the times in order: 0 < close ≤ outcome deadline, an event start, where
-- there is one, after the close and at most at the outcome deadline, and a resolution deadline,
-- where there is one, after the outcome deadline.
pub assert_market_times_iff :
    (times : MarketTimes) → (assert_market_times times ≡ ok tt) ↔ InOrder times
assert_market_times_iff times =
    (assert_market_times-InOrder times, InOrder-assert_market_times times)

same_ℤ-eq : (a b : ℤ) → same_ℤ a b ≡ true → a ≡ b
same_ℤ-eq a b h = eq_of_parts a b (ground arith)

abbrev times_of : RulesTimes → MarketTimes
times_of rules = record {
  close_at = rules.close_at;
  event_starts_at = rules.event_starts_at;
  outcome_deadline_at = rules.outcome_deadline_at;
  resolution_deadline_at = some rules.resolution_deadline_at;
}

accepts-ok : (r : Result TimesError (Unit {0})) → accepts r ≡ true → r ≡ ok tt
accepts-ok (ok x) h = refl
accepts-ok (err e) h = cc

schema_time-safe : (time : ℤ) → schema_time time ≡ true → time ≤ℤ max_safe_integer
schema_time-safe time h = ground arith

rules_times_accepted-InOrder :
    (rules : RulesTimes)
    → rules_times_accepted rules ≡ true
    → (rules.resolution_deadline_at ≤ℤ max_safe_integer) × InOrder (times_of rules)
unfolding rules_times_accepted
rules_times_accepted-InOrder rules h =
    let (time, accepted) =
      last_two (schema_time rules.close_at) (schema_event rules.event_starts_at)
        (schema_time rules.outcome_deadline_at) (schema_time rules.resolution_deadline_at)
        (accepts (assert_market_times (times_of rules))) h in
    (
      schema_time-safe rules.resolution_deadline_at time,
      assert_market_times-InOrder (times_of rules)
          (accepts-ok (assert_market_times (times_of rules)) accepted),
    )

same-eq : (a b : Option ℤ) → same a b ≡ true → b ≡ a
same-eq none none h = refl
same-eq (some a) (some b) h = ap some (sym (same_ℤ-eq a b h))
same-eq none (some b) h = cc
same-eq (some a) none h = cc

market_rules_match_times-same :
    (rules : RulesTimes) (chain : ChainTimes)
    → market_rules_match_times rules chain ≡ true
    → (chain.close_at ≡ some rules.close_at)
      × (chain.event_starts_at ≡ rules.event_starts_at)
      × (chain.outcome_deadline_at ≡ some rules.outcome_deadline_at)
      × (chain.resolution_deadline_at ≡ some rules.resolution_deadline_at)
unfolding market_rules_match_times
market_rules_match_times-same rules chain m =
    let (close, event, outcome, resolution) =
      all_four (same (some rules.close_at) chain.close_at)
        (same rules.event_starts_at chain.event_starts_at)
        (same (some rules.outcome_deadline_at) chain.outcome_deadline_at)
        (same (some rules.resolution_deadline_at) chain.resolution_deadline_at) m in
    (
      same-eq (some rules.close_at) chain.close_at close,
      same-eq rules.event_starts_at chain.event_starts_at event,
      same-eq (some rules.outcome_deadline_at) chain.outcome_deadline_at outcome,
      same-eq (some rules.resolution_deadline_at) chain.resolution_deadline_at resolution,
    )

-- Rules that are accepted and match the chain's times fix them: the chain reports all of them but
-- perhaps the event start, they are in order, and the last of them is a safe integer.
pub market_rules_match_times-InOrder :
    (rules : RulesTimes) (chain : ChainTimes)
    → rules_times_accepted rules ≡ true
    → market_rules_match_times rules chain ≡ true
    → (close outcome resolution : ℤ) × (chain.close_at ≡ some close)
      × (chain.outcome_deadline_at ≡ some outcome)
      × (chain.resolution_deadline_at ≡ some resolution)
      × (resolution ≤ℤ max_safe_integer)
      × InOrder (record {
        close_at = close;
        event_starts_at = chain.event_starts_at;
        outcome_deadline_at = outcome;
        resolution_deadline_at = some resolution;
      })
market_rules_match_times-InOrder rules chain h m =
    let (safe, order) = rules_times_accepted-InOrder rules h in
    let (close, event, outcome, resolution) = market_rules_match_times-same rules chain m in
    (
      rules.close_at,
      rules.outcome_deadline_at,
      rules.resolution_deadline_at,
      close,
      outcome,
      resolution,
      safe,
      subst
          (λ e. InOrder (record {
            close_at = rules.close_at;
            event_starts_at = e;
            outcome_deadline_at = rules.outcome_deadline_at;
            resolution_deadline_at = some rules.resolution_deadline_at;
          }))
          (sym event) order,
    )
