-- ===== src/Sdk/Market/States.antt =====
-- What the check of a market's state and void reason accepts.
use cpredict.Prelude.{ap, ℕ, ◌≤◌, ◌≡◌, ◌↔◌, ◌⊎◌, true, arith}
use cpredict.Prelude.{inl, inr, refl, ap, ◌∙◌}
use cpredict.Prelude.Int.{negsuc}
use cpredict.Sdk.Market.{between, minus_infinity, plus_infinity, not_a_number}
use mathlib.Core.Path.{ap₂}
use cpredict.Sdk.Market.{
  integer, Number, pos, assert_market_state, state_open, state_resolved, state_voided, reason_none,
  reason_creator, reason_timeout,
}

-- A state and a void reason that belong together.
abbrev pub IsMarketState : Number → Number → Type 0
IsMarketState state reason =
    ((state ≡ integer (pos state_open)) × (reason ≡ integer (pos reason_none)))
    ⊎ ((state ≡ integer (pos state_resolved)) × (reason ≡ integer (pos reason_none)))
    ⊎ ((state ≡ integer (pos state_voided))
        × (r : ℕ) × (reason ≡ integer (pos r))
        × (reason_creator ≤ r)
        × (r ≤ reason_timeout))

-- The test of two integers, by their numbers.
state_numbers :
    (s r : ℕ)
    → assert_market_state (integer (pos s)) (integer (pos r)) ≡ true
    → ((s ≡ state_open) × (r ≡ reason_none))
      ⊎ ((s ≡ state_resolved) × (r ≡ reason_none))
      ⊎ ((s ≡ state_voided) × (reason_creator ≤ r) × (r ≤ reason_timeout))
unfolding assert_market_state
state_numbers s r h = ground arith

as_integer : {a b : ℕ} → a ≡ b → integer (pos a) ≡ integer (pos b)
as_integer h = ap (λ n. integer (pos n)) h

assert_market_state-IsMarketState :
    (state reason : Number) → assert_market_state state reason ≡ true → IsMarketState state reason
unfolding assert_market_state
assert_market_state-IsMarketState (integer (pos s)) (integer (pos r)) h =
    elim (state_numbers s r h) [
      | inl (a, b) ↦ inl (as_integer a, as_integer b)
      | inr (inl (a, b)) ↦ inr (inl (as_integer a, as_integer b))
      | inr (inr (a, low, high)) ↦ inr (inr (as_integer a, r, refl, low, high))
    ]
assert_market_state-IsMarketState (integer (pos s)) (integer (negsuc r)) h = absurd (ground arith)
assert_market_state-IsMarketState (integer (negsuc s)) (integer r) h = absurd (ground arith)
assert_market_state-IsMarketState (integer s) (between r) h = absurd (ground arith)
assert_market_state-IsMarketState (integer s) minus_infinity h = absurd (ground arith)
assert_market_state-IsMarketState (integer s) plus_infinity h = absurd (ground arith)
assert_market_state-IsMarketState (integer s) not_a_number h = absurd (ground arith)
assert_market_state-IsMarketState (between s) reason h = absurd (ground arith)
assert_market_state-IsMarketState minus_infinity reason h = absurd (ground arith)
assert_market_state-IsMarketState plus_infinity reason h = absurd (ground arith)
assert_market_state-IsMarketState not_a_number reason h = absurd (ground arith)

voided_reason :
    (r : ℕ)
    → reason_creator ≤ r
    → r ≤ reason_timeout
    → assert_market_state (integer (pos state_voided)) (integer (pos r)) ≡ true
unfolding assert_market_state
voided_reason r low high = ground arith

IsMarketState-assert_market_state :
    (state reason : Number) → IsMarketState state reason → assert_market_state state reason ≡ true
unfolding assert_market_state
IsMarketState-assert_market_state state reason (inl (a, b)) = ap₂ assert_market_state a b
IsMarketState-assert_market_state state reason (inr (inl (a, b))) = ap₂ assert_market_state a b
IsMarketState-assert_market_state state reason (inr (inr (a, r, b, low, high))) =
    ap₂ assert_market_state a b ∙ voided_reason r low high

-- The check accepts exactly: open or resolved without a reason, or voided with one of the three
-- reasons. Any other pair of numbers is refused: a negative one, one that is not an integer, NaN and the
-- infinities are.
pub assert_market_state_iff :
    (state reason : Number) → (assert_market_state state reason ≡ true) ↔ IsMarketState state reason
assert_market_state_iff state reason =
    (assert_market_state-IsMarketState state reason, IsMarketState-assert_market_state state reason)
