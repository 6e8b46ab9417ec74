-- ===== src/Ledger/EntitlementTests.antt =====
-- Entitlements at concrete inputs.
use cpredict.Ledger.Entitlements.Backed.{hydrate_one-Backed, Backed, hydrate_one-Backed}
use cpredict.Ledger.Entitlements.Solvent.{shares_solvent, shares}
use cpredict.Prelude.{◌==◌, if◌then◌else◌, refl, false, none, some, [], ◌∷◌, ℕ, ◌≡◌, ◌≤◌, arith}
use cpredict.Ledger.Entitlements.{
  unavailable, Entitlement, RightsReader, MarketRights, winner, unknown, claimable, hydrate_one,
  hydrate_entitlements, share_of_pool,
}

-- Three holders of a pool of ten: each share is rounded down.
shares_solvent_example : shares (1 ∷ 1 ∷ 1 ∷ []) 3 10 ≤ 10
shares_solvent_example = shares_solvent (1 ∷ 1 ∷ 1 ∷ []) 3 10 (omega arith)

rounded_down : share_of_pool 1 3 10 ≡ some 3
unfolding share_of_pool
rounded_down = refl

abbrev rights : MarketRights
rights = record {
  state = 1;
  void_reason = 0;
  winning_outcome = 1;
  balances = 0 ∷ 2 ∷ [];
  winner_pool = 10;
  winning_units = 3;
  early_pool = 0;
  early_score = 0;
  owner_early_score = 0;
  timeout_funded = false;
  timeout_pool = 0;
  timeout_total_units = 0;
  owner_timeout_units = 0;
}

abbrev reader : RightsReader
reader = record {
  market = λ a. if a == 100 then some rights else none;
  listing = λ l. none;
  bond = λ a. none;
  credit = λ k. none;
}

abbrev candidate : ℕ → Entitlement
candidate market = record {
  id = "winner";
  market = some market;
  kind = winner;
  outcome_id = none;
  listing_id = none;
  units = none;
  amount = none;
  status = unknown;
  reason = none;
}

abbrev won : Entitlement
won = record (candidate 100) { units = some 2; amount = some 6; status = claimable }

hydrated : hydrate_one reader (candidate 100) (some 100) winner none ≡ some (some won)
unfolding hydrate_one
hydrated = refl

hydrate_one-Backed_example : (a : ℕ) × (won.amount ≡ some a) × Backed winner rights a
hydrate_one-Backed_example =
    hydrate_one-Backed reader (candidate 100) 100 winner none rights won refl refl hydrated refl

-- A read that throws leaves the other rows.
one_unavailable :
    hydrate_entitlements reader (candidate 101 ∷ candidate 100 ∷ [])
    ≡ unavailable (candidate 101) ∷ won ∷ []
unfolding hydrate_entitlements
one_unavailable = refl
