-- ===== src/Ledger/Entitlements.antt =====
-- `hydrateEntitlements` and `shareOfPool` of offchain/app-core/src/entitlements.ts: what an account may claim,
-- by the state of the chain. The answers of the chain for the owner are an argument; `none` is a read that
-- throws. The answers are kept per market in the source, which a function does not show.
pub mod Solvent
pub mod Backed
use cpredict.Prelude.{
  ℕ, ◌+◌, ◌*◌, ◌/◌, Bool, true, false, not, ◌&&◌, ◌||◌, Option, none, some, List, [], ◌∷◌, ltb,
  ◌==◌, if◌then◌else◌, sum, get_elem?, String,
}

pub data EntitlementKind : Type 0 where
  holding escrow winner early_bird refund timeout_bonus bond fees : EntitlementKind

pub data EntitlementStatus : Type 0 where
  conditional claimable executing claimed unknown : EntitlementStatus

pub data Reason : Type 0 where
  chain_state_pending credited_to_aggregate_balance withdraw_deferred_escrow return_terminal_listing
        cancel_listing_to_recover_shares bond_slashed_into_timeout_pool
        bond_slashed_pending_timeout_funding settled_see_aggregate_credit_or_timeout_pool
        settle_and_claim_bond settle_bond_before_claiming_credit losing_outcome_terminal
        principal_first_then_timeout_compensation refund_before_timeout_compensation
        refund_and_funding_before_timeout_compensation waiting_for_timeout_bond_funding
        chain_read_unavailable :
      Reason

pub record Entitlement : Type 0 where
  pub id : String
  pub market : Option ℕ
  pub kind : EntitlementKind
  pub outcome_id : Option ℕ
  pub listing_id : Option ℕ
  pub units : Option ℕ
  pub amount : Option ℕ
  pub status : EntitlementStatus
  pub reason : Option Reason

pub record MarketRights : Type 0 where
  pub state : ℕ
  pub void_reason : ℕ
  pub winning_outcome : ℕ
  pub balances : List ℕ
  pub winner_pool : ℕ
  pub winning_units : ℕ
  pub early_pool : ℕ
  pub early_score : ℕ
  pub owner_early_score : ℕ
  pub timeout_funded : Bool
  pub timeout_pool : ℕ
  pub timeout_total_units : ℕ
  pub owner_timeout_units : ℕ

pub record ListingRights : Type 0 where
  pub units : ℕ
  pub terminal : Bool
  pub pending : Bool

pub record BondRights : Type 0 where
  pub amount : ℕ
  pub settled : Bool
  pub terminal : Bool
  pub returnable : Bool

pub record RightsReader : Type 0 where
  pub market : ℕ → Option MarketRights
  pub listing : ℕ → Option ListingRights
  pub bond : ℕ → Option BondRights
  pub credit : EntitlementKind → Option ℕ

unfoldable pub share_of_pool : ℕ → ℕ → ℕ → Option ℕ
share_of_pool units total pool =
    if total == 0 || ltb total units
    then none
    else if units == total
    then some pool
    else some (pool * units / total)

abbrev pub or_zero : Option ℕ → ℕ
or_zero none = 0
or_zero (some n) = n

-- What a candidate becomes: it is passed over, or stays with new fields.
abbrev pub Row : Type 0
Row = Option Entitlement

abbrev pub with_credit : Entitlement → ℕ → Row
with_credit e amount = some (record e {
  amount = some amount;
  status = if ltb 0 amount then claimable else conditional;
  reason = none;
})

abbrev pub with_listing : Entitlement → ListingRights → Row
with_listing e l = some (record e {
  units = some l.units;
  status = if l.units == 0 then claimed else claimable;
  reason = some (
      if l.pending
      then withdraw_deferred_escrow
      else if l.terminal
      then return_terminal_listing
      else cancel_listing_to_recover_shares);
})

abbrev bond_reason : Bool → BondRights → Reason
bond_reason slashed b =
    if slashed
    then if b.settled then bond_slashed_into_timeout_pool else bond_slashed_pending_timeout_funding
    else if b.settled
    then settled_see_aggregate_credit_or_timeout_pool
    else if b.returnable
    then settle_and_claim_bond
    else settle_bond_before_claiming_credit

abbrev pub with_bond : Entitlement → BondRights → Row
with_bond e b =
    let slashed = b.terminal && not b.returnable in
    some (record e {
      amount = some (if slashed then 0 else b.amount);
      status =
          if b.settled
          then claimed
          else if b.terminal && not slashed
          then claimable
          else conditional;
      reason = some (bond_reason slashed b);
    })

abbrev status_of : Option ℕ → Bool → EntitlementStatus
status_of none eligible = unknown
status_of (some amount) eligible = if eligible then claimable else conditional

-- The last lines for every kind but `holding`.
abbrev pub settled_as : Entitlement → Option ℕ → Bool → Row
settled_as e amount eligible =
    some (record e { amount = amount; status = status_of amount eligible })

abbrev balance_at : MarketRights → ℕ → ℕ
balance_at m outcome = or_zero (get_elem? m.balances outcome)

abbrev pub with_holding : Entitlement → MarketRights → Row
with_holding e m = some (record e {
  units = some (balance_at m (or_zero e.outcome_id));
  status = conditional;
  reason =
      if m.state == 1 && not (or_zero e.outcome_id == m.winning_outcome)
      then some losing_outcome_terminal
      else none;
})

abbrev pub with_winner : Entitlement → MarketRights → Row
with_winner e m =
    let units = balance_at m m.winning_outcome in
    let eligible = m.state == 1 && ltb 0 units in
    settled_as (record e { units = some units; reason = none })
      (if eligible then share_of_pool units m.winning_units m.winner_pool else some 0) eligible

abbrev pub with_refund : Entitlement → MarketRights → Row
with_refund e m =
    let units = sum m.balances in
    let eligible = m.state == 2 && ltb 0 units in
    settled_as
      (record e {
        units = some units;
        reason =
            if m.void_reason == 3 then some principal_first_then_timeout_compensation else none;
      })
      (some (if eligible then units else 0)) eligible

abbrev pub with_early_bird : Entitlement → MarketRights → Row
with_early_bird e m =
    let eligible = ltb 0 m.owner_early_score && ltb 0 m.early_pool in
    if m.state == 1
    then settled_as (record e { reason = none })
        (if eligible then share_of_pool m.owner_early_score m.early_score m.early_pool else some 0)
        eligible
    else none

abbrev timeout_reason : MarketRights → Option Reason
timeout_reason m =
    if m.owner_timeout_units == 0
    then some (
        if m.timeout_funded
        then refund_before_timeout_compensation
        else refund_and_funding_before_timeout_compensation)
    else if m.timeout_funded
    then none
    else some waiting_for_timeout_bond_funding

abbrev pub with_timeout_bonus : Entitlement → MarketRights → Row
with_timeout_bonus e m =
    let units = if ltb 0 m.owner_timeout_units then m.owner_timeout_units else sum m.balances in
    if m.state == 2 && (m.void_reason == 3 && not (units == 0))
    then settled_as (record e { units = some units; reason = timeout_reason m })
        (if m.timeout_funded
          then share_of_pool units m.timeout_total_units m.timeout_pool
          else some 0)
        (m.timeout_funded && ltb 0 m.owner_timeout_units)
    else none

unfoldable pub with_market : Entitlement → EntitlementKind → MarketRights → Row
unfolding share_of_pool
with_market e holding m = with_holding e m
with_market e winner m = with_winner e m
with_market e refund m = with_refund e m
with_market e early_bird m = with_early_bird e m
with_market e timeout_bonus m = with_timeout_bonus e m
with_market e _ m = settled_as (record e { reason = none }) none false

abbrev pub after_read {ℓ} : {A : Type ℓ} → Option A → (A → Row) → Option Row
after_read none k = none
after_read (some a) k = some (k a)

-- The source's chain of tests: `none` where a read throws.
unfoldable pub hydrate_one :
    RightsReader → Entitlement → Option ℕ → EntitlementKind → Option ℕ → Option Row
unfolding with_market
hydrate_one reader e none fees listing = after_read (reader.credit fees) (with_credit e)
hydrate_one reader e none bond listing = after_read (reader.credit bond) (with_credit e)
hydrate_one reader e market escrow (some listing) =
    after_read (reader.listing listing) (with_listing e)
hydrate_one reader e (some market) bond listing = after_read (reader.bond market) (with_bond e)
hydrate_one reader e (some market) kind listing =
    after_read (reader.market market) (with_market e kind)
hydrate_one reader e none kind listing = some (some (record e { reason = none }))

abbrev pub unavailable : Entitlement → Entitlement
unavailable e = record e { status = unknown; reason = some chain_read_unavailable; amount = none }

abbrev pub is_claimed : EntitlementStatus → Bool
is_claimed claimed = true
is_claimed _ = false

abbrev pub pushed : Entitlement → Option Row → List Entitlement → List Entitlement
pushed e none rest = unavailable e ∷ rest
pushed e (some none) rest = rest
pushed e (some (some row)) rest = row ∷ rest

unfoldable pub hydrate_entitlements : RightsReader → List Entitlement → List Entitlement
unfolding hydrate_one
hydrate_entitlements reader [] = []
hydrate_entitlements reader (e ∷ candidates) =
    let rest = hydrate_entitlements reader candidates in
    if is_claimed e.status
    then e ∷ rest
    else pushed e (hydrate_one reader e e.market e.kind e.listing_id) rest
