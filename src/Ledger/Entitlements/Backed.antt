-- ===== src/Ledger/Entitlements/Backed.antt =====
-- What stands behind a claimable entitlement.
use cpredict.Prelude.{
  ℕ, ◌*◌, ◌/◌, ◌≤◌, ◌≡◌, refl, sym, ap, ◌∙◌, subst, arith, Bool, true, false, not, ◌&&◌, ◌||◌,
  Option, none, some, ltb, ◌==◌, if◌then◌else◌, sum,
}
use cpredict.Ledger.Lot.Laws.{part-le}
use cpredict.Ledger.Entitlements.{
  timeout_reason, with_timeout_bonus, with_early_bird, principal_first_then_timeout_compensation,
  balance_at, holding, escrow, winner, early_bird, refund, timeout_bonus, bond, fees, claimable,
}
use cpredict.Ledger.Entitlements.{
  claimable, share_of_pool, Entitlement, EntitlementKind, MarketRights, RightsReader, Row,
  hydrate_one, with_market, settled_as, after_read,
}

some_eq : {a b : ℕ} → some a ≡ some b → a ≡ b
some_eq e = cc

share_of_pool-le : (units total pool a : ℕ) → share_of_pool units total pool ≡ some a → a ≤ pool
unfolding share_of_pool
share_of_pool-le units total pool a h = go (total == 0 || ltb total units) refl (units == total) h
  where
    go :
        (b : Bool)
        → (total == 0 || ltb total units) ≡ b
        → (c : Bool)
        → (if b then none else if c then some pool else some (pool * units / total)) ≡ some a
        → a ≤ pool
    go true k c e = cc
    go false k true e = let same : pool ≡ a = some_eq e in omega (arith, same)
    go false k false e =
        let same : pool * units / total ≡ a = some_eq e in
        subst (λ x. x ≤ pool) same (part-le pool units total (ground (arith, k)))

-- What the market must be for an amount to be claimable.
abbrev pub Backed : EntitlementKind → MarketRights → ℕ → Type 0
Backed winner m a = (m.state ≡ 1) × (a ≤ m.winner_pool)
Backed refund m a = (m.state ≡ 2) × (a ≡ sum m.balances)
Backed early_bird m a = (m.state ≡ 1) × (a ≤ m.early_pool)
Backed timeout_bonus m a =
    (m.state ≡ 2) × (m.void_reason ≡ 3) × (m.timeout_funded ≡ true) × (a ≤ m.timeout_pool)
Backed holding m a = ⊥
Backed _ m a = Unit

-- A row that is claimable on a market has an amount, and the market's rights back it.
abbrev pub IsBacked : EntitlementKind → MarketRights → Row → Type 0
IsBacked kind m none = Unit
IsBacked kind m (some e) = e.status ≡ claimable → (a : ℕ) × (e.amount ≡ some a) × Backed kind m a

settled_as-IsBacked :
    (kind : EntitlementKind) (m : MarketRights) (e : Entitlement) (amount : Option ℕ)
    (eligible : Bool)
    → ((a : ℕ) → amount ≡ some a → eligible ≡ true → Backed kind m a)
    → IsBacked kind m (settled_as e amount eligible)
settled_as-IsBacked kind m e none eligible k h = cc
settled_as-IsBacked kind m e (some a) true k h = (a, refl, k a refl refl)
settled_as-IsBacked kind m e (some a) false k h = cc

-- A share that is only taken where a test holds.
guarded_share-le :
    (b : Bool) (units total pool a : ℕ)
    → (if b then share_of_pool units total pool else some 0) ≡ some a
    → b ≡ true
    → a ≤ pool
guarded_share-le true units total pool a h t = share_of_pool-le units total pool a h
guarded_share-le false units total pool a h t = cc

early_bird-IsBacked :
    (e : Entitlement) (m : MarketRights) → IsBacked early_bird m (with_early_bird e m)
early_bird-IsBacked e m = go (m.state == 1) refl
  where
    eligible : Bool
    eligible = ltb 0 m.owner_early_score && ltb 0 m.early_pool

    amount : Option ℕ
    amount =
        if eligible then share_of_pool m.owner_early_score m.early_score m.early_pool else some 0

    go :
        (b : Bool)
        → (m.state == 1) ≡ b
        → IsBacked early_bird m
            (if b then settled_as (record e { reason = none }) amount eligible else none)
    go false k = tt
    go true k =
        settled_as-IsBacked early_bird m (record e { reason = none }) amount eligible
          (λ a h t. (
            ground (arith, k),
            guarded_share-le eligible m.owner_early_score m.early_score m.early_pool a h t,
          ))

timeout_bonus-IsBacked :
    (e : Entitlement) (m : MarketRights) → IsBacked timeout_bonus m (with_timeout_bonus e m)
timeout_bonus-IsBacked e m = go (m.state == 2 && (m.void_reason == 3 && not (units == 0))) refl
  where
    units : ℕ
    units = if ltb 0 m.owner_timeout_units then m.owner_timeout_units else sum m.balances

    row : Entitlement
    row = record e { units = some units; reason = timeout_reason m }

    amount : Option ℕ
    amount =
        if m.timeout_funded
        then share_of_pool units m.timeout_total_units m.timeout_pool
        else some 0

    eligible : Bool
    eligible = m.timeout_funded && ltb 0 m.owner_timeout_units

    go :
        (b : Bool)
        → (m.state == 2 && (m.void_reason == 3 && not (units == 0))) ≡ b
        → IsBacked timeout_bonus m (if b then settled_as row amount eligible else none)
    go false k = tt
    go true k = settled_as-IsBacked timeout_bonus m row amount eligible (λ a h t.
        let funded : m.timeout_funded ≡ true = ground (arith, t) in
        (
          ground (arith, k),
          ground (arith, k),
          funded,
          guarded_share-le m.timeout_funded units m.timeout_total_units m.timeout_pool a h funded,
        ))

with_market-IsBacked :
    (e : Entitlement) (kind : EntitlementKind) (m : MarketRights)
    → IsBacked kind m (with_market e kind m)
unfolding with_market
with_market-IsBacked e holding m = λ h. cc
with_market-IsBacked e winner m =
    settled_as-IsBacked winner m
      (record e { units = some (balance_at m m.winning_outcome); reason = none })
      (if m.state == 1 && ltb 0 (balance_at m m.winning_outcome)
        then share_of_pool (balance_at m m.winning_outcome) m.winning_units m.winner_pool
        else some 0)
      (m.state == 1 && ltb 0 (balance_at m m.winning_outcome))
      (λ a h t. (
        ground (arith, t),
        guarded_share-le (m.state == 1 && ltb 0 (balance_at m m.winning_outcome))
            (balance_at m m.winning_outcome) m.winning_units m.winner_pool a h t,
      ))
with_market-IsBacked e refund m =
    settled_as-IsBacked refund m
      (record e {
        units = some (sum m.balances);
        reason =
            if m.void_reason == 3 then some principal_first_then_timeout_compensation else none;
      })
      (some (if m.state == 2 && ltb 0 (sum m.balances) then sum m.balances else 0))
      (m.state == 2 && ltb 0 (sum m.balances))
      (λ a h t.
        let same : (if m.state == 2 && ltb 0 (sum m.balances) then sum m.balances else 0) ≡ a =
          some_eq h in
        (ground (arith, t), sym same ∙ ap (λ b. if b then sum m.balances else 0) t))
with_market-IsBacked e early_bird m = early_bird-IsBacked e m
with_market-IsBacked e timeout_bonus m = timeout_bonus-IsBacked e m
with_market-IsBacked e escrow m = λ h. cc
with_market-IsBacked e bond m = λ h. cc
with_market-IsBacked e fees m = λ h. cc

-- The kinds that the rights of a market decide.
abbrev pub is_market_right : EntitlementKind → Bool
is_market_right holding = true
is_market_right winner = true
is_market_right refund = true
is_market_right early_bird = true
is_market_right timeout_bonus = true
is_market_right _ = false

row_eq : {a b : Row} → some a ≡ some b → a ≡ b
row_eq e = cc

answered-IsBacked :
    (e : Entitlement) (kind : EntitlementKind) (answer : Option MarketRights) (m : MarketRights)
    (row : Row)
    → answer ≡ some m
    → after_read answer (with_market e kind) ≡ some row
    → IsBacked kind m row
answered-IsBacked e kind answer m row h k =
    subst (IsBacked kind m) (row_eq (ap (λ a. after_read a (with_market e kind)) (sym h) ∙ k))
      (with_market-IsBacked e kind m)

hydrate_one-IsBacked :
    (reader : RightsReader) (e : Entitlement) (market : ℕ) (kind : EntitlementKind)
    (listing : Option ℕ) (m : MarketRights) (row : Row)
    → is_market_right kind ≡ true
    → reader.market market ≡ some m
    → hydrate_one reader e (some market) kind listing ≡ some row
    → IsBacked kind m row
unfolding hydrate_one
hydrate_one-IsBacked reader e market holding listing m row r h k =
    answered-IsBacked e holding (reader.market market) m row h k
hydrate_one-IsBacked reader e market winner listing m row r h k =
    answered-IsBacked e winner (reader.market market) m row h k
hydrate_one-IsBacked reader e market refund listing m row r h k =
    answered-IsBacked e refund (reader.market market) m row h k
hydrate_one-IsBacked reader e market early_bird listing m row r h k =
    answered-IsBacked e early_bird (reader.market market) m row h k
hydrate_one-IsBacked reader e market timeout_bonus listing m row r h k =
    answered-IsBacked e timeout_bonus (reader.market market) m row h k
hydrate_one-IsBacked reader e market escrow listing m row r h k = cc
hydrate_one-IsBacked reader e market bond listing m row r h k = cc
hydrate_one-IsBacked reader e market fees listing m row r h k = cc

-- A candidate that the rights of its market decide is claimable only with an amount that they back: a
-- winner's and an early buyer's on a resolved market and within the pool, a refund on a voided market and
-- as much as the account holds, a timeout's on a market that was voided by timeout and is funded, within
-- its pool; and a holding never is.
pub hydrate_one-Backed :
    (reader : RightsReader) (e : Entitlement) (market : ℕ) (kind : EntitlementKind)
    (listing : Option ℕ) (m : MarketRights) (row : Entitlement)
    → is_market_right kind ≡ true
    → reader.market market ≡ some m
    → hydrate_one reader e (some market) kind listing ≡ some (some row)
    → row.status ≡ claimable
    → (a : ℕ) × (row.amount ≡ some a) × Backed kind m a
hydrate_one-Backed reader e market kind listing m row r h k claim =
    hydrate_one-IsBacked reader e market kind listing m (some row) r h k claim
