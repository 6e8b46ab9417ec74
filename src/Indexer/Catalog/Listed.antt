-- ===== src/Indexer/Catalog/Listed.antt =====
-- Which markets the catalog lists, said without its filters, and in which order.
use Prim.Native.Nat.{compare, Ordering}
use mathlib.Core.List.{Memᴰ}
use cpredict.Prelude.{
  ◌∙◌, ◌||◌, if◌then◌else◌, ap, subst, ◌&&◌, ◌==◌, refl, ℕ, ◌≡◌, ◌≢◌, ◌<◌, ◌↔◌, ◌⊎◌, inl, inr,
  arith, Bool, true, false, Option, none, some, List, [], ◌∷◌, All, All-imp,
}
use cpredict.Prelude.Dict.{get, nat_eq, pair_eq, values}
use cpredict.Prelude.Members.{All-kept, Mem-keep_if, any_iff}
use cpredict.Prelude.Sort.Ascends.{Apart, Ascends}
use cpredict.Indexer.Memory.{EventKey, Store}
use cpredict.Indexer.Views.{MarketView, ActivityView}
use cpredict.Indexer.Catalog.{
  any, keep_if, MarketStatus, opened, resolved, voided, voided_creator, voided_timeout, has_status,
  among, involves, catalog, compare_markets_desc, matches_market_status,
}

-- The state of a market of the current protocol under each status; none of them has the last two.
abbrev pub HasStatus : Option MarketStatus → MarketView → Type 0
HasStatus none m = Unit
HasStatus (some opened) m = m.state ≡ 0
HasStatus (some resolved) m = m.state ≡ 1
HasStatus (some voided) m = m.state ≡ 2
HasStatus (some voided_creator) m = ⊥
HasStatus (some voided_timeout) m = ⊥

-- The account is among the participants that are stored under the activity's key.
abbrev pub TakesPart : ℕ → EventKey → Store → Type 0
TakesPart owner key s =
    (accounts : List ℕ) × (get key s.views.participants ≡ some accounts) × Memᴰ owner accounts

abbrev pub Involves : ℕ → Option ℕ → Store → MarketView → Type 0
Involves chain none s m = Unit
Involves chain (some owner) s m =
    (m.creator ≡ owner)
    ⊎ ((ka : EventKey × ActivityView) × Memᴰ ka s.views.activities
        × (ka.1.chain_id ≡ chain)
        × (ka.1.vault ≡ m.market)
        × TakesPart owner ka.0 s)

-- A stored market of the chain that has the status, if one is asked for, and that the owner, if one is
-- asked for, created or takes part in.
pub record IsListed (chain : ℕ) (status : Option MarketStatus) (owner : Option ℕ) (s : Store)
    (m : MarketView) : Type 0 where
  pub stored : Memᴰ m (values s.views.markets)
  pub on_chain : m.chain_id ≡ chain
  pub in_status : HasStatus status m
  pub involved : Involves chain owner s m

both : (a b : Bool) → (a && b) ≡ true → (a ≡ true) × (b ≡ true)
both a b h = ground arith

has_status-HasStatus :
    (status : Option MarketStatus) (m : MarketView)
    → (has_status status m ≡ true) ↔ HasStatus status m
unfolding matches_market_status
has_status-HasStatus none m = (λ h. tt, λ h. ground arith)
has_status-HasStatus (some opened) m = (λ h. ground arith, λ h. ground arith)
has_status-HasStatus (some resolved) m = (λ h. ground arith, λ h. ground arith)
has_status-HasStatus (some voided) m = (λ h. ground arith, λ h. ground arith)
has_status-HasStatus (some voided_creator) m = (λ h. ground arith, λ h. absurd h)
has_status-HasStatus (some voided_timeout) m = (λ h. ground arith, λ h. absurd h)

among-TakesPart :
    (owner : ℕ) (found : Option (List ℕ))
    → (among owner found ≡ true)
      ↔ ((accounts : List ℕ) × (found ≡ some accounts) × Memᴰ owner accounts)
among-TakesPart owner found = (there found, back)
  where
    there :
        (found : Option (List ℕ))
        → among owner found ≡ true
        → (accounts : List ℕ) × (found ≡ some accounts) × Memᴰ owner accounts
    there none h = absurd (ground arith)
    there (some accounts) h =
        let (a, m, e) = (any_iff (λ a. a == owner) accounts).0 h in
        let same : a ≡ owner = ground arith in (accounts, refl, subst (λ x. Memᴰ x accounts) same m)

    back :
        (accounts : List ℕ) × (found ≡ some accounts) × Memᴰ owner accounts
        → among owner found ≡ true
    back (accounts, e, m) =
        let own : (owner == owner) ≡ true = ground arith in
        ap (among owner) e ∙ (any_iff (λ a. a == owner) accounts).1 (owner, m, own)

involves-Involves :
    (chain : ℕ) (owner : Option ℕ) (s : Store) (m : MarketView)
    → (involves chain owner s m ≡ true) ↔ Involves chain owner s m
involves-Involves chain none s m = (λ h. tt, λ h. refl)
involves-Involves chain (some owner) s m = (there, back)
  where
    active : EventKey × ActivityView → Bool
    active ka =
        ka.1.chain_id == chain
        && (ka.1.vault == m.market && among owner (get ka.0 s.views.participants))

    created : Bool
    created = m.creator == owner

    by_activity : any active s.views.activities ≡ true → Involves chain (some owner) s m
    by_activity h =
        let (ka, stored, e) = (any_iff active s.views.activities).0 h in
        let (on_chain, rest) =
          both (ka.1.chain_id == chain)
            (ka.1.vault == m.market && among owner (get ka.0 s.views.participants)) e in
        let (at, part) =
          both (ka.1.vault == m.market) (among owner (get ka.0 s.views.participants)) rest in
        inr (
          ka,
          stored,
          ground arith,
          ground arith,
          (among-TakesPart owner (get ka.0 s.views.participants)).0 part,
        )

    there : (created || any active s.views.activities) ≡ true → Involves chain (some owner) s m
    there h = go created refl h
      where
        go :
            (b : Bool)
            → created ≡ b
            → (b || any active s.views.activities) ≡ true
            → Involves chain (some owner) s m
        go true e k = inl (ground arith)
        go false e k = by_activity k

    back : Involves chain (some owner) s m → (created || any active s.views.activities) ≡ true
    back (inl e) = ground arith
    back (inr (ka, stored, on_chain, at, part)) =
        let part' = (among-TakesPart owner (get ka.0 s.views.participants)).1 part in
        let found : active ka ≡ true = ground arith in
        ground (arith, (any_iff active s.views.activities).1 (ka, stored, found))

pub catalog-IsListed :
    (chain : ℕ) (status : Option MarketStatus) (owner : Option ℕ) (s : Store) (m : MarketView)
    → Memᴰ m (catalog chain status owner s) ↔ IsListed chain status owner s m
catalog-IsListed chain status owner s m = (there, back)
  where
    on_chain : MarketView → Bool
    on_chain m = m.chain_id == chain

    markets : List MarketView
    markets = values s.views.markets

    there : Memᴰ m (catalog chain status owner s) → IsListed chain status owner s m
    there h =
        let (h', in_owner) =
          (Mem-keep_if (involves chain owner s) m
              (keep_if (has_status status) (keep_if on_chain markets))).0
            h in
        let (h'', in_status) =
          (Mem-keep_if (has_status status) m (keep_if on_chain markets)).0 h' in
        let (stored, same) = (Mem-keep_if on_chain m markets).0 h'' in
        record {
          stored = stored;
          on_chain = ground arith;
          in_status = (has_status-HasStatus status m).0 in_status;
          involved = (involves-Involves chain owner s m).0 in_owner;
        }

    back : IsListed chain status owner s m → Memᴰ m (catalog chain status owner s)
    back h =
        let same : on_chain m ≡ true = ground arith in
        let h'' = (Mem-keep_if on_chain m markets).1 (h.stored, same) in
        let h' =
          (Mem-keep_if (has_status status) m (keep_if on_chain markets)).1
            (h'', (has_status-HasStatus status m).1 h.in_status) in
        (Mem-keep_if (involves chain owner s) m
            (keep_if (has_status status) (keep_if on_chain markets))).1
          (h', (involves-Involves chain owner s m).1 h.involved)

-- No two of the markets on the chain have the same address.
abbrev pub Distinct : ℕ → List MarketView → Type 0
Distinct chain [] = Unit
Distinct chain (m ∷ ms) =
    (m.chain_id ≡ chain → All (λ n. n.chain_id ≡ chain → m.market ≢ n.market) ms)
    × Distinct chain ms

-- From the newest to the oldest, and from the greatest address to the least within a block.
abbrev pub Descends : List MarketView → Type 0
Descends [] = Unit
Descends (m ∷ ms) =
    All
      (λ n.
        (n.created_block < m.created_block)
        ⊎ ((n.created_block ≡ m.created_block) × (n.market < m.market)))
      ms
    × Descends ms

module _ (locale : ℕ → ℕ → Ordering) (h : (a b : ℕ) → locale a b ≡ compare a b) where
  before-newer :
      (m n : MarketView)
      → compare_markets_desc locale m n ≡ Ordering.lt
      → (n.created_block < m.created_block)
        ⊎ ((n.created_block ≡ m.created_block) × (n.market < m.market))
  unfolding compare_markets_desc
  before-newer m n k = ground (arith, h n.market m.market)

  pub Ascends-Descends :
      (ms : List MarketView) → Ascends (compare_markets_desc locale) ms → Descends ms
  Ascends-Descends [] k = tt
  Ascends-Descends (m ∷ ms) (k, ks) =
      (All-imp _ _ ms (λ n e. before-newer m n e) k, Ascends-Descends ms ks)

  apart_by_market :
      (m n : MarketView) → m.market ≢ n.market → compare_markets_desc locale m n ≢ Ordering.eq
  unfolding compare_markets_desc
  apart_by_market m n k e = k (ground (arith, h n.market m.market))

  pub on_chain-Apart :
      (chain : ℕ) (ms : List MarketView)
      → Distinct chain ms
      → Apart (compare_markets_desc locale) (keep_if (λ m. m.chain_id == chain) ms)
  on_chain-Apart chain [] k = tt
  on_chain-Apart chain (m ∷ ms) (k, ks) = go (m.chain_id == chain) refl (on_chain-Apart chain ms ks)
    where
      of_test : (c : ℕ) → (c == chain) ≡ true → c ≡ chain
      of_test c e = ground arith

      rest : List MarketView
      rest = keep_if (λ m. m.chain_id == chain) ms

      apart : m.chain_id ≡ chain → All (λ n. compare_markets_desc locale m n ≢ Ordering.eq) rest
      apart here =
          All-imp _ _ rest (λ n d. apart_by_market m n (d.0 (of_test n.chain_id d.1)))
            (All-kept (λ n. n.chain_id ≡ chain → m.market ≢ n.market) (λ m. m.chain_id == chain) ms
              (k here))

      go :
          (b : Bool)
          → (m.chain_id == chain) ≡ b
          → Apart (compare_markets_desc locale) rest
          → Apart (compare_markets_desc locale) (if b then m ∷ rest else rest)
      go true e r = (apart (ground arith), r)
      go false e r = r
