-- ===== src/Indexer/Query.antt =====
-- The queries of `MemoryEventStore` (offchain/indexer/src/memory-store.ts). A cursor of the catalog or of the
-- activity is the place that it encodes: its text, and the refusal of a text that encodes none, are left out.
use cpredict.Indexer.Memory.{Key, Store}
use Prim.Native.Nat.{compare, Ordering}
use cpredict.Prelude.{
  not, true, false, none, some, [], ◌∷◌, ℕ, Bool, ◌&&◌, List, ◌==◌, ltb, if◌then◌else◌, Option,
  keep_if, map, Result, length,
}
use cpredict.Prelude.Dict.{nat_eq, pair_eq, get, Dict, values, Eq}
use cpredict.Prelude.Int.{pos, negsuc, ℤ}
use cpredict.Prelude.Sort.{sort_by}
use cpredict.Indexer.Types.{StoreError, ChainCheckpoint, CanonicalBlock}
use cpredict.Indexer.Views.{MarketView, ListingView, FillView, PositionView, ClaimView}
use cpredict.Indexer.Paging.{query_page, QueryPage, QueryOptions, Decimal}

-- `options.x === undefined || value === options.x`
abbrev pub wanted : Option ℕ → ℕ → Bool
wanted none value = true
wanted (some x) value = value == x

abbrev pub wanted_flag : Option Bool → Bool → Bool
wanted_flag none value = true
wanted_flag (some true) value = value
wanted_flag (some false) value = not value

abbrev pub newest {ℓ} : {A : Type ℓ} → (A → ℕ) → A → A → Ordering
newest block a b = compare (block b) (block a)

unfoldable pub checkpoint : ℕ → Store → Option ChainCheckpoint
checkpoint chain s = get chain s.checkpoints

unfoldable pub canonical_block : ℕ → ℕ → Store → Option CanonicalBlock
canonical_block chain number s = get (chain, number) s.blocks

unfoldable pub market : ℕ → ℕ → Store → Option MarketView
market chain address s = get (chain, address) s.views.markets

abbrev pub registered_in : ℕ → Dict Key ℕ → List ℕ
registered_in chain [] = []
registered_in chain ((k, address) ∷ rest) =
    let others = registered_in chain rest in if k.0 == chain then address ∷ others else others

-- The order is that of the checksummed addresses as texts.
unfoldable pub registered_markets : (ℕ → ℕ → Ordering) → ℕ → Store → List ℕ
unfolding sort_by
registered_markets text_order chain s = sort_by text_order (registered_in chain s.views.registered)

unfoldable pub event_count : ℕ → Store → ℕ
event_count chain s = length (keep_if (λ e. e.chain_id == chain) (values s.events))

unfoldable pub block_count : ℕ → Store → ℕ
block_count chain s = length (keep_if (λ b. b.chain_id == chain) (values s.blocks))

-- What the lists by offset hold before they are cut into pages.
abbrev pub chain_markets : ℕ → Store → List MarketView
chain_markets chain s =
    sort_by (newest (λ m. m.created_block))
      (keep_if (λ m. m.chain_id == chain) (values s.views.markets))

abbrev pub chain_listings : ℕ → Option ℕ → Option Bool → Store → List ListingView
chain_listings chain vault active s = sort_by (newest (λ l. l.updated_block)) (
    keep_if (λ l. wanted_flag active l.active)
      (keep_if (λ l. wanted vault l.vault)
        (keep_if (λ l. l.chain_id == chain) (values s.views.listings))))

abbrev is_vault : Option ListingView → ℕ → Bool
is_vault none vault = false
is_vault (some l) vault = l.vault == vault

-- The vault of a fill is that of its listing.
abbrev pub in_vault : ℕ → Option ℕ → Store → FillView → Bool
in_vault chain none s f = true
in_vault chain (some vault) s f = is_vault (get (chain, f.listing_id) s.views.listings) vault

abbrev pub chain_fills : ℕ → Option ℕ → Option ℕ → Store → List FillView
chain_fills chain vault listing s = sort_by (newest (λ f. f.block_number)) (
    keep_if (in_vault chain vault s) (
      keep_if (λ f. wanted listing f.listing_id)
        (keep_if (λ f. f.chain_id == chain) (values s.views.fills))))

-- `positionMarketSnapshot`
pub record MarketSnapshot : Type 0 where
  pub market_state : Option ℕ
  pub winning_outcome : Option ℕ

abbrev pub position_market_snapshot : Option MarketView → MarketSnapshot
position_market_snapshot none = record { market_state = none; winning_outcome = none }
position_market_snapshot (some m) = record {
  market_state = some m.state;
  winning_outcome = m.winning_outcome;
}

abbrev above_zero : ℤ → Bool
above_zero (pos n) = ltb 0 n
above_zero (negsuc n) = false

abbrev pub owner_positions : ℕ → ℕ → Option ℕ → Store → List PositionView
owner_positions chain owner vault s = sort_by (newest (λ p. p.updated_block)) (
    keep_if (λ p. wanted vault p.vault)
      (keep_if (λ p. above_zero p.balance)
        (keep_if (λ p. p.chain_id == chain && p.owner == owner) (values s.views.positions))))

abbrev pub with_snapshot : Store → PositionView → PositionView × MarketSnapshot
with_snapshot s p = (p, position_market_snapshot (get (p.chain_id, p.vault) s.views.markets))

abbrev pub owner_claims : ℕ → ℕ → Option ℕ → Store → List ClaimView
owner_claims chain owner vault s = sort_by (newest (λ c. c.block_number)) (
    keep_if (λ c. wanted vault c.vault)
      (keep_if (λ c. c.chain_id == chain && c.owner == owner) (values s.views.claims)))

module _ {T : Type 0} ⦃e : Eq T⦄ (decimal : Decimal T) where
  unfoldable pub list_markets :
      ℕ → QueryOptions T → Store → Result StoreError (QueryPage MarketView T)
  unfolding query_page sort_by
  list_markets chain options s = query_page decimal (chain_markets chain s) options

  unfoldable pub list_listings :
      ℕ
      → Option ℕ
      → Option Bool
      → QueryOptions T
      → Store
      → Result StoreError (QueryPage ListingView T)
  unfolding query_page sort_by
  list_listings chain vault active options s =
      query_page decimal (chain_listings chain vault active s) options

  unfoldable pub list_fills :
      ℕ → Option ℕ → Option ℕ → QueryOptions T → Store → Result StoreError (QueryPage FillView T)
  unfolding query_page sort_by get
  list_fills chain vault listing options s =
      query_page decimal (chain_fills chain vault listing s) options

  unfoldable pub list_positions :
      ℕ
      → ℕ
      → Option ℕ
      → QueryOptions T
      → Store
      → Result StoreError (QueryPage (PositionView × MarketSnapshot) T)
  unfolding query_page sort_by get
  list_positions chain owner vault options s =
      query_page decimal (map (with_snapshot s) (owner_positions chain owner vault s)) options

  unfoldable pub list_claims :
      ℕ → ℕ → Option ℕ → QueryOptions T → Store → Result StoreError (QueryPage ClaimView T)
  unfolding query_page sort_by
  list_claims chain owner vault options s =
      query_page decimal (owner_claims chain owner vault s) options
