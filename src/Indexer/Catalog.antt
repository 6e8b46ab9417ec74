-- ===== src/Indexer/Catalog.antt =====
-- The catalog of the markets and the activity of an account: `listMarketCatalog` and `listActivity` of
-- offchain/indexer/src/memory-store.ts, whose pages go on after the place of the last item.
pub mod Pages
pub mod Listed
mod Orders
use cpredict.Indexer.Types.{StoreError}
use cpredict.Indexer.Memory.{EventKey, Store}
use Prim.Native.Nat.{compare, Ordering}
use cpredict.Prelude.{
  true, false, none, some, ok, err, inl, inr, [], ◌∷◌, ℕ, Bool, ◌&&◌, ◌||◌, List, ◌==◌, ltb,
  if◌then◌else◌, Option, any, keep_if, Result,
}
use cpredict.Prelude.Dict.{nat_eq, pair_eq, get, Dict, values}
use cpredict.Prelude.Sort.{sort_by}
use cpredict.Indexer.Views.{MarketView, ActivityView}
use cpredict.Indexer.Cursors.{
  Codec, MarketCursor, market_cursor, encode_market_cursor, ActivityCursor, activity_cursor,
  encode_activity_cursor,
}
use cpredict.Indexer.Paging.{page_after, QueryPage, QueryOptions}
use cpredict.Indexer.Rollback.{or_else}

pub data MarketStatus : Type 0 where
  opened resolved voided voided_creator voided_timeout : MarketStatus

unfoldable pub market_state : MarketStatus → ℕ
market_state opened = 0
market_state resolved = 1
market_state voided = 2
market_state voided_creator = 2
market_state voided_timeout = 3

-- `matchesMarketStatus` for a market of the current protocol.
unfoldable pub matches_market_status : MarketView → MarketStatus → Bool
unfolding market_state
matches_market_status m voided = m.state == 2
matches_market_status m voided_creator = false
matches_market_status m voided_timeout = false
matches_market_status m opened = m.state == market_state opened
matches_market_status m resolved = m.state == market_state resolved

abbrev has_status : Option MarketStatus → MarketView → Bool
has_status none m = true
has_status (some status) m = matches_market_status m status

abbrev among : ℕ → Option (List ℕ) → Bool
among owner none = false
among owner (some participants) = any (λ a. a == owner) participants

-- The entries of the activities that an account takes part in.
abbrev pub participant_entries : ℕ → ℕ → Store → Dict EventKey ActivityView
participant_entries chain owner s =
    keep_if (λ ka. ka.1.chain_id == chain && among owner (get ka.0 s.views.participants))
      s.views.activities

-- The owner created the market, or takes part in one of its activities.
abbrev pub involves : ℕ → Option ℕ → Store → MarketView → Bool
involves chain none s m = true
involves chain (some owner) s m =
    m.creator == owner
    || any
        (λ ka.
          ka.1.chain_id == chain
          && (ka.1.vault == m.market && among owner (get ka.0 s.views.participants)))
        s.views.activities

abbrev pub market_place : MarketView → MarketCursor
market_place m = record { block = m.created_block; market = m.market }

abbrev pub activity_place : ActivityView → ActivityCursor
activity_place a = record {
  block = a.block_number;
  transaction_hash = a.transaction_hash;
  log_index = a.log_index;
}

unfoldable pub follows_market : MarketCursor → MarketView → Bool
follows_market c m =
    ltb m.created_block c.block || (m.created_block == c.block && ltb m.market c.market)

abbrev reverse : Ordering → Ordering
reverse Ordering.lt = Ordering.gt
reverse Ordering.eq = Ordering.eq
reverse Ordering.gt = Ordering.lt

abbrev is_positive : Ordering → Bool
is_positive Ordering.gt = true
is_positive _ = false

abbrev pub catalog : ℕ → Option MarketStatus → Option ℕ → Store → List MarketView
catalog chain status owner s =
    keep_if (involves chain owner s)
      (keep_if (has_status status) (keep_if (λ m. m.chain_id == chain) (values s.views.markets)))

abbrev pub activities_of : ℕ → ℕ → Store → List ActivityView
activities_of chain owner s = values (participant_entries chain owner s)

-- `locale` is `localeCompare` of two lowercase hexadecimal texts of one length.
module _ (locale : ℕ → ℕ → Ordering) where
  unfoldable pub compare_markets_desc : MarketView → MarketView → Ordering
  compare_markets_desc a b =
      or_else (compare b.created_block a.created_block) (locale b.market a.market)

  unfoldable pub compare_activities_desc : ActivityView → ActivityView → Ordering
  compare_activities_desc a b =
      or_else (compare b.block_number a.block_number)
        (or_else (locale b.transaction_hash a.transaction_hash) (compare b.log_index a.log_index))

  unfoldable pub compare_activity_to_cursor : ActivityView → ActivityCursor → Ordering
  compare_activity_to_cursor a c = or_else (compare c.block a.block_number) (
      or_else (reverse (locale a.transaction_hash c.transaction_hash))
        (compare c.log_index a.log_index))

  abbrev pub follows_activity : ActivityCursor → ActivityView → Bool
  follows_activity c a = is_positive (compare_activity_to_cursor a c)

  -- The page from the text of a cursor on, with the text of the next one.
  unfoldable pub list_market_catalog :
      {T X : Type 0}
      → Codec T X
      → ℕ
      → Option MarketStatus
      → Option ℕ
      → QueryOptions T
      → Store
      → Result StoreError (QueryPage MarketView T)
  unfolding page_after compare_markets_desc follows_market get matches_market_status market_cursor
  list_market_catalog codec chain status owner options s =
      page_after compare_markets_desc follows_market market_place (market_cursor codec)
        (encode_market_cursor codec) (catalog chain status owner s) options

  unfoldable pub list_activity :
      {T X : Type 0}
      → Codec T X
      → ℕ
      → ℕ
      → QueryOptions T
      → Store
      → Result StoreError (QueryPage ActivityView T)
  unfolding page_after compare_activities_desc compare_activity_to_cursor get activity_cursor
  list_activity codec chain owner options s =
      page_after compare_activities_desc follows_activity activity_place (activity_cursor codec)
        (encode_activity_cursor codec) (activities_of chain owner s) options
