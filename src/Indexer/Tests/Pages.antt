-- ===== src/Indexer/Tests/Pages.antt =====
-- Theorems on the pages of the queries, at concrete inputs.
use cpredict.Indexer.Catalog.Pages.{read_pages-list_market_catalog}
use cpredict.Indexer.Paging.Offsets.{read_pages-query_page}
use cpredict.Indexer.Paging.{read_pages, Decimal, query_page}
use Prim.Native.Nat.{compare}
use cpredict.Prelude.{All, true, ltb, if◌then◌else◌}
use cpredict.Indexer.Types.{invalid_cursor}
use cpredict.Indexer.Cursors.{
  Codec, MarketReadsBack, market_fields, activity_fields, value, market_cursor,
  decode_opaque_cursor,
}
use mathlib.Core.List.{Memᴰ}
use cpredict.Prelude.{◌↔◌, Option, Result}
use cpredict.Indexer.Types.{StoreError}
use cpredict.Indexer.Paging.{QueryPage}
use cpredict.Indexer.Views.{MarketView}
use cpredict.Prelude.Dict.{values}
use cpredict.Indexer.Catalog.{resolved, market_place}
use cpredict.Indexer.Catalog.Listed.{IsListed, Distinct, Descends}
use cpredict.Prelude.{refl, none, some, err, [], ◌∷◌, ℕ, ◌≡◌, List, arith}
use cpredict.Prelude.Dict.{get, nat_eq, pair_eq}
use cpredict.Prelude.Sort.{sort_by}
use cpredict.Indexer.Types.{invalid_limit, confirmed}
use cpredict.Prelude.Dict.{get}
use cpredict.Indexer.Memory.{Store, empty_store, no_views}
use cpredict.Indexer.Catalog.{list_market_catalog, activities_of, compare_activities_desc}
use cpredict.Indexer.Views.{ActivityView, market_created}

abbrev three : List ℕ
three = 7 ∷ 8 ∷ 9 ∷ []

-- Cursors that are numbers.
abbrev plain : Decimal ℕ
plain = record { print = λ n. n; parse = λ n. some n }

read_pages-query_page_example :
    read_pages 4 (λ c. query_page plain three (record { limit = 2; cursor = c })) none ≡ some three
read_pages-query_page_example =
    read_pages-query_page plain three 2 (λ n h. refl) (omega arith) (omega arith) 4 (omega arith)

-- A limit that is out of bounds.
page_refused : query_page plain three (record { limit = 101; cursor = none }) ≡ err invalid_limit
unfolding query_page
page_refused = refl

-- Cursors that are three numbers, of which those of a block below 256 fit.
abbrev Triple : Type 0
Triple = ℕ × ℕ × ℕ

abbrev triples : Codec Triple ℕ
triples = record {
  opaque = λ t. ltb t.0 256;
  parse_market = λ t. some (market_fields (value t.0) (value t.1));
  parse_activity = λ t. some (activity_fields (value t.0) (value t.1) (value t.2));
  stringify_market = λ block market. (block, market, 0);
  stringify_activity = λ block hash log_index. (block, hash, log_index);
  digits = λ n. some n;
  print = λ n. n;
  get_address = λ a. if ltb a 1_000 then some a else none;
  address_text = λ a. a;
  get_hash = λ n. some n;
  hash_text = λ n. n;
}

abbrev activity : ℕ → ℕ → ActivityView
activity block log_index = record {
  chain_id = 1;
  transaction_hash = 90;
  log_index = log_index;
  kind = market_created;
  vault = 100;
  actor = some 7;
  counterparty = none;
  outcome_id = none;
  listing_id = none;
  units = none;
  amount = none;
  block_number = block;
  confirmation_status = confirmed;
}

abbrev busy_store : Store
busy_store = record empty_store {
  views = record no_views {
    activities =
        ((1, (90, 0)), activity 5 0)
        ∷ ((1, (90, 1)), activity 5 1)
        ∷ ((1, (90, 2)), activity 6 2)
        ∷ [];
    participants =
        ((1, (90, 0)), 7 ∷ []) ∷ ((1, (90, 1)), 8 ∷ []) ∷ ((1, (90, 2)), 8 ∷ 7 ∷ []) ∷ [];
  };
}

taken : activities_of 1 7 busy_store ≡ activity 5 0 ∷ activity 6 2 ∷ []
unfolding get
taken = refl

newest_activity_first :
    sort_by (compare_activities_desc compare) (activities_of 1 7 busy_store)
    ≡ activity 6 2 ∷ activity 5 0 ∷ []
unfolding sort_by get compare_activities_desc
newest_activity_first = refl

abbrev a_market : ℕ → ℕ → ℕ → ℕ → ℕ → MarketView
a_market chain address creator state block = record {
  chain_id = chain;
  market = address;
  creator = creator;
  deployment_mode = 0;
  outcome_count = none;
  close_at = none;
  created_at = none;
  event_starts_at = none;
  outcome_deadline_at = none;
  resolution_window = none;
  rules_hash = none;
  metadata_uri = none;
  resolution_source_hash = none;
  resolution_source_uri = none;
  creator_treasury = none;
  feature_flags = none;
  market_primary_cap = none;
  primary_filled_units = 0;
  primary_payment = 0;
  creator_bond = 0;
  state = state;
  void_reason = 0;
  winning_outcome = none;
  evidence_hash = none;
  evidence_uri = none;
  created_block = block;
  updated_block = block;
  confirmation_status = confirmed;
}

-- Account 7 created the first and the third market, and took part in an activity of the second (and of
-- the vault of the activities). The third is open, the fourth another's, and the fifth on another chain.
abbrev trading_store : Store
trading_store = record empty_store {
  views = record no_views {
    markets =
        ((1, 101), a_market 1 101 7 1 5)
        ∷ ((1, 100), a_market 1 100 9 1 6)
        ∷ ((1, 102), a_market 1 102 7 0 6)
        ∷ ((1, 103), a_market 1 103 9 1 7)
        ∷ ((2, 101), a_market 2 101 7 1 5)
        ∷ ((1, 104), a_market 1 104 7 1 5)
        ∷ [];
    activities = ((1, (90, 0)), activity 6 0) ∷ [];
    participants = ((1, (90, 0)), 8 ∷ 7 ∷ []) ∷ [];
  };
}

trading-Distinct : Distinct 1 (values trading_store.views.markets)
trading-Distinct = ground arith

trading-ReadsBack :
    All (λ m. MarketReadsBack triples (market_place m)) (values trading_store.views.markets)
trading-ReadsBack = (
  read_back 5 101 refl refl,
  (
    read_back 6 100 refl refl,
    (
      read_back 6 102 refl refl,
      (read_back 7 103 refl refl, (read_back 5 101 refl refl, (read_back 5 104 refl refl, tt))),
    ),
  ),
)
  where
    read_back :
        (block market : ℕ)
        → ltb block 256 ≡ true
        → triples.get_address market ≡ some market
        → MarketReadsBack triples (record { block = block; market = market })
    read_back block market fits known = record {
      fits = fits;
      parsed = refl;
      block_read = refl;
      market_read = known;
    }

abbrev catalog_from : Option Triple → Result StoreError (QueryPage MarketView Triple)
catalog_from c =
    list_market_catalog compare triples 1 (some resolved) (some 7)
      (record { limit = 1; cursor = c }) trading_store

read_pages-list_market_catalog_example :
    (listed : List MarketView) × (read_pages 7 catalog_from none ≡ some listed)
    × Descends listed
    × ((m : MarketView) → Memᴰ m listed ↔ IsListed 1 (some resolved) (some 7) trading_store m)
read_pages-list_market_catalog_example =
    read_pages-list_market_catalog compare (λ a b. refl) triples 1 (some resolved) (some 7) 1
      trading_store 7 trading-Distinct trading-ReadsBack (omega arith) (omega arith) (omega arith)

-- A cursor that does not fit, and one of no address.
cursor_refused :
    (catalog_from (some (256, 100, 0)) ≡ err invalid_cursor)
    × (catalog_from (some (5, 1_000, 0)) ≡ err invalid_cursor)
unfolding list_market_catalog market_cursor decode_opaque_cursor
cursor_refused = (refl, refl)

-- The three markets come on three pages.
three_listed :
    read_pages 7 catalog_from none
    ≡ some (a_market 1 100 9 1 6 ∷ a_market 1 104 7 1 5 ∷ a_market 1 101 7 1 5 ∷ [])
unfolding read_pages list_market_catalog market_cursor decode_opaque_cursor
three_listed = refl
