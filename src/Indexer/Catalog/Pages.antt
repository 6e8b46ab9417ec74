-- ===== src/Indexer/Catalog/Pages.antt =====
-- The pages of the activity and of the catalog, read one after the other.
use mathlib.Core.List.{Memᴰ}
use cpredict.Prelude.{All, All-imp, All-keep_if, ◌↔◌, List, keep_if, ◌==◌}
use cpredict.Prelude.Dict.{values}
use cpredict.Prelude.Members.{Mem-sort_by, Apart-keep_if, length-keep_if}
use cpredict.Indexer.Views.{MarketView}
use cpredict.Prelude.Sort.Ascends.{sort_by-Ascends}
use cpredict.Indexer.Catalog.{has_status, involves}
use cpredict.Indexer.Catalog.Listed.{
  IsListed, Distinct, Descends, catalog-IsListed, on_chain-Apart, Ascends-Descends,
}
use Prim.Native.Nat.{Ordering}
use cpredict.Prelude.{ℕ, ◌≡◌, ◌≤◌, ◌<◌, arith, none, some, length, Option}
use cpredict.Prelude.Sort.{sort_by}
use cpredict.Prelude.Sort.Ascends.{Apart}
use cpredict.Indexer.Paging.{read_pages}
use cpredict.Indexer.Cursors.{
  Codec, MarketReadsBack, market_cursor, encode_market_cursor, market_cursor-encode_market_cursor,
}
use cpredict.Indexer.Paging.Texts.{read_pages-page_after}
use cpredict.Indexer.Catalog.{
  Store, MarketStatus, compare_markets_desc, follows_market, market_place, catalog,
  list_market_catalog,
}
use cpredict.Indexer.Catalog.Orders.{ByNumber, compare_markets_desc-IsOrder, market_place-IsPlace}

module _ (locale : ℕ → ℕ → Ordering) (h : ByNumber locale) where
  -- A client that reads the catalog of the markets page by page, with a limit from 1 to 100, reads exactly
  -- the stored markets of the chain that are in the state of the status, where one is asked for, and that
  -- the owner, where one is asked for, created, or in whose activities on the chain it takes part. It reads
  -- them from the newest to the oldest and, within a block, from the greatest address to the least, so each once, in
  -- at most one page more than there are stored markets. This holds where the markets of the chain have
  -- different addresses, the cursors of the stored markets are read back as they are written, and
  -- `localeCompare`, which sorts them, orders addresses as the test of the cursor by `<` does.
  pub read_pages-list_market_catalog :
      {T X : Type 0} (codec : Codec T X) (chain : ℕ) (status : Option MarketStatus)
      (owner : Option ℕ) (limit : ℕ) (s : Store) (fuel : ℕ)
      → Distinct chain (values s.views.markets)
      → All (λ m. MarketReadsBack codec (market_place m)) (values s.views.markets)
      → 1 ≤ limit
      → limit ≤ 100
      → length (values s.views.markets) < fuel
      → (listed : List MarketView) × (read_pages fuel
            (λ c.
              list_market_catalog locale codec chain status owner
                (record { limit = limit; cursor = c })
                s)
            none
          ≡ some listed)
        × Descends listed
        × ((m : MarketView) → Memᴰ m listed ↔ IsListed chain status owner s m)
  unfolding list_market_catalog
  read_pages-list_market_catalog codec chain status owner limit s fuel distinct texts low high
        enough =
      (
        sorted,
        read_pages-page_after order follows_market market_place (market_cursor codec)
            (encode_market_cursor codec) (compare_markets_desc-IsOrder locale h)
            (market_place-IsPlace locale h) listed limit apart
            (All-imp (λ m. MarketReadsBack codec (market_place m)) _ listed
              (λ m t. market_cursor-encode_market_cursor codec (market_place m) t) listed_texts)
            low high fuel short,
        Ascends-Descends locale h sorted
            (sort_by-Ascends order (compare_markets_desc-IsOrder locale h) listed apart),
        λ m. (
          λ k. (catalog-IsListed chain status owner s m).0 ((Mem-sort_by order m listed).0 k),
          λ k. (Mem-sort_by order m listed).1 ((catalog-IsListed chain status owner s m).1 k),
        ),
      )
    where
      order : MarketView → MarketView → Ordering
      order = compare_markets_desc locale

      on_chain : List MarketView
      on_chain = keep_if (λ m. m.chain_id == chain) (values s.views.markets)

      in_status : List MarketView
      in_status = keep_if (has_status status) on_chain

      listed : List MarketView
      listed = catalog chain status owner s

      sorted : List MarketView
      sorted = sort_by order listed

      apart : Apart order listed
      apart = Apart-keep_if order (involves chain owner s) in_status (
          Apart-keep_if order (has_status status) on_chain
            (on_chain-Apart locale h chain (values s.views.markets) distinct))

      short : length listed < fuel
      short = omega (
        arith,
        enough,
        length-keep_if (involves chain owner s) in_status,
        length-keep_if (has_status status) on_chain,
        length-keep_if (λ m. m.chain_id == chain) (values s.views.markets),
      )

      listed_texts : All (λ m. MarketReadsBack codec (market_place m)) listed
      listed_texts = All-keep_if _ (involves chain owner s) in_status (
          All-keep_if _ (has_status status) on_chain
            (All-keep_if _ (λ m. m.chain_id == chain) (values s.views.markets) texts))
