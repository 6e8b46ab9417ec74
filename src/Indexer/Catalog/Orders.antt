-- ===== src/Indexer/Catalog/Orders.antt =====
-- The orders of the catalog and the activity, and the tests of the places.
use Prim.Native.Nat.{compare, Ordering}
use cpredict.Prelude.{ℕ, ◌≡◌, arith}
use cpredict.Prelude.Sort.{IsOrder}
use cpredict.Indexer.Paging.Places.{IsPlace}
use cpredict.Indexer.Catalog.{
  compare_activities_desc, compare_activity_to_cursor, follows_activity, activity_place,
  compare_markets_desc, follows_market, market_place,
}

-- `localeCompare` orders two lowercase hexadecimal texts of one length as their numbers.
abbrev pub ByNumber : (ℕ → ℕ → Ordering) → Type 0
ByNumber locale = (a b : ℕ) → locale a b ≡ compare a b

module _ (locale : ℕ → ℕ → Ordering) (h : ByNumber locale) where
  pub compare_activities_desc-IsOrder : IsOrder (compare_activities_desc locale)
  unfolding compare_activities_desc
  compare_activities_desc-IsOrder = record {
    gt_flip = λ a b k.
        ground
          (arith, h a.transaction_hash b.transaction_hash, h b.transaction_hash a.transaction_hash);
    lt_flip = λ a b k.
        ground
          (arith, h a.transaction_hash b.transaction_hash, h b.transaction_hash a.transaction_hash);
    lt_trans = λ a b c k l m. ground (
      arith,
      h b.transaction_hash a.transaction_hash,
      h c.transaction_hash b.transaction_hash,
      h c.transaction_hash a.transaction_hash,
    );
  }

  pub activity_place-IsPlace :
      IsPlace (compare_activities_desc locale) (follows_activity locale) activity_place
  unfolding compare_activities_desc compare_activity_to_cursor
  activity_place-IsPlace a b = (
    λ k. ground (arith, h b.transaction_hash a.transaction_hash),
    λ k. ground (arith, h b.transaction_hash a.transaction_hash),
  )

  pub compare_markets_desc-IsOrder : IsOrder (compare_markets_desc locale)
  unfolding compare_markets_desc
  compare_markets_desc-IsOrder = record {
    gt_flip = λ a b k. ground (arith, h a.market b.market, h b.market a.market);
    lt_flip = λ a b k. ground (arith, h a.market b.market, h b.market a.market);
    lt_trans = λ a b c k l m.
        ground (arith, h b.market a.market, h c.market b.market, h c.market a.market);
  }

  pub market_place-IsPlace : IsPlace (compare_markets_desc locale) follows_market market_place
  unfolding compare_markets_desc follows_market
  market_place-IsPlace a b =
      (λ k. ground (arith, h b.market a.market), λ k. ground (arith, h b.market a.market))
