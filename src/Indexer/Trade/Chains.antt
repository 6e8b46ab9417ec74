-- ===== src/Indexer/Trade/Chains.antt =====
-- The views of a chain's events stand under the chain's keys.
use cpredict.Indexer.Rollback.{of_chain, clear_projections}
use cpredict.Indexer.Trade.{
  Bool, get, project, closing_written, fill_written, on_claimed, on_listing_created,
}
use cpredict.Indexer.Views.{ListingView, MarketView}
use cpredict.Indexer.Project.{
  new_market, terminal_written, purchase_written, metadata_written, Activity, on_market_initialized,
  record_activity, on_market_created,
}
use cpredict.Prelude.{
  true, false, is_some, if◌then◌else◌, arith, ℕ, ◌≡◌, refl, subst, List, [], ◌∷◌, All,
}
use cpredict.Prelude.Dict.{delete_if, put, Eq, Dict, All-put, nat_eq, pair_eq}
use cpredict.Indexer.Types.{IndexedEvent}
use cpredict.Indexer.Memory.{Views, Outside, no_views}
use cpredict.Indexer.Trade.Keeps.{KeptByWrites, project-keeps}

abbrev pub Under {ℓ κ} : {K : Type ℓ} {V : Type κ} → ℕ → Dict (ℕ × K) V → Type 0
Under chain = All (λ kv. kv.0.0 ≡ chain)

pub record InChain (chain : ℕ) (v : Views) : Type 0 where
  pub registered : Under chain v.registered
  pub markets : Under chain v.markets
  pub listings : Under chain v.listings
  pub fills : Under chain v.fills
  pub positions : Under chain v.positions
  pub claims : Under chain v.claims
  pub activities : Under chain v.activities
  pub participants : Under chain v.participants

pub no_views-InChain : (chain : ℕ) → InChain chain no_views
no_views-InChain chain = record {
  registered = tt;
  markets = tt;
  listings = tt;
  fills = tt;
  positions = tt;
  claims = tt;
  activities = tt;
  participants = tt;
}

put-Under :
    {K V : Type 0} ⦃e : Eq K⦄ (chain : ℕ) (k : K) (v : V) (d : Dict (ℕ × K) V)
    → Under chain d
    → Under chain (put (chain, k) v d)
put-Under chain k v d h = All-put (λ kv. kv.0.0 ≡ chain) (chain, k) v d refl h

record_activity-InChain :
    (e : IndexedEvent) (a : Activity) (extra : List ℕ) (v : Views)
    → InChain e.chain_id v
    → InChain e.chain_id (record_activity e a extra v)
unfolding record_activity
record_activity-InChain e a extra v h = record {
  registered = h.registered;
  markets = h.markets;
  listings = h.listings;
  fills = h.fills;
  positions = h.positions;
  claims = h.claims;
  activities = put-Under e.chain_id (e.transaction_hash, e.log_index) _ v.activities h.activities;
  participants =
      put-Under e.chain_id (e.transaction_hash, e.log_index) _ v.participants h.participants;
}

with_markets :
    (chain market : ℕ) (view : MarketView) (v : Views)
    → InChain chain v
    → InChain chain (record v { markets = put (chain, market) view v.markets })
with_markets chain market view v h = record {
  registered = h.registered;
  markets = put-Under chain market view v.markets h.markets;
  listings = h.listings;
  fills = h.fills;
  positions = h.positions;
  claims = h.claims;
  activities = h.activities;
  participants = h.participants;
}

with_listings :
    (chain id : ℕ) (view : ListingView) (v : Views)
    → InChain chain v
    → InChain chain (record v { listings = put (chain, id) view v.listings })
with_listings chain id view v h = record {
  registered = h.registered;
  markets = h.markets;
  listings = put-Under chain id view v.listings h.listings;
  fills = h.fills;
  positions = h.positions;
  claims = h.claims;
  activities = h.activities;
  participants = h.participants;
}

created-InChain :
    (e : IndexedEvent) (market creator mode bond : ℕ) (v : Views)
    → InChain e.chain_id v
    → InChain e.chain_id (record v {
      registered = put (e.chain_id, market) market v.registered;
      markets =
          if is_some (get (e.chain_id, market) v.markets)
          then v.markets
          else put (e.chain_id, market) (new_market e market creator mode bond) v.markets;
    })
created-InChain e market creator mode bond v h = record {
  registered = put-Under e.chain_id market market v.registered h.registered;
  markets = kept (is_some (get (e.chain_id, market) v.markets));
  listings = h.listings;
  fills = h.fills;
  positions = h.positions;
  claims = h.claims;
  activities = h.activities;
  participants = h.participants;
}
  where
    kept :
        (b : Bool)
        → Under e.chain_id (
            if b
            then v.markets
            else put (e.chain_id, market) (new_market e market creator mode bond) v.markets)
    kept true = h.markets
    kept false = put-Under e.chain_id market _ v.markets h.markets

KeptByWrites-InChain : (e : IndexedEvent) → KeptByWrites (InChain e.chain_id) e
unfolding on_market_created on_market_initialized metadata_written purchase_written terminal_written
    on_listing_created on_claimed fill_written closing_written
KeptByWrites-InChain e = record {
  by_created = λ market creator mode bond v h.
      record_activity-InChain e _ [] _ (created-InChain e market creator mode bond v h);
  by_initialized = λ m v h. with_markets e.chain_id m.market _ v h;
  by_metadata = λ m c v h. with_markets e.chain_id m.market _ v h;
  by_purchase =
      λ p c v h. record_activity-InChain e _ [] _ (with_markets e.chain_id p.market _ v h);
  by_terminal =
      λ uri t c v h. record_activity-InChain e _ _ _ (with_markets e.chain_id t.market _ v h);
  by_listing =
      λ l v h. record_activity-InChain e _ [] _ (with_listings e.chain_id l.listing_id _ v h);
  by_fill = λ f l v h. record_activity-InChain e _ [] _ (record {
    registered = h.registered;
    markets = h.markets;
    listings = put-Under e.chain_id f.listing_id _ v.listings h.listings;
    fills = put-Under e.chain_id (e.transaction_hash, e.log_index) _ v.fills h.fills;
    positions = h.positions;
    claims = h.claims;
    activities = h.activities;
    participants = h.participants;
  });
  by_closing =
      λ c l v h. record_activity-InChain e _ [] _ (with_listings e.chain_id c.listing_id _ v h);
  by_position = λ vault owner outcome balance v n h. record {
    registered = h.registered;
    markets = h.markets;
    listings = h.listings;
    fills = h.fills;
    positions = put-Under e.chain_id (vault, (owner, outcome)) _ v.positions h.positions;
    claims = h.claims;
    activities = h.activities;
    participants = h.participants;
  };
  by_claim = λ c v h. record_activity-InChain e _ [] _ (record {
    registered = h.registered;
    markets = h.markets;
    listings = h.listings;
    fills = h.fills;
    positions = h.positions;
    claims = put-Under e.chain_id (e.transaction_hash, e.log_index) _ v.claims h.claims;
    activities = h.activities;
    participants = h.participants;
  });
}

-- The projection of a chain's event keeps all views under the chain.
pub project-InChain :
    (o : Outside) (e : IndexedEvent) (chain : ℕ) (v : Views)
    → e.chain_id ≡ chain
    → InChain chain v
    → InChain chain (project o e v).1
project-InChain o e chain v same =
    subst (λ c. InChain c v → InChain c (project o e v).1) same
      (project-keeps (KeptByWrites-InChain e) o v)

delete-Under :
    {K V : Type 0} ⦃e : Eq K⦄ (chain : ℕ) (d : Dict (ℕ × K) V)
    → Under chain d
    → delete_if (of_chain chain) d ≡ []
unfolding delete_if
delete-Under chain [] h = refl
delete-Under chain ((k, v) ∷ d) (hk, hs) = ground (arith, delete-Under chain d hs)

-- To clear the views of a chain that has them all leaves none.
pub clear_projections-InChain :
    (chain : ℕ) (v : Views) → InChain chain v → clear_projections chain v ≡ no_views
unfolding clear_projections
clear_projections-InChain chain v h = λ i. record {
  registered = delete-Under chain v.registered h.registered i;
  markets = delete-Under chain v.markets h.markets i;
  listings = delete-Under chain v.listings h.listings i;
  fills = delete-Under chain v.fills h.fills i;
  positions = delete-Under chain v.positions h.positions i;
  claims = delete-Under chain v.claims h.claims i;
  activities = delete-Under chain v.activities h.activities i;
  participants = delete-Under chain v.participants h.participants i;
}
