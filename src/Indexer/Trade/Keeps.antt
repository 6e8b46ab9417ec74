-- ===== src/Indexer/Trade/Keeps.antt =====
-- What `applyMutation` and `project` keep: one rule over the writes of every branch, whether a branch
-- writes or throws.
use cpredict.Prelude.{
  String, ℕ, ◌≡◌, refl, Bool, true, false, Option, none, some, List, [], ◌∷◌, arith, Result, ok,
  err, if◌then◌else◌,
}
use cpredict.Prelude.Int.{ℤ, pos, ◌+ℤ◌, ◌≤ℤ◌, ltb_ℤ}
use cpredict.Prelude.Dict.{get, nat_eq, pair_eq}
use cpredict.Indexer.Types.{StoreError, IndexedEvent, negative_position}
use cpredict.Indexer.Derived.{
  DerivedMutation, Initialized, Metadata, Purchase, Terminal, Listing, Fill, Closing, Claim,
}
use cpredict.Indexer.Derive.{derive_mutations}
use cpredict.Indexer.Views.{MarketView, ListingView}
use cpredict.Indexer.Memory.{Views, Outside, lift, ◌>>=◌}
use cpredict.Indexer.Memory.Laws.{Keeps, >>=-keeps, >>-keeps}
use cpredict.Indexer.Project.{
  on_market_created, on_market_initialized, on_market_metadata, on_primary_purchased,
  on_market_terminal, metadata_written, purchase_written, terminal_written, write_known,
}
use cpredict.Indexer.Trade.{
  on_listing_created, on_listing_filled, on_listing_closed, on_position_delta, on_claimed,
  fill_written, closing_written, write_position, balance_of, position_key, apply_mutation,
  apply_mutations, project,
}

-- Every write of an event keeps the property.
pub record KeptByWrites (P : Views → Type 0) (e : IndexedEvent) : Type 0 where
  pub by_created :
      (market creator mode bond : ℕ) (v : Views)
      → P v
      → P (on_market_created e market creator mode bond v)
  pub by_initialized : (m : Initialized) (v : Views) → P v → P (on_market_initialized e m v)
  pub by_metadata : (m : Metadata) (c : MarketView) (v : Views) → P v → P (metadata_written e m c v)
  pub by_purchase : (p : Purchase) (c : MarketView) (v : Views) → P v → P (purchase_written e p c v)
  pub by_terminal :
      (uri : ℕ → String) (t : Terminal) (c : MarketView) (v : Views)
      → P v
      → P (terminal_written uri e t c v)
  pub by_listing : (l : Listing) (v : Views) → P v → P (on_listing_created e l v)
  pub by_fill : (f : Fill) (l : ListingView) (v : Views) → P v → P (fill_written e f l v)
  pub by_closing : (c : Closing) (l : ListingView) (v : Views) → P v → P (closing_written e c l v)
  pub by_position :
      (vault owner outcome : ℕ) (balance : ℤ) (v : Views)
      → pos 0 ≤ℤ balance
      → P v
      → P (write_position e vault owner outcome balance v)
  pub by_claim : (c : Claim) (v : Views) → P v → P (on_claimed e c v)

module _ {P : Views → Type 0} {e : IndexedEvent} (k : KeptByWrites P e) where
  write_known-keeps :
      {V : Type 0} (missing : StoreError) (found : Option V) (write : V → Views → Views) (v : Views)
      → ((x : V) → P (write x v))
      → P v
      → P (write_known missing found write v).1
  write_known-keeps missing none write v kept h = h
  write_known-keeps missing (some x) write v kept h = kept x

  on_position_delta-keeps :
      (vault owner outcome : ℕ) (delta : ℤ)
      → Keeps P (on_position_delta e vault owner outcome delta)
  unfolding on_position_delta
  on_position_delta-keeps vault owner outcome delta v h =
      let balance = balance_of (get (position_key e vault owner outcome) v.positions) +ℤ delta in
      go balance (ltb_ℤ balance (pos 0)) refl
    where
      go :
          (balance : ℤ) (b : Bool)
          → ltb_ℤ balance (pos 0) ≡ b
          → let r : Result StoreError (Unit {0}) × Views =
              if b
              then (err negative_position, v)
              else (ok tt, write_position e vault owner outcome balance v) in
            P r.1
      go balance true n = h
      go balance false n = k.by_position vault owner outcome balance v (ground arith) h

  apply_mutation-keeps : (o : Outside) (m : DerivedMutation) → Keeps P (apply_mutation o e m)
  unfolding apply_mutation on_market_metadata on_primary_purchased on_market_terminal
      on_listing_filled on_listing_closed
  apply_mutation-keeps o (DerivedMutation.market_created market creator mode bond) v h =
      k.by_created market creator mode bond v h
  apply_mutation-keeps o (DerivedMutation.market_initialized m) v h = k.by_initialized m v h
  apply_mutation-keeps o (DerivedMutation.market_metadata m) v h =
      write_known-keeps _ (get (e.chain_id, m.market) v.markets) (metadata_written e m) v
        (λ c. k.by_metadata m c v h) h
  apply_mutation-keeps o (DerivedMutation.primary_purchased p) v h =
      write_known-keeps _ (get (e.chain_id, p.market) v.markets) (purchase_written e p) v
        (λ c. k.by_purchase p c v h) h
  apply_mutation-keeps o (DerivedMutation.market_terminal t) v h =
      write_known-keeps _ (get (e.chain_id, t.market) v.markets) (terminal_written o.uri e t) v
        (λ c. k.by_terminal o.uri t c v h) h
  apply_mutation-keeps o (DerivedMutation.listing_created l) v h = k.by_listing l v h
  apply_mutation-keeps o (DerivedMutation.listing_filled f) v h =
      write_known-keeps _ (get (e.chain_id, f.listing_id) v.listings) (fill_written e f) v
        (λ l. k.by_fill f l v h) h
  apply_mutation-keeps o (DerivedMutation.listing_closed c) v h =
      write_known-keeps _ (get (e.chain_id, c.listing_id) v.listings) (closing_written e c) v
        (λ l. k.by_closing c l v h) h
  apply_mutation-keeps o (DerivedMutation.position_delta vault owner outcome delta) v h =
      on_position_delta-keeps vault owner outcome delta v h
  apply_mutation-keeps o (DerivedMutation.claimed c) v h = k.by_claim c v h

  apply_mutations-keeps :
      (o : Outside) (ms : List DerivedMutation) → Keeps P (apply_mutations o e ms)
  unfolding apply_mutations
  apply_mutations-keeps o [] v h = h
  apply_mutations-keeps o (m ∷ ms) v h =
      >>-keeps P (apply_mutation o e m) (apply_mutations o e ms) (apply_mutation-keeps o m)
        (apply_mutations-keeps o ms) v h

  -- What the writes of an event keep, its projection keeps.
  pub project-keeps : (o : Outside) → Keeps P (project o e)
  unfolding project
  project-keeps o v h =
      >>=-keeps P (lift (o.decode e))
        (λ decoded. lift (derive_mutations e decoded) >>= apply_mutations o e) (λ s h. h)
        (λ decoded.
          >>=-keeps P (lift (derive_mutations e decoded)) (apply_mutations o e) (λ s h. h)
            (apply_mutations-keeps o))
        v h
