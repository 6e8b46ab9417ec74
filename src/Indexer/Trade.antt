-- ===== src/Indexer/Trade.antt =====
-- The rest of `applyMutation` of offchain/indexer/src/memory-store.ts: listings, positions and claims,
-- the choice of the branch, and `project`.
pub mod Keeps
pub mod Positions
pub mod Chains
use cpredict.Prelude.{
  ℕ, Bool, true, false, not, Option, none, some, List, [], ◌∷◌, ◌==◌, if◌then◌else◌, Result, ok,
  err,
}
use cpredict.Prelude.Int.{ℤ, pos, ◌+ℤ◌, ltb_ℤ}
use cpredict.Prelude.Dict.{Dict, get, put, nat_eq, pair_eq}
use cpredict.Indexer.Types.{IndexedEvent, StoreError, unknown_listing, negative_position}
use cpredict.Indexer.Derived.{
  CloseKind, ClaimKind, winner, early_bird, principal_refund, timeout_bonus, Listing, Fill, Closing,
  Claim, DerivedMutation, listing_cancelled, terminal_listing_returned,
}
use cpredict.Indexer.Derive.{derive_mutations, position_mutations}
use cpredict.Indexer.Views.{ListingView, FillView, PositionView, ClaimView, ActivityKind}
use cpredict.Indexer.Memory.{
  PositionKey, Views, Outside, event_key, Action, raise_if, modify, lift, ◌>>=◌, ◌>>◌,
}
use cpredict.Indexer.Project.{
  write_known, record_activity, by_actor, on_market_created, on_market_initialized,
  on_market_metadata, on_primary_purchased, on_market_terminal, holders, members,
}

unfoldable pub on_listing_created : IndexedEvent → Listing → Views → Views
unfolding put record_activity
on_listing_created e l v =
    let v' : Views = record v {
      listings =
          put (e.chain_id, l.listing_id)
            (record {
              chain_id = e.chain_id;
              listing_id = l.listing_id;
              vault = l.vault;
              seller = l.seller;
              outcome_id = l.outcome_id;
              remaining_units = l.amount;
              unit_price = l.unit_price;
              expires_at = l.expires_at;
              active = true;
              created_block = e.block_number;
              updated_block = e.block_number;
              confirmation_status = e.confirmation_status;
            })
            v.listings;
    } in
    record_activity e
      (record (by_actor ActivityKind.listing_created l.vault (some l.seller)) {
        outcome_id = some l.outcome_id;
        listing_id = some l.listing_id;
        units = some l.amount;
        amount = some l.unit_price;
      })
      [] v'

-- A write to a listing that is known, or the error that it is not.
abbrev update_listing : IndexedEvent → ℕ → (ListingView → Views → Views) → Action Views (Unit {0})
update_listing e id write v = write_known unknown_listing (get (e.chain_id, id) v.listings) write v

abbrev fill_view : IndexedEvent → ListingView → Fill → FillView
fill_view e listing f = record {
  chain_id = e.chain_id;
  transaction_hash = e.transaction_hash;
  log_index = e.log_index;
  listing_id = f.listing_id;
  vault = listing.vault;
  buyer = f.buyer;
  seller = f.seller;
  filled_units = f.filled_units;
  gross = f.gross;
  seller_proceeds = f.seller_proceeds;
  platform_fee = f.platform_fee;
  creator_fee = f.creator_fee;
  block_number = e.block_number;
  confirmation_status = e.confirmation_status;
}

abbrev filled_views : IndexedEvent → Fill → ListingView → Views → Views
filled_views e f listing v = record v {
  listings =
      put (e.chain_id, f.listing_id)
        (record listing {
          remaining_units = f.remaining_units;
          active = not (f.remaining_units == 0);
          updated_block = e.block_number;
          confirmation_status = e.confirmation_status;
        })
        v.listings;
  fills = put (event_key e) (fill_view e listing f) v.fills;
}

unfoldable pub fill_written : IndexedEvent → Fill → ListingView → Views → Views
unfolding put record_activity
fill_written e f listing v =
    record_activity e
      (record (by_actor ActivityKind.listing_filled listing.vault (some f.buyer)) {
        counterparty = some f.seller;
        outcome_id = some listing.outcome_id;
        listing_id = some f.listing_id;
        units = some f.filled_units;
        amount = some f.gross;
      })
      [] (filled_views e f listing v)

unfoldable pub on_listing_filled : IndexedEvent → Fill → Action Views (Unit {0})
unfolding get fill_written
on_listing_filled e f = update_listing e f.listing_id (fill_written e f)

-- Nobody where it is the caller.
abbrev other_than : ℕ → ℕ → Option ℕ
other_than caller a = if caller == a then none else some a

abbrev close_activity_kind : CloseKind → ActivityKind
close_activity_kind listing_cancelled = ActivityKind.listing_cancelled
close_activity_kind terminal_listing_returned = ActivityKind.terminal_listing_returned

abbrev closed_views : IndexedEvent → Closing → ListingView → Views → Views
closed_views e c listing v = record v {
  listings =
      put (e.chain_id, c.listing_id)
        (record listing {
          remaining_units = 0;
          active = false;
          updated_block = e.block_number;
          confirmation_status = e.confirmation_status;
        })
        v.listings;
}

unfoldable pub closing_written : IndexedEvent → Closing → ListingView → Views → Views
unfolding put record_activity
closing_written e c listing v =
    record_activity e
      (record (by_actor (close_activity_kind c.close_kind) listing.vault (some c.caller)) {
        counterparty = other_than c.caller c.seller;
        outcome_id = some listing.outcome_id;
        listing_id = some c.listing_id;
      })
      [] (closed_views e c listing v)

unfoldable pub on_listing_closed : IndexedEvent → Closing → Action Views (Unit {0})
unfolding get closing_written
on_listing_closed e c = update_listing e c.listing_id (closing_written e c)

-- `current?.balance ?? 0n`
abbrev pub balance_of : Option PositionView → ℤ
balance_of none = pos 0
balance_of (some p) = p.balance

abbrev pub position_key : IndexedEvent → (vault owner outcome_id : ℕ) → PositionKey
position_key e vault owner outcome = (e.chain_id, (vault, (owner, outcome)))

abbrev pub position_view : IndexedEvent → (vault owner outcome_id : ℕ) → ℤ → PositionView
position_view e vault owner outcome balance = record {
  chain_id = e.chain_id;
  vault = vault;
  owner = owner;
  outcome_id = outcome;
  balance = balance;
  updated_block = e.block_number;
  confirmation_status = e.confirmation_status;
}

abbrev pub write_position : IndexedEvent → (vault owner outcome_id : ℕ) → ℤ → Views → Views
write_position e vault owner outcome balance v = record v {
  positions =
      put (position_key e vault owner outcome) (position_view e vault owner outcome balance)
        v.positions;
}

unfoldable pub on_position_delta :
    IndexedEvent → (vault owner outcome_id : ℕ) → ℤ → Action Views (Unit {0})
unfolding get put ◌+ℤ◌
on_position_delta e vault owner outcome delta v =
    let current = get (position_key e vault owner outcome) v.positions in
    let balance = balance_of current +ℤ delta in
    if ltb_ℤ balance (pos 0)
    then (err negative_position, v)
    else (ok tt, write_position e vault owner outcome balance v)

abbrev claim_activity_kind : ClaimKind → ActivityKind
claim_activity_kind winner = ActivityKind.winner_claimed
claim_activity_kind early_bird = ActivityKind.early_bird_claimed
claim_activity_kind principal_refund = ActivityKind.principal_refunded
claim_activity_kind timeout_bonus = ActivityKind.timeout_bonus_claimed

unfoldable pub on_claimed : IndexedEvent → Claim → Views → Views
unfolding put record_activity
on_claimed e c v =
    let v' : Views = record v {
      claims =
          put (event_key e)
            (record {
              chain_id = e.chain_id;
              transaction_hash = e.transaction_hash;
              log_index = e.log_index;
              vault = c.vault;
              owner = c.owner;
              caller = c.caller;
              claim_kind = c.claim_kind;
              units = c.units;
              amount = c.amount;
              block_number = e.block_number;
              confirmation_status = e.confirmation_status;
            })
            v.claims;
    } in
    record_activity e
      (record (by_actor (claim_activity_kind c.claim_kind) c.vault (some c.caller)) {
        counterparty = other_than c.caller c.owner;
        units = some c.units;
        amount = some c.amount;
      })
      [] v'

unfoldable pub apply_mutation : Outside → IndexedEvent → DerivedMutation → Action Views (Unit {0})
unfolding on_market_created on_market_initialized on_market_metadata on_primary_purchased
    on_market_terminal on_listing_created on_listing_filled on_listing_closed on_position_delta
    on_claimed
apply_mutation o e (DerivedMutation.market_created market creator mode bond) =
    modify (on_market_created e market creator mode bond)
apply_mutation o e (DerivedMutation.market_initialized m) = modify (on_market_initialized e m)
apply_mutation o e (DerivedMutation.market_metadata m) = on_market_metadata e m
apply_mutation o e (DerivedMutation.primary_purchased p) = on_primary_purchased e p
apply_mutation o e (DerivedMutation.market_terminal t) = on_market_terminal o.uri e t
apply_mutation o e (DerivedMutation.listing_created l) = modify (on_listing_created e l)
apply_mutation o e (DerivedMutation.listing_filled f) = on_listing_filled e f
apply_mutation o e (DerivedMutation.listing_closed c) = on_listing_closed e c
apply_mutation o e (DerivedMutation.position_delta vault owner outcome delta) =
    on_position_delta e vault owner outcome delta
apply_mutation o e (DerivedMutation.claimed c) = modify (on_claimed e c)

unfoldable pub apply_mutations :
    Outside → IndexedEvent → List DerivedMutation → Action Views (Unit {0})
unfolding apply_mutation
apply_mutations o e [] v = (ok tt, v)
apply_mutations o e (m ∷ ms) v =
    let (r, v') = apply_mutation o e m v in
    elim r [ ok _ ↦ apply_mutations o e ms v' | err x ↦ (err x, v') ]

-- Decoding, and the lengths of a batch transfer, come before the first write.
unfoldable pub project : Outside → IndexedEvent → Action Views (Unit {0})
unfolding apply_mutations derive_mutations
project o e = lift (o.decode e) >>= λ decoded.
    lift (derive_mutations e decoded) >>= λ mutations. apply_mutations o e mutations
