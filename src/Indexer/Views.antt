-- ===== src/Indexer/Views.antt =====
-- The views that the stores keep: offchain/indexer/src/store.ts. The optional fields of a market that
-- the in-memory store never sets are left out, and the snapshot of its market, which a position has in the
-- answer to a query alone, stands in Indexer/Query.
use cpredict.Prelude.{ℕ, Bool, Option, String}
use cpredict.Prelude.Int.{ℤ}
use cpredict.Indexer.Types.{ConfirmationStatus}
use cpredict.Indexer.Derived.{ClaimKind}

pub record MarketView : Type 0 where
  pub chain_id : ℕ
  pub market : ℕ
  pub creator : ℕ
  pub deployment_mode : ℕ
  pub outcome_count : Option ℕ
  pub close_at : Option ℕ
  pub created_at : Option ℕ
  pub event_starts_at : Option ℕ
  pub outcome_deadline_at : Option ℕ
  pub resolution_window : Option ℕ
  pub rules_hash : Option ℕ
  pub metadata_uri : Option String
  pub resolution_source_hash : Option ℕ
  pub resolution_source_uri : Option String
  pub creator_treasury : Option ℕ
  pub feature_flags : Option ℕ
  pub market_primary_cap : Option ℕ
  pub primary_filled_units : ℕ
  pub primary_payment : ℕ
  pub creator_bond : ℕ
  pub state : ℕ
  pub void_reason : ℕ
  pub winning_outcome : Option ℕ
  pub evidence_hash : Option ℕ
  pub evidence_uri : Option String
  pub created_block : ℕ
  pub updated_block : ℕ
  pub confirmation_status : ConfirmationStatus

pub record ListingView : Type 0 where
  pub chain_id : ℕ
  pub listing_id : ℕ
  pub vault : ℕ
  pub seller : ℕ
  pub outcome_id : ℕ
  pub remaining_units : ℕ
  pub unit_price : ℕ
  pub expires_at : ℕ
  pub active : Bool
  pub created_block : ℕ
  pub updated_block : ℕ
  pub confirmation_status : ConfirmationStatus

pub record FillView : Type 0 where
  pub chain_id : ℕ
  pub transaction_hash : ℕ
  pub log_index : ℕ
  pub listing_id : ℕ
  pub vault : ℕ
  pub buyer : ℕ
  pub seller : ℕ
  pub filled_units : ℕ
  pub gross : ℕ
  pub seller_proceeds : ℕ
  pub platform_fee : ℕ
  pub creator_fee : ℕ
  pub block_number : ℕ
  pub confirmation_status : ConfirmationStatus

pub record PositionView : Type 0 where
  pub chain_id : ℕ
  pub vault : ℕ
  pub owner : ℕ
  pub outcome_id : ℕ
  pub balance : ℤ
  pub updated_block : ℕ
  pub confirmation_status : ConfirmationStatus

pub record ClaimView : Type 0 where
  pub chain_id : ℕ
  pub transaction_hash : ℕ
  pub log_index : ℕ
  pub vault : ℕ
  pub owner : ℕ
  pub caller : ℕ
  pub claim_kind : ClaimKind
  pub units : ℕ
  pub amount : ℕ
  pub block_number : ℕ
  pub confirmation_status : ConfirmationStatus

pub data ActivityKind : Type 0 where
  market_created primary_purchased market_resolved market_voided_creator
        market_voided_no_winning_supply market_voided_timeout listing_created listing_filled
        listing_cancelled terminal_listing_returned winner_claimed early_bird_claimed
        principal_refunded timeout_bonus_claimed :
      ActivityKind

pub record ActivityView : Type 0 where
  pub chain_id : ℕ
  pub transaction_hash : ℕ
  pub log_index : ℕ
  pub kind : ActivityKind
  pub vault : ℕ
  pub actor : Option ℕ
  pub counterparty : Option ℕ
  pub outcome_id : Option ℕ
  pub listing_id : Option ℕ
  pub units : Option ℕ
  pub amount : Option ℕ
  pub block_number : ℕ
  pub confirmation_status : ConfirmationStatus
