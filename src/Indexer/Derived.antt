-- ===== src/Indexer/Derived.antt =====
-- From decoded events to mutations of the views: offchain/indexer/src/derived.ts, for the protocol
-- version `time-v2`, which the stores use. The decoder is viem's: `Decoded` is what it returns for
-- the events of the ABIs, with numbers for integers, addresses and hashes.
use cpredict.Prelude.{ℕ, Option, List, String}
use cpredict.Prelude.Int.{ℤ}

pub data TerminalKind : Type 0 where
  resolved voided_creator voided_no_winning_supply voided_timeout : TerminalKind

pub data CloseKind : Type 0 where
  listing_cancelled terminal_listing_returned : CloseKind

pub data ClaimKind : Type 0 where
  winner early_bird principal_refund timeout_bonus : ClaimKind

pub record Initialized : Type 0 where
  pub market : ℕ
  pub creator : ℕ
  pub deployment_mode : ℕ
  pub outcome_count : ℕ
  pub created_at : ℕ
  pub close_at : ℕ
  pub event_starts_at : Option ℕ
  pub outcome_deadline_at : ℕ
  pub resolution_window : ℕ
  pub market_primary_cap : ℕ
  pub creator_bond : ℕ

pub record Metadata : Type 0 where
  pub market : ℕ
  pub rules_hash : ℕ
  pub metadata_uri : String
  pub resolution_source_hash : ℕ
  pub resolution_source_uri : String
  pub close_at : ℕ
  pub event_starts_at : Option ℕ
  pub outcome_deadline_at : ℕ
  pub creator_treasury : ℕ
  pub feature_flags : ℕ

pub record Purchase : Type 0 where
  pub market : ℕ
  pub buyer : ℕ
  pub outcome_id : ℕ
  pub filled_units : ℕ
  pub payment : ℕ
  pub early_bird_weight : ℕ
  pub total_principal : ℕ

pub record Terminal : Type 0 where
  pub market : ℕ
  pub terminal_kind : TerminalKind
  pub caller : Option ℕ
  pub state : ℕ
  pub void_reason : ℕ
  pub winning_outcome : Option ℕ
  pub evidence_hash : Option ℕ

pub record Listing : Type 0 where
  pub listing_id : ℕ
  pub vault : ℕ
  pub seller : ℕ
  pub outcome_id : ℕ
  pub amount : ℕ
  pub unit_price : ℕ
  pub expires_at : ℕ

pub record Fill : Type 0 where
  pub listing_id : ℕ
  pub buyer : ℕ
  pub seller : ℕ
  pub filled_units : ℕ
  pub gross : ℕ
  pub seller_proceeds : ℕ
  pub platform_fee : ℕ
  pub creator_fee : ℕ
  pub remaining_units : ℕ

pub record Closing : Type 0 where
  pub listing_id : ℕ
  pub close_kind : CloseKind
  pub seller : ℕ
  pub caller : ℕ

pub record Claim : Type 0 where
  pub vault : ℕ
  pub owner : ℕ
  pub caller : ℕ
  pub claim_kind : ClaimKind
  pub units : ℕ
  pub amount : ℕ

pub data DerivedMutation : Type 0 where
  market_created : (market creator deployment_mode creator_bond : ℕ) → DerivedMutation
  market_initialized : Initialized → DerivedMutation
  market_metadata : Metadata → DerivedMutation
  primary_purchased : Purchase → DerivedMutation
  market_terminal : Terminal → DerivedMutation
  listing_created : Listing → DerivedMutation
  listing_filled : Fill → DerivedMutation
  listing_closed : Closing → DerivedMutation
  position_delta : (vault owner outcome_id : ℕ) → ℤ → DerivedMutation
  claimed : Claim → DerivedMutation

-- An event as the decoder returns it. Where the mutation has the arguments as they come, so does the
-- event; a market is then that of the mutation, which `derive_mutations` puts in. `unknown` is an
-- event that no ABI has, or that derives nothing.
pub data Decoded : Type 0 where
  market_created : (market creator deployment_mode creator_bond : ℕ) → Decoded
  market_initialized : Initialized → Decoded
  market_metadata_updated : Metadata → Decoded
  primary_purchased : Purchase → Decoded
  market_resolved : (winning_outcome evidence_hash : ℕ) → Decoded
  market_voided : (reason caller evidence_hash : ℕ) → Decoded
  listing_created : Listing → Decoded
  listing_filled : Fill → Decoded
  listing_cancelled : (listing_id seller : ℕ) → Decoded
  terminal_listing_returned : (listing_id seller caller : ℕ) → Decoded
  transfer_single : (from to id value : ℕ) → Decoded
  transfer_batch : (from to : ℕ) (ids values : List ℕ) → Decoded
  winner_claimed : (owner caller burned_units payout : ℕ) → Decoded
  early_bird_claimed : (owner caller score reward : ℕ) → Decoded
  principal_refunded : (owner caller burned_units refund : ℕ) → Decoded
  timeout_bonus_claimed : (owner caller units reward : ℕ) → Decoded
  unknown : Decoded
