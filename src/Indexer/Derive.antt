-- ===== src/Indexer/Derive.antt =====
-- The mutations that a decoded event derives: `deriveMutations` of offchain/indexer/src/derived.ts.
pub mod Laws
use cpredict.Prelude.{
  ℕ, Option, none, some, List, [], ◌∷◌, ◌++◌, ◌==◌, if◌then◌else◌, Result, ok, err, ◌>>=◌,
}
use cpredict.Prelude.Int.{ℤ, pos, ◌-ℤ◌}
use cpredict.Indexer.Types.{IndexedEvent, StoreError, length_mismatch, invalid_void_reason}
use cpredict.Indexer.Derived.{
  TerminalKind, resolved, voided_creator, voided_no_winning_supply, voided_timeout,
  listing_cancelled, terminal_listing_returned, ClaimKind, winner, early_bird, principal_refund,
  timeout_bonus, DerivedMutation, Decoded, position_delta, claimed,
}

-- Zero stands for an absent start of the event, and for no evidence.
abbrev pub unless_zero : ℕ → Option ℕ
unless_zero n = if n == 0 then none else some n

abbrev or_zero : Option ℕ → ℕ
or_zero none = 0
or_zero (some n) = n

abbrev pub delta_for : ℕ → ℕ → ℕ → ℤ → List DerivedMutation
delta_for vault owner outcome delta =
    if owner == 0 then [] else position_delta vault owner outcome delta ∷ []

-- The loop over the pairs; the source compares the lengths before it.
unfoldable pub position_mutations :
    ℕ → ℕ → ℕ → List ℕ → List ℕ → Result StoreError (List DerivedMutation)
position_mutations vault from to [] [] = ok []
position_mutations vault from to (id ∷ ids) (value ∷ values) = do
  rest ← position_mutations vault from to ids values
  ok (delta_for vault from id (pos 0 -ℤ pos value) ++ (delta_for vault to id (pos value) ++ rest))
position_mutations vault from to _ _ = err length_mismatch

abbrev terminal_kind : ℕ → Result StoreError TerminalKind
terminal_kind reason =
    if reason == 1
    then ok voided_creator
    else if reason == 2
    then ok voided_no_winning_supply
    else if reason == 3
    then ok voided_timeout
    else err invalid_void_reason

abbrev one : DerivedMutation → Result StoreError (List DerivedMutation)
one m = ok (m ∷ [])

abbrev claim_of :
    IndexedEvent → ClaimKind → ℕ → ℕ → ℕ → ℕ → Result StoreError (List DerivedMutation)
claim_of event kind owner caller units amount = one (
    claimed (record {
      vault = event.address;
      owner = owner;
      caller = caller;
      claim_kind = kind;
      units = units;
      amount = amount;
    }))

-- `voided` puts the kind of the reason into the mutation, or throws.
abbrev voided : IndexedEvent → ℕ → ℕ → ℕ → Result StoreError (List DerivedMutation)
voided event reason caller evidence = do
  kind ← terminal_kind reason
  one (
      DerivedMutation.market_terminal (record {
        market = event.address;
        terminal_kind = kind;
        caller = some caller;
        state = 2;
        void_reason = reason;
        winning_outcome = none;
        evidence_hash = unless_zero evidence;
      }))

unfoldable pub derive_mutations : IndexedEvent → Decoded → Result StoreError (List DerivedMutation)
unfolding position_mutations
derive_mutations event (Decoded.market_created market creator mode bond) =
    one (DerivedMutation.market_created market creator mode bond)
derive_mutations event (Decoded.market_initialized m) = one (
    DerivedMutation.market_initialized
      (record m { event_starts_at = unless_zero (or_zero m.event_starts_at) }))
derive_mutations event (Decoded.market_metadata_updated m) = one (
    DerivedMutation.market_metadata (record m {
      market = event.address;
      event_starts_at = unless_zero (or_zero m.event_starts_at);
    }))
derive_mutations event (Decoded.primary_purchased p) =
    one (DerivedMutation.primary_purchased (record p { market = event.address }))
derive_mutations event (Decoded.market_resolved outcome evidence) = one (
    DerivedMutation.market_terminal (record {
      market = event.address;
      terminal_kind = resolved;
      caller = none;
      state = 1;
      void_reason = 0;
      winning_outcome = some outcome;
      evidence_hash = unless_zero evidence;
    }))
derive_mutations event (Decoded.market_voided reason caller evidence) =
    voided event reason caller evidence
derive_mutations event (Decoded.listing_created l) = one (DerivedMutation.listing_created l)
derive_mutations event (Decoded.listing_filled f) = one (DerivedMutation.listing_filled f)
derive_mutations event (Decoded.listing_cancelled id seller) = one (
    DerivedMutation.listing_closed (record {
      listing_id = id;
      close_kind = listing_cancelled;
      seller = seller;
      caller = seller;
    }))
derive_mutations event (Decoded.terminal_listing_returned id seller caller) = one (
    DerivedMutation.listing_closed (record {
      listing_id = id;
      close_kind = terminal_listing_returned;
      seller = seller;
      caller = caller;
    }))
derive_mutations event (Decoded.transfer_single from to id value) =
    position_mutations event.address from to (id ∷ []) (value ∷ [])
derive_mutations event (Decoded.transfer_batch from to ids values) =
    position_mutations event.address from to ids values
derive_mutations event (Decoded.winner_claimed owner caller units amount) =
    claim_of event winner owner caller units amount
derive_mutations event (Decoded.early_bird_claimed owner caller units amount) =
    claim_of event early_bird owner caller units amount
derive_mutations event (Decoded.principal_refunded owner caller units amount) =
    claim_of event principal_refund owner caller units amount
derive_mutations event (Decoded.timeout_bonus_claimed owner caller units amount) =
    claim_of event timeout_bonus owner caller units amount
derive_mutations event Decoded.unknown = ok []
