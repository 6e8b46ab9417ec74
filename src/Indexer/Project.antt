-- ===== src/Indexer/Project.antt =====
-- `applyMutation` and `recordActivity` of offchain/indexer/src/memory-store.ts.
use cpredict.Prelude.{
  ℕ, ◌+◌, ◌&&◌, Option, none, some, List, [], ◌∷◌, ◌++◌, ◌==◌, if◌then◌else◌, any, is_some, ok, err,
  String,
}
use cpredict.Prelude.Int.{pos, ltb_ℤ}
use cpredict.Prelude.Dict.{Dict, get, put, nat_eq, pair_eq}
use cpredict.Indexer.Types.{StoreError, IndexedEvent, unknown_market}
use cpredict.Indexer.Derived.{
  TerminalKind, resolved, voided_creator, voided_no_winning_supply, voided_timeout, Initialized,
  Metadata, Purchase, Terminal,
}
use cpredict.Indexer.Views.{MarketView, PositionView, ActivityKind}
use cpredict.Indexer.Memory.{Key, PositionKey, Views, event_key, Action}

-- The input of `recordActivity`, where what is left out is `null`.
pub record Activity : Type 0 where
  pub kind : ActivityKind
  pub vault : ℕ
  pub actor : Option ℕ
  pub counterparty : Option ℕ
  pub outcome_id : Option ℕ
  pub listing_id : Option ℕ
  pub units : Option ℕ
  pub amount : Option ℕ

abbrev pub by_actor : ActivityKind → ℕ → Option ℕ → Activity
by_actor kind vault actor = record {
  kind = kind;
  vault = vault;
  actor = actor;
  counterparty = none;
  outcome_id = none;
  listing_id = none;
  units = none;
  amount = none;
}

-- `new Set(...)`
abbrev add_member : ℕ → List ℕ → List ℕ
add_member a set = if any (λ b. b == a) set then set else set ++ a ∷ []

unfoldable pub members : List ℕ → List ℕ → List ℕ
members [] set = set
members (a ∷ rest) set = members rest (add_member a set)

abbrev present : Option ℕ → List ℕ
present none = []
present (some a) = a ∷ []

unfoldable pub record_activity : IndexedEvent → Activity → List ℕ → Views → Views
unfolding put members
record_activity e a extra v = record v {
  activities =
      put (event_key e)
        (record {
          chain_id = e.chain_id;
          transaction_hash = e.transaction_hash;
          log_index = e.log_index;
          kind = a.kind;
          vault = a.vault;
          actor = a.actor;
          counterparty = a.counterparty;
          outcome_id = a.outcome_id;
          listing_id = a.listing_id;
          units = a.units;
          amount = a.amount;
          block_number = e.block_number;
          confirmation_status = e.confirmation_status;
        })
        v.activities;
  participants =
      put (event_key e) (members (present a.actor ++ present a.counterparty ++ extra) [])
        v.participants;
}

-- A market of which only its creation is known.
abbrev pub new_market : IndexedEvent → (market creator mode bond : ℕ) → MarketView
new_market e market creator mode bond = record {
  chain_id = e.chain_id;
  market = market;
  creator = creator;
  deployment_mode = mode;
  outcome_count = none;
  close_at = none;
  created_at = none;
  event_starts_at = none;
  outcome_deadline_at = none;
  resolution_window = none;
  rules_hash = none;
  metadata_uri = none;
  resolution_source_hash = none;
  resolution_source_uri = none;
  creator_treasury = none;
  feature_flags = none;
  market_primary_cap = none;
  primary_filled_units = 0;
  primary_payment = 0;
  creator_bond = bond;
  state = 0;
  void_reason = 0;
  winning_outcome = none;
  evidence_hash = none;
  evidence_uri = none;
  created_block = e.block_number;
  updated_block = e.block_number;
  confirmation_status = e.confirmation_status;
}

unfoldable pub on_market_created : IndexedEvent → (market creator mode bond : ℕ) → Views → Views
unfolding get put record_activity
on_market_created e market creator mode bond v =
    let key : Key = (e.chain_id, market) in
    let v' : Views = record v {
      registered = put key market v.registered;
      markets =
          if is_some (get key v.markets)
          then v.markets
          else put key (new_market e market creator mode bond) v.markets;
    } in
    record_activity e
      (record (by_actor ActivityKind.market_created market (some creator)) { amount = some bond })
      [] v'

-- `current?.field ?? initial` keeps what a known market has, and a new market has the initial values.
abbrev or_new : IndexedEvent → Initialized → Option MarketView → MarketView
or_new e m none = new_market e m.market m.creator m.deployment_mode m.creator_bond
or_new e m (some view) = view

unfoldable pub on_market_initialized : IndexedEvent → Initialized → Views → Views
unfolding get put
on_market_initialized e m v =
    let key : Key = (e.chain_id, m.market) in
    record v {
      markets =
          put key
            (record (or_new e m (get key v.markets)) {
              chain_id = e.chain_id;
              market = m.market;
              creator = m.creator;
              deployment_mode = m.deployment_mode;
              outcome_count = some m.outcome_count;
              created_at = some m.created_at;
              close_at = some m.close_at;
              event_starts_at = m.event_starts_at;
              outcome_deadline_at = some m.outcome_deadline_at;
              resolution_window = some m.resolution_window;
              market_primary_cap = some m.market_primary_cap;
              creator_bond = m.creator_bond;
              updated_block = e.block_number;
              confirmation_status = e.confirmation_status;
            })
            v.markets;
    }

-- A write to a market that is known, or the error that it is not.
abbrev pub write_known :
    {V : Type 0} → StoreError → Option V → (V → Views → Views) → Action Views (Unit {0})
write_known missing none write v = (err missing, v)
write_known missing (some view) write v = (ok tt, write view v)

abbrev update_market : IndexedEvent → ℕ → (MarketView → Views → Views) → Action Views (Unit {0})
update_market e market write v =
    write_known unknown_market (get (e.chain_id, market) v.markets) write v

abbrev write_market : Key → MarketView → Views → Views
write_market key view v = record v { markets = put key view v.markets }

unfoldable pub metadata_written : IndexedEvent → Metadata → MarketView → Views → Views
unfolding put
metadata_written e m current =
    write_market (e.chain_id, m.market)
      (record current {
        rules_hash = some m.rules_hash;
        metadata_uri = some m.metadata_uri;
        resolution_source_hash = some m.resolution_source_hash;
        resolution_source_uri = some m.resolution_source_uri;
        close_at = some m.close_at;
        event_starts_at = m.event_starts_at;
        outcome_deadline_at = some m.outcome_deadline_at;
        creator_treasury = some m.creator_treasury;
        feature_flags = some m.feature_flags;
        updated_block = e.block_number;
        confirmation_status = e.confirmation_status;
      })

unfoldable pub on_market_metadata : IndexedEvent → Metadata → Action Views (Unit {0})
unfolding get metadata_written
on_market_metadata e m = update_market e m.market (metadata_written e m)

unfoldable pub purchase_written : IndexedEvent → Purchase → MarketView → Views → Views
unfolding put record_activity
purchase_written e p current v =
    record_activity e
      (record (by_actor ActivityKind.primary_purchased p.market (some p.buyer)) {
        outcome_id = some p.outcome_id;
        units = some p.filled_units;
        amount = some p.payment;
      })
      []
      (write_market (e.chain_id, p.market)
        (record current {
          primary_filled_units = current.primary_filled_units + p.filled_units;
          primary_payment = p.total_principal;
          updated_block = e.block_number;
          confirmation_status = e.confirmation_status;
        })
        v)

unfoldable pub on_primary_purchased : IndexedEvent → Purchase → Action Views (Unit {0})
unfolding get purchase_written
on_primary_purchased e p = update_market e p.market (purchase_written e p)

abbrev terminal_activity_kind : TerminalKind → ActivityKind
terminal_activity_kind resolved = ActivityKind.market_resolved
terminal_activity_kind voided_creator = ActivityKind.market_voided_creator
terminal_activity_kind voided_no_winning_supply = ActivityKind.market_voided_no_winning_supply
terminal_activity_kind voided_timeout = ActivityKind.market_voided_timeout

-- `evidenceUriFromHash` of the SDK on what hash there is.
abbrev evidence_uri_of : (ℕ → String) → Option ℕ → Option String
evidence_uri_of uri none = none
evidence_uri_of uri (some hash) = some (uri hash)

-- The owners of the market's shares.
unfoldable pub holders : ℕ → ℕ → Dict PositionKey PositionView → List ℕ
holders chain market [] = []
holders chain market ((_, p) ∷ rest) =
    if p.chain_id == chain && (p.vault == market && ltb_ℤ (pos 0) p.balance)
    then p.owner ∷ holders chain market rest
    else holders chain market rest

unfoldable pub terminal_written :
    (ℕ → String) → IndexedEvent → Terminal → MarketView → Views → Views
unfolding put record_activity holders
terminal_written uri e t current v =
    record_activity e (by_actor (terminal_activity_kind t.terminal_kind) t.market t.caller)
      (current.creator ∷ holders e.chain_id t.market v.positions)
      (write_market (e.chain_id, t.market)
        (record current {
          state = t.state;
          void_reason = t.void_reason;
          winning_outcome = t.winning_outcome;
          evidence_hash = t.evidence_hash;
          evidence_uri = evidence_uri_of uri t.evidence_hash;
          updated_block = e.block_number;
          confirmation_status = e.confirmation_status;
        })
        v)

unfoldable pub on_market_terminal : (ℕ → String) → IndexedEvent → Terminal → Action Views (Unit {0})
unfolding get terminal_written
on_market_terminal uri e t = update_market e t.market (terminal_written uri e t)
