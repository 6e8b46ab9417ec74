-- ===== src/Indexer/Memory.antt =====
-- The state of `MemoryEventStore` (offchain/indexer/src/memory-store.ts), and its methods as actions.
-- What a method wrote before it throws stays written, so the state comes back beside the error. A key
-- is the tuple of the parts that the source joins by colons.
pub mod Laws
use cpredict.Prelude.{
  ℕ, Bool, true, false, Option, none, some, List, [], ◌∷◌, ◌==◌, if◌then◌else◌, any, Result, ok,
  err, String,
}
use cpredict.Prelude.Dict.{Dict}
use cpredict.Indexer.Types.{
  IndexedEvent, CanonicalBlock, ChainCheckpoint, CanonicalScanRange, StoreError,
}
use cpredict.Indexer.Derived.{Decoded}
use cpredict.Indexer.Views.{
  MarketView, ListingView, FillView, PositionView, ClaimView, ActivityView,
}

abbrev pub Key : Type 0
Key = ℕ × ℕ

abbrev pub EventKey : Type 0
EventKey = ℕ × (ℕ × ℕ)

abbrev pub PositionKey : Type 0
PositionKey = ℕ × (ℕ × (ℕ × ℕ))

-- The projections, which a rollback clears and rebuilds.
pub record Views : Type 0 where
  pub registered : Dict Key ℕ
  pub markets : Dict Key MarketView
  pub listings : Dict Key ListingView
  pub fills : Dict EventKey FillView
  pub positions : Dict PositionKey PositionView
  pub claims : Dict EventKey ClaimView
  pub activities : Dict EventKey ActivityView
  pub participants : Dict EventKey (List ℕ)

pub record Store : Type 0 where
  pub checkpoints : Dict ℕ ChainCheckpoint
  pub ranges : Dict Key CanonicalScanRange
  pub blocks : Dict Key CanonicalBlock
  pub events : Dict EventKey IndexedEvent
  pub views : Views

abbrev pub no_views : Views
no_views = record {
  registered = [];
  markets = [];
  listings = [];
  fills = [];
  positions = [];
  claims = [];
  activities = [];
  participants = [];
}

abbrev pub empty_store : Store
empty_store = record { checkpoints = []; ranges = []; blocks = []; events = []; views = no_views }

abbrev pub event_key : IndexedEvent → EventKey
event_key e = (e.chain_id, (e.transaction_hash, e.log_index))

-- What the store takes from viem's decoder, and from `evidenceUriFromHash` of the SDK.
pub record Outside : Type 0 where
  pub decode : IndexedEvent → Result StoreError Decoded
  pub uri : ℕ → String

-- An action on a state of type `S`.
abbrev pub Action : Type 0 → Type 0 → Type 0
Action S A = S → Result StoreError A × S

module _ {S A : Type 0} where
  abbrev pub pure : A → Action S A
  pure a s = (ok a, s)

  abbrev pub raise : StoreError → Action S A
  raise e s = (err e, s)

  abbrev pub gets : (S → A) → Action S A
  gets f s = (ok (f s), s)

  abbrev pub lift : Result StoreError A → Action S A
  lift r s = (r, s)

infixl 5 ◌>>=◌ ◌>>◌
abbrev pub ◌>>=◌ : {S A B : Type 0} → Action S A → (A → Action S B) → Action S B
◌>>=◌ m f s = let (r, s') = m s in elim r [ ok a ↦ f a s' | err e ↦ (err e, s') ]

abbrev pub ◌>>◌ : {S A B : Type 0} → Action S A → Action S B → Action S B
m >> k = m >>= λ _. k

abbrev pub raise_if : {S : Type 0} → Bool → StoreError → Action S (Unit {0})
raise_if true e s = (err e, s)
raise_if false e s = (ok tt, s)

abbrev pub modify : {S : Type 0} → (S → S) → Action S (Unit {0})
modify f s = (ok tt, f s)
