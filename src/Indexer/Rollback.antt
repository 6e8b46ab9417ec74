-- ===== src/Indexer/Rollback.antt =====
-- `rollbackAfter` of offchain/indexer/src/memory-store.ts: the history after a block is dropped, and the
-- views of the chain are rebuilt from what is kept.
pub mod Laws
pub mod Retained
use Prim.Native.Nat.{compare, Ordering}
use cpredict.Prelude.{
  ℕ, Bool, true, false, not, ◌&&◌, Option, none, some, List, [], ◌∷◌, ltb, ◌==◌, if◌then◌else◌,
  Result, ok, err,
}
use cpredict.Prelude.Dict.{Dict, get, put, delete_if, nat_eq, pair_eq}
use cpredict.Prelude.Sort.{sort_by}
use cpredict.Indexer.Types.{
  IndexedEvent, CanonicalBlock, ChainCheckpoint, CanonicalScanRange, StoreError, ancestor_missing,
}
use cpredict.Indexer.Memory.{EventKey, Views, Store, Outside, Action, modify, ◌>>=◌, ◌>>◌}
use cpredict.Indexer.Trade.{project}
use cpredict.Indexer.Apply.{on_views}

abbrev pub or_else : Ordering → Ordering → Ordering
or_else Ordering.eq next = next
or_else o next = o

abbrev pub compare_events : IndexedEvent → IndexedEvent → Ordering
compare_events a b =
    or_else (compare a.block_number b.block_number)
      (or_else (compare a.transaction_index b.transaction_index) (compare a.log_index b.log_index))

-- `blockNumber === undefined || number > blockNumber`
abbrev pub after : Option ℕ → ℕ → Bool
after none n = true
after (some limit) n = ltb limit n

abbrev pub drop_history : ℕ → Option ℕ → Store → Store
drop_history chain limit s = record s {
  checkpoints = delete_if (λ k _. k == chain) s.checkpoints;
  ranges = delete_if (λ _ r. r.chain_id == chain && after limit r.to_block) s.ranges;
  blocks = delete_if (λ _ b. b.chain_id == chain && after limit b.block_number) s.blocks;
  events = delete_if (λ _ e. e.chain_id == chain && after limit e.block_number) s.events;
}

-- A key's first part is its chain, as its prefix in the source.
abbrev pub of_chain {ℓ κ} : {K : Type ℓ} {V : Type κ} → ℕ → ℕ × K → V → Bool
of_chain chain k v = k.0 == chain

unfoldable pub clear_projections : ℕ → Views → Views
unfolding delete_if
clear_projections chain v = record {
  registered = delete_if (of_chain chain) v.registered;
  markets = delete_if (of_chain chain) v.markets;
  listings = delete_if (of_chain chain) v.listings;
  fills = delete_if (of_chain chain) v.fills;
  positions = delete_if (of_chain chain) v.positions;
  claims = delete_if (of_chain chain) v.claims;
  activities = delete_if (of_chain chain) v.activities;
  participants = delete_if (of_chain chain) v.participants;
}

unfoldable pub chain_events : ℕ → Dict EventKey IndexedEvent → List IndexedEvent
chain_events chain [] = []
chain_events chain ((_, e) ∷ rest) =
    let others = chain_events chain rest in if e.chain_id == chain then e ∷ others else others

unfoldable pub project_all : Outside → List IndexedEvent → Action Views (Unit {0})
unfolding project
project_all o [] v = (ok tt, v)
project_all o (e ∷ es) v =
    let (r, v') = project o e v in elim r [ ok _ ↦ project_all o es v' | err x ↦ (err x, v') ]

abbrev pub rebuild : Outside → ℕ → Store → Action Views (Unit {0})
rebuild o chain s =
    modify (clear_projections chain)
    >> project_all o (sort_by compare_events (chain_events chain s.events))

-- The views are rebuilt from the events that the store has left.
abbrev pub rebuild_views : Outside → ℕ → Action Store (Unit {0})
rebuild_views o chain s = on_views (rebuild o chain s) s

-- The stored block of the number becomes the checkpoint.
abbrev pub ancestor : ℕ → ℕ → Option CanonicalBlock → Action Store (Unit {0})
ancestor chain number none s = (err ancestor_missing, s)
ancestor chain number (some b) s = (
  ok tt,
  record s {
    checkpoints =
        put chain (record { chain_id = chain; block_number = number; block_hash = b.block_hash })
          s.checkpoints;
  },
)

abbrev pub set_ancestor : ℕ → Option ℕ → Action Store (Unit {0})
set_ancestor chain none s = (ok tt, s)
set_ancestor chain (some number) s = ancestor chain number (get (chain, number) s.blocks) s

unfoldable pub rollback_after : Outside → ℕ → Option ℕ → Action Store (Unit {0})
unfolding get put delete_if clear_projections chain_events project_all sort_by
rollback_after o chain limit =
    modify (drop_history chain limit) >> rebuild_views o chain >> set_ancestor chain limit
