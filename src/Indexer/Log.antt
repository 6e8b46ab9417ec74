-- ===== src/Indexer/Log.antt =====
-- The store as a log of events. What the store promises is that its views are those of its log: the
-- events that it holds, projected one after the other into empty views. A batch appends to the log, and a
-- rollback cuts it.
mod Replay
pub mod Append
pub mod Order
pub mod Cut
use cpredict.Prelude.{
  ◌&&◌, ◌==◌, ◌++◌, keep_if, any, Option, ℕ, ◌≡◌, List, [], ◌∷◌, Bool, not, Result, ok,
  if◌then◌else◌, is_some,
}
use cpredict.Prelude.Dict.{values, Dict, get, nat_eq, pair_eq}
use cpredict.Indexer.Types.{StoreError, IndexedEvent}
use cpredict.Indexer.Memory.{EventKey, Views, Store, Outside, no_views, event_key}
use cpredict.Indexer.Rollback.{after, project_all}

abbrev pub log_of : Store → List IndexedEvent
log_of s = values s.events

-- The views of a log.
abbrev pub replay : Outside → List IndexedEvent → Result StoreError (Unit {0}) × Views
replay o log = project_all o log no_views

-- The store's views are its log's.
abbrev pub IsReplayed : Outside → Store → Type 0
IsReplayed o s = replay o (log_of s) ≡ (ok tt, s.views)

-- An event with the key is in the log.
abbrev pub same_key : EventKey → IndexedEvent → Bool
same_key k e = k.0 == e.chain_id && (k.1.0 == e.transaction_hash && k.1.1 == e.log_index)

-- What a batch does to the log: each of its events is appended, unless the log has it.
abbrev pub append_one : List IndexedEvent → IndexedEvent → List IndexedEvent
append_one log e = if any (same_key (event_key e)) log then log else log ++ e ∷ []

abbrev pub append_new : List IndexedEvent → List IndexedEvent → List IndexedEvent
append_new log [] = log
append_new log (e ∷ es) = append_new (append_one log e) es

-- What a rollback does to the log of a chain.
abbrev pub cut : Option ℕ → List IndexedEvent → List IndexedEvent
cut limit = keep_if (λ e. not (after limit e.block_number))
