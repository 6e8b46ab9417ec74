-- ===== src/Indexer/Log/Append.antt =====
-- A batch that is accepted appends to the log.
use cpredict.Indexer.Apply.Keeps.{write_anchors-keeps}
use cpredict.Indexer.Log.Replay.{one-project_all, append-project_all}
use cpredict.Indexer.Apply.Again.{apply_batch_ok}
use cpredict.Indexer.Batch.{has_hash}
use cpredict.Indexer.Trade.{project}
use cpredict.Prelude.{
  ◌⊎◌, ◌∙◌, ◌||◌, if◌then◌else◌, refl, sym, ap, subst, true, false, some, ok, err, inl, inr, [],
}
use cpredict.Indexer.Memory.Laws.{bind_ok, outcome}
use cpredict.Prelude.Dict.{All-put, nat_eq, pair_eq}
use cpredict.Indexer.Log.{
  no_views, replay, append_new, Views, Bool, [], same_key, append_one, any, ok, log_of, event_key,
  IsReplayed,
}
use cpredict.Prelude.Dict.{values}
use cpredict.Prelude.{◌∷◌, ◌++◌, false, ◌≡◌, is_some, All, List}
use cpredict.Indexer.Memory.{Store, EventKey, Outside}
use cpredict.Indexer.Apply.{
  write_anchors, write_blocks, apply_batch, write_events, stored_hash, on_views, write_event,
}
use cpredict.Prelude.Dict.{Eq, put, Dict, get}
use cpredict.Indexer.Types.{CanonicalBatch, event_mismatch, IndexedEvent}

-- Events stand under their own keys.
abbrev pub OwnKeys : Dict EventKey IndexedEvent → Type 0
OwnKeys = All (λ ke. event_key ke.1 ≡ ke.0)

in_log :
    (k : EventKey) (d : Dict EventKey IndexedEvent)
    → OwnKeys d
    → is_some (get k d) ≡ any (same_key k) (values d)
unfolding get
in_log k [] h = refl
in_log k ((j, e) ∷ d) (own, h) =
    subst (λ i. is_some (get k ((i, e) ∷ d)) ≡ any (same_key k) (e ∷ values d)) own
      (go (same_key k e) (in_log k d h))
  where
    go :
        (b : Bool)
        → is_some (get k d) ≡ any (same_key k) (values d)
        → is_some (if b then some e else get k d) ≡ (b || any (same_key k) (values d))
    go true ih = refl
    go false ih = ih

values-put_new :
    {K V : Type 0} ⦃q : Eq K⦄ (k : K) (v : V) (d : Dict K V)
    → is_some (get k d) ≡ false
    → values (put k v d) ≡ values d ++ v ∷ []
unfolding get put
values-put_new k v [] h = refl
values-put_new ⦃q⦄ k v ((j, w) ∷ d) h = go (q.same k j) h (values-put_new k v d)
  where
    go :
        (b : Bool)
        → is_some (if b then some w else get k d) ≡ false
        → (is_some (get k d) ≡ false → values (put k v d) ≡ values d ++ v ∷ [])
        → values (if b then (k, v) ∷ d else (j, w) ∷ put k v d) ≡ w ∷ (values d ++ v ∷ [])
    go true f ih = cc
    go false f ih = ap (λ r. w ∷ r) (ih f)

-- One event, as a step on the log.
record IsStep (o : Outside) (log : List IndexedEvent) (s : Store) : Type 0 where
  keys : OwnKeys s.events
  replayed : IsReplayed o s
  logged : log_of s ≡ log

append_one_known :
    (log : List IndexedEvent) (e : IndexedEvent)
    → any (same_key (event_key e)) log ≡ true
    → append_one log e ≡ log
append_one_known log e h = ap (λ b. if b then log else log ++ e ∷ []) h

append_one_fresh :
    (log : List IndexedEvent) (e : IndexedEvent)
    → any (same_key (event_key e)) log ≡ false
    → append_one log e ≡ log ++ e ∷ []
append_one_fresh log e h = ap (λ b. if b then log else log ++ e ∷ []) h

with_event-IsStep :
    (o : Outside) (e : IndexedEvent) (s : Store) (w : Views)
    → OwnKeys s.events
    → IsReplayed o s
    → is_some (get (event_key e) s.events) ≡ false
    → project o e s.views ≡ (ok tt, w)
    → IsStep o
        (append_one (log_of s) e)
        (record s { events = put (event_key e) e s.events; views = w })
with_event-IsStep o e s w own replayed fresh h =
    let longer : values (put (event_key e) e s.events) ≡ log_of s ++ e ∷ [] =
      values-put_new (event_key e) e s.events fresh in
    record {
      keys = All-put (λ ke. event_key ke.1 ≡ ke.0) (event_key e) e s.events refl own;
      replayed =
          subst (λ log. replay o log ≡ (ok tt, w)) (sym longer)
            (append-project_all o (log_of s) (e ∷ []) no_views s.views w replayed
              (one-project_all o e s.views w h));
      logged =
          longer
          ∙ sym (append_one_fresh (log_of s) e (sym (in_log (event_key e) s.events own) ∙ fresh));
    }

write_event-IsStep :
    (o : Outside) (e : IndexedEvent) (s s' : Store)
    → OwnKeys s.events
    → IsReplayed o s
    → write_event o e s ≡ (ok tt, s')
    → IsStep o (append_one (log_of s) e) s'
unfolding write_event
write_event-IsStep o e s s' own replayed h =
    go (has_hash (stored_hash e.chain_id e.block_number s) e.block_hash)
      (is_some (get (event_key e) s.events)) refl h
  where
    go :
        (b c : Bool)
        → is_some (get (event_key e) s.events) ≡ c
        → outcome (
            if b
            then if c
              then (ok tt, s)
              else on_views (project o e) (record s { events = put (event_key e) e s.events })
            else (err event_mismatch, s))
          ≡ (ok tt, s')
        → IsStep o (append_one (log_of s) e) s'
    go true true known f = subst (IsStep o (append_one (log_of s) e)) (ap (λ r. r.1) f) (record {
      keys = own;
      replayed = replayed;
      logged =
          sym (append_one_known (log_of s) e (sym (in_log (event_key e) s.events own) ∙ known));
    })
    go true false fresh f = subst (IsStep o (append_one (log_of s) e)) (ap (λ r. r.1) f) (
        with_event-IsStep o e s (project o e s.views).1 own replayed fresh
          (λ i. ((f i).0, (project o e s.views).1)))
    go false c k f = cc

write_events-IsStep :
    (o : Outside) (es log : List IndexedEvent) (s s' : Store)
    → IsStep o log s
    → write_events o es s ≡ (ok tt, s')
    → IsStep o (append_new log es) s'
unfolding write_events
write_events-IsStep o [] log s s' h f = subst (IsStep o log) (ap (λ r. r.1) f) h
write_events-IsStep o (e ∷ es) log s s' h f =
    let one = write_event o e s in
    let (first, rest) = bind_ok one.0 one.1 s' (write_events o es) f in
    let step : IsStep o (append_one (log_of s) e) one.1 =
      write_event-IsStep o e s one.1 h.keys h.replayed (λ i. (first.1 i, one.1)) in
    write_events-IsStep o es (append_one log e) one.1 s'
      (subst (λ l. IsStep o (append_one l e) one.1) h.logged step) rest

-- A batch that is written.
write_blocks-IsStep :
    (o : Outside) (batch : CanonicalBatch) (log : List IndexedEvent) (s t : Store)
    → IsStep o log s
    → write_blocks o batch s ≡ (ok tt, t)
    → IsStep o (append_new log batch.events) t
write_blocks-IsStep o batch log s t h f =
    let anchored = write_anchors batch.anchors s in
    let (_, rest) = bind_ok anchored.0 anchored.1 t (write_events o batch.events) f in
    write_events-IsStep o batch.events log anchored.1 t
      (write_anchors-keeps (IsStep o log)
        (λ b u agree k. record { keys = k.keys; replayed = k.replayed; logged = k.logged })
        batch.anchors s h)
      rest

-- What an accepted batch does to the store, seen as its log: nothing, where it was the last one, or it
-- appends the events of the batch that the log does not have.
abbrev pub Appended : Outside → CanonicalBatch → Store → Store → Type 0
Appended o batch s s' =
    (s ≡ s') ⊎ (IsReplayed o s' × (log_of s' ≡ append_new (log_of s) batch.events))

-- In a store whose events stand under their own keys and whose views are those of its log, a batch that
-- `applyBatch` accepts either leaves the store as it is, or appends to the log those of its events whose
-- keys the log does not have, in order, and the views are then those of the new log.
pub apply_batch-Appended :
    (o : Outside) (batch : CanonicalBatch) (s s' : Store)
    → OwnKeys s.events
    → IsReplayed o s
    → apply_batch o batch s ≡ (ok tt, s')
    → Appended o batch s s'
apply_batch-Appended o batch s s' own replayed h = elim (apply_batch_ok o batch s s' h).1 [
  | inl (_, same) ↦ inl same
  | inr (t, written, e) ↦
      let log =
        write_blocks-IsStep o batch (log_of s) s t
          (record { keys = own; replayed = replayed; logged = refl }) written in
      inr (
        subst (λ u. IsReplayed o u × (log_of u ≡ append_new (log_of s) batch.events)) e
          (log.replayed, log.logged))
]
