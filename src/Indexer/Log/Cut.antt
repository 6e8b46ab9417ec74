-- ===== src/Indexer/Log/Cut.antt =====
-- A rollback cuts the log.
use cpredict.Indexer.Rollback.Laws.{get-kept_block}
use cpredict.Indexer.Apply.Canonical.{IsCanonical}
use cpredict.Indexer.Log.Replay.{project_all-append, project_all-InChain}
use cpredict.Indexer.Log.{
  StoreError, project_all, replay, IsReplayed, log_of, Store, Outside, no_views, cut,
}
use cpredict.Prelude.Dict.{values}
use cpredict.Indexer.Trade.Chains.{no_views-InChain, InChain, Under}
use cpredict.Indexer.Types.{ChainCheckpoint, CanonicalBlock, IndexedEvent}
use cpredict.Indexer.Memory.{Views, EventKey}
use cpredict.Prelude.{
  All-keep_if, ==_iff, ℕ, ◌≡◌, refl, sym, ap, ◌∙◌, subst, arith, Bool, true, false, not, Option,
  none, some, [], ◌∷◌, ok, Result, if◌then◌else◌, is_some, ◌==◌, ◌&&◌,
}
use cpredict.Prelude.Dict.{Eq, nat_eq, pair_eq, Dict, get, delete_if}
use cpredict.Prelude.Sort.{sort_by}
use cpredict.Indexer.Rollback.{
  set_ancestor, ancestor, rollback_after, drop_history, rebuild, after, of_chain, chain_events,
  clear_projections, compare_events,
}
use cpredict.Indexer.Memory.{◌>>◌}
use cpredict.Indexer.Log.Order.{InOrder, OneChain, sort_by-InOrder, cut-InOrder, cut_first}

values-delete_if :
    (chain : ℕ) (limit : Option ℕ) (d : Dict EventKey IndexedEvent)
    → OneChain chain (values d)
    → values (delete_if (λ _ e. e.chain_id == chain && after limit e.block_number) d)
      ≡ cut limit (values d)
unfolding delete_if
values-delete_if chain limit [] h = refl
values-delete_if chain limit ((k, e) ∷ d) (same, h) =
    go (e.chain_id == chain) ((==_iff e.chain_id chain).1 same) (after limit e.block_number)
      (values-delete_if chain limit d h)
  where
    left : Dict EventKey IndexedEvent
    left = delete_if (λ _ e. e.chain_id == chain && after limit e.block_number) d

    go :
        (a : Bool)
        → a ≡ true
        → (b : Bool) → values left ≡ cut limit (values d)
        → values (if a && b then left else (k, e) ∷ left)
          ≡ (if not b then e ∷ cut limit (values d) else cut limit (values d))
    go true t true r = r
    go true t false r = ap (λ x. e ∷ x) r
    go false t b r = cc

chain_events-values :
    (chain : ℕ) (d : Dict EventKey IndexedEvent)
    → OneChain chain (values d)
    → chain_events chain d ≡ values d
unfolding chain_events
chain_events-values chain [] h = refl
chain_events-values chain ((k, e) ∷ d) (same, h) =
    ap (λ b. if b then e ∷ chain_events chain d else chain_events chain d)
      ((==_iff e.chain_id chain).1 same)
    ∙ ap (λ r. e ∷ r) (chain_events-values chain d h)

delete_if-Under :
    {K V : Type 0} ⦃q : Eq K⦄ (chain : ℕ) (d : Dict (ℕ × K) V)
    → Under chain d
    → delete_if (of_chain chain) d ≡ []
unfolding delete_if
delete_if-Under chain [] h = refl
delete_if-Under chain ((k, v) ∷ d) (same, h) =
    ap (λ b. if b then delete_if (of_chain chain) d else (k, v) ∷ delete_if (of_chain chain) d)
      ((==_iff k.0 chain).1 same)
    ∙ delete_if-Under chain d h

clear_projections-InChain :
    (chain : ℕ) (v : Views) → InChain chain v → clear_projections chain v ≡ no_views
unfolding clear_projections
clear_projections-InChain chain v h i = record {
  registered = delete_if-Under chain v.registered h.registered i;
  markets = delete_if-Under chain v.markets h.markets i;
  listings = delete_if-Under chain v.listings h.listings i;
  fills = delete_if-Under chain v.fills h.fills i;
  positions = delete_if-Under chain v.positions h.positions i;
  claims = delete_if-Under chain v.claims h.claims i;
  activities = delete_if-Under chain v.activities h.activities i;
  participants = delete_if-Under chain v.participants h.participants i;
}

-- The views of a log of the chain stand under the chain.
IsReplayed-InChain :
    (o : Outside) (chain : ℕ) (s : Store)
    → OneChain chain (log_of s)
    → IsReplayed o s
    → InChain chain s.views
IsReplayed-InChain o chain s same h =
    subst (InChain chain) (ap (λ r. r.1) h)
      (project_all-InChain o chain (log_of s) same no_views (no_views-InChain chain))

-- The views are rebuilt from the cut log.
rebuild-cut :
    (o : Outside) (chain : ℕ) (limit : Option ℕ) (s : Store)
    → OneChain chain (log_of s)
    → InOrder (log_of s)
    → IsReplayed o s
    → (u : Views) × (replay o (cut limit (log_of s)) ≡ (ok tt, u))
      × (rebuild o chain (drop_history chain limit s) s.views ≡ (ok tt, u))
rebuild-cut o chain limit s same order replayed =
    let (later, split) = cut_first limit (log_of s) order in
    let (u, first, _) =
      project_all-append o (cut limit (log_of s)) later no_views s.views
        (subst (λ log. replay o log ≡ (ok tt, s.views)) split replayed) in
    let cleared : clear_projections chain s.views ≡ no_views =
      clear_projections-InChain chain s.views (IsReplayed-InChain o chain s same replayed) in
    let t = drop_history chain limit s in
    let left : values t.events ≡ cut limit (log_of s) =
      values-delete_if chain limit s.events same in
    let kept : OneChain chain (values t.events) = subst (OneChain chain) (sym left) (
      All-keep_if (λ e. e.chain_id ≡ chain) (λ e. not (after limit e.block_number)) (log_of s)
        same) in
    let sorted : sort_by compare_events (chain_events chain t.events) ≡ cut limit (log_of s) =
      ap (sort_by compare_events) (chain_events-values chain t.events kept ∙ left)
      ∙ sort_by-InOrder (cut limit (log_of s)) (cut-InOrder limit (log_of s) order) in
    (
      u,
      first,
      subst
          (λ v. project_all o (sort_by compare_events (chain_events chain t.events)) v ≡ (ok tt, u))
          (sym cleared) (subst (λ es. project_all o es no_views ≡ (ok tt, u)) (sym sorted) first),
    )

ancestor_found :
    (chain n : ℕ) (found : Option CanonicalBlock) (s : Store)
    → is_some found ≡ true
    → (d : Dict ℕ ChainCheckpoint) × (ancestor chain n found s
        ≡ (ok tt, record s { checkpoints = d }))
ancestor_found chain n none s h = cc
ancestor_found chain n (some b) s h = (_, refl)

-- The history that a rollback to the block leaves has the block.
block_kept :
    (chain n : ℕ) (s : Store)
    → IsCanonical s
    → is_some (get (chain, n) s.blocks) ≡ true
    → is_some (get (chain, n) (drop_history chain (some n) s).blocks) ≡ true
block_kept chain n s canonical stored =
    ap is_some (get-kept_block chain (some n) chain n s.blocks (ground arith) canonical.keyed)
    ∙ stored

-- In a canonical store with a log of the one chain that is in the order of the chain, and whose views are
-- those of the log, a rollback to a stored block returns, the log is cut after the block, and the
-- rebuilt views are those of the log that is left.
pub rollback_after-cut :
    (o : Outside) (chain n : ℕ) (s : Store)
    → IsCanonical s
    → OneChain chain (log_of s)
    → InOrder (log_of s)
    → IsReplayed o s
    → is_some (get (chain, n) s.blocks) ≡ true
    → (s' : Store) × (rollback_after o chain (some n) s ≡ (ok tt, s'))
      × IsReplayed o s'
      × (log_of s' ≡ cut (some n) (log_of s))
unfolding rollback_after
rollback_after-cut o chain n s canonical same order replayed stored =
    let t = drop_history chain (some n) s in
    let (u, first, rebuilt) = rebuild-cut o chain (some n) s same order replayed in
    let left : values t.events ≡ cut (some n) (log_of s) =
      values-delete_if chain (some n) s.events same in
    let (d, found) =
      ancestor_found chain n (get (chain, n) t.blocks) (record t { views = u })
        (block_kept chain n s canonical stored) in
    (
      record t { views = u; checkpoints = d },
      subst
          (λ (p : Result StoreError (Unit {0}) × Views).
            ((λ (_ : Store). (p.0, record t { views = p.1 })) >> set_ancestor chain (some n)) t
            ≡ (ok tt, record t { views = u; checkpoints = d }))
          (sym rebuilt) found,
      subst (λ log. replay o log ≡ (ok tt, u)) (sym left) first,
      left,
    )
