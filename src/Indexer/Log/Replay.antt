-- ===== src/Indexer/Log/Replay.antt =====
-- Projections of logs, in parts.
use cpredict.Prelude.{ℕ, ◌≡◌, refl, sym, ap, subst, List, [], ◌∷◌, ◌++◌, Result, ok, All}
use cpredict.Indexer.Types.{StoreError, IndexedEvent}
use cpredict.Indexer.Memory.{Views, Outside, ◌>>◌}
use cpredict.Indexer.Memory.Laws.{>>-keeps, Keeps, bind_ok}
use cpredict.Indexer.Trade.{project}
use cpredict.Indexer.Trade.Chains.{InChain, project-InChain}
use cpredict.Indexer.Rollback.{project_all}

project_all-cons :
    (o : Outside) (e : IndexedEvent) (es : List IndexedEvent) (v w : Views)
    → project_all o (e ∷ es) v ≡ (ok tt, w)
    → (project o e v ≡ (ok tt, (project o e v).1))
      × (project_all o es (project o e v).1 ≡ (ok tt, w))
unfolding project_all
project_all-cons o e es v w h =
    let (one, rest) = bind_ok (project o e v).0 (project o e v).1 w (project_all o es) h in
    ((λ i. (one.1 i, (project o e v).1)), rest)

cons-project_all :
    (o : Outside) (e : IndexedEvent) (es : List IndexedEvent) (v u w : Views)
    → project o e v ≡ (ok tt, u)
    → project_all o es u ≡ (ok tt, w)
    → project_all o (e ∷ es) v ≡ (ok tt, w)
unfolding project_all
cons-project_all o e es v u w one rest =
    subst
      (λ (r : Result StoreError (Unit {0}) × Views).
        ((λ (_ : Views). r) >> project_all o es) v ≡ (ok tt, w))
      (sym one) rest

-- A log that projects, projects in parts.
pub project_all-append :
    (o : Outside) (xs ys : List IndexedEvent) (v w : Views)
    → project_all o (xs ++ ys) v ≡ (ok tt, w)
    → (u : Views) × (project_all o xs v ≡ (ok tt, u)) × (project_all o ys u ≡ (ok tt, w))
project_all-append o [] ys v w h = (v, unfold project_all in refl, h)
project_all-append o (x ∷ xs) ys v w h =
    let (one, rest) = project_all-cons o x (xs ++ ys) v w h in
    let (u, hx, hy) = project_all-append o xs ys (project o x v).1 w rest in
    (u, cons-project_all o x xs v (project o x v).1 u one hx, hy)

pub append-project_all :
    (o : Outside) (xs ys : List IndexedEvent) (v u w : Views)
    → project_all o xs v ≡ (ok tt, u)
    → project_all o ys u ≡ (ok tt, w)
    → project_all o (xs ++ ys) v ≡ (ok tt, w)
append-project_all o [] ys v u w hx hy =
    let same : v ≡ u = unfold project_all in ap (λ r. r.1) hx in
    subst (λ t. project_all o ys t ≡ (ok tt, w)) (sym same) hy
append-project_all o (x ∷ xs) ys v u w hx hy =
    let (one, rest) = project_all-cons o x xs v u hx in
    cons-project_all o x (xs ++ ys) v (project o x v).1 w one
      (append-project_all o xs ys (project o x v).1 u w rest hy)

pub one-project_all :
    (o : Outside) (e : IndexedEvent) (v u : Views)
    → project o e v ≡ (ok tt, u)
    → project_all o (e ∷ []) v ≡ (ok tt, u)
one-project_all o e v u h = cons-project_all o e [] v u u h (unfold project_all in refl)

-- The views of a chain's log stand under the chain.
pub project_all-InChain :
    (o : Outside) (chain : ℕ) (es : List IndexedEvent)
    → All (λ e. e.chain_id ≡ chain) es
    → Keeps (InChain chain) (project_all o es)
unfolding project_all
project_all-InChain o chain [] same v h = h
project_all-InChain o chain (e ∷ es) (same, others) v h =
    >>-keeps (InChain chain) (project o e) (project_all o es)
      (λ u k. project-InChain o e chain u same k) (project_all-InChain o chain es others) v h
