-- ===== src/Indexer/Log/Order.antt =====
-- A log in the order of the chain, and its cut.
use cpredict.Indexer.Log.{cut}
use cpredict.Indexer.Types.{IndexedEvent}
use Prim.Native.Nat.{Ordering}
use mathlib.Core.Logic.{◌≢◌}
use cpredict.Prelude.{
  All-keep_if, ℕ, ◌≡◌, refl, sym, ap, ◌∙◌, arith, Bool, true, false, not, Option, none, some, List,
  [], ◌∷◌, ◌++◌, All, All-imp, if◌then◌else◌,
}
use cpredict.Prelude.Dict.{nat_eq, pair_eq}
use cpredict.Prelude.Sort.{sort_by, insert_by}
use cpredict.Prelude.Sort.Laws.{insert_before}
use cpredict.Indexer.Rollback.{after, compare_events}

-- No event comes after a later one, in the order of the source's `compareEvents`.
abbrev pub InOrder : List IndexedEvent → Type 0
InOrder [] = Unit
InOrder (e ∷ es) = All (λ d. compare_events e d ≢ Ordering.gt) es × InOrder es

abbrev pub OneChain : ℕ → List IndexedEvent → Type 0
OneChain chain = All (λ e. e.chain_id ≡ chain)

insert_by-InOrder :
    (e : IndexedEvent) (es : List IndexedEvent)
    → All (λ d. compare_events e d ≢ Ordering.gt) es
    → insert_by compare_events e es ≡ e ∷ es
unfolding insert_by
insert_by-InOrder e [] h = refl
insert_by-InOrder e (d ∷ es) (first, h) = insert_before compare_events e d es first

pub sort_by-InOrder : (es : List IndexedEvent) → InOrder es → sort_by compare_events es ≡ es
unfolding sort_by
sort_by-InOrder [] h = refl
sort_by-InOrder (e ∷ es) (first, h) =
    ap (insert_by compare_events e) (sort_by-InOrder es h) ∙ insert_by-InOrder e es first

pub cut-InOrder : (limit : Option ℕ) (es : List IndexedEvent) → InOrder es → InOrder (cut limit es)
cut-InOrder limit [] h = tt
cut-InOrder limit (e ∷ es) (first, h) =
    go (not (after limit e.block_number))
      (All-keep_if (λ d. compare_events e d ≢ Ordering.gt) (λ e. not (after limit e.block_number))
        es first)
      (cut-InOrder limit es h)
  where
    go :
        (b : Bool)
        → All (λ d. compare_events e d ≢ Ordering.gt) (cut limit es)
        → InOrder (cut limit es)
        → InOrder (if b then e ∷ cut limit es else cut limit es)
    go true a r = (a, r)
    go false a r = r

-- What comes later has no smaller block.
after-later :
    (limit : Option ℕ) (e d : IndexedEvent)
    → compare_events e d ≢ Ordering.gt
    → after limit e.block_number ≡ true
    → after limit d.block_number ≡ true
after-later none e d h k = refl
after-later (some n) e d h k = ground arith

cut_empty :
    (limit : Option ℕ) (es : List IndexedEvent)
    → All (λ d. after limit d.block_number ≡ true) es
    → cut limit es ≡ []
cut_empty limit [] h = refl
cut_empty limit (e ∷ es) (first, h) =
    ap (λ b. if not b then e ∷ cut limit es else cut limit es) first ∙ cut_empty limit es h

-- The cut of a log in order is its first part.
pub cut_first :
    (limit : Option ℕ) (es : List IndexedEvent)
    → InOrder es
    → (later : List IndexedEvent) × (es ≡ cut limit es ++ later)
cut_first limit [] h = ([], refl)
cut_first limit (e ∷ es) (first, h) =
    let (later, split) = cut_first limit es h in go (after limit e.block_number) refl later split
  where
    go :
        (b : Bool)
        → after limit e.block_number ≡ b
        → (later : List IndexedEvent) → es ≡ cut limit es ++ later
        → (later : List IndexedEvent) × (e ∷ es
            ≡ (if not b then e ∷ cut limit es else cut limit es) ++ later)
    go false k later split = (later, ap (λ r. e ∷ r) split)
    go true k later split = (
      e ∷ es,
      ap (λ r. r ++ e ∷ es)
          (sym (cut_empty limit es (All-imp _ _ es (λ d g. after-later limit e d g k) first))),
    )
