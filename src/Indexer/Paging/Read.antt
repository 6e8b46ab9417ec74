-- ===== src/Indexer/Paging/Read.antt =====
-- What one page adds to the reading of the pages.
use cpredict.Prelude.{
  arith, ◌≤◌, ℕ, suc, ◌≡◌, refl, sym, ap, ◌∙◌, subst, Option, none, some, List, ◌++◌, Result, ok,
  err,
}
use cpredict.Indexer.Types.{StoreError}
use cpredict.Indexer.Paging.{validate_limit, with_limit, QueryPage, before, read_pages}

-- A page that is the last one, or is followed by pages that read as the rest.
pub record Covers {ℓ κ} {A : Type ℓ} {C : Type κ} (later : Option C → Option (List A))
    (p : QueryPage A C) (items : List A) : Type (ℓ ⊔ κ) where
  pub ends : p.next_cursor ≡ none → p.items ≡ items
  pub goes_on :
      (c : C)
      → p.next_cursor ≡ some c
      → (rest : List A) × (later (some c) ≡ some rest) × (p.items ++ rest ≡ items)

pub read_pages-Covers {ℓ κ} :
    {A : Type ℓ} {C : Type κ} (n : ℕ) (page : Option C → Result StoreError (QueryPage A C))
    (cursor : Option C) (p : QueryPage A C) (items : List A)
    → page cursor ≡ ok p
    → Covers (read_pages n page) p items
    → read_pages (suc n) page cursor ≡ some items
unfolding read_pages
read_pages-Covers {A = A} {C = C} n page cursor p items h covers =
    subst
      (λ r.
        (elim r as (λ _. Option (List A)) [ err x ↦ none | ok q ↦ read_next q.items q.next_cursor ])
        ≡ some items)
      (sym h) (go p.next_cursor refl)
  where
    read_next : List A → Option C → Option (List A)
    read_next found cursor = elim cursor as (λ _. Option (List A)) [
      | none ↦ some found
      | some c ↦ before found (read_pages n page (some c))
    ]

    go : (next : Option C) → p.next_cursor ≡ next → read_next p.items next ≡ some items
    go none e = ap (λ r. some r) (covers.ends e)
    go (some c) e =
        let (rest, read, joined) = covers.goes_on c e in
        ap (before p.items) read ∙ ap (λ r. some r) joined

pub with_limit_ok {ℓ} :
    {A : Type ℓ} (limit : ℕ) (answer : Result StoreError A)
    → 1 ≤ limit
    → limit ≤ 100
    → with_limit limit answer ≡ answer
with_limit_ok {A = A} limit answer low high =
    let valid : validate_limit limit ≡ ok tt = ground arith in
    ap
      (λ (v : Result StoreError (Unit {0})). elim v as (λ _. Result StoreError A) [
        | err x ↦ err x
        | ok _ ↦ answer
      ])
      valid
