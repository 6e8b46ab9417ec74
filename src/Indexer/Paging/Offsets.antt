-- ===== src/Indexer/Paging/Offsets.antt =====
-- The pages by offset, read one after the other.
use cpredict.Indexer.Paging.Read.{with_limit_ok, read_pages-Covers, Covers}
use cpredict.Prelude.{
  ℕ, zero, suc, ◌+◌, ◌≤◌, ◌<◌, ◌≡◌, refl, sym, ap, ◌∙◌, arith, Bool, true, false, Option, none,
  some, List, ◌++◌, ltb, if◌then◌else◌, length, take, drop, take-drop, take_all, drop_add,
  length-drop, Result, ok, err,
}
use cpredict.Prelude.Dict.{Eq}
use cpredict.Indexer.Types.{StoreError, invalid_cursor}
use cpredict.Indexer.Paging.{QueryPage, Decimal, offset_of, page_at, query_page, read_pages}

module _ {ℓ κ} {A : Type ℓ} {C : Type κ} ⦃e : Eq C⦄ (decimal : Decimal C) (items : List A)
    (limit : ℕ) where
  abbrev page_from : Option C → Result StoreError (QueryPage A C)
  page_from cursor = query_page decimal items (record { limit = limit; cursor = cursor })

  -- The offsets into the items are read back as they are printed.
  abbrev pub ReadsBack : Type 0
  ReadsBack = (n : ℕ) → n < length items → decimal.parse (decimal.print n) ≡ some n

  offset_of-print :
      ReadsBack → (n : ℕ) → n < length items → offset_of decimal (some (decimal.print n)) ≡ ok n
  offset_of-print back n h = go (decimal.parse (decimal.print n)) (back n h)
    where
      go :
          (r : Option ℕ)
          → r ≡ some n
          → elim r as (λ _. Result StoreError ℕ) [
            | none ↦ err invalid_cursor
            | some m ↦
                if e.same (decimal.print m) (decimal.print n) then ok m else err invalid_cursor
          ]
            ≡ ok n
      go none k = cc
      go (some m) k =
          let same : m ≡ n = cc k in
          ap (λ b. if b then ok m else err invalid_cursor)
            ((e.same_iff (decimal.print m) (decimal.print n)).1 (ap decimal.print same))
          ∙ ap (λ j. ok j) same

  page_from-offset :
      (cursor : Option C) (offset : ℕ)
      → 1 ≤ limit
      → limit ≤ 100
      → offset_of decimal cursor ≡ ok offset
      → page_from cursor ≡ ok (page_at decimal items limit offset)
  unfolding query_page
  page_from-offset cursor offset low high h =
      with_limit_ok limit _ low high
      ∙ ap
          (λ (r : Result StoreError ℕ). elim r as (λ _. Result StoreError (QueryPage A C)) [
            | err x ↦ err x
            | ok o ↦ ok (page_at decimal items limit o)
          ])
          h

  page_at-Covers :
      (later : Option C → Option (List A)) (offset : ℕ)
      → (offset + limit < length items
          → later (some (decimal.print (offset + limit))) ≡ some (drop (offset + limit) items))
      → Covers later (page_at decimal items limit offset) (drop offset items)
  page_at-Covers later offset next = go (ltb (offset + limit) (length items)) refl
    where
      here : List A
      here = take limit (drop offset items)

      go :
          (b : Bool)
          → ltb (offset + limit) (length items) ≡ b
          → Covers later
              (record {
                items = here;
                next_cursor = if b then some (decimal.print (offset + limit)) else none;
              })
              (drop offset items)
      go false k = record {
        ends = λ _. take_all limit (drop offset items) (ground (arith, length-drop offset items));
        goes_on = λ c f. cc;
      }
      go true k = record {
        ends = λ f. cc;
        goes_on = λ c f. (
          drop (offset + limit) items,
          ap later (sym f) ∙ next (ground arith),
          ap (λ r. here ++ r) (drop_add offset limit items) ∙ take-drop limit (drop offset items),
        );
      }

  read_from :
      ReadsBack
      → 1 ≤ limit
      → limit ≤ 100
      → (fuel : ℕ) (cursor : Option C) (offset : ℕ) → offset_of decimal cursor ≡ ok offset
      → offset ≤ length items
      → length items < offset + fuel
      → read_pages fuel page_from cursor ≡ some (drop offset items)
  read_from back low high zero cursor offset at inside enough = absurd (omega arith)
  read_from back low high (suc fuel) cursor offset at inside enough =
      read_pages-Covers fuel page_from cursor (page_at decimal items limit offset)
        (drop offset items) (page_from-offset cursor offset low high at)
        (page_at-Covers (read_pages fuel page_from) offset (λ below.
          read_from back low high fuel (some (decimal.print (offset + limit))) (offset + limit)
            (offset_of-print back (offset + limit) below) (omega arith) (omega arith)))

  -- A client that reads the pages of `queryPage` with a limit from 1 to 100, each from the cursor of the page
  -- before, reads every item once and in order, in at most one page more than there are items. This holds
  -- where the offsets of the items are read back as they are printed.
  pub read_pages-query_page :
      ReadsBack
      → 1 ≤ limit
      → limit ≤ 100
      → (fuel : ℕ) → length items < fuel
      → read_pages fuel page_from none ≡ some items
  read_pages-query_page back low high fuel enough =
      read_from back low high fuel none 0 refl (omega arith) (omega arith)
