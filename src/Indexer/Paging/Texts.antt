-- ===== src/Indexer/Paging/Texts.antt =====
-- The pages after the text of a cursor, read one after the other.
use Prim.Native.Nat.{Ordering}
use cpredict.Prelude.{
  ℕ, ◌≤◌, ◌<◌, ◌≡◌, ◌↔◌, refl, sym, ap, ◌∙◌, subst, Bool, true, false, Option, none, some, List,
  length, Result, ok, err, All, All-imp, keep_if,
}
use cpredict.Prelude.Sort.{sort_by, IsOrder}
use cpredict.Prelude.Sort.Ascends.{Apart}
use cpredict.Indexer.Types.{StoreError}
use cpredict.Indexer.Paging.{QueryPage, page_of, with_limit, after_cursor, read_pages, page_after}
use cpredict.Indexer.Paging.Places.{IsPlace, IsPlaceAt, Serves, read_pages-served}

module _ {A P T : Type 0} (order : A → A → Ordering) (follows : P → A → Bool) (place : A → P)
    (read : T → Result StoreError P) (write : P → T) where
  abbrev text_of : A → T
  text_of a = write (place a)

  -- The test of a cursor whose text has been read.
  abbrev follows_read : Result StoreError P → A → Bool
  follows_read (err x) a = false
  follows_read (ok c) a = follows c a

  abbrev follows_text : T → A → Bool
  follows_text t = follows_read (read t)

  -- The text of the place of an item is read as that place.
  abbrev pub IsRead : A → Type 0
  IsRead a = read (text_of a) ≡ ok (place a)

  text_of-IsPlaceAt :
      IsPlace order follows place → (a : A) → IsRead a → IsPlaceAt order follows_text text_of a
  text_of-IsPlaceAt at a known b =
      subst (λ r. (follows_read r b ≡ true) ↔ (order a b ≡ Ordering.lt)) (sym known) (at a b)

  module _ (o : IsOrder order) (at : IsPlace order follows place) (items : List A) (limit : ℕ)
      (apart : Apart order items) where
    abbrev page : Option T → Result StoreError (QueryPage A T)
    page cursor =
        page_after order follows place read write items (record { limit = limit; cursor = cursor })

    -- The page from a cursor on, by the result of reading its text.
    abbrev page_from_read : Result StoreError P → Result StoreError (QueryPage A T)
    page_from_read found =
        with_limit limit
          (elim (elim found as (λ _. Result StoreError (Option P)) [
            | err x ↦ err x
            | ok c ↦ ok (some c)
          ])
            as (λ _. Result StoreError (QueryPage A T)) [
              | err x ↦ err x
              | ok cursor ↦ ok (
                  page_of text_of limit
                    (sort_by order (keep_if (after_cursor follows cursor) items)))
            ])

    page-Serves : (a : A) → IsRead a → Serves order follows_text text_of o items limit apart page a
    unfolding page_after
    page-Serves a known = (
      text_of-IsPlaceAt at a known,
      ap page_from_read known
          ∙ sym (
              ap
                (λ r.
                  with_limit limit
                    (ok (page_of text_of limit (sort_by order (keep_if (follows_read r) items)))))
                known),
    )

    -- A client that reads the pages with a limit from 1 to 100, each from the cursor that the page before
    -- gives, reads every item once and in order, in at most one page more than there are items. This
    -- holds where the order is total, the places are tested by it, it tells the items apart, and the
    -- cursors of the items are read as they are written.
    pub read_pages-page_after :
        All IsRead items
        → 1 ≤ limit
        → limit ≤ 100
        → (fuel : ℕ) → length items < fuel
        → read_pages fuel page none ≡ some (sort_by order items)
    unfolding page_after
    read_pages-page_after known =
        read_pages-served order follows_text text_of o items limit apart page refl
          (All-imp IsRead _ items page-Serves known)
