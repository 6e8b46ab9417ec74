-- ===== src/Indexer/Paging/Places.antt =====
-- The pages by place, read one after the other.
use Prim.Native.Nat.{Ordering}
use mathlib.Core.List.{append_assoc}
use cpredict.Prelude.{
  ℕ, zero, suc, ◌≤◌, ◌<◌, ◌≡◌, ◌≢◌, ◌↔◌, refl, sym, ap, ◌∙◌, subst, arith, Bool, true, false,
  Option, none, some, List, [], ◌∷◌, ◌++◌, ltb, if◌then◌else◌, length, take, drop, last, take-drop,
  take_all, length-drop, Result, ok, All, keep_if,
}
use cpredict.Prelude.Sort.{sort_by, IsOrder}
use cpredict.Prelude.Sort.Ascends.{
  All-sort_by, Apart, Ascends, sort_by-Ascends, keep_if-sort_by, length-sort_by,
}
use cpredict.Indexer.Types.{StoreError}
use cpredict.Indexer.Paging.{with_limit, QueryPage, page_of, place_of, read_pages, after_cursor}
use cpredict.Indexer.Paging.Read.{with_limit_ok, Covers, read_pages-Covers}

-- Where a page ends.
record Ends {ℓ} {A : Type ℓ} (limit : ℕ) (xs : List A) : Type ℓ where
  front : List A
  item : A
  is_last : last (take limit xs) ≡ some item
  split : xs ≡ front ++ item ∷ drop limit xs

page_end {ℓ} : {A : Type ℓ} (n : ℕ) (xs : List A) → n < length xs → Ends (suc n) xs
page_end n [] h = absurd (omega arith)
page_end zero (x ∷ xs) h = record { front = []; item = x; is_last = refl; split = refl }
page_end (suc n) (x ∷ []) h = absurd (omega arith)
page_end (suc n) (x ∷ y ∷ xs) h =
    let rest = page_end n (y ∷ xs) (omega arith) in
    record {
      front = x ∷ rest.front;
      item = rest.item;
      is_last = rest.is_last;
      split = ap (λ r. x ∷ r) rest.split;
    }

page_end_of {ℓ} :
    {A : Type ℓ} (limit : ℕ) (xs : List A) → 1 ≤ limit → limit < length xs → Ends limit xs
page_end_of zero xs low more = absurd (omega arith)
page_end_of (suc n) xs low more = page_end n xs (omega arith)

module _ {ℓ κ} {A : Type ℓ} {C : Type κ} (order : A → A → Ordering) (follows : C → A → Bool)
    (place : A → C) where
  -- The test against the place of an item is the order of the items.
  abbrev pub IsPlaceAt : A → Type ℓ
  IsPlaceAt a = (b : A) → (follows (place a) b ≡ true) ↔ (order a b ≡ Ordering.lt)

  abbrev pub IsPlace : Type ℓ
  IsPlace = (a : A) → IsPlaceAt a

  module _ (o : IsOrder order) where
    follows_not : (a b : A) → IsPlaceAt a → order a b ≢ Ordering.lt → follows (place a) b ≡ false
    follows_not a b at h = go (follows (place a) b) (at b).0
      where
        go : (r : Bool) → (r ≡ true → order a b ≡ Ordering.lt) → r ≡ false
        go false k = refl
        go true k = absurd (h (k refl))

    keep_rest :
        (b : A) (xs : List A)
        → IsPlaceAt b
        → All (λ y. order b y ≡ Ordering.lt) xs
        → keep_if (follows (place b)) xs ≡ xs
    keep_rest b [] at h = refl
    keep_rest b (x ∷ xs) at (h, hs) =
        ap (λ t. if t then x ∷ keep_if (follows (place b)) xs else keep_if (follows (place b)) xs)
          ((at x).1 h)
        ∙ ap (λ r. x ∷ r) (keep_rest b xs at hs)

    irreflexive : (b : A) → order b b ≢ Ordering.lt
    irreflexive b h = cc (h, o.lt_flip b b h)

    -- What follows an item of a list in strict order is the rest of the list.
    keep_after :
        (front : List A) (b : A) (rest : List A)
        → IsPlaceAt b
        → Ascends order (front ++ b ∷ rest)
        → keep_if (follows (place b)) (front ++ b ∷ rest) ≡ rest
    keep_after [] b rest at (h, s) =
        ap
          (λ t.
            if t then b ∷ keep_if (follows (place b)) rest else keep_if (follows (place b)) rest)
          (follows_not b b at (irreflexive b))
        ∙ keep_rest b rest at h
    keep_after (x ∷ front) b rest at (h, s) =
        ap
          (λ t.
            if t
            then x ∷ keep_if (follows (place b)) (front ++ b ∷ rest)
            else keep_if (follows (place b)) (front ++ b ∷ rest))
          (follows_not b x at (λ k. cc (o.lt_flip x b (mid front h), k)))
        ∙ keep_after front b rest at s
      where
        mid :
            (front : List A)
            → All (λ y. order x y ≡ Ordering.lt) (front ++ b ∷ rest)
            → order x b ≡ Ordering.lt
        mid [] k = k.0
        mid (y ∷ ys) k = mid ys k.1

    module _ (items : List A) (limit : ℕ) (apart : Apart order items) where
      abbrev page_from : Option C → Result StoreError (QueryPage A C)
      page_from cursor =
          with_limit limit
            (ok (page_of place limit (sort_by order (keep_if (after_cursor follows cursor) items))))

      abbrev sorted : List A
      sorted = sort_by order items

      abbrev rest_after : Option C → List A
      rest_after cursor = keep_if (after_cursor follows cursor) sorted

      page_from-page_of :
          (cursor : Option C)
          → 1 ≤ limit
          → limit ≤ 100
          → page_from cursor ≡ ok (page_of place limit (rest_after cursor))
      page_from-page_of cursor low high =
          with_limit_ok limit _ low high
          ∙ ap (λ r. ok (page_of place limit r))
              (sym (keep_if-sort_by order o (after_cursor follows cursor) items apart))

      page_of-Covers :
          (later : Option C → Option (List A)) (rest : List A)
          → 1 ≤ limit
          → ((front : List A) (b : A)
              → rest ≡ front ++ b ∷ drop limit rest
              → limit < length rest
              → later (some (place b)) ≡ some (drop limit rest))
          → Covers later (page_of place limit rest) rest
      page_of-Covers later rest low next = go (ltb limit (length rest)) refl
        where
          here : List A
          here = take limit rest

          go :
              (b : Bool)
              → ltb limit (length rest) ≡ b
              → Covers later
                  (record {
                    items = here;
                    next_cursor = if b then place_of place (last here) else none;
                  })
                  rest
          go false k = record {
            ends = λ _. take_all limit rest (ground arith);
            goes_on = λ c f. cc;
          }
          go true k =
              let more : limit < length rest = ground arith in
              let end = page_end_of limit rest low more in
              let it = ap (place_of place) end.is_last in
              record {
                ends = λ f. cc (it, f);
                goes_on = λ c f. (
                  drop limit rest,
                  ap later (sym f ∙ it) ∙ next end.front end.item end.split more,
                  take-drop limit rest,
                );
              }

      -- A page function that answers as `page_from` does where a client of the items asks it.
      abbrev pub Serves : (Option C → Result StoreError (QueryPage A C)) → A → Type (ℓ ⊔ κ)
      Serves page a =
          IsPlaceAt a
          × Path (Result StoreError (QueryPage A C)) (page (some (place a)))
              (page_from (some (place a)))

      module _ (page : Option C → Result StoreError (QueryPage A C))
          (first : page none ≡ page_from none) (serves : All (Serves page) items) where
        served :
            (front : List A) (b : A) (rest : List A) → sorted ≡ front ++ b ∷ rest → Serves page b
        served front b rest split =
            at front
              (subst (All (Serves page)) split (All-sort_by order (Serves page) items serves))
          where
            at : (front : List A) → All (Serves page) (front ++ b ∷ rest) → Serves page b
            at [] k = k.0
            at (x ∷ xs) k = at xs k.1

        read_from :
            1 ≤ limit
            → limit ≤ 100
            → (fuel : ℕ) (cursor : Option C) (front rest : List A) → sorted ≡ front ++ rest
            → page cursor ≡ page_from cursor
            → rest_after cursor ≡ rest
            → length rest < fuel
            → read_pages fuel page cursor ≡ some rest
        read_from low high zero cursor front rest split same at_rest enough = absurd (omega arith)
        read_from low high (suc fuel) cursor front rest split same at_rest enough =
            read_pages-Covers fuel page cursor (page_of place limit rest) rest
              (same
                ∙ (page_from-page_of cursor low high
                    ∙ ap (λ r. ok (page_of place limit r)) at_rest))
              (page_of-Covers (read_pages fuel page) rest low (λ middle b parts more.
                let whole : sorted ≡ (front ++ middle) ++ b ∷ drop limit rest =
                  split
                  ∙ (ap (λ r. front ++ r) parts
                      ∙ sym (append_assoc front middle (b ∷ drop limit rest))) in
                let (at, answers) = served (front ++ middle) b (drop limit rest) whole in
                read_from low high fuel (some (place b)) ((front ++ middle) ++ b ∷ [])
                  (drop limit rest)
                  (whole ∙ sym (append_assoc (front ++ middle) (b ∷ []) (drop limit rest))) answers
                  (ap (keep_if (follows (place b))) whole
                    ∙ keep_after (front ++ middle) b (drop limit rest) at
                        (subst (Ascends order) whole (sort_by-Ascends order o items apart)))
                  (omega (arith, length-drop limit rest))))

        keep_all : (xs : List A) → keep_if (λ _. true) xs ≡ xs
        keep_all [] = refl
        keep_all (x ∷ xs) = ap (λ r. x ∷ r) (keep_all xs)

        -- A client that reads the pages with a limit from 1 to 100, each from the place that the page
        -- before ends at, reads every item once and in order, in at most one page more than there are
        -- items. This holds where the order is total, the places of the items are tested by it, and it tells
        -- the items apart.
        pub read_pages-served :
            1 ≤ limit
            → limit ≤ 100
            → (fuel : ℕ) → length items < fuel
            → read_pages fuel page none ≡ some sorted
        read_pages-served low high fuel enough =
            read_from low high fuel none [] sorted refl first (keep_all sorted)
              (omega (arith, length-sort_by order items))
