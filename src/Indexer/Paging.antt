-- ===== src/Indexer/Paging.antt =====
-- How the queries of the stores answer in pages: `QueryPage` and `QueryOptions` of
-- offchain/indexer/src/store.ts, `queryPage` and `validateLimit` of memory-store.ts, and the pages of the
-- catalog and the activity, which go on after the last item of the page before.
mod Read
pub mod Offsets
pub mod Places
pub mod Texts
use Prim.Native.Nat.{Ordering}
use cpredict.Prelude.{
  ℕ, zero, suc, ◌+◌, Bool, true, false, ◌&&◌, Option, none, some, List, [], ◌∷◌, ◌++◌, ltb, leb,
  if◌then◌else◌, length, take, drop, last, keep_if, Result, ok, err,
}
use cpredict.Prelude.Dict.{Eq}
use cpredict.Prelude.Sort.{sort_by}
use cpredict.Indexer.Types.{StoreError, invalid_limit, invalid_cursor}

-- `C` is what a cursor is written as.
pub record QueryPage {ℓ κ} (A : Type ℓ) (C : Type κ) : Type (ℓ ⊔ κ) where
  pub items : List A
  pub next_cursor : Option C

pub record QueryOptions {κ} (C : Type κ) : Type κ where
  pub limit : ℕ
  pub cursor : Option C

abbrev pub validate_limit : ℕ → Result StoreError (Unit {0})
validate_limit limit = if leb 1 limit && leb limit 100 then ok tt else err invalid_limit

abbrev pub with_limit {ℓ} : {A : Type ℓ} → ℕ → Result StoreError A → Result StoreError A
with_limit limit answer = elim (validate_limit limit) [ err x ↦ err x | ok _ ↦ answer ]

-- `String(n)`, and `Number.parseInt(text, 10)` where it is a safe integer that is not negative.
pub record Decimal {κ} (C : Type κ) : Type κ where
  pub print : ℕ → C
  pub parse : C → Option ℕ

-- An offset is read only from the text that it is printed as.
abbrev pub offset_of {κ} : {C : Type κ} ⦃e : Eq C⦄ → Decimal C → Option C → Result StoreError ℕ
offset_of decimal none = ok 0
offset_of ⦃e⦄ decimal (some text) = elim (decimal.parse text) [
  | none ↦ err invalid_cursor
  | some n ↦ if e.same (decimal.print n) text then ok n else err invalid_cursor
]

abbrev pub page_at {ℓ κ} : {A : Type ℓ} {C : Type κ} → Decimal C → List A → ℕ → ℕ → QueryPage A C
page_at decimal items limit offset = record {
  items = take limit (drop offset items);
  next_cursor =
      if ltb (offset + limit) (length items) then some (decimal.print (offset + limit)) else none;
}

unfoldable pub query_page {ℓ κ} :
    {A : Type ℓ} {C : Type κ} ⦃e : Eq C⦄
    → Decimal C
    → List A
    → QueryOptions C
    → Result StoreError (QueryPage A C)
query_page decimal items options =
    with_limit options.limit (elim (offset_of decimal options.cursor) [
      | err x ↦ err x
      | ok offset ↦ ok (page_at decimal items options.limit offset)
    ])

-- A page of the items after a cursor, in order, with the place of its last item if there are more.
abbrev pub place_of {ℓ κ} : {A : Type ℓ} {C : Type κ} → (A → C) → Option A → Option C
place_of place none = none
place_of place (some item) = some (place item)

abbrev pub page_of {ℓ κ} : {A : Type ℓ} {C : Type κ} → (A → C) → ℕ → List A → QueryPage A C
page_of place limit rest = record {
  items = take limit rest;
  next_cursor = if ltb limit (length rest) then place_of place (last (take limit rest)) else none;
}

abbrev pub after_cursor {ℓ κ} : {A : Type ℓ} {C : Type κ} → (C → A → Bool) → Option C → A → Bool
after_cursor follows none item = true
after_cursor follows (some c) item = follows c item

-- The items of a page, before those of the pages after it.
abbrev pub before {ℓ} : {A : Type ℓ} → List A → Option (List A) → Option (List A)
before items none = none
before items (some rest) = some (items ++ rest)

-- The pages from a cursor on, as a client reads them, at most as many as the first argument says.
unfoldable pub read_pages {ℓ κ} :
    {A : Type ℓ} {C : Type κ}
    → ℕ
    → (Option C → Result StoreError (QueryPage A C))
    → Option C
    → Option (List A)
read_pages zero page cursor = none
read_pages (suc n) page cursor = elim (page cursor) [
  | err x ↦ none
  | ok p ↦ elim p.next_cursor [
    | none ↦ some p.items
    | some next ↦ before p.items (read_pages n page (some next))
  ]
]

-- The pages of a list in the order of `compare`, where the text of a cursor is read before its place is
-- tested, and the next cursor is written from the place of the last item.
module _ {A P T : Type 0} (compare : A → A → Ordering) (follows : P → A → Bool) (place : A → P)
    (read : T → Result StoreError P) (write : P → T) where
  -- `options.cursor === undefined ? undefined : marketCursor(options.cursor)`
  abbrev pub read_cursor : Option T → Result StoreError (Option P)
  read_cursor none = ok none
  read_cursor (some value) = elim (read value) [ err x ↦ err x | ok c ↦ ok (some c) ]

  unfoldable pub page_after : List A → QueryOptions T → Result StoreError (QueryPage A T)
  unfolding sort_by
  page_after items options = with_limit options.limit (elim (read_cursor options.cursor) [
    | err x ↦ err x
    | ok cursor ↦ ok (
        page_of (λ a. write (place a)) options.limit
          (sort_by compare (keep_if (after_cursor follows cursor) items)))
  ])
