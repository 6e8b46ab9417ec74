-- ===== src/Prelude/Sort/Ascends.antt =====
-- Lists in strict order, and how sorting and filtering commute.
use Prim.Native.Nat.{Ordering, suc}
use mathlib.Core.Bool.{Bool, true, false}
use mathlib.Core.List.{List, [], ◌∷◌}
use mathlib.Core.Logic.{◌≢◌}
use mathlib.Core.Path.{◌≡◌, refl, sym, ap, ◌∙◌}
use cpredict.Prelude.Tests.{if◌then◌else◌}
use cpredict.Prelude.Lists.{All-keep_if, All, keep_if, length}
use cpredict.Prelude.Sort.{insert_by, sort_by, IsOrder}
use cpredict.Prelude.Sort.Laws.{insert_after, insert_before, lt-ne-gt}

lt_of : (r : Ordering) → r ≢ Ordering.gt → r ≢ Ordering.eq → r ≡ Ordering.lt
lt_of Ordering.lt g e = refl
lt_of Ordering.eq g e = absurd (e refl)
lt_of Ordering.gt g e = absurd (g refl)

module _ {ℓ} {A : Type ℓ} (order : A → A → Ordering) where
  -- No two items are equal to the order.
  abbrev pub Apart : List A → Type 0
  Apart [] = Unit
  Apart (x ∷ xs) = All (λ y. order x y ≢ Ordering.eq) xs × Apart xs

  abbrev pub Ascends : List A → Type 0
  Ascends [] = Unit
  Ascends (x ∷ xs) = All (λ y. order x y ≡ Ordering.lt) xs × Ascends xs

  pub All-insert_by {κ} :
      (P : A → Type κ) (x : A) (xs : List A) → P x → All P xs → All P (insert_by order x xs)
  unfolding insert_by
  All-insert_by P x [] h hs = (h, tt)
  All-insert_by P x (y ∷ ys) h (hy, hs) = go (order x y) (All-insert_by P x ys h hs)
    where
      go :
          (o : Ordering)
          → All P (insert_by order x ys)
          → All P (elim o [ Ordering.gt ↦ y ∷ insert_by order x ys | _ ↦ x ∷ y ∷ ys ])
      go Ordering.gt r = (hy, r)
      go Ordering.lt r = (h, (hy, hs))
      go Ordering.eq r = (h, (hy, hs))

  pub All-sort_by {κ} : (P : A → Type κ) (xs : List A) → All P xs → All P (sort_by order xs)
  unfolding sort_by
  All-sort_by P [] h = tt
  All-sort_by P (x ∷ xs) (h, hs) = All-insert_by P x (sort_by order xs) h (All-sort_by P xs hs)

  length-insert_by : (x : A) (xs : List A) → length (insert_by order x xs) ≡ suc (length xs)
  unfolding insert_by
  length-insert_by x [] = refl
  length-insert_by x (y ∷ ys) = go (order x y) (length-insert_by x ys)
    where
      go :
          (o : Ordering)
          → length (insert_by order x ys) ≡ suc (length ys)
          → length
              (elim o as (λ _. List A) [ Ordering.gt ↦ y ∷ insert_by order x ys | _ ↦ x ∷ y ∷ ys ])
            ≡ suc (suc (length ys))
      go Ordering.gt r = ap suc r
      go Ordering.lt r = refl
      go Ordering.eq r = refl

  pub length-sort_by : (xs : List A) → length (sort_by order xs) ≡ length xs
  unfolding sort_by
  length-sort_by [] = refl
  length-sort_by (x ∷ xs) = length-insert_by x (sort_by order xs) ∙ ap suc (length-sort_by xs)

  -- What is before every item goes to the front.
  insert_first :
      (x : A) (xs : List A) → All (λ y. order x y ≡ Ordering.lt) xs → insert_by order x xs ≡ x ∷ xs
  unfolding insert_by
  insert_first x [] h = refl
  insert_first x (y ∷ ys) (h, hs) = insert_before order x y ys (lt-ne-gt h)

  module _ (o : IsOrder order) where
    -- What is before the first item is before all.
    before_all :
        (x y : A) (ys : List A)
        → order x y ≡ Ordering.lt
        → All (λ z. order x z ≢ Ordering.eq) ys
        → All (λ z. order y z ≡ Ordering.lt) ys
        → All (λ z. order x z ≡ Ordering.lt) ys
    before_all x y [] h a s = tt
    before_all x y (z ∷ zs) h (az, a) (sz, s) =
        (lt_of (order x z) (o.lt_trans x y z h (lt-ne-gt sz)) az, before_all x y zs h a s)

    insert_by-Ascends :
        (x : A) (xs : List A)
        → All (λ y. order x y ≢ Ordering.eq) xs
        → Ascends xs
        → Ascends (insert_by order x xs)
    unfolding insert_by
    insert_by-Ascends x [] a h = (tt, tt)
    insert_by-Ascends x (y ∷ ys) (ay, a) (hy, h) = go (order x y) refl (insert_by-Ascends x ys a h)
      where
        go :
            (r : Ordering)
            → order x y ≡ r
            → Ascends (insert_by order x ys)
            → Ascends (elim r [ Ordering.gt ↦ y ∷ insert_by order x ys | _ ↦ x ∷ y ∷ ys ])
        go Ordering.gt e s =
            (All-insert_by (λ z. order y z ≡ Ordering.lt) x ys (o.gt_flip x y e) hy, s)
        go Ordering.lt e s = ((e, before_all x y ys e a hy), (hy, h))
        go Ordering.eq e s = absurd (ay e)

    pub sort_by-Ascends : (xs : List A) → Apart xs → Ascends (sort_by order xs)
    unfolding sort_by
    sort_by-Ascends [] a = tt
    sort_by-Ascends (x ∷ xs) (ax, a) =
        insert_by-Ascends x (sort_by order xs) (All-sort_by (λ y. order x y ≢ Ordering.eq) xs ax)
          (sort_by-Ascends xs a)

    keep_if-insert_by :
        (p : A → Bool) (x : A) (xs : List A)
        → All (λ y. order x y ≢ Ordering.eq) xs
        → Ascends xs
        → keep_if p (insert_by order x xs)
          ≡ (if p x then insert_by order x (keep_if p xs) else keep_if p xs)
    unfolding insert_by
    keep_if-insert_by p x [] a h = refl
    keep_if-insert_by p x (y ∷ ys) (ay, a) (hy, h) =
        go (order x y) refl (keep_if-insert_by p x ys a h)
      where
        kept : List A
        kept = keep_if p (y ∷ ys)

        under :
            (b c : Bool)
            → order x y ≡ Ordering.gt
            → (if c
                then y ∷ (if b then insert_by order x (keep_if p ys) else keep_if p ys)
                else (if b then insert_by order x (keep_if p ys) else keep_if p ys))
              ≡ (if b
                  then insert_by order x (if c then y ∷ keep_if p ys else keep_if p ys)
                  else (if c then y ∷ keep_if p ys else keep_if p ys))
        under true true e = sym (insert_after order x y (keep_if p ys) e)
        under true false e = refl
        under false true e = refl
        under false false e = refl

        go :
            (r : Ordering)
            → order x y ≡ r
            → keep_if p (insert_by order x ys)
              ≡ (if p x then insert_by order x (keep_if p ys) else keep_if p ys)
            → keep_if p (elim r as (λ _. List A) [
              | Ordering.gt ↦ y ∷ insert_by order x ys
              | _ ↦ x ∷ y ∷ ys
            ])
              ≡ (if p x then insert_by order x kept else kept)
        go Ordering.gt e ih = ap (λ k. if p y then y ∷ k else k) ih ∙ under (p x) (p y) e
        go Ordering.lt e ih =
            ap (λ k. if p x then k else kept)
              (sym (
                insert_first x kept (
                  All-keep_if (λ z. order x z ≡ Ordering.lt) p (y ∷ ys)
                    (e, before_all x y ys e a hy))))
        go Ordering.eq e ih = absurd (ay e)

    pub keep_if-sort_by :
        (p : A → Bool) (xs : List A)
        → Apart xs
        → keep_if p (sort_by order xs) ≡ sort_by order (keep_if p xs)
    unfolding sort_by
    keep_if-sort_by p [] a = refl
    keep_if-sort_by p (x ∷ xs) (ax, a) =
        keep_if-insert_by p x (sort_by order xs) (All-sort_by (λ y. order x y ≢ Ordering.eq) xs ax)
          (sort_by-Ascends xs a)
        ∙ go (p x) (keep_if-sort_by p xs a)
      where
        go :
            (b : Bool)
            → keep_if p (sort_by order xs) ≡ sort_by order (keep_if p xs)
            → (if b
                then insert_by order x (keep_if p (sort_by order xs))
                else keep_if p (sort_by order xs))
              ≡ sort_by order (if b then x ∷ keep_if p xs else keep_if p xs)
        go true ih = ap (insert_by order x) ih
        go false ih = ih
