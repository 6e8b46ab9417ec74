-- ===== src/Prelude/Sort/Laws.antt =====
-- Sorting by an order without ties forgets the input's order.
use Prim.Native.Nat.{Ordering}
use mathlib.Core.List.{List, [], ◌∷◌, Permᴰ, mem-cons_self, mem-cons_of_mem}
use mathlib.Core.List.Permᴰ
use mathlib.Core.Logic.{◌≢◌, ◌⊎◌, inl, inr}
use mathlib.Core.Path.{◌≡◌, refl, sym, ap, ap₂, ◌∙◌}
use cpredict.Prelude.Sort.{insert_by, sort_by, IsOrder, NoTies}

pub after-or-not : (o : Ordering) → (o ≢ Ordering.gt) ⊎ (o ≡ Ordering.gt)
after-or-not Ordering.lt = inl (λ e. cc)
after-or-not Ordering.eq = inl (λ e. cc)
after-or-not Ordering.gt = inr refl

pub lt-ne-gt : {o : Ordering} → o ≡ Ordering.lt → o ≢ Ordering.gt
lt-ne-gt h e = cc

module _ {ℓ} {A : Type ℓ} (order : A → A → Ordering) where
  pub insert_after :
      (x y : A) (l : List A)
      → order x y ≡ Ordering.gt
      → insert_by order x (y ∷ l) ≡ y ∷ insert_by order x l
  unfolding insert_by
  insert_after x y l h = rw (h, insert_by)

  pub insert_before :
      (x y : A) (l : List A) → order x y ≢ Ordering.gt → insert_by order x (y ∷ l) ≡ x ∷ y ∷ l
  unfolding insert_by
  insert_before x y l h = go (order x y) refl h
    where
      go : (o : Ordering) → order x y ≡ o → o ≢ Ordering.gt → insert_by order x (y ∷ l) ≡ x ∷ y ∷ l
      go Ordering.lt e k = rw (e, insert_by)
      go Ordering.eq e k = rw (e, insert_by)
      go Ordering.gt e k = absurd (k refl)

  module _ (o : IsOrder order) where
    insert_lt :
        (x y : A) (l : List A)
        → order x y ≡ Ordering.lt
        → insert_by order x (insert_by order y l) ≡ insert_by order y (insert_by order x l)
    unfolding insert_by
    insert_lt x y [] h =
        insert_before x y [] (lt-ne-gt h) ∙ sym (insert_after y x [] (o.lt_flip x y h))
    insert_lt x y (z ∷ l) h = elim (after-or-not (order y z)) [
      | inl yz ↦
          let xz = o.lt_trans x y z h yz in
          ap (insert_by order x) (insert_before y z l yz)
          ∙ insert_before x y (z ∷ l) (lt-ne-gt h)
          ∙ sym (
              ap (insert_by order y) (insert_before x z l xz)
              ∙ insert_after y x (z ∷ l) (o.lt_flip x y h)
              ∙ ap (λ t. x ∷ t) (insert_before y z l yz))
      | inr yz ↦ elim (after-or-not (order x z)) [
        | inl xz ↦
            ap (insert_by order x) (insert_after y z l yz)
            ∙ insert_before x z (insert_by order y l) xz
            ∙ sym (
                ap (insert_by order y) (insert_before x z l xz)
                ∙ insert_after y x (z ∷ l) (o.lt_flip x y h)
                ∙ ap (λ t. x ∷ t) (insert_after y z l yz))
        | inr xz ↦
            ap (insert_by order x) (insert_after y z l yz)
            ∙ insert_after x z (insert_by order y l) xz
            ∙ ap (λ t. z ∷ t) (insert_lt x y l h)
            ∙ sym (
                ap (insert_by order y) (insert_after x z l xz)
                ∙ insert_after y z (insert_by order x l) yz)
      ]
    ]

    insert_swap :
        (x y : A) (l : List A)
        → (order x y ≡ Ordering.eq → x ≡ y)
        → insert_by order x (insert_by order y l) ≡ insert_by order y (insert_by order x l)
    insert_swap x y l tie = go (order x y) refl
      where
        go :
            (c : Ordering)
            → order x y ≡ c
            → insert_by order x (insert_by order y l) ≡ insert_by order y (insert_by order x l)
        go Ordering.lt e = insert_lt x y l e
        go Ordering.eq e = cc (tie e)
        go Ordering.gt e = sym (insert_lt y x l (o.gt_flip x y e))

    pub sort_by-perm :
        {l m : List A} → Permᴰ l m → NoTies order l → sort_by order l ≡ sort_by order m
    unfolding sort_by
    sort_by-perm Permᴰ.nil t = refl
    sort_by-perm (Permᴰ.cons {a = a} {b = b} {l₁ = l} e p) t =
        ap₂ (insert_by order) e
          (sort_by-perm p (λ x y mx my. t x y (mem-cons_of_mem a mx) (mem-cons_of_mem a my)))
    sort_by-perm (Permᴰ.swap {a = a} {b = b} {l = l} e e') t =
        insert_swap a b (sort_by order l) (t a b mem-cons_self (mem-cons_of_mem a mem-cons_self))
        ∙ ap₂ (λ x y. insert_by order x (insert_by order y (sort_by order l))) e' e
    sort_by-perm (Permᴰ.trans p q) t =
        sort_by-perm p t
        ∙ sort_by-perm q
            (λ x y mx my. t x y (Permᴰ.mem (Permᴰ.symm p) mx) (Permᴰ.mem (Permᴰ.symm p) my))
