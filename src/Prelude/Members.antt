-- ===== src/Prelude/Members.antt =====
-- Membership, as the library's data type, in lists that are filtered and sorted.
use Prim.Native.Nat.{Ordering, ◌≤◌}
use mathlib.Core.Bool.{Bool, true, false, ◌||◌}
use mathlib.Core.List.{List, [], ◌∷◌, Memᴰ}
use mathlib.Core.Logic.{◌↔◌, ◌≢◌}
use mathlib.Core.Path.{◌≡◌, refl, sym, ap, ◌∙◌, subst}
use native.Mathlib.Omega.{arith}
use cpredict.Prelude.Tests.{if◌then◌else◌}
use cpredict.Prelude.Lists.{All, keep_if, any, length, All-keep_if}
use cpredict.Prelude.Dict.{Dict, Eq, delete_if, put}
use mathlib.Core.Bool.{not}
use cpredict.Prelude.Sort.{insert_by, sort_by}
use cpredict.Prelude.Sort.Ascends.{Apart}

module _ {ℓ} {A : Type ℓ} where
  pub All-at {κ} : (P : A → Type κ) (xs : List A) {a : A} → All P xs → Memᴰ a xs → P a
  All-at P [] h m = elim m [ ]
  All-at P (x ∷ xs) (h, hs) (Memᴰ.head e) = subst P (sym e) h
  All-at P (x ∷ xs) (h, hs) (Memᴰ.tail m) = All-at P xs hs m

  kept_member :
      (p : A → Bool) (a : A) (xs : List A) → Memᴰ a (keep_if p xs) → Memᴰ a xs × (p a ≡ true)
  kept_member p a [] m = elim m [ ]
  kept_member p a (x ∷ xs) m = go (p x) refl (kept_member p a xs) m
    where
      under : Memᴰ a xs × (p a ≡ true) → Memᴰ a (x ∷ xs) × (p a ≡ true)
      under (m, e) = (Memᴰ.tail m, e)

      go :
          (b : Bool)
          → p x ≡ b
          → (Memᴰ a (keep_if p xs) → Memᴰ a xs × (p a ≡ true))
          → Memᴰ a (if b then x ∷ keep_if p xs else keep_if p xs)
          → Memᴰ a (x ∷ xs) × (p a ≡ true)
      go true e below (Memᴰ.head q) = (Memᴰ.head q, ap p q ∙ e)
      go true e below (Memᴰ.tail m) = under (below m)
      go false e below m = under (below m)

  member_kept :
      (p : A → Bool) (a : A) (xs : List A) → Memᴰ a xs → p a ≡ true → Memᴰ a (keep_if p xs)
  member_kept p a [] m h = elim m [ ]
  member_kept p a (x ∷ xs) (Memᴰ.head q) h =
      subst (λ b. Memᴰ a (if b then x ∷ keep_if p xs else keep_if p xs)) (sym h ∙ ap p q)
        (Memᴰ.head q)
  member_kept p a (x ∷ xs) (Memᴰ.tail m) h = go (p x) (member_kept p a xs m h)
    where
      go :
          (b : Bool) → Memᴰ a (keep_if p xs) → Memᴰ a (if b then x ∷ keep_if p xs else keep_if p xs)
      go true k = Memᴰ.tail k
      go false k = k

  pub Mem-keep_if :
      (p : A → Bool) (a : A) (xs : List A) → Memᴰ a (keep_if p xs) ↔ (Memᴰ a xs × (p a ≡ true))
  Mem-keep_if p a xs = (kept_member p a xs, λ k. member_kept p a xs k.0 k.1)

  any-found : (p : A → Bool) (xs : List A) → any p xs ≡ true → (a : A) × Memᴰ a xs × (p a ≡ true)
  any-found p [] h = absurd (ground arith)
  any-found p (x ∷ xs) h = go (p x) refl h (any-found p xs)
    where
      below : (a : A) × Memᴰ a xs × (p a ≡ true) → (a : A) × Memᴰ a (x ∷ xs) × (p a ≡ true)
      below (a, m, e) = (a, Memᴰ.tail m, e)

      go :
          (b : Bool)
          → p x ≡ b
          → (b || any p xs) ≡ true
          → (any p xs ≡ true → (a : A) × Memᴰ a xs × (p a ≡ true))
          → (a : A) × Memᴰ a (x ∷ xs) × (p a ≡ true)
      go true e k rest = (x, Memᴰ.head refl, e)
      go false e k rest = below (rest k)

  found-any : (p : A → Bool) (xs : List A) (a : A) → Memᴰ a xs → p a ≡ true → any p xs ≡ true
  found-any p [] a m h = elim m [ ]
  found-any p (x ∷ xs) a (Memᴰ.head q) h = let here : p x ≡ true = ap p (sym q) ∙ h in ground arith
  found-any p (x ∷ xs) a (Memᴰ.tail m) h = ground (arith, found-any p xs a m h)

  pub any_iff :
      (p : A → Bool) (xs : List A) → (any p xs ≡ true) ↔ ((a : A) × Memᴰ a xs × (p a ≡ true))
  any_iff p xs = (any-found p xs, λ k. found-any p xs k.0 k.1 k.2)

  -- What is kept passed the test.
  pub All-kept {κ} :
      (P : A → Type κ) (p : A → Bool) (xs : List A)
      → All P xs
      → All (λ x. P x × (p x ≡ true)) (keep_if p xs)
  All-kept P p [] h = tt
  All-kept P p (x ∷ xs) (h, hs) = go (p x) refl (All-kept P p xs hs)
    where
      go :
          (b : Bool)
          → p x ≡ b
          → All (λ x. P x × (p x ≡ true)) (keep_if p xs)
          → All (λ x. P x × (p x ≡ true)) (if b then x ∷ keep_if p xs else keep_if p xs)
      go true e r = ((h, e), r)
      go false e r = r

  pub length-keep_if : (p : A → Bool) (xs : List A) → length (keep_if p xs) ≤ length xs
  length-keep_if p [] = omega arith
  length-keep_if p (x ∷ xs) = ground (arith, length-keep_if p xs)

  module _ (order : A → A → Ordering) where
    pub Apart-keep_if : (p : A → Bool) (xs : List A) → Apart order xs → Apart order (keep_if p xs)
    Apart-keep_if p [] h = tt
    Apart-keep_if p (x ∷ xs) (h, hs) =
        go (p x) (All-keep_if (λ y. order x y ≢ Ordering.eq) p xs h) (Apart-keep_if p xs hs)
      where
        go :
            (b : Bool)
            → All (λ y. order x y ≢ Ordering.eq) (keep_if p xs)
            → Apart order (keep_if p xs)
            → Apart order (if b then x ∷ keep_if p xs else keep_if p xs)
        go true k ks = (k, ks)
        go false k ks = ks

    inserted : (a x : A) (xs : List A) → Memᴰ a (insert_by order x xs) → Memᴰ a (x ∷ xs)
    unfolding insert_by
    inserted a x [] m = m
    inserted a x (y ∷ ys) m = go (order x y) (inserted a x ys) m
      where
        swap : Memᴰ a (x ∷ ys) → Memᴰ a (x ∷ y ∷ ys)
        swap (Memᴰ.head e) = Memᴰ.head e
        swap (Memᴰ.tail m) = Memᴰ.tail (Memᴰ.tail m)

        go :
            (o : Ordering)
            → (Memᴰ a (insert_by order x ys) → Memᴰ a (x ∷ ys))
            → Memᴰ a (elim o as (λ _. List A) [
              | Ordering.gt ↦ y ∷ insert_by order x ys
              | _ ↦ x ∷ y ∷ ys
            ])
            → Memᴰ a (x ∷ y ∷ ys)
        go Ordering.gt below (Memᴰ.head e) = Memᴰ.tail (Memᴰ.head e)
        go Ordering.gt below (Memᴰ.tail m) = swap (below m)
        go Ordering.lt below m = m
        go Ordering.eq below m = m

    insertion : (a x : A) (xs : List A) → Memᴰ a (x ∷ xs) → Memᴰ a (insert_by order x xs)
    unfolding insert_by
    insertion a x [] m = m
    insertion a x (y ∷ ys) m = go (order x y) (insertion a x ys) m
      where
        go :
            (o : Ordering)
            → (Memᴰ a (x ∷ ys) → Memᴰ a (insert_by order x ys))
            → Memᴰ a (x ∷ y ∷ ys)
            → Memᴰ a (elim o as (λ _. List A) [
              | Ordering.gt ↦ y ∷ insert_by order x ys
              | _ ↦ x ∷ y ∷ ys
            ])
        go Ordering.gt below (Memᴰ.head e) = Memᴰ.tail (below (Memᴰ.head e))
        go Ordering.gt below (Memᴰ.tail (Memᴰ.head e)) = Memᴰ.head e
        go Ordering.gt below (Memᴰ.tail (Memᴰ.tail m)) = Memᴰ.tail (below (Memᴰ.tail m))
        go Ordering.lt below m = m
        go Ordering.eq below m = m

    sorted_member : (a : A) (xs : List A) → Memᴰ a (sort_by order xs) → Memᴰ a xs
    unfolding sort_by
    sorted_member a [] m = m
    sorted_member a (x ∷ xs) m = under (sorted_member a xs) (inserted a x (sort_by order xs) m)
      where
        under :
            (Memᴰ a (sort_by order xs) → Memᴰ a xs)
            → Memᴰ a (x ∷ sort_by order xs)
            → Memᴰ a (x ∷ xs)
        under below (Memᴰ.head e) = Memᴰ.head e
        under below (Memᴰ.tail m) = Memᴰ.tail (below m)

    member_sorted : (a : A) (xs : List A) → Memᴰ a xs → Memᴰ a (sort_by order xs)
    unfolding sort_by
    member_sorted a [] m = elim m [ ]
    member_sorted a (x ∷ xs) (Memᴰ.head e) = insertion a x (sort_by order xs) (Memᴰ.head e)
    member_sorted a (x ∷ xs) (Memᴰ.tail m) =
        insertion a x (sort_by order xs) (Memᴰ.tail (member_sorted a xs m))

    pub Mem-sort_by : (a : A) (xs : List A) → Memᴰ a (sort_by order xs) ↔ Memᴰ a xs
    Mem-sort_by a xs = (sorted_member a xs, member_sorted a xs)

-- Entries of a map whose deletion or whose write is by key.
module _ {ℓ κ} {K : Type ℓ} ⦃e : Eq K⦄ {V : Type κ} where
  delete_if-keep_if :
      (p : K → V → Bool) (d : Dict K V) → delete_if p d ≡ keep_if (λ kv. not (p kv.0 kv.1)) d
  unfolding delete_if
  delete_if-keep_if p [] = refl
  delete_if-keep_if p ((k, v) ∷ d) = go (p k v) (delete_if-keep_if p d)
    where
      kept : Dict K V
      kept = keep_if (λ kv. not (p kv.0 kv.1)) d

      go :
          (b : Bool)
          → delete_if p d ≡ kept
          → (if b then delete_if p d else (k, v) ∷ delete_if p d)
            ≡ (if not b then (k, v) ∷ kept else kept)
      go true h = h
      go false h = ap (λ r. (k, v) ∷ r) h

  pub Mem-delete_if :
      (p : K → V → Bool) (kv : K × V) (d : Dict K V)
      → Memᴰ kv (delete_if p d) ↔ (Memᴰ kv d × (not (p kv.0 kv.1) ≡ true))
  Mem-delete_if p kv d =
      subst (λ l. Memᴰ kv l ↔ (Memᴰ kv d × (not (p kv.0 kv.1) ≡ true)))
        (sym (delete_if-keep_if p d)) (Mem-keep_if (λ kv. not (p kv.0 kv.1)) kv d)

  entry_put :
      (k : K) (v : V) (kv : K × V) (d : Dict K V) → kv.0 ≢ k → Memᴰ kv (put k v d) → Memᴰ kv d
  unfolding put
  entry_put k v kv [] other (Memᴰ.head q) = absurd (other (ap (λ t. t.0) q))
  entry_put k v kv [] other (Memᴰ.tail m) = m
  entry_put k v kv ((j, w) ∷ d) other m = go (e.same k j) (entry_put k v kv d other) m
    where
      go :
          (b : Bool)
          → (Memᴰ kv (put k v d) → Memᴰ kv d)
          → Memᴰ kv (if b then (k, v) ∷ d else (j, w) ∷ put k v d)
          → Memᴰ kv ((j, w) ∷ d)
      go true below (Memᴰ.head q) = absurd (other (ap (λ t. t.0) q))
      go true below (Memᴰ.tail m) = Memᴰ.tail m
      go false below (Memᴰ.head q) = Memᴰ.head q
      go false below (Memᴰ.tail m) = Memᴰ.tail (below m)

  put_entry :
      (k : K) (v : V) (kv : K × V) (d : Dict K V) → kv.0 ≢ k → Memᴰ kv d → Memᴰ kv (put k v d)
  unfolding put
  put_entry k v kv [] other m = elim m [ ]
  put_entry k v kv ((j, w) ∷ d) other m = go (e.same k j) refl (put_entry k v kv d other) m
    where
      go :
          (b : Bool)
          → e.same k j ≡ b
          → (Memᴰ kv d → Memᴰ kv (put k v d))
          → Memᴰ kv ((j, w) ∷ d)
          → Memᴰ kv (if b then (k, v) ∷ d else (j, w) ∷ put k v d)
      go true h below (Memᴰ.head q) = absurd (other (ap (λ t. t.0) q ∙ sym ((e.same_iff k j).0 h)))
      go true h below (Memᴰ.tail m) = Memᴰ.tail m
      go false h below (Memᴰ.head q) = Memᴰ.head q
      go false h below (Memᴰ.tail m) = Memᴰ.tail (below m)

  -- A write leaves the entries of the other keys.
  pub Mem-put :
      (k : K) (v : V) (kv : K × V) (d : Dict K V) → kv.0 ≢ k → Memᴰ kv (put k v d) ↔ Memᴰ kv d
  Mem-put k v kv d other = (entry_put k v kv d other, put_entry k v kv d other)
