-- ===== src/Prelude/Dict.antt =====
-- A JavaScript `Map`: its entries in insertion order. A write to a key that is there replaces the
-- value in place, and a new key goes to the end.
use Prim.Native.Nat.{ℕ}
use Prim.Native.String.{String}
use mathlib.Core.Path.{◌≡◌, refl, ap}
use mathlib.Core.Logic.{◌↔◌}
use mathlib.Core.Bool.{Bool, true, false, ◌&&◌}
use mathlib.Core.Option.{Option, none, some}
use mathlib.Core.List.{List, [], ◌∷◌}
use native.Mathlib.Omega.{arith}
use text.Mathlib.Text.{◌==◌ as str_eq}
use text.Mathlib.TextEquality.{eq_iff}
use cpredict.Prelude.Lists.{All}
use cpredict.Prelude.Tests.{◌==◌, ==_iff, if◌then◌else◌}

-- Keys with a test for equality.
pub record Eq {ℓ} (K : Type ℓ) : Type ℓ where
  pub same : K → K → Bool
  pub same_iff : (a b : K) → (same a b ≡ true) ↔ (a ≡ b)

instance abbrev pub nat_eq : Eq ℕ
nat_eq = record { same = ◌==◌; same_iff = ==_iff }

instance abbrev pub text_eq : Eq String
text_eq = record { same = str_eq; same_iff = eq_iff }

pub same_pair_iff {ℓ κ} :
    {A : Type ℓ} {B : Type κ} (e : Eq A) (d : Eq B) (a b : A × B)
    → ((e.same a.0 b.0 && d.same a.1 b.1) ≡ true) ↔ (a ≡ b)
same_pair_iff e d a b = (
  λ h. ground (arith, e.same_iff a.0 b.0, d.same_iff a.1 b.1),
  λ h.
      ground
        (arith, (e.same_iff a.0 b.0).1 (ap (λ t. t.0) h), (d.same_iff a.1 b.1).1 (ap (λ t. t.1) h)),
)

instance abbrev pub pair_eq {ℓ κ} : {A : Type ℓ} {B : Type κ} ⦃e : Eq A⦄ ⦃d : Eq B⦄ → Eq (A × B)
pair_eq ⦃e⦄ ⦃d⦄ = record {
  same = λ a b. e.same a.0 b.0 && d.same a.1 b.1;
  same_iff = same_pair_iff e d;
}

abbrev pub Dict {ℓ κ} : Type ℓ → Type κ → Type (ℓ ⊔ κ)
Dict K V = List (K × V)

-- `[...map.values()]`
abbrev pub values {ℓ κ} : {K : Type ℓ} {V : Type κ} → Dict K V → List V
values [] = []
values ((_, v) ∷ d) = v ∷ values d

module _ {ℓ κ} {K : Type ℓ} ⦃e : Eq K⦄ {V : Type κ} where
  unfoldable pub get : K → Dict K V → Option V
  get k [] = none
  get k ((j, v) ∷ d) = if e.same k j then some v else get k d

  unfoldable pub put : K → V → Dict K V → Dict K V
  put k v [] = (k, v) ∷ []
  put k v ((j, w) ∷ d) = if e.same k j then (k, v) ∷ d else (j, w) ∷ put k v d

  -- The entries but those that a test names, as by deletion in a loop over the map.
  unfoldable pub delete_if : (K → V → Bool) → Dict K V → Dict K V
  delete_if p [] = []
  delete_if p ((k, v) ∷ d) = let rest = delete_if p d in if p k v then rest else (k, v) ∷ rest

  pub get-put :
      (k j : K) (v : V) (d : Dict K V)
      → get j (put k v d) ≡ (if e.same j k then some v else get j d)
  unfolding get put
  get-put k j v [] = refl
  get-put k j v ((i, w) ∷ d) =
      ground
        (arith, e.same_iff k j, e.same_iff k i, e.same_iff j k, e.same_iff j i, get-put k j v d)

  pub get-put_self : (k : K) (v : V) (d : Dict K V) → get k (put k v d) ≡ some v
  get-put_self k v d = ground (arith, get-put k k v d, (e.same_iff k k).1 refl)

  -- A predicate on the entries passes through a write.
  pub All-put {μ} :
      (P : K × V → Type μ) (k : K) (v : V) (d : Dict K V) → P (k, v) → All P d → All P (put k v d)
  unfolding put
  All-put P k v [] h hs = (h, tt)
  All-put P k v ((j, w) ∷ d) h (hj, hs) = go (e.same k j) (All-put P k v d h hs)
    where
      go : (b : Bool) → All P (put k v d) → All P (if b then (k, v) ∷ d else (j, w) ∷ put k v d)
      go true r = (h, hs)
      go false r = (hj, r)

  -- Entries whose key alone decides on them.
  pub get-delete_if :
      (p : K → V → Bool) (k : K) (d : Dict K V)
      → All (λ jv. e.same k jv.0 ≡ true → p jv.0 jv.1 ≡ false) d
      → get k (delete_if p d) ≡ get k d
  unfolding get delete_if
  get-delete_if p k [] h = refl
  get-delete_if p k ((j, v) ∷ d) (hj, hs) = ground (arith, get-delete_if p k d hs, hj)

  -- A key whose entries are all deleted.
  pub get-delete_all :
      (p : K → V → Bool) (k : K) (d : Dict K V)
      → ((j : K) (v : V) → e.same k j ≡ true → p j v ≡ true)
      → get k (delete_if p d) ≡ none
  unfolding get delete_if
  get-delete_all p k [] h = refl
  get-delete_all p k ((j, v) ∷ d) h = ground (arith, get-delete_all p k d h, h j v)

  -- What is left passed the test.
  pub All-delete_if {μ} :
      (P : K × V → Type μ) (p : K → V → Bool) (d : Dict K V)
      → All P d
      → All (λ jv. P jv × (p jv.0 jv.1 ≡ false)) (delete_if p d)
  unfolding delete_if
  All-delete_if P p [] h = tt
  All-delete_if P p ((k, v) ∷ d) (h, hs) = go (p k v) refl (All-delete_if P p d hs)
    where
      go :
          (b : Bool)
          → p k v ≡ b
          → All (λ jv. P jv × (p jv.0 jv.1 ≡ false)) (delete_if p d)
          → All
              (λ jv. P jv × (p jv.0 jv.1 ≡ false))
              (if b then delete_if p d else (k, v) ∷ delete_if p d)
      go true f r = r
      go false f r = ((h, f), r)
