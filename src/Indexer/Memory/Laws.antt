-- ===== src/Indexer/Memory/Laws.antt =====
-- Rules for what the actions of the store keep, whether they return or throw.
use cpredict.Prelude.{◌≡◌, refl, Bool, true, false, Result, ok, err}
use cpredict.Indexer.Types.{StoreError}
use cpredict.Indexer.Memory.{Action, ◌>>=◌, ◌>>◌, raise_if}

-- The property holds after the action if it held before.
abbrev pub Keeps : {S A : Type 0} → (S → Type 0) → Action S A → Type 0
Keeps {S = S} P m = (s : S) → P s → P (m s).1

module _ {S A B : Type 0} (P : S → Type 0) where
  pub >>=-keeps :
      (m : Action S A) (f : A → Action S B)
      → Keeps P m
      → ((a : A) → Keeps P (f a))
      → Keeps P (m >>= f)
  >>=-keeps m f hm hf s h = go (m s).0 (m s).1 (hm s h)
    where
      go : (r : Result StoreError A) (s' : S) → P s' → P (((λ _. (r, s')) >>= f) s').1
      go (ok a) s' h' = hf a s' h'
      go (err e) s' h' = h'

  pub >>-keeps : (m : Action S A) (k : Action S B) → Keeps P m → Keeps P k → Keeps P (m >> k)
  >>-keeps m k hm hk = >>=-keeps m (λ _. k) hm (λ _. hk)

pub raise_if-keeps :
    {S : Type 0} (P : S → Type 0) (b : Bool) (e : StoreError) → Keeps P (raise_if b e)
raise_if-keeps P true e s h = h
raise_if-keeps P false e s h = h

-- Two actions return only if the first does.
pub bind_ok :
    {S A B : Type 0} {b : B} (r : Result StoreError A) (s s' : S) (k : Action S B)
    → ((λ (_ : S). (r, s)) >> k) s ≡ (ok b, s')
    → ((a : A) × (r ≡ ok a)) × (k s ≡ (ok b, s'))
bind_ok (ok a) s s' k h = ((a, refl), h)
bind_ok (err x) s s' k h = cc

-- A result, said to be one, so that the type of a branch is known.
abbrev pub outcome : {S A : Type 0} → Result StoreError A × S → Result StoreError A × S
outcome r = r

-- An action that goes on with a value returns only if the value was returned.
pub bind_value :
    {S : Type 0} {A B : Type 0} {b : B} (r : Result StoreError A) (s s' : S) (f : A → Action S B)
    → ((λ (_ : S). (r, s)) >>= f) s ≡ (ok b, s')
    → (a : A) × (r ≡ ok a) × (f a s ≡ (ok b, s'))
bind_value (ok a) s s' f h = (a, refl, h)
bind_value (err x) s s' f h = cc
