-- ===== src/Indexer/Reorg/Search.antt =====
-- What the search for the common ancestor finds.
use cpredict.Prelude.{
  ℕ, zero, suc, ◌+◌, ◌-◌, ◌≤◌, ◌<◌, ◌≡◌, refl, sym, ap, ◌∙◌, subst, Bool, true, false, Option, none,
  some, List, [], ◌∷◌, arith, Result, ok, err, if◌then◌else◌, ltb, ◌==◌, Bool-cases, inl, inr,
}
use cpredict.Indexer.Types.{
  CanonicalMode, dense, sparse, CanonicalScanRange, StoreError, block_missing,
  range_endpoint_missing,
}
use cpredict.Indexer.Reorg.{
  agrees_with, try_block, or_search, descend, endpoint_of, inside_range, search_ranges,
  search_retained,
}

ok_inj : {A : Type 0} {a b : A} → (◌≡◌ {A = Result StoreError A} (ok a) (ok b)) → a ≡ b
ok_inj e = cc

module _ (node stored : ℕ → Option ℕ) where
  -- The store and the node have the same block under a number.
  pub record IsShared (n : ℕ) : Type 0 where
    pub hash : ℕ
    pub in_store : stored n ≡ some hash
    pub in_node : node n ≡ some hash

agrees-eq :
    (missing : StoreError) (stored answer : Option ℕ)
    → agrees_with missing stored answer ≡ ok true
    → (h : ℕ) × (stored ≡ some h) × (answer ≡ some h)
agrees-eq missing none answer e = cc
agrees-eq missing (some h) none e = cc
agrees-eq missing (some h) (some g) e = go (g == h) refl e
  where
    go :
        (b : Bool)
        → (g == h) ≡ b
        → (◌≡◌ {A = Result StoreError Bool} (ok b) (ok true))
        → (k : ℕ) × (◌≡◌ {A = Option ℕ} (some h) (some k)) × (◌≡◌ {A = Option ℕ} (some g) (some k))
    go true k e = (h, refl, ap some (ground arith))
    go false k e = cc

agrees-differ :
    (missing : StoreError) (stored answer : Option ℕ) (h : ℕ)
    → agrees_with missing stored answer ≡ ok false
    → stored ≡ some h
    → answer ≡ some h
    → ⊥
agrees-differ missing stored answer h e a b =
    let same : (h == h) ≡ false = ok_inj (
      sym (ap (λ x. agrees_with missing x (some h)) a)
      ∙ (ap (agrees_with missing stored) (sym b) ∙ e)) in
    ground arith

module _ (node stored : ℕ → Option ℕ) where
  -- The result is the highest shared block of the window, or there is none.
  pub record IsHighest (first count : ℕ) (found : Option ℕ) : Type 0 where
    pub shared :
        (n : ℕ) → found ≡ some n → IsShared node stored n × (first ≤ n) × (n < first + count)
    pub highest :
        (k : ℕ)
        → first ≤ k
        → k < first + count
        → IsShared node stored k
        → (n : ℕ) × (found ≡ some n) × (k ≤ n)

  IsHighest-none : (first : ℕ) → IsHighest first zero none
  IsHighest-none first = record {
    shared = λ n e. cc;
    highest = λ k low high sh. absurd (omega arith);
  }

  -- One block is compared before the lower ones.
  IsHighest-step :
      (first count : ℕ) (agree : Bool) (lower : Option ℕ)
      → agrees_with block_missing (stored (first + count)) (node (first + count)) ≡ ok agree
      → (agree ≡ false → IsHighest first count lower)
      → IsHighest first (suc count) (if agree then some (first + count) else lower)
  IsHighest-step first count true lower e ih = record {
    shared = λ n f.
        let (h, a, b) = agrees-eq block_missing (stored (first + count)) (node (first + count)) e in
        let here : first + count ≡ n = cc f in
        (
          subst (IsShared node stored) here (record { hash = h; in_store = a; in_node = b }),
          omega arith,
          omega arith,
        );
    highest = λ k low high sh. (first + count, refl, omega arith);
  }
  IsHighest-step first count false lower e ih =
      let rest = ih refl in
      record {
        shared = λ n f. let (sh, low, high) = rest.shared n f in (sh, low, omega arith);
        highest = λ k low high sh. elim (Bool-cases (k == first + count)) [
          | inl same ↦
              let at : k ≡ first + count = ground arith in
              absurd (
                agrees-differ block_missing _ _ sh.hash e (ap stored (sym at) ∙ sh.in_store)
                  (ap node (sym at) ∙ sh.in_node))
          | inr apart ↦ rest.highest k low (ground arith) sh
        ];
      }

  -- Where the search down from the last of `count` blocks returns, it returns the highest block number that
  -- the store and the node have with the same hash, if there is one in the window, and `none` otherwise.
  pub descend-IsHighest :
      (first count : ℕ) (found : Option ℕ)
      → descend node stored first count ≡ ok found
      → IsHighest first count found
  unfolding descend
  descend-IsHighest first zero found e =
      subst (IsHighest first zero) (ok_inj e) (IsHighest-none first)
  descend-IsHighest first (suc count) found e =
      go (agrees_with block_missing (stored (first + count)) (node (first + count)))
        (descend node stored first count) refl (descend-IsHighest first count) e
    where
      go :
          (r : Result StoreError Bool) (l : Result StoreError (Option ℕ))
          → agrees_with block_missing (stored (first + count)) (node (first + count)) ≡ r
          → ((lower : Option ℕ) → l ≡ ok lower → IsHighest first count lower)
          → try_block r (first + count) l ≡ ok found
          → IsHighest first (suc count) found
      go (err x) l a ih f = cc
      go (ok true) l a ih f =
          subst (IsHighest first (suc count)) (ok_inj f)
            (IsHighest-step first count true none a (λ no. cc))
      go (ok false) l a ih f = IsHighest-step first count false found a (λ _. ih found f)

  -- Where a range's endpoint has its hash, the comparison is one of the stored block.
  endpoint-IsShared :
      (r : CanonicalScanRange)
      → agrees_with range_endpoint_missing
          (endpoint_of (stored r.to_block) r.end_block_hash)
          (node r.to_block)
        ≡ ok true
      → IsShared node stored r.to_block
  endpoint-IsShared r e =
      let (h, a, b) = agrees-eq range_endpoint_missing _ (node r.to_block) e in
      record { hash = h; in_store = ground arith; in_node = b }

  inside-IsShared :
      (r : CanonicalScanRange) (m : CanonicalMode) (n : ℕ)
      → inside_range node stored r m ≡ ok (some n)
      → IsShared node stored n
  inside-IsShared r dense n e =
      ((descend-IsHighest r.from_block (r.to_block - r.from_block) (some n) e).shared n refl).0
  inside-IsShared r sparse n e = cc

  pub or_search-IsShared :
      (r q : Result StoreError (Option ℕ)) (n : ℕ)
      → ((m : ℕ) → r ≡ ok (some m) → IsShared node stored m)
      → ((m : ℕ) → q ≡ ok (some m) → IsShared node stored m)
      → or_search r q ≡ ok (some n)
      → IsShared node stored n
  or_search-IsShared (err x) q n hr hq e = cc
  or_search-IsShared (ok none) q n hr hq e = hq n e
  or_search-IsShared (ok (some m)) q n hr hq e = hr n e

  pub search_ranges-IsShared :
      (top : ℕ) (ranges : List CanonicalScanRange) (n : ℕ)
      → search_ranges node stored top ranges ≡ ok (some n)
      → IsShared node stored n
  unfolding search_ranges
  search_ranges-IsShared top [] n e = cc
  search_ranges-IsShared top (r ∷ rest) n e =
      go (ltb top r.to_block)
        (agrees_with range_endpoint_missing (endpoint_of (stored r.to_block) r.end_block_hash)
          (node r.to_block))
        refl (search_ranges node stored top rest) (search_ranges-IsShared top rest) e
    where
      go :
          (b : Bool) (a : Result StoreError Bool)
          → agrees_with range_endpoint_missing
              (endpoint_of (stored r.to_block) r.end_block_hash)
              (node r.to_block)
            ≡ a
          → (older : Result StoreError (Option ℕ))
          → ((m : ℕ) → older ≡ ok (some m) → IsShared node stored m)
          → (if b
              then older
              else try_block a r.to_block (or_search (inside_range node stored r r.mode) older))
            ≡ ok (some n)
          → IsShared node stored n
      go true a k older h f = h n f
      go false (err x) k older h f = cc
      go false (ok true) k older h f =
          let here : r.to_block ≡ n = cc f in
          subst (IsShared node stored) here (endpoint-IsShared r k)
      go false (ok false) k older h f =
          or_search-IsShared (inside_range node stored r r.mode) older n (inside-IsShared r r.mode)
            h f

  pub search_retained-IsShared :
      (deployment : ℕ) (top : Option ℕ) (n : ℕ)
      → search_retained node stored deployment top ≡ ok (some n)
      → IsShared node stored n
  unfolding search_retained
  search_retained-IsShared deployment none n e = cc
  search_retained-IsShared deployment (some cursor) n e =
      ((descend-IsHighest deployment (cursor + 1 - deployment) (some n) e).shared n refl).0
