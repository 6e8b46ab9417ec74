-- ===== src/Indexer/Anchors/Laws.antt =====
-- The anchors of a batch pass the checks of the batch.
use Prim.Native.Nat.{compare}
use cpredict.Prelude.{
  All-keep_if, ℕ, zero, suc, ◌+◌, ◌-◌, ◌≤◌, ◌≡◌, refl, subst, arith, Bool, true, false, not, Option,
  none, some, List, [], ◌∷◌, ◌++◌, ◌==◌, if◌then◌else◌, map, Result, ok, ◌>>=◌, >>=-eq-ok, All,
  All-append, keep_if,
}
use cpredict.Prelude.Dict.{nat_eq}
use cpredict.Prelude.Sort.Ascends.{All-sort_by}
use cpredict.Indexer.Types.{
  ConfirmationStatus, IndexedEvent, CanonicalBlock, CanonicalMode, dense, sparse, StoreError,
}
use cpredict.Indexer.Logs.{unique_addresses}
use cpredict.Indexer.Anchors.{
  rpc_failed, present, with_hash, numbers_from, block_numbers, read_block, read_blocks, Header,
}

pub ok_eq : {A : Type 0} {a b : A} → (◌≡◌ {A = Result StoreError A} (ok a) (ok b)) → a ≡ b
ok_eq e = cc

-- Every number stands once.
abbrev pub Unique : List ℕ → Type 0
Unique [] = Unit
Unique (n ∷ ns) = All (λ m. (m == n) ≡ false) ns × Unique ns

keep_if-Unique : (p : ℕ → Bool) (ns : List ℕ) → Unique ns → Unique (keep_if p ns)
keep_if-Unique p [] h = tt
keep_if-Unique p (n ∷ ns) (h, hs) =
    go (p n) (All-keep_if (λ m. (m == n) ≡ false) p ns h) (keep_if-Unique p ns hs)
  where
    go :
        (b : Bool)
        → All (λ m. (m == n) ≡ false) (keep_if p ns)
        → Unique (keep_if p ns)
        → Unique (if b then n ∷ keep_if p ns else keep_if p ns)
    go true a u = (a, u)
    go false a u = u

kept_apart : (n : ℕ) (ns : List ℕ) → All (λ m. (m == n) ≡ false) (keep_if (λ m. not (m == n)) ns)
kept_apart n [] = tt
kept_apart n (m ∷ ns) = go (m == n) refl (kept_apart n ns)
  where
    go :
        (b : Bool)
        → (m == n) ≡ b
        → All (λ m. (m == n) ≡ false) (keep_if (λ m. not (m == n)) ns)
        → All
            (λ m. (m == n) ≡ false)
            (if not b then m ∷ keep_if (λ m. not (m == n)) ns else keep_if (λ m. not (m == n)) ns)
    go true e r = r
    go false e r = (e, r)

pub unique_addresses-Unique : (ns : List ℕ) → Unique (unique_addresses ns)
unfolding unique_addresses
unique_addresses-Unique [] = tt
unique_addresses-Unique (n ∷ ns) = (
  kept_apart n (unique_addresses ns),
  keep_if-Unique (λ m. not (m == n)) (unique_addresses ns) (unique_addresses-Unique ns),
)

pub All-unique_addresses : (P : ℕ → Type 0) (ns : List ℕ) → All P ns → All P (unique_addresses ns)
unfolding unique_addresses
All-unique_addresses P [] h = tt
All-unique_addresses P (n ∷ ns) (h, hs) =
    (h, All-keep_if P (λ m. not (m == n)) (unique_addresses ns) (All-unique_addresses P ns hs))

-- The numbers of the blocks that are read lie in the range.
abbrev pub Within : ℕ → ℕ → ℕ → Type 0
Within from to n = (from ≤ n) × (n ≤ to)

numbers_from-Within :
    (from to first count : ℕ)
    → from ≤ first
    → first + count ≤ to + 1
    → All (Within from to) (numbers_from first count)
unfolding numbers_from
numbers_from-Within from to first zero low high = tt
numbers_from-Within from to first (suc count) low high =
    ((low, omega arith), numbers_from-Within from to (first + 1) count (omega arith) (omega arith))

All-map-Within :
    (from to : ℕ) (events : List IndexedEvent)
    → All (λ e. Within from to e.block_number) events
    → All (Within from to) (map (λ e. e.block_number) events)
All-map-Within from to [] h = tt
All-map-Within from to (e ∷ es) (h, hs) = (h, All-map-Within from to es hs)

pub block_numbers-Within :
    (mode : CanonicalMode) (from to : ℕ) (events : List IndexedEvent)
    → from ≤ to
    → (mode ≡ sparse → All (λ e. Within from to e.block_number) events)
    → All (Within from to) (block_numbers mode from to events)
block_numbers-Within dense from to events h k =
    numbers_from-Within from to from (to + 1 - from) (omega arith) (omega arith)
block_numbers-Within sparse from to events h k =
    All-sort_by compare (Within from to)
      (unique_addresses (map (λ e. e.block_number) events) ++ to ∷ [])
      (All-append (Within from to) (unique_addresses (map (λ e. e.block_number) events)) (to ∷ [])
        (All-unique_addresses (Within from to) (map (λ e. e.block_number) events)
          (All-map-Within from to events (k refl)))
        ((h, omega arith), tt))

-- A block that was read under a number.
pub record IsBlock (chain : ℕ) (status : ConfirmationStatus) (number : ℕ) (b : CanonicalBlock)
    : Type 0 where
  pub chain_id : b.chain_id ≡ chain
  pub block_number : b.block_number ≡ number
  pub confirmation_status : b.confirmation_status ≡ status

read_block-IsBlock :
    (header : ℕ → Option Header) (chain : ℕ) (status : ConfirmationStatus) (n : ℕ)
    (b : CanonicalBlock)
    → read_block header chain status n ≡ ok b
    → IsBlock chain status n b
read_block-IsBlock header chain status n b h = go (header n) h
  where
    at_hash :
        (g : Header) (r : Option ℕ) → with_hash chain status n g r ≡ ok b → IsBlock chain status n b
    at_hash g none e = cc
    at_hash g (some x) e =
        subst (IsBlock chain status n) (ok_eq e)
          (record { chain_id = refl; block_number = refl; confirmation_status = refl })

    go :
        (r : Option Header)
        → (present rpc_failed r >>= λ g. with_hash chain status n g g.hash) ≡ ok b
        → IsBlock chain status n b
    go none e = cc
    go (some g) e = at_hash g g.hash e

-- The blocks that are read, one for each number.
abbrev pub AreBlocks : ℕ → ConfirmationStatus → List ℕ → List CanonicalBlock → Type 0
AreBlocks chain status [] [] = Unit
AreBlocks chain status (n ∷ ns) (b ∷ bs) = IsBlock chain status n b × AreBlocks chain status ns bs
AreBlocks chain status _ _ = ⊥

pub read_blocks-AreBlocks :
    (header : ℕ → Option Header) (chain : ℕ) (status : ConfirmationStatus) (ns : List ℕ)
    (bs : List CanonicalBlock)
    → read_blocks header chain status ns ≡ ok bs
    → AreBlocks chain status ns bs
unfolding read_blocks
read_blocks-AreBlocks header chain status [] bs h = subst (AreBlocks chain status []) (ok_eq h) tt
read_blocks-AreBlocks header chain status (n ∷ ns) bs h =
    let (b, first, more) = >>=-eq-ok (read_block header chain status n) _ h in
    let (others, rest, whole) = >>=-eq-ok (read_blocks header chain status ns) _ more in
    subst (AreBlocks chain status (n ∷ ns)) (ok_eq whole) (
      read_block-IsBlock header chain status n b first,
      read_blocks-AreBlocks header chain status ns others rest,
    )
