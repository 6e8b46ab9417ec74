-- ===== src/Indexer/Scan/Checks.antt =====
-- Blocks and events that pass the checks of a batch.
use mathlib.Core.Path.{ap₂}
use cpredict.Prelude.{
  ==_iff, ℕ, ◌≡◌, refl, sym, ap, ◌∙◌, subst, arith, Bool, true, false, not, ◌||◌, none, some, List,
  [], ◌∷◌, ◌==◌, if◌then◌else◌, map, any, ok, throw_if, ◌>>=◌, All,
}
use cpredict.Prelude.Dict.{Dict, get, put, nat_eq, get-put, get-put_self}
use cpredict.Indexer.Types.{
  ConfirmationStatus, provisional, confirmed, IndexedEvent, CanonicalBlock, CanonicalScanRange,
  anchor_outside, anchor_conflict, event_unanchored,
}
use cpredict.Indexer.Batch.{same_status, has_hash, outside, differs, read_anchors, check_events}
use cpredict.Indexer.Anchors.{hashes_of, find_block}
use cpredict.Indexer.Anchors.Laws.{Unique, Within, AreBlocks}

pub same_status_self : (s t : ConfirmationStatus) → s ≡ t → same_status s t ≡ true
same_status_self provisional provisional e = refl
same_status_self confirmed confirmed e = refl
same_status_self provisional confirmed e = cc
same_status_self confirmed provisional e = cc

pub not-outside :
    (range : CanonicalScanRange) (c n : ℕ) (s : ConfirmationStatus)
    → c ≡ range.chain_id
    → Within range.from_block range.to_block n
    → s ≡ range.confirmation_status
    → outside range c n s ≡ false
not-outside range c n s same (low, high) status =
    let equal = same_status_self s range.confirmation_status status in ground arith

abbrev pub numbers_of : List CanonicalBlock → List ℕ
numbers_of = map (λ b. b.block_number)

pub AreBlocks-numbers_of :
    (chain : ℕ) (status : ConfirmationStatus) (ns : List ℕ) (bs : List CanonicalBlock)
    → AreBlocks chain status ns bs
    → numbers_of bs ≡ ns
AreBlocks-numbers_of chain status [] [] h = refl
AreBlocks-numbers_of chain status [] (b ∷ bs) h = absurd h
AreBlocks-numbers_of chain status (n ∷ ns) [] h = absurd h
AreBlocks-numbers_of chain status (n ∷ ns) (b ∷ bs) (h, hs) =
    ap₂ (λ m ms. m ∷ ms) h.block_number (AreBlocks-numbers_of chain status ns bs hs)

abbrev pub Fits : CanonicalScanRange → List CanonicalBlock → Type 0
Fits range = All (λ b. outside range b.chain_id b.block_number b.confirmation_status ≡ false)

pub AreBlocks-Fits :
    (range : CanonicalScanRange) (ns : List ℕ) (bs : List CanonicalBlock)
    → AreBlocks range.chain_id range.confirmation_status ns bs
    → All (Within range.from_block range.to_block) ns
    → Fits range bs
AreBlocks-Fits range [] [] h k = tt
AreBlocks-Fits range [] (b ∷ bs) h k = absurd h
AreBlocks-Fits range (n ∷ ns) [] h k = absurd h
AreBlocks-Fits range (n ∷ ns) (b ∷ bs) (h, hs) (k, ks) = (
  not-outside range b.chain_id b.block_number b.confirmation_status h.chain_id
      (subst (Within range.from_block range.to_block) (sym h.block_number) k) h.confirmation_status,
  AreBlocks-Fits range ns bs hs ks,
)

get-put_apart : (n m h : ℕ) (d : Dict ℕ ℕ) → (m == n) ≡ false → get m (put n h d) ≡ get m d
get-put_apart n m h d e = get-put n m h d ∙ ap (λ b. if b then some h else get m d) e

absent_after :
    (n h : ℕ) (d : Dict ℕ ℕ) (ms : List ℕ)
    → All (λ m. (m == n) ≡ false) ms
    → All (λ m. get m d ≡ none) ms
    → All (λ m. get m (put n h d) ≡ none) ms
absent_after n h d [] a k = tt
absent_after n h d (m ∷ ms) (am, a) (km, k) =
    (get-put_apart n m h d am ∙ km, absent_after n h d ms a k)

-- Blocks of different numbers do not contradict each other.
pub read_anchors-hashes_of :
    (range : CanonicalScanRange) (bs : List CanonicalBlock) (d : Dict ℕ ℕ)
    → Fits range bs
    → Unique (numbers_of bs)
    → All (λ n. get n d ≡ none) (numbers_of bs)
    → read_anchors range bs d ≡ ok (hashes_of bs d)
unfolding read_anchors hashes_of
read_anchors-hashes_of range [] d f u k = refl
read_anchors-hashes_of range (b ∷ bs) d (fb, f) (ub, u) (kb, k) =
    go (outside range b.chain_id b.block_number b.confirmation_status) fb
      (differs (get b.block_number d) b.block_hash) (ap (λ o. differs o b.block_hash) kb)
      (read_anchors-hashes_of range bs (put b.block_number b.block_hash d) f u
        (absent_after b.block_number b.block_hash d (numbers_of bs) ub k))
  where
    next : Dict ℕ ℕ
    next = put b.block_number b.block_hash d

    go :
        (p : Bool)
        → p ≡ false
        → (q : Bool) → q ≡ false
        → read_anchors range bs next ≡ ok (hashes_of bs next)
        → (throw_if p anchor_outside >>= λ _.
            throw_if q anchor_conflict >>= λ _. read_anchors range bs next)
          ≡ ok (hashes_of bs next)
    go false e false e' r = r
    go true e q e' r = cc
    go false e true e' r = cc

pub get-hashes_of :
    (n : ℕ) (bs : List CanonicalBlock) (d : Dict ℕ ℕ)
    → All (λ m. (m == n) ≡ false) (numbers_of bs)
    → get n (hashes_of bs d) ≡ get n d
unfolding hashes_of
get-hashes_of n [] d a = refl
get-hashes_of n (b ∷ bs) d (ab, a) =
    get-hashes_of n bs (put b.block_number b.block_hash d) a
    ∙ get-put_apart b.block_number n b.block_hash d (ground arith)

-- The hash of a block that is found is the one under its number.
pub hashes_of-find_block :
    (n : ℕ) (bs : List CanonicalBlock) (d : Dict ℕ ℕ) (e : CanonicalBlock)
    → Unique (numbers_of bs)
    → find_block n bs ≡ some e
    → has_hash (get n (hashes_of bs d)) e.block_hash ≡ true
unfolding hashes_of
hashes_of-find_block n [] d e u h = cc
hashes_of-find_block n (b ∷ bs) d e (ub, u) h =
    go (b.block_number == n) refl h
      (λ k. hashes_of-find_block n bs (put b.block_number b.block_hash d) e u k)
  where
    go :
        (t : Bool)
        → (b.block_number == n) ≡ t
        → (if t then some b else find_block n bs) ≡ some e
        → (find_block n bs ≡ some e
            → has_hash (get n (hashes_of bs (put b.block_number b.block_hash d))) e.block_hash
              ≡ true)
        → has_hash (get n (hashes_of bs (put b.block_number b.block_hash d))) e.block_hash ≡ true
    go false t f k = k f
    go true t f k =
        let same : n ≡ b.block_number = ground (arith, t) in
        let there = put b.block_number b.block_hash d in
        let found : get n (hashes_of bs there) ≡ some b.block_hash =
          ap (λ m. get m (hashes_of bs there)) same
          ∙ (get-hashes_of b.block_number bs there ub
              ∙ get-put_self b.block_number b.block_hash d) in
        let is_it : b ≡ e = cc f in
        ap (λ o. has_hash o e.block_hash) found
        ∙ (==_iff b.block_hash e.block_hash).1 (ap (λ (x : CanonicalBlock). x.block_hash) is_it)

pub check_events_ok :
    (range : CanonicalScanRange) (d : Dict ℕ ℕ) (es : List IndexedEvent)
    → All (λ e. outside range e.chain_id e.block_number e.confirmation_status ≡ false) es
    → any (λ e. not (has_hash (get e.block_number d) e.block_hash)) es ≡ false
    → check_events range d es ≡ ok tt
unfolding check_events
check_events_ok range d [] f h = refl
check_events_ok range d (e ∷ es) (fe, f) h =
    go (outside range e.chain_id e.block_number e.confirmation_status) fe
      (has_hash (get e.block_number d) e.block_hash) h (check_events_ok range d es f)
  where
    go :
        (p : Bool)
        → p ≡ false
        → (q : Bool)
        → (not q || any (λ e. not (has_hash (get e.block_number d) e.block_hash)) es) ≡ false
        → (any (λ e. not (has_hash (get e.block_number d) e.block_hash)) es ≡ false
            → check_events range d es ≡ ok tt)
        → (throw_if (p || not q) event_unanchored >>= λ _. check_events range d es) ≡ ok tt
    go true e q k r = cc
    go false e true k r = r k
    go false e false k r = cc
